-- ===== src/Web.antt =====
-- The `URL` class of the platform, which the sources call and do not implement. Every definition
-- that uses it takes it as an argument; no law is assumed of it.
use ajar_family.Prelude.{Option}
use ajar_family.Text.{Text}

pub record UrlApi : Type 1 where
  pub Url : Type 0
  -- `new URL(raw)`; `none` where it throws.
  pub parse : Text → Option Url
  pub protocol : Url → Text
  pub hostname : Url → Text
  pub pathname : Url → Text
  -- `u.searchParams.get(name)`
  pub search_param : Url → Text → Option Text
  -- Assignments to the fields, `u.searchParams.sort()`, and `u.toString()`.
  pub set_hostname : Url → Text → Url
  pub set_hash : Url → Text → Url
  pub set_username : Url → Text → Url
  pub set_password : Url → Text → Url
  pub sort_search_params : Url → Url
  pub to_string : Url → Text
