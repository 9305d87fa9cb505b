-- ===== src/YouTube/Forms.antt =====
-- The several URLs of one video have one policy key.
use ajar_family.Prelude.{◌≡◌, ◌∷◌, true, false, some, List}
use ajar_family.Text.{Text, codes, includes, to_lower, split, keep_nonempty}
use ajar_family.Host.{normalize_host}
use ajar_family.Web.{UrlApi}
use ajar_family.YouTube.{yt_app_hosts, yt_short_hosts, segments}

module _ (web : UrlApi) where
  open web use {Url, hostname, pathname, search_param}

  -- The first segment of a path that names a video in the second.
  pub data VideoWord : Text → Type 0 where
    short_clip : VideoWord (codes "shorts")
    embedded : VideoWord (codes "embed")
    legacy : VideoWord (codes "v")
    live_stream : VideoWord (codes "live")

  -- The forms of a video's URL: a short link, a word of the path in whatever case, and the query of
  -- the watch page; further segments of the path do not matter.
  pub data Names (u : Url) (id : Text) : Type 0 where
    by_short_link :
        {rest : List Text}
        → includes yt_short_hosts (normalize_host (hostname u)) ≡ true
        → keep_nonempty (split b'/' (pathname u)) ≡ id ∷ rest
        → Names u id
    by_path :
        {word first : Text} {rest : List Text}
        → includes yt_short_hosts (normalize_host (hostname u)) ≡ false
        → includes yt_app_hosts (normalize_host (hostname u)) ≡ true
        → VideoWord word
        → to_lower first ≡ word
        → segments web u ≡ first ∷ id ∷ rest
        → Names u id
    by_query :
        {first : Text} {rest : List Text}
        → includes yt_short_hosts (normalize_host (hostname u)) ≡ false
        → includes yt_app_hosts (normalize_host (hostname u)) ≡ true
        → to_lower first ≡ codes "watch"
        → segments web u ≡ first ∷ rest
        → search_param u (codes "v") ≡ some id
        → Names u id
