-- ===== src/Samples.antt =====
-- Sample inputs for the tests: a small URL class for addresses of the form
-- `https://host/path?key=value&key=value`, and a family's snapshot.
use ajar_family.Prelude.{List, [], ◌∷◌, ◌++◌, Option, none, some, if◌then◌else◌}
use ajar_family.Prelude.Int.{pos}
use ajar_family.Text.{Text, codes, same, split, join, push_head}
use ajar_family.Web.{UrlApi}
use ajar_family.Policy.Model.{
  TargetType, RuleAction, ScopeType, GrantKind, RuleScope, PolicyRule, TemporaryRule,
  DevicePolicySnapshot, EvalContext,
}

pub record Address : Type 0 where
  pub scheme : Text
  pub host : Text
  pub path : Text
  pub query : List Text

unfoldable pub look_up : List Text → Text → Option Text
unfolding same split push_head
look_up [] key = none
look_up (p ∷ ps) key =
    let rest = look_up ps key in
    elim (split b'=' p) [ [] ↦ rest | k ∷ vs ↦ if same k key then some (join b'=' vs) else rest ]

abbrev pub query_of : List Text → List Text
query_of [] = []
query_of (q ∷ qs) = split b'&' q

abbrev pub of_parts : List Text → List Text → Option Address
of_parts (scheme ∷ [] ∷ host ∷ rest) query =
    some (record { scheme = scheme; host = host; path = b'/' ∷ join b'/' rest; query = query })
of_parts _ query = none

unfoldable pub read_address : Text → Option Address
unfolding split push_head join
read_address raw = elim (split b'?' raw) [
  | [] ↦ none
  | base ∷ qs ↦ of_parts (split b'/' base) (query_of qs)
]

abbrev pub sample_web : UrlApi
sample_web = record {
  Url = Address;
  parse = read_address;
  protocol = λ u. u.scheme;
  hostname = λ u. u.host;
  pathname = λ u. u.path;
  search_param = λ u key. look_up u.query key;
  set_hostname = λ u h. record u { host = h };
  set_hash = λ u h. u;
  set_username = λ u h. u;
  set_password = λ u h. u;
  sort_search_params = λ u. u;
  to_string = λ u. u.scheme ++ (codes "//" ++ (u.host ++ u.path));
}

abbrev pub family_scope : RuleScope
family_scope = record {
  type = ScopeType.family;
  family_id = codes "f1";
  child_id = none;
  device_id = none;
}

abbrev pub sample_rule : Text → TargetType → Text → RuleAction → PolicyRule
sample_rule id target value action = record {
  id = id;
  target = target;
  value = value;
  action = action;
  scope = family_scope;
  priority = some (pos 10);
  created_at = some 100;
  created_by = codes "u1";
}

-- Live from 1000 to 9000.
abbrev pub sample_grant : Text → TargetType → Text → RuleAction → TemporaryRule
sample_grant id target value action = record {
  rule = sample_rule id target value action;
  starts_at = some 1000;
  expires_at = some 9000;
  request_id = codes "r1";
  approved_by = codes "u1";
  grant_kind = GrantKind.timed;
}

abbrev pub sample_snapshot : List PolicyRule → List TemporaryRule → DevicePolicySnapshot
sample_snapshot rules grants = record {
  version = 3;
  family_id = codes "f1";
  child_id = codes "c1";
  device_id = codes "d1";
  defaults = record { web_default = RuleAction.block; youtube_default = RuleAction.block };
  rules = rules;
  temporary_rules = grants;
  categories = none;
  issued_at = some 100;
  signature = [];
}

abbrev pub sample_context : Text → EvalContext
sample_context url = record {
  url = url;
  child_id = codes "c1";
  device_id = codes "d1";
  now_ms = 5000;
  app_id = none;
  category_filters = none;
  resolved_hosts = none;
}
