-- ===== src/Policy/Match.antt =====
-- shared/policy/policy-model.ts: exact URLs, patterns, and whether one rule targets a request.
use ajar_family.Prelude.{
  ℕ, ◌+◌, ◌-◌, ◌*◌, List, [], ◌∷◌, ◌++◌, Bool, true, false, not, ◌&&◌, ◌||◌, Option, none, some,
  ◌==◌, leb, if◌then◌else◌,
}
use ajar_family.Text.{
  Text, codes, same, includes, starts_with, ends_with, to_lower, lower, nonempty, truthy, is,
  is_alnum, is_digit, some_text,
}
use ajar_family.Web.{UrlApi}
use ajar_family.Host.{normalize_host}
use ajar_family.Safety.{lies_under}
use ajar_family.YouTube.{YouTubeObject, ObjectKind}
use ajar_family.Policy.Model.{TargetType, RuleAction, PolicyRule, EvalContext}

-- `.replace(/\/$/, "")`
unfoldable pub drop_last_slash : Text → Text
drop_last_slash [] = []
drop_last_slash (c ∷ []) = if c == b'/' then [] else c ∷ []
drop_last_slash (c ∷ d ∷ s) = c ∷ drop_last_slash (d ∷ s)

unfoldable pub is_hex : ℕ → Bool
is_hex c = is_digit c || leb b'A' c && leb c b'F' || leb b'a' c && leb c b'f'

unfoldable pub hex_value : ℕ → ℕ
unfolding lower
hex_value c = if is_digit c then c - b'0' else lower c - b'a' + 10

-- [A-Za-z0-9\-._~]
unfoldable pub is_unreserved : ℕ → Bool
is_unreserved c = is_alnum c || c == b'-' || c == b'.' || c == b'_' || c == b'~'

-- `%XX` becomes its character where that is unreserved. A byte of 0x80 or more is no UTF-8 text by
-- itself, so `decodeURIComponent` throws there and the escape stays.
unfoldable pub decode_unreserved : Text → Text
unfolding is_hex hex_value is_unreserved
decode_unreserved [] = []
decode_unreserved (c ∷ []) = c ∷ []
decode_unreserved (c ∷ d ∷ []) = c ∷ d ∷ []
decode_unreserved (c ∷ d ∷ e ∷ s) =
    let code = hex_value d * 16 + hex_value e in
    let decoded =
      (if is_unreserved code then code ∷ [] else c ∷ d ∷ e ∷ []) ++ decode_unreserved s in
    let kept = c ∷ decode_unreserved (d ∷ e ∷ s) in
    if c == b'%' && is_hex d && is_hex e then decoded else kept

-- `pattern.slice(0, -1)`
unfoldable pub drop_last : Text → Text
drop_last [] = []
drop_last (c ∷ []) = []
drop_last (c ∷ d ∷ s) = c ∷ drop_last (d ∷ s)

module _ (web : UrlApi) where
  open web use {
    Url, parse, hostname, set_hostname, set_hash, set_username, set_password, sort_search_params,
    to_string,
  }

  unfoldable pub canonical_url : Url → Url
  unfolding normalize_host
  canonical_url u = sort_search_params (
      set_password (set_username (set_hash (set_hostname u (normalize_host (hostname u))) []) [])
        [])

  unfoldable pub normalize_exact_url : Text → Text
  unfolding drop_last_slash decode_unreserved canonical_url
  normalize_exact_url raw = elim (parse raw) [
    | none ↦ raw
    | some u ↦ decode_unreserved (drop_last_slash (to_string (canonical_url u)))
  ]

  unfoldable pub matches_prefix : Text → Text → Bool
  unfolding normalize_exact_url starts_with
  matches_prefix url prefix = elim (parse prefix) [
    | none ↦ starts_with url prefix
    | some u ↦ starts_with (normalize_exact_url url) (normalize_exact_url prefix)
  ]

  unfoldable pub matches_pattern : Text → Text → Bool
  unfolding matches_prefix ends_with drop_last normalize_exact_url same
  matches_pattern url pattern =
      if ends_with pattern (codes "*")
      then matches_prefix url (drop_last pattern)
      else same (normalize_exact_url url) (normalize_exact_url pattern)

abbrev pub is_playlist : ObjectKind → Bool
is_playlist ObjectKind.playlist = true
is_playlist _ = false

abbrev pub is_allow : RuleAction → Bool
is_allow RuleAction.allow = true
is_allow RuleAction.block = false

-- `o && o.toLowerCase() === v.toLowerCase()`
unfoldable pub is_folded : Option Text → Text → Bool
unfolding to_lower same
is_folded none v = false
is_folded (some s) v = nonempty s && same (to_lower s) (to_lower v)

-- The label of a target in a policy key.
abbrev pub target_label : TargetType → Text
target_label TargetType.domain = codes "DOMAIN"
target_label TargetType.url = codes "URL"
target_label TargetType.url_pattern = codes "URL_PATTERN"
target_label TargetType.youtube_video = codes "YOUTUBE_VIDEO"
target_label TargetType.youtube_channel = codes "YOUTUBE_CHANNEL"
target_label TargetType.youtube_playlist = codes "YOUTUBE_PLAYLIST"
target_label TargetType.category = codes "CATEGORY"
target_label TargetType.application = codes "APPLICATION"

-- A key where the test holds: the label, a colon and the rule's value.
abbrev pub key_if : Bool → Text → Text → Option Text
key_if b label v = if b then some (label ++ (b':' ∷ v)) else none

-- What `evaluate` has computed of a request before it looks at a rule.
pub record RequestFacts : Type 0 where
  pub youtube : YouTubeObject
  pub hosts : List Text
  pub host_cats : List Text

module _ (web : UrlApi) (ctx : EvalContext) (facts : RequestFacts) where
  unfoldable pub target_matches : TargetType → RuleAction → Text → Bool
  unfolding normalize_exact_url matches_pattern is_folded lies_under some_text includes same
  target_matches TargetType.url action v =
      same (normalize_exact_url web ctx.url) (normalize_exact_url web v)
  target_matches TargetType.url_pattern action v = matches_pattern web ctx.url v
  target_matches TargetType.youtube_video action v =
      truthy facts.youtube.video_id && is facts.youtube.video_id v
  target_matches TargetType.youtube_playlist action v =
      truthy facts.youtube.playlist_id
      && is facts.youtube.playlist_id v
      && not (is_allow action && not (is_playlist facts.youtube.kind))
  target_matches TargetType.youtube_channel action v =
      truthy facts.youtube.channel_id && is facts.youtube.channel_id v
      || is_folded facts.youtube.channel_handle v
  target_matches TargetType.domain action v = some_text (λ h. lies_under h v) facts.hosts
  target_matches TargetType.application action v = truthy ctx.app_id && is ctx.app_id v
  target_matches TargetType.category action v = includes facts.host_cats v

  -- The matched policy key, or `none` for the source's null.
  unfoldable pub match_target : PolicyRule → Option Text
  unfolding target_matches
  match_target r = key_if (target_matches r.target r.action r.value) (target_label r.target) r.value
