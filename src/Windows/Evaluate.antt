-- ===== src/Windows/Evaluate.antt =====
-- windows/extension/background.js: the port of the evaluator. A hit of a standing rule carries no
-- rule id; a hit of a grant does.
pub mod Walks
pub mod Agreement
pub mod Matched
use ajar_family.Prelude.{
  ℕ, List, [], ◌∷◌, map, Bool, true, false, not, ◌&&◌, ◌||◌, Option, none, some, ◌++◌, filter,
  if◌then◌else◌,
}
use ajar_family.Prelude.Int.{ℤ, pos, ◌-ℤ◌}
use ajar_family.Prelude.Sort.{sort, first_hit}
use ajar_family.Text.{
  Text, codes, same, includes, starts_with, ends_with, keep_nonempty, unique, unique_from, truthy,
  is, some_text,
}
use ajar_family.Web.{UrlApi}
use ajar_family.Host.{normalize_host}
use ajar_family.Safety.{lies_under}
use ajar_family.Policy.Model.{
  TargetType, RuleAction, RuleScope, PolicyRule, TemporaryRule, DevicePolicySnapshot, EvalContext,
  Reason, EvalResult,
}
use ajar_family.Policy.Match.{
  RequestFacts, canonical_url, drop_last, drop_last_slash, decode_unreserved, is_playlist, is_allow,
  is_folded, key_if, target_label,
}
use ajar_family.Policy.Evaluate.{
  reached, is_before, priority_of, or_else, by_action, not_after, same_target, or_none, by_default,
  on_the_floor, request_host,
}
use ajar_family.Windows.Hosts.{categories_for_host, is_safety_floor_host}
use ajar_family.Windows.Filters.{FilterSet, categories_from_filters}
use ajar_family.Windows.YouTube.{normalize_you_tube}

abbrev pub tier_order : List TargetType
tier_order =
    TargetType.url ∷ TargetType.youtube_video ∷ TargetType.youtube_playlist
    ∷ TargetType.youtube_channel ∷ TargetType.url_pattern ∷ TargetType.domain
    ∷ TargetType.application ∷ TargetType.category ∷ []

unfoldable pub scope_specificity : RuleScope → ℕ
scope_specificity s = if truthy s.device_id then 3 else if truthy s.child_id then 2 else 1

unfoldable pub rule_applies_to_scope : RuleScope → EvalContext → Bool
rule_applies_to_scope s ctx =
    if truthy s.device_id && not (is s.device_id ctx.device_id)
    then false
    else if truthy s.child_id && not (is s.child_id ctx.child_id)
    then false
    else true

unfoldable pub is_active_temp : TemporaryRule → ℕ → Bool
is_active_temp t now = reached t.starts_at now && is_before now t.expires_at

abbrev by_scope : RuleScope → RuleScope → ℤ
by_scope a b = pos (scope_specificity b) -ℤ pos (scope_specificity a)

-- The comparison of temporary rules, and that of standing rules.
unfoldable pub temp_le : TemporaryRule → TemporaryRule → Bool
unfolding scope_specificity ◌-ℤ◌
temp_le a b =
    not_after
      (or_else (priority_of b.priority -ℤ priority_of a.priority) (by_scope a.scope b.scope))

unfoldable pub rule_le : PolicyRule → PolicyRule → Bool
unfolding scope_specificity ◌-ℤ◌
rule_le a b = not_after (
    or_else (priority_of b.priority -ℤ priority_of a.priority)
      (or_else (by_scope a.scope b.scope) (by_action a.action b.action)))

module _ (web : UrlApi) where
  open web use {parse, to_string}

  unfoldable pub normalize_exact_url : Text → Text
  unfolding drop_last_slash decode_unreserved canonical_url
  normalize_exact_url raw = elim (parse raw) [
    | none ↦ raw
    | some u ↦ decode_unreserved (drop_last_slash (to_string (canonical_url web u)))
  ]

  -- The wildcard branch: a prefix that is no URL is compared as it stands.
  unfoldable pub starts_with_prefix : Text → Text → Bool
  unfolding normalize_exact_url starts_with
  starts_with_prefix url prefix = elim (parse prefix) [
    | none ↦ starts_with url prefix
    | some u ↦ starts_with (normalize_exact_url url) (normalize_exact_url prefix)
  ]

  unfoldable pub matches_pattern : Text → Text → Bool
  unfolding starts_with_prefix ends_with drop_last normalize_exact_url same
  matches_pattern url pattern =
      if ends_with pattern (codes "*")
      then starts_with_prefix url (drop_last pattern)
      else same (normalize_exact_url url) (normalize_exact_url pattern)

  module _ (ctx : EvalContext) (facts : RequestFacts) where
    unfoldable pub target_hit : TargetType → RuleAction → Text → Bool
    unfolding normalize_exact_url matches_pattern same some_text lies_under includes is_folded
    target_hit TargetType.url action v = same (normalize_exact_url ctx.url) (normalize_exact_url v)
    target_hit TargetType.url_pattern action v = matches_pattern ctx.url v
    target_hit TargetType.youtube_video action v =
        truthy facts.youtube.video_id && is facts.youtube.video_id v
    target_hit TargetType.youtube_playlist action v =
        truthy facts.youtube.playlist_id
        && is facts.youtube.playlist_id v
        && not (is_allow action && not (is_playlist facts.youtube.kind))
    target_hit TargetType.youtube_channel action v =
        truthy facts.youtube.channel_id && is facts.youtube.channel_id v
        || is_folded facts.youtube.channel_handle v
    target_hit TargetType.domain action v = some_text (λ h. lies_under h v) facts.hosts
    target_hit TargetType.application action v = truthy ctx.app_id && is ctx.app_id v
    target_hit TargetType.category action v = includes facts.host_cats v

    unfoldable pub match_target : PolicyRule → Option Text
    unfolding target_hit
    match_target r = key_if (target_hit r.target r.action r.value) (target_label r.target) r.value

    abbrev pub granted : TemporaryRule → Option Text → Option EvalResult
    granted t none = none
    granted t (some hit) = some (record {
      action = t.action;
      reason = Reason.temporary t.grant_kind;
      matched_rule_id = some t.id;
      matched_key = some hit;
    })

    abbrev pub ruled : TargetType → PolicyRule → Option Text → Option EvalResult
    ruled tier r none = none
    ruled tier r (some hit) = some (record {
      action = r.action;
      reason = Reason.rule tier;
      matched_rule_id = none;
      matched_key = some hit;
    })

    -- The walk over the temporary rules.
    unfoldable pub temp_hit : List TemporaryRule → Option EvalResult
    unfolding match_target sort first_hit temp_le rule_applies_to_scope is_active_temp
    temp_hit temps =
        first_hit (λ t. granted t (match_target t.rule))
          (sort temp_le
            (filter (λ t. rule_applies_to_scope t.scope ctx && is_active_temp t ctx.now_ms) temps))

    -- The walk over one tier, and over the tiers.
    unfoldable pub tier_hit : List PolicyRule → TargetType → Option EvalResult
    unfolding match_target sort first_hit rule_le same_target
    tier_hit applicable tier =
        first_hit (λ r. ruled tier r (match_target r))
          (sort rule_le (filter (λ r. same_target r.target tier) applicable))

    unfoldable pub standing_hit : List PolicyRule → Option EvalResult
    unfolding tier_hit rule_applies_to_scope
    standing_hit rules =
        first_hit (tier_hit (filter (λ r. rule_applies_to_scope r.scope ctx) rules)) tier_order

  unfoldable pub request_hosts : EvalContext → List Text
  unfolding request_host normalize_host keep_nonempty unique_from
  request_hosts ctx =
      unique
        (keep_nonempty (map normalize_host (request_host web ctx.url ∷ or_none ctx.resolved_hosts)))

  module _ (filters : Option FilterSet) (snapshot : DevicePolicySnapshot) (ctx : EvalContext) where
    unfoldable pub cats_of_hosts : List Text → List Text
    unfolding categories_for_host categories_from_filters
    cats_of_hosts [] = []
    cats_of_hosts (h ∷ hs) =
        categories_for_host snapshot.categories h
        ++ (categories_from_filters filters h ++ cats_of_hosts hs)

    unfoldable pub request_facts : RequestFacts
    unfolding request_hosts cats_of_hosts normalize_you_tube
    request_facts = record {
      youtube = normalize_you_tube web ctx.url;
      hosts = request_hosts ctx;
      host_cats = cats_of_hosts (request_hosts ctx);
    }

    unfoldable pub evaluate : EvalResult
    unfolding temp_hit standing_hit request_facts is_safety_floor_host request_host
    evaluate =
        let host = request_host web ctx.url in
        let facts = request_facts in
        if is_safety_floor_host host
        then on_the_floor host
        else elim (temp_hit ctx facts snapshot.temporary_rules) [
          | some r ↦ r
          | none ↦ elim (standing_hit ctx facts snapshot.rules) [
            | some r ↦ r
            | none ↦ by_default snapshot.defaults facts.youtube.is_youtube
          ]
        ]
