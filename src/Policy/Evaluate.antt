-- ===== src/Policy/Evaluate.antt =====
-- shared/policy/policy-model.ts: the reference evaluator. A rule list is filtered, sorted by the
-- source's comparison and walked; the result of a walk is its first hit.
use ajar_family.Prelude.{
  ℕ, zero, List, [], ◌∷◌, map, Bool, true, false, not, ◌&&◌, Option, none, some, ◌++◌, leb, ltb,
  if◌then◌else◌, filter,
}
use ajar_family.Prelude.Int.{ℤ, pos, negsuc, ◌-ℤ◌, ltb_ℤ}
use ajar_family.Prelude.Sort.{sort, first_hit}
use ajar_family.Text.{Text, codes, keep_nonempty, unique, unique_from, truthy, is}
use ajar_family.Web.{UrlApi}
use ajar_family.Host.{normalize_host, CategoryMap, categories_for_host}
use ajar_family.Safety.{is_safety_floor_host}
use ajar_family.YouTube.{normalize_youtube}
use ajar_family.Policy.Model.{
  TargetType, RuleAction, Instant, RuleScope, PolicyRule, TemporaryRule, DefaultPolicy,
  DevicePolicySnapshot, EvalContext, Reason, EvalResult,
}
use ajar_family.Policy.Match.{RequestFacts, match_target}

unfoldable pub scope_specificity : RuleScope → ℕ
scope_specificity s = if truthy s.device_id then 3 else if truthy s.child_id then 2 else 1

unfoldable pub rule_applies_to_scope : RuleScope → EvalContext → Bool
rule_applies_to_scope s ctx =
    if truthy s.device_id && not (is s.device_id ctx.device_id)
    then false
    else if truthy s.child_id && not (is s.child_id ctx.child_id)
    then false
    else true

-- `nowMs >= t`, false where `t` is NaN.
abbrev pub reached : Instant → ℕ → Bool
reached none now = false
reached (some t) now = leb t now

-- `nowMs < t`, false where `t` is NaN.
abbrev pub is_before : ℕ → Instant → Bool
is_before now none = false
is_before now (some t) = ltb now t

unfoldable pub is_active_temp : TemporaryRule → ℕ → Bool
is_active_temp t now = reached t.starts_at now && is_before now t.expires_at

-- `r.priority ?? 0`
abbrev pub priority_of : Option ℤ → ℤ
priority_of none = pos 0
priority_of (some p) = p

-- `a || b` on numbers.
abbrev pub or_else : ℤ → ℤ → ℤ
or_else (pos zero) b = b
or_else a b = a

abbrev by_specificity : RuleScope → RuleScope → ℤ
by_specificity a b = pos (scope_specificity b) -ℤ pos (scope_specificity a)

-- The comparison of temporary rules.
unfoldable pub compare_temps : TemporaryRule → TemporaryRule → ℤ
unfolding scope_specificity ◌-ℤ◌
compare_temps a b =
    or_else (priority_of b.priority -ℤ priority_of a.priority) (by_specificity a.scope b.scope)

-- `a.action === b.action ? 0 : a.action === "BLOCK" ? -1 : 1`
abbrev pub by_action : RuleAction → RuleAction → ℤ
by_action RuleAction.allow RuleAction.allow = pos 0
by_action RuleAction.block RuleAction.block = pos 0
by_action RuleAction.block RuleAction.allow = negsuc 0
by_action RuleAction.allow RuleAction.block = pos 1

-- The comparison of standing rules.
unfoldable pub compare_rules : PolicyRule → PolicyRule → ℤ
unfolding scope_specificity ◌-ℤ◌
compare_rules a b =
    or_else (priority_of b.priority -ℤ priority_of a.priority)
      (or_else (by_specificity a.scope b.scope) (by_action a.action b.action))

-- A comparison places `a` no later than `b` where it is not positive.
abbrev pub not_after : ℤ → Bool
not_after c = not (ltb_ℤ (pos 0) c)

unfoldable pub temp_le : TemporaryRule → TemporaryRule → Bool
unfolding compare_temps
temp_le a b = not_after (compare_temps a b)

unfoldable pub rule_le : PolicyRule → PolicyRule → Bool
unfolding compare_rules
rule_le a b = not_after (compare_rules a b)

pub TargetType-discrete : Discrete TargetType
TargetType-discrete = hlevel

unfoldable pub same_target : TargetType → TargetType → Bool
unfolding TargetType-discrete
same_target a b = elim (TargetType-discrete a b) [ yes p ↦ true | no n ↦ false ]

abbrev pub tier_order : List TargetType
tier_order =
    TargetType.url ∷ TargetType.youtube_video ∷ TargetType.youtube_playlist
    ∷ TargetType.youtube_channel ∷ TargetType.url_pattern ∷ TargetType.domain
    ∷ TargetType.application ∷ TargetType.category ∷ []

abbrev pub result_if : Option Text → RuleAction → Reason → Text → Option EvalResult
result_if none action reason id = none
result_if (some key) action reason id =
    some (record {
      action = action;
      reason = reason;
      matched_rule_id = some id;
      matched_key = some key;
    })

abbrev pub or_none : Option (List Text) → List Text
or_none none = []
or_none (some hs) = hs

abbrev pub filter_cats : Option (Text → List Text) → Text → List Text
filter_cats none h = []
filter_cats (some f) h = f h

-- The categories of each host, by the inline map and by the filters; the set is only asked `has`.
unfoldable pub categories_of_hosts :
    Option CategoryMap → Option (Text → List Text) → List Text → List Text
unfolding categories_for_host
categories_of_hosts inline filters [] = []
categories_of_hosts inline filters (h ∷ hs) =
    categories_for_host inline h ++ (filter_cats filters h ++ categories_of_hosts inline filters hs)

abbrev pub by_default : DefaultPolicy → Bool → EvalResult
by_default d yt = record {
  action = if yt then d.youtube_default else d.web_default;
  reason = if yt then Reason.default_youtube else Reason.default_web;
  matched_rule_id = none;
  matched_key = none;
}

abbrev pub on_the_floor : Text → EvalResult
on_the_floor host = record {
  action = RuleAction.allow;
  reason = Reason.safety_floor;
  matched_rule_id = none;
  matched_key = some (codes "SAFETY:" ++ host);
}

module _ (web : UrlApi) where
  -- The host of the URL, empty where it does not parse.
  unfoldable pub request_host : Text → Text
  unfolding normalize_host
  request_host url = elim (web.parse url) [ none ↦ [] | some u ↦ normalize_host (web.hostname u) ]

  -- The host and its CNAME chain, normalized, without repetition.
  unfoldable pub request_hosts : EvalContext → List Text
  unfolding request_host normalize_host keep_nonempty unique_from
  request_hosts ctx =
      unique
        (keep_nonempty (map normalize_host (request_host ctx.url ∷ or_none ctx.resolved_hosts)))

  unfoldable pub request_facts : DevicePolicySnapshot → EvalContext → RequestFacts
  unfolding request_hosts categories_of_hosts normalize_youtube
  request_facts snapshot ctx = record {
    youtube = normalize_youtube web ctx.url;
    hosts = request_hosts ctx;
    host_cats = categories_of_hosts snapshot.categories ctx.category_filters (request_hosts ctx);
  }

  module _ (ctx : EvalContext) (facts : RequestFacts) where
    unfoldable pub temp_result : TemporaryRule → Option EvalResult
    unfolding match_target
    temp_result t =
        result_if (match_target web ctx facts t.rule) t.action (Reason.temporary t.grant_kind) t.id

    unfoldable pub rule_result : TargetType → PolicyRule → Option EvalResult
    unfolding match_target
    rule_result tier r = result_if (match_target web ctx facts r) r.action (Reason.rule tier) r.id

    unfoldable pub active_temps : List TemporaryRule → List TemporaryRule
    unfolding rule_applies_to_scope is_active_temp
    active_temps = filter (λ t. rule_applies_to_scope t.scope ctx && is_active_temp t ctx.now_ms)

    unfoldable pub tier_hit : List PolicyRule → TargetType → Option EvalResult
    unfolding rule_result sort first_hit rule_le same_target
    tier_hit applicable tier =
        first_hit (rule_result tier)
          (sort rule_le (filter (λ r. same_target r.target tier) applicable))

    unfoldable pub temp_hit : List TemporaryRule → Option EvalResult
    unfolding temp_result sort first_hit temp_le active_temps
    temp_hit temps = first_hit temp_result (sort temp_le (active_temps temps))

    unfoldable pub standing_hit : List PolicyRule → Option EvalResult
    unfolding tier_hit rule_applies_to_scope
    standing_hit rules =
        first_hit (tier_hit (filter (λ r. rule_applies_to_scope r.scope ctx) rules)) tier_order

  -- The tiers below the safety floor.
  unfoldable pub evaluate_rules : DevicePolicySnapshot → EvalContext → RequestFacts → EvalResult
  unfolding temp_hit standing_hit
  evaluate_rules snapshot ctx facts = elim (temp_hit ctx facts snapshot.temporary_rules) [
    | some r ↦ r
    | none ↦ elim (standing_hit ctx facts snapshot.rules) [
      | some r ↦ r
      | none ↦ by_default snapshot.defaults facts.youtube.is_youtube
    ]
  ]

  unfoldable pub evaluate : DevicePolicySnapshot → EvalContext → EvalResult
  unfolding evaluate_rules request_facts is_safety_floor_host request_host
  evaluate snapshot ctx =
      let host = request_host ctx.url in
      if is_safety_floor_host host
      then on_the_floor host
      else evaluate_rules snapshot ctx (request_facts snapshot ctx)
