-- ===== src/Policy/Chain.antt =====
-- The CNAME chain that a device reports: what it can change of a verdict, and what it can open.
use ajar_family.Prelude.{◌≡◌, refl, ◌⊎◌, inl, inr, List, none, Memᴰ, Bool-cases, filter, filter-Mem}
use ajar_family.Prelude.Sort.{sort, sort-Mem}
use ajar_family.Text.{Text}
use ajar_family.Text.Laws.{some_text→Mem, Mem→some_text}
use ajar_family.Web.{UrlApi}
use ajar_family.Safety.{lies_under, is_safety_floor_host}
use ajar_family.Policy.Model.{
  TargetType, RuleAction, PolicyRule, TemporaryRule, DevicePolicySnapshot, EvalContext, Reason,
}
use ajar_family.Policy.Match.{RequestFacts, target_matches, match_target, target_label}
use ajar_family.Policy.Evaluate.{
  request_host, request_hosts, request_facts, evaluate, temp_hit, standing_hit, tier_hit,
  temp_result, rule_result, result_if, tier_order,
}
use ajar_family.Policy.Hosts.{match_target_lem, request_hosts_grow}
use ajar_family.Policy.Tightening.{
  Tightened, first_hit-Tightened, Grows, Grows-of, categories_grow, result_if-Tightened,
  verdict_of-Tightened,
}
use ajar_family.Policy.Verdicts.{evaluate_lem}
use ajar_family.Policy.Decisions.{
  grant_test, scope_test, in_tier, temp_hit_lem, tier_hit_lem, standing_hit_lem,
}
use ajar_family.Policy.Evaluate.{temp_le, rule_le, by_default, rule_applies_to_scope}

-- Rules that name hosts or categories may open nothing.
abbrev pub OpensNoHost : PolicyRule → Type 0
OpensNoHost u =
    (u.target ≡ TargetType.domain → u.action ≡ RuleAction.block)
    × (u.target ≡ TargetType.category → u.action ≡ RuleAction.block)

abbrev pub without_chain : EvalContext → EvalContext
without_chain ctx = record ctx { resolved_hosts = none }

module _ (web : UrlApi) (s : DevicePolicySnapshot) (ctx : EvalContext) where
  abbrev facts : RequestFacts
  facts = request_facts web s ctx

  abbrev bare : RequestFacts
  bare = request_facts web s (without_chain ctx)

  target-Grows :
      (t : TargetType) (action : RuleAction) (v : Text)
      → (t ≡ TargetType.domain → action ≡ RuleAction.block)
      → (t ≡ TargetType.category → action ≡ RuleAction.block)
      → Grows action
          (target_matches web (without_chain ctx) bare t action v)
          (target_matches web ctx facts t action v)
  unfolding target_matches request_facts
  target-Grows TargetType.url action v d c = inl refl
  target-Grows TargetType.url_pattern action v d c = inl refl
  target-Grows TargetType.youtube_video action v d c = inl refl
  target-Grows TargetType.youtube_playlist action v d c = inl refl
  target-Grows TargetType.youtube_channel action v d c = inl refl
  target-Grows TargetType.application action v d c = inl refl
  target-Grows TargetType.domain action v d c = Grows-of _ _ (d refl) (λ e.
      let (h, m, l) =
        some_text→Mem (λ h. lies_under h v) (request_hosts web (without_chain ctx)) e in
      Mem→some_text (λ h. lies_under h v) (request_hosts web ctx) (request_hosts_grow web ctx m) l)
  target-Grows TargetType.category action v d c = Grows-of _ _ (c refl) (
      categories_grow s.categories ctx.category_filters (request_hosts web (without_chain ctx))
        (request_hosts web ctx) v (λ h m. request_hosts_grow web ctx m))

  rule-Tightened :
      (u : PolicyRule) (reason : Reason)
      → OpensNoHost u
      → Tightened
          (result_if (match_target web (without_chain ctx) bare u) u.action reason u.id)
          (result_if (match_target web ctx facts u) u.action reason u.id)
  rule-Tightened u reason (d, c) =
      rw (match_target_lem web (without_chain ctx) bare u, match_target_lem web ctx facts u)
        (result_if-Tightened (target_matches web (without_chain ctx) bare u.target u.action u.value)
          (target_matches web ctx facts u.target u.action u.value) (target_label u.target) u.value
          u.action reason u.id (target-Grows u.target u.action u.value d c))

  module _ (rules : (u : PolicyRule) → Memᴰ u s.rules → OpensNoHost u)
      (grants : (t : TemporaryRule) → Memᴰ t s.temporary_rules → OpensNoHost t.rule) where
    temp_hit-Tightened :
        Tightened
          (temp_hit web (without_chain ctx) bare s.temporary_rules)
          (temp_hit web ctx facts s.temporary_rules)
    temp_hit-Tightened =
        rw
          (
            temp_hit_lem web (without_chain ctx) bare s.temporary_rules,
            temp_hit_lem web ctx facts s.temporary_rules,
            same_grants,
          )
          (first_hit-Tightened (temp_result web (without_chain ctx) bare)
            (temp_result web ctx facts)
            (sort temp_le (filter (grant_test web ctx facts) s.temporary_rules)) each)
      where
        same_grants : grant_test web (without_chain ctx) bare ≡ grant_test web ctx facts
        same_grants = unfold grant_test rule_applies_to_scope in refl

        each :
            (t : TemporaryRule)
            → Memᴰ t (sort temp_le (filter (grant_test web ctx facts) s.temporary_rules))
            → Tightened (temp_result web (without_chain ctx) bare t) (temp_result web ctx facts t)
        each t m =
            let listed =
              (filter-Mem (grant_test web ctx facts) s.temporary_rules
                (sort-Mem temp_le (filter (grant_test web ctx facts) s.temporary_rules) m)).0 in
            unfold temp_result in
            rule-Tightened t.rule (Reason.temporary t.grant_kind) (grants t listed)

    tier_hit-Tightened :
        (tier : TargetType)
        → Tightened
            (tier_hit web (without_chain ctx) bare (filter (scope_test web ctx facts) s.rules) tier)
            (tier_hit web ctx facts (filter (scope_test web ctx facts) s.rules) tier)
    tier_hit-Tightened tier =
        rw
          (
            tier_hit_lem web (without_chain ctx) bare tier
                (filter (scope_test web ctx facts) s.rules),
            tier_hit_lem web ctx facts tier (filter (scope_test web ctx facts) s.rules),
            same_tier,
          )
          (first_hit-Tightened (rule_result web (without_chain ctx) bare tier)
            (rule_result web ctx facts tier) (sort rule_le candidates) each)
      where
        same_tier : in_tier web (without_chain ctx) bare tier ≡ in_tier web ctx facts tier
        same_tier = unfold in_tier in refl

        candidates : List PolicyRule
        candidates = filter (in_tier web ctx facts tier) (filter (scope_test web ctx facts) s.rules)

        each :
            (u : PolicyRule)
            → Memᴰ u (sort rule_le candidates)
            → Tightened
                (rule_result web (without_chain ctx) bare tier u)
                (rule_result web ctx facts tier u)
        each u m =
            let in_scope =
              (filter-Mem (in_tier web ctx facts tier) (filter (scope_test web ctx facts) s.rules)
                (sort-Mem rule_le candidates m)).0 in
            let listed = (filter-Mem (scope_test web ctx facts) s.rules in_scope).0 in
            unfold rule_result in rule-Tightened u (Reason.rule tier) (rules u listed)

    standing_hit-Tightened :
        Tightened
          (standing_hit web (without_chain ctx) bare s.rules)
          (standing_hit web ctx facts s.rules)
    standing_hit-Tightened =
        rw
          (
            standing_hit_lem web (without_chain ctx) bare s.rules,
            standing_hit_lem web ctx facts s.rules,
            same_scopes,
          )
          (first_hit-Tightened
            (tier_hit web (without_chain ctx) bare (filter (scope_test web ctx facts) s.rules))
            (tier_hit web ctx facts (filter (scope_test web ctx facts) s.rules)) tier_order
            (λ tier m. tier_hit-Tightened tier))
      where
        same_scopes : scope_test web (without_chain ctx) bare ≡ scope_test web ctx facts
        same_scopes = unfold scope_test rule_applies_to_scope in refl

    -- THE CHAIN ONLY CLOSES, where no DOMAIN or CATEGORY rule opens anything: with the names that a
    -- device reports the verdict is the one without them, or a block.
    pub chain_only_closes :
        (evaluate web s ctx ≡ evaluate web s (without_chain ctx))
        ⊎ ((evaluate web s ctx).action ≡ RuleAction.block)
    unfolding request_facts
    chain_only_closes = elim (Bool-cases (is_safety_floor_host (request_host web ctx.url))) [
      | inl on ↦ inl (unfold evaluate in rw on)
      | inr off ↦
          rw (evaluate_lem web s ctx off, evaluate_lem web s (without_chain ctx) off)
            (verdict_of-Tightened (by_default s.defaults facts.youtube.is_youtube)
              temp_hit-Tightened standing_hit-Tightened)
    ]

-- THE CHAIN CAN OPEN. Where a DOMAIN rule allows a domain, a device that reports that domain as the
-- one name of its chain gets an ALLOW for any URL that no grant decides and no rule of an earlier
-- tier matches, if no other rule names hosts.
