-- ===== src/Policy/Pruning.antt =====
-- Rules that cannot decide may be left out of a snapshot.
use ajar_family.Prelude.{
  ◌≡◌, refl, inl, inr, Bool, true, Bool-cases, filter, filter-filter, and-eq-true_iff,
}
use ajar_family.Web.{UrlApi}
use ajar_family.Safety.{is_safety_floor_host}
use ajar_family.Policy.Model.{PolicyRule, TemporaryRule, DevicePolicySnapshot, EvalContext}
use ajar_family.Policy.Match.{RequestFacts}
use ajar_family.Policy.Evaluate.{
  rule_applies_to_scope, is_active_temp, request_host, request_facts, evaluate, temp_hit,
  standing_hit,
}
use ajar_family.Policy.Verdicts.{evaluate_lem}
use ajar_family.Policy.Decisions.{grant_test, scope_test, temp_hit_lem, standing_hit_lem}

module _ (web : UrlApi) (ctx : EvalContext) (keep_grant : TemporaryRule → Bool)
    (keep_rule : PolicyRule → Bool) where
  abbrev pub pruned : DevicePolicySnapshot → DevicePolicySnapshot
  pruned s = record s {
    temporary_rules = filter keep_grant s.temporary_rules;
    rules = filter keep_rule s.rules;
  }

  module _ (s : DevicePolicySnapshot)
      (grants : (t : TemporaryRule)
        → rule_applies_to_scope t.scope ctx ≡ true
        → is_active_temp t ctx.now_ms ≡ true
        → keep_grant t ≡ true)
      (rules : (u : PolicyRule)
        → rule_applies_to_scope u.scope ctx ≡ true
        → keep_rule u ≡ true) where
    abbrev facts : RequestFacts
    facts = request_facts web s ctx

    temp_hit-pruned :
        temp_hit web ctx facts (filter keep_grant s.temporary_rules)
        ≡ temp_hit web ctx facts s.temporary_rules
    temp_hit-pruned = rw (
      temp_hit_lem web ctx facts (filter keep_grant s.temporary_rules),
      temp_hit_lem web ctx facts s.temporary_rules,
      filter-filter (grant_test web ctx facts) keep_grant s.temporary_rules kept,
    )
      where
        kept : (t : TemporaryRule) → grant_test web ctx facts t ≡ true → keep_grant t ≡ true
        kept t e =
            let (a, b) =
              (and-eq-true_iff (rule_applies_to_scope t.scope ctx) (is_active_temp t ctx.now_ms)).0
                (unfold grant_test in e) in
            grants t a b

    standing_hit-pruned :
        standing_hit web ctx facts (filter keep_rule s.rules) ≡ standing_hit web ctx facts s.rules
    standing_hit-pruned = rw (
      standing_hit_lem web ctx facts (filter keep_rule s.rules),
      standing_hit_lem web ctx facts s.rules,
      filter-filter (scope_test web ctx facts) keep_rule s.rules kept,
    )
      where
        kept : (u : PolicyRule) → scope_test web ctx facts u ≡ true → keep_rule u ≡ true
        kept u e = rules u (unfold scope_test in e)

    same_facts : request_facts web (pruned s) ctx ≡ facts
    same_facts = unfold request_facts in refl

    -- Leaving out grants that are not live for the device and rules that do not apply to it changes no
    -- verdict.
    pub evaluate-pruned : evaluate web (pruned s) ctx ≡ evaluate web s ctx
    evaluate-pruned = elim (Bool-cases (is_safety_floor_host (request_host web ctx.url))) [
      | inl on ↦ unfold evaluate in rw on
      | inr off ↦ rw (
        evaluate_lem web (pruned s) ctx off,
        evaluate_lem web s ctx off,
        same_facts,
        temp_hit-pruned,
        standing_hit-pruned,
      )
    ]
