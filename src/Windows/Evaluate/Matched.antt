-- ===== src/Windows/Evaluate/Matched.antt =====
-- The rule id of the port's answer is that of a grant of the snapshot.
use ajar_family.Prelude.{
  ◌≡◌, refl, sym, ◌∙◌, inl, inr, true, Option, none, some, List, Memᴰ, Bool-cases, Option-cases,
}
use ajar_family.Text.{Text}
use ajar_family.Web.{UrlApi}
use ajar_family.Policy.Model.{
  PolicyRule, TemporaryRule, DevicePolicySnapshot, EvalContext, EvalResult,
}
use ajar_family.Policy.Match.{RequestFacts}
use ajar_family.Policy.Evaluate as Shared
use ajar_family.Policy.Decisions.{temp_hit-DecidedByGrant, standing_hit-DecidedByRule}
use ajar_family.Policy.Verdicts.{verdict_of}
use ajar_family.Windows.Hosts.{is_safety_floor_host}
use ajar_family.Windows.Filters.{FilterSet}
use ajar_family.Windows.Evaluate as Port
use ajar_family.Windows.Evaluate.Walks.{forget_rule_id, temp_hit-agrees, standing_hit-agrees}
use ajar_family.Windows.Evaluate.Agreement.{port_evaluate_lem}

module _ (web : UrlApi) (ctx : EvalContext) (facts : RequestFacts) where
  temp_hit-id :
      (ts : List TemporaryRule) {r : EvalResult} {id : Text}
      → Port.temp_hit web ctx facts ts ≡ some r
      → r.matched_rule_id ≡ some id
      → (t : TemporaryRule) × Memᴰ t ts × (t.id ≡ id)
  temp_hit-id ts e h =
      let g =
        temp_hit-DecidedByGrant web ctx facts ts (sym (temp_hit-agrees web ctx facts ts) ∙ e) in
      (g.grant, g.listed, cc (h, g.result))

  standing_hit-no_id :
      (rs : List PolicyRule) {r : EvalResult}
      → Port.standing_hit web ctx facts rs ≡ some r
      → r.matched_rule_id ≡ none
  standing_hit-no_id rs {r} e = elim (Option-cases (Shared.standing_hit web ctx facts rs)) [
    | inl n ↦ absurd (cc (rw n at (sym e ∙ standing_hit-agrees web ctx facts rs)))
    | inr (q, k) ↦
        let d = standing_hit-DecidedByRule web ctx facts rs k in
        let hit : some r ≡ some (forget_rule_id q) =
          rw k at (sym e ∙ standing_hit-agrees web ctx facts rs) in
        let plain : (forget_rule_id q).matched_rule_id ≡ none =
          rw d.result (unfold forget_rule_id in refl) in
        cc (hit, plain)
  ]

  verdict-id :
      (d : EvalResult) (ts : List TemporaryRule) (rs : List PolicyRule) {id : Text}
      → d.matched_rule_id ≡ none
      → (verdict_of d
          (Port.temp_hit web ctx facts ts)
          (Port.standing_hit web ctx facts rs)).matched_rule_id
        ≡ some id
      → (t : TemporaryRule) × Memᴰ t ts × (t.id ≡ id)
  verdict-id d ts rs {id} no_id h = elim (Option-cases (Port.temp_hit web ctx facts ts)) [
    | inr (r, e) ↦ temp_hit-id ts e (rw e at h)
    | inl n ↦ elim (Option-cases (Port.standing_hit web ctx facts rs)) [
      | inr (r, e) ↦ absurd (cc (standing_hit-no_id rs e, rw (n, e) at h))
      | inl m ↦ absurd (cc (no_id, rw (n, m) at h))
    ]
  ]

pub evaluate-id :
    (web : UrlApi) (filters : Option FilterSet) (s : DevicePolicySnapshot) (ctx : EvalContext)
    {id : Text}
    → (Port.evaluate web filters s ctx).matched_rule_id ≡ some id
    → (t : TemporaryRule) × Memᴰ t s.temporary_rules × (t.id ≡ id)
evaluate-id web filters s ctx {id} h =
    elim (Bool-cases (is_safety_floor_host (Shared.request_host web ctx.url))) [
      | inl on ↦ absurd (floor on h)
      | inr off ↦
          let facts = Port.request_facts web filters s ctx in
          verdict-id web ctx facts (Shared.by_default s.defaults facts.youtube.is_youtube)
            s.temporary_rules s.rules refl (rw (port_evaluate_lem web filters s ctx off) at h)
    ]
  where
    on_floor :
        is_safety_floor_host (Shared.request_host web ctx.url) ≡ true
        → Port.evaluate web filters s ctx ≡ Shared.on_the_floor (Shared.request_host web ctx.url)
    on_floor on = unfold Port.evaluate in rw on

    floor :
        is_safety_floor_host (Shared.request_host web ctx.url) ≡ true
        → (Port.evaluate web filters s ctx).matched_rule_id ≡ some id
        → ⊥
    floor on k = cc (rw (on_floor on) at k)
