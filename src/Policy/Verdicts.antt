-- ===== src/Policy/Verdicts.antt =====
-- The verdict of the evaluator, for every snapshot and request.
use ajar_family.Prelude.{
  ◌≡◌, inl, inr, true, false, Option, none, some, Memᴰ, Bool-cases, Option-cases,
}
use ajar_family.Web.{UrlApi}
use ajar_family.Safety.{is_safety_floor_host}
use ajar_family.Policy.Model.{
  PolicyRule, TemporaryRule, DevicePolicySnapshot, EvalContext, EvalResult,
}
use ajar_family.Policy.Match.{RequestFacts, match_target}
use ajar_family.Policy.Evaluate.{
  rule_applies_to_scope, request_host, request_facts, evaluate_rules, evaluate, temp_hit,
  standing_hit, by_default, on_the_floor,
}
use ajar_family.Policy.Decisions.{
  IsLive, DecidedByGrant, DecidedByRule, temp_hit-DecidedByGrant, temp_hit-eq-none,
  standing_hit-DecidedByRule, standing_hit-eq-none,
}

module _ (web : UrlApi) (s : DevicePolicySnapshot) (ctx : EvalContext) where
  abbrev facts : RequestFacts
  facts = request_facts web s ctx

  -- No live grant of the snapshot matches.
  abbrev pub NoGrant : Type 0
  NoGrant =
      (t : TemporaryRule)
      → Memᴰ t s.temporary_rules
      → IsLive web ctx facts t
      → match_target web ctx facts t.rule ≡ none

  -- No standing rule that applies to the child and device matches.
  abbrev pub NoRule : Type 0
  NoRule =
      (u : PolicyRule)
      → Memᴰ u s.rules
      → rule_applies_to_scope u.scope ctx ≡ true
      → match_target web ctx facts u ≡ none

  -- Why a result is the verdict: one constructor for each tier, with what the tiers above said.
  pub data Verdict (r : EvalResult) : Type 0 where
    floor :
        is_safety_floor_host (request_host web ctx.url) ≡ true
        → r ≡ on_the_floor (request_host web ctx.url)
        → Verdict r
    grant :
        is_safety_floor_host (request_host web ctx.url) ≡ false
        → DecidedByGrant web ctx facts s.temporary_rules r
        → Verdict r
    standing :
        is_safety_floor_host (request_host web ctx.url) ≡ false
        → NoGrant
        → DecidedByRule web ctx facts s.rules r
        → Verdict r
    default :
        is_safety_floor_host (request_host web ctx.url) ≡ false
        → NoGrant
        → NoRule
        → r ≡ by_default s.defaults facts.youtube.is_youtube
        → Verdict r

  module _ (off : is_safety_floor_host (request_host web ctx.url) ≡ false) where
    evaluate_grant :
        {r : EvalResult}
        → temp_hit web ctx facts s.temporary_rules ≡ some r
        → evaluate web s ctx ≡ r
    evaluate_grant e = unfold evaluate in rw (off, e, evaluate_rules)

    evaluate_standing :
        {r : EvalResult}
        → temp_hit web ctx facts s.temporary_rules ≡ none
        → standing_hit web ctx facts s.rules ≡ some r
        → evaluate web s ctx ≡ r
    evaluate_standing n e = unfold evaluate in rw (off, n, e, evaluate_rules)

    evaluate_default :
        temp_hit web ctx facts s.temporary_rules ≡ none
        → standing_hit web ctx facts s.rules ≡ none
        → evaluate web s ctx ≡ by_default s.defaults facts.youtube.is_youtube
    evaluate_default n e = unfold evaluate in rw (off, n, e, evaluate_rules)

  -- THE EVALUATOR'S VERDICT. For every snapshot and request the result is one of these: ALLOW, where the
  -- host is on the safety floor; else that of a matching live grant which comes before every other
  -- matching live grant; else, where no live grant matches, that of a matching standing rule of the
  -- earliest tier with a match, which comes before the other matching rules of its tier; else, where no
  -- rule matches either, the default for YouTube or for the web.
  pub evaluate-Verdict : Verdict (evaluate web s ctx)
  evaluate-Verdict = elim (Bool-cases (is_safety_floor_host (request_host web ctx.url))) [
    | inl on ↦ floor on (unfold evaluate in rw on)
    | inr off ↦ elim (Option-cases (temp_hit web ctx facts s.temporary_rules)) [
      | inr (r, e) ↦
          rw (evaluate_grant off e)
            (grant off (temp_hit-DecidedByGrant web ctx facts s.temporary_rules e))
      | inl n ↦ elim (Option-cases (standing_hit web ctx facts s.rules)) [
        | inr (r, e) ↦ rw (evaluate_standing off n e) (
            standing off (temp_hit-eq-none web ctx facts s.temporary_rules n)
              (standing_hit-DecidedByRule web ctx facts s.rules e))
        | inl k ↦
            default off (temp_hit-eq-none web ctx facts s.temporary_rules n)
              (standing_hit-eq-none web ctx facts s.rules k) (evaluate_default off n k)
      ]
    ]
  ]

-- The two hits and the default together.
abbrev pub verdict_of : EvalResult → Option EvalResult → Option EvalResult → EvalResult
verdict_of d (some r) o = r
verdict_of d none (some r) = r
verdict_of d none none = d

pub evaluate_lem :
    (web : UrlApi) (s : DevicePolicySnapshot) (ctx : EvalContext)
    → is_safety_floor_host (request_host web ctx.url) ≡ false
    → evaluate web s ctx
      ≡ verdict_of
          (by_default s.defaults (request_facts web s ctx).youtube.is_youtube)
          (temp_hit web ctx (request_facts web s ctx) s.temporary_rules)
          (standing_hit web ctx (request_facts web s ctx) s.rules)
evaluate_lem web s ctx off =
    let facts = request_facts web s ctx in
    elim (Option-cases (temp_hit web ctx facts s.temporary_rules)) [
      | inr (r, e) ↦ rw e (evaluate_grant web s ctx off e)
      | inl n ↦ elim (Option-cases (standing_hit web ctx facts s.rules)) [
        | inr (r, e) ↦ rw (n, e) (evaluate_standing web s ctx off n e)
        | inl k ↦ rw (n, k) (evaluate_default web s ctx off n k)
      ]
    ]
