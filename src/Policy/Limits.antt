-- ===== src/Policy/Limits.antt =====
-- Inputs on which the evaluator opens what its comments say stays closed.
use ajar_family.Prelude.{
  ℕ, Option, ◌≡◌, ◌≢◌, refl, ◌∙◌, ap, inl, inr, [], ◌∷◌, true, false, some, none, Memᴰ, arith,
  filter,
}
use ajar_family.Prelude.Sort.{sort, first_hit}
use ajar_family.Text.{Text, nonempty, some_text}
use ajar_family.Text.Laws.{Mem→some_text}
use ajar_family.Web.{UrlApi}
use ajar_family.Host.{normalize_host}
use ajar_family.Safety.{is_safety_floor_host, lies_under}
use ajar_family.Safety.Floor.{lies_under_iff}
use ajar_family.Policy.Model.{
  TargetType, RuleAction, PolicyRule, TemporaryRule, DevicePolicySnapshot, EvalContext, EvalResult,
  Reason,
}
use ajar_family.Policy.Match.{RequestFacts, match_target}
use ajar_family.Policy.Evaluate.{
  rule_applies_to_scope, request_host, request_facts, evaluate, scope_specificity, priority_of,
  temp_result, temp_le, standing_hit, by_default, result_if,
}
use ajar_family.Policy.Ranking.{temp_le_iff}
use ajar_family.Policy.Hosts.{match_target_lem, domain_matches, chain-Mem}
use ajar_family.Policy.Decisions.{ruled, IsLive, grant_test, temp_hit_lem}
use ajar_family.Policy.Verdicts.{
  Verdict, floor, grant, standing, default, evaluate-Verdict, evaluate_lem, verdict_of,
}

module _ (web : UrlApi) (s : DevicePolicySnapshot) (ctx : EvalContext) where
  abbrev facts : RequestFacts
  facts = request_facts web s ctx

  module _ (u : PolicyRule) (rules : s.rules ≡ u ∷ []) (grants : s.temporary_rules ≡ [])
      (allows : u.action ≡ RuleAction.allow) where
    only_rule : {w : PolicyRule} → Memᴰ w s.rules → w ≡ u
    only_rule {w} m = one (rw rules at m)
      where
        one : Memᴰ w (u ∷ []) → w ≡ u
        one (Memᴰ.head e) = e
        one (Memᴰ.tail k) = elim k [ ]

    no_grant : {t : TemporaryRule} → Memᴰ t s.temporary_rules → ⊥
    no_grant {t} m = none_listed (rw grants at m)
      where
        none_listed : Memᴰ t [] → ⊥
        none_listed k = elim k [ ]

    opened :
        (r : EvalResult)
        → Verdict web s ctx r
        → rule_applies_to_scope u.scope ctx ≡ true
        → match_target web ctx facts u ≢ none
        → r.action ≡ RuleAction.allow
    opened r (floor on e) a n = ap (λ (x : EvalResult). x.action) e
    opened r (grant off d) a n = absurd (no_grant d.listed)
    opened r (standing off g d) a n =
        ap (λ (x : EvalResult). x.action) d.result
        ∙ (ap (λ (w : PolicyRule). w.action) (only_rule d.listed) ∙ allows)
    opened r (default off g k e) a n = absurd (n (k u (rw rules (Memᴰ.head refl)) a))

    -- THE CHAIN CAN OPEN. Where the snapshot holds no grants and one rule, which applies to the device
    -- and allows a DOMAIN whose value is not empty and is its own normal form, and the device reports
    -- that domain as the only name which the host resolves to, any URL gets an ALLOW, whatever the
    -- defaults are.
    pub chain_can_open :
        u.target ≡ TargetType.domain
        → rule_applies_to_scope u.scope ctx ≡ true
        → ctx.resolved_hosts ≡ some (u.value ∷ [])
        → normalize_host u.value ≡ u.value
        → nonempty u.value ≡ true
        → (evaluate web s ctx).action ≡ RuleAction.allow
    chain_can_open t a chain c n =
        opened (evaluate web s ctx) (evaluate-Verdict web s ctx) a matches
      where
        hit : some_text (λ h. lies_under h u.value) facts.hosts ≡ true
        hit =
            Mem→some_text (λ h. lies_under h u.value) facts.hosts {w = u.value}
              (unfold request_facts in chain-Mem web ctx u.value chain c n)
              ((lies_under_iff u.value u.value).1 (inl refl))

        matches : match_target web ctx facts u ≢ none
        matches e = some-none (
            rw
              (
                match_target_lem web ctx facts u,
                t,
                domain_matches web ctx facts u.action u.value,
                hit,
              )
              at e)
          where
            some-none : {k : Text} → some k ≡ none → ⊥
            some-none p = cc

  -- THE OLDER GRANT WINS A TIE. Where a snapshot holds exactly two grants, both live for the device,
  -- with the same priority and scopes as narrow, and the first one matches a request whose host is
  -- off the safety floor, the first one decides, also where it allows and the other blocks.
  pub older_grant_wins_tie :
      (older newer : TemporaryRule)
      → is_safety_floor_host (request_host web ctx.url) ≡ false
      → s.temporary_rules ≡ older ∷ newer ∷ []
      → IsLive web ctx facts older
      → IsLive web ctx facts newer
      → match_target web ctx facts older.rule ≢ none
      → priority_of older.priority ≡ priority_of newer.priority
      → scope_specificity older.scope ≡ scope_specificity newer.scope
      → (evaluate web s ctx).action ≡ older.action
  unfolding first_hit sort grant_test request_facts
  older_grant_wins_tie older newer off e lo ln n p q =
      rw
        (
          evaluate_lem web s ctx off,
          temp_hit_lem web ctx facts s.temporary_rules,
          e,
          both,
          in_place,
        )
        (leads (match_target web ctx facts older.rule) refl)
    where
      test_of : (t : TemporaryRule) → IsLive web ctx facts t → grant_test web ctx facts t ≡ true
      test_of t l = unfold grant_test in rw (l.applies, l.active)

      both : filter (grant_test web ctx facts) (older ∷ newer ∷ []) ≡ older ∷ newer ∷ []
      both = rw (test_of older lo, test_of newer ln)

      ordered : temp_le older newer ≡ true
      ordered = (temp_le_iff older newer).1 (inr (p, omega (arith, ap (λ (n : ℕ). n) q)))

      in_place : sort temp_le (older ∷ newer ∷ []) ≡ older ∷ newer ∷ []
      in_place = unfold sort in rw ordered

      outcome :
          {key : Text}
          → match_target web ctx facts older.rule ≡ some key
          → temp_result web ctx facts older
            ≡ some (ruled older.action (Reason.temporary older.grant_kind) older.id key)
      outcome m = unfold temp_result in rw (m, result_if)

      first :
          {r : EvalResult}
          → temp_result web ctx facts older ≡ some r
          → first_hit (temp_result web ctx facts) (older ∷ newer ∷ []) ≡ some r
      first h = unfold first_hit in rw (h, first_hit)

      leads :
          (o : Option Text)
          → match_target web ctx facts older.rule ≡ o
          → (verdict_of
              (by_default s.defaults facts.youtube.is_youtube)
              (first_hit (temp_result web ctx facts) (older ∷ newer ∷ []))
              (standing_hit web ctx facts s.rules)).action
            ≡ older.action
      leads none m = absurd (n m)
      leads (some key) m = rw (first (outcome m))
