-- ===== src/Policy/Guarantees.antt =====
-- What a family can rely on, read off the verdict of the evaluator.
use ajar_family.Prelude.{
  ◌≡◌, ◌≢◌, ◌∙◌, sym, ap, ◌⊎◌, true, false, Option, none, some, arith, Memᴰ, ◌<◌,
}
use ajar_family.Text.{Text}
use ajar_family.Web.{UrlApi}
use ajar_family.Safety.{is_safety_floor_host}
use ajar_family.Policy.Model.{
  RuleAction, PolicyRule, TemporaryRule, DevicePolicySnapshot, EvalContext, Reason, EvalResult,
}
use ajar_family.Policy.Match.{RequestFacts, match_target}
use ajar_family.Policy.Evaluate.{
  rule_applies_to_scope, request_host, request_facts, evaluate, priority_of, scope_specificity,
}
use ajar_family.Policy.Ranking.{TempBefore, RuleBefore, ◌<ℤ◌}
use ajar_family.Policy.Decisions.{IsLive}
use ajar_family.Policy.Verdicts.{Verdict, floor, grant, standing, default, evaluate-Verdict}

-- `u` ranks strictly below `w`: a lower priority, or the same and a wider scope.
abbrev pub Outranked : PolicyRule → PolicyRule → Type 0
Outranked u w =
    (priority_of u.priority <ℤ priority_of w.priority)
    ⊎ ((priority_of w.priority ≡ priority_of u.priority)
        × (scope_specificity u.scope < scope_specificity w.scope))

block-Outranked :
    (w u : PolicyRule)
    → RuleBefore w u
    → w.action ≡ RuleAction.allow
    → u.action ≡ RuleAction.block
    → Outranked u w
block-Outranked w u b a k = ground arith

module _ (web : UrlApi) (s : DevicePolicySnapshot) (ctx : EvalContext) where
  abbrev facts : RequestFacts
  facts = request_facts web s ctx

  -- A standing rule that opened the request.
  pub record OpenedByRule (r : EvalResult) (u : PolicyRule) : Type 0 where
    pub opener : PolicyRule
    pub listed : Memᴰ opener s.rules
    pub id : r.matched_rule_id ≡ some opener.id
    pub opens : opener.action ≡ RuleAction.allow
    pub outranks : Outranked u opener

  tie :
      (r : EvalResult) (u : PolicyRule)
      → Verdict web s ctx r
      → Memᴰ u s.rules
      → rule_applies_to_scope u.scope ctx ≡ true
      → u.action ≡ RuleAction.block
      → match_target web ctx facts u ≢ none
      → r.action ≡ RuleAction.allow
      → r.reason ≡ Reason.rule u.target
      → OpenedByRule r u
  tie r u (floor on e) m a k n opened why = cc (why, ap (λ (x : EvalResult). x.reason) e)
  tie r u (grant off d) m a k n opened why = cc (why, ap (λ (x : EvalResult). x.reason) d.result)
  tie r u (standing off g d) m a k n opened why =
      let reason : Reason.rule u.target ≡ Reason.rule d.winner.target =
        sym why ∙ ap (λ (x : EvalResult). x.reason) d.result in
      let target : u.target ≡ d.winner.target = cc reason in
      let opens : d.winner.action ≡ RuleAction.allow =
        sym (ap (λ (x : EvalResult). x.action) d.result) ∙ opened in
      record {
        opener = d.winner;
        listed = d.listed;
        id = ap (λ (x : EvalResult). x.matched_rule_id) d.result;
        opens = opens;
        outranks = block-Outranked d.winner u (d.best u m a target n) opens k;
      }
  tie r u (default off g k e) m a b n opened why = absurd (n (k u m a))

  -- DENY WINS A TIE. Where a standing rule opens a request and a block rule of the same tier applies
  -- and matches too, the opening rule has a higher priority than the block, or the same priority
  -- and a narrower scope. The tier of exact URLs is no exception.
  pub deny_wins_tie :
      (u : PolicyRule)
      → Memᴰ u s.rules
      → rule_applies_to_scope u.scope ctx ≡ true
      → u.action ≡ RuleAction.block
      → match_target web ctx facts u ≢ none
      → (evaluate web s ctx).action ≡ RuleAction.allow
      → (evaluate web s ctx).reason ≡ Reason.rule u.target
      → OpenedByRule (evaluate web s ctx) u
  deny_wins_tie u = tie (evaluate web s ctx) u (evaluate-Verdict web s ctx)

  -- A grant that decided a request.
  pub record DecidedOver (r : EvalResult) (g : TemporaryRule) : Type 0 where
    pub grant : TemporaryRule
    pub listed : Memᴰ grant s.temporary_rules
    pub live : IsLive web ctx facts grant
    pub matches : match_target web ctx facts grant.rule ≢ none
    pub before : TempBefore grant g
    pub action : r.action ≡ grant.action
    pub id : r.matched_rule_id ≡ some grant.id

  some-none : {k : Text} {o : Option Text} → o ≡ some k → o ≢ none
  some-none e n = cc

  override :
      (r : EvalResult) (g : TemporaryRule)
      → Verdict web s ctx r
      → is_safety_floor_host (request_host web ctx.url) ≡ false
      → Memᴰ g s.temporary_rules
      → IsLive web ctx facts g
      → match_target web ctx facts g.rule ≢ none
      → DecidedOver r g
  override r g (floor on e) off m l n = absurd (cc)
  override r g (grant off d) _ m l n = record {
    grant = d.grant;
    listed = d.listed;
    live = d.live;
    matches = some-none d.matched;
    before = d.best g m l n;
    action = ap (λ (x : EvalResult). x.action) d.result;
    id = ap (λ (x : EvalResult). x.matched_rule_id) d.result;
  }
  override r g (standing off k d) _ m l n = absurd (n (k g m l))
  override r g (default off k j e) _ m l n = absurd (n (k g m l))

  -- A live grant that matches leaves the standing rules and the defaults no say: unless the host is
  -- on the safety floor, a live grant that matches and does not come after it decides.
  pub grant_overrides_rules :
      (g : TemporaryRule)
      → is_safety_floor_host (request_host web ctx.url) ≡ false
      → Memᴰ g s.temporary_rules
      → IsLive web ctx facts g
      → match_target web ctx facts g.rule ≢ none
      → DecidedOver (evaluate web s ctx) g
  grant_overrides_rules g = override (evaluate web s ctx) g (evaluate-Verdict web s ctx)

  -- What a parent has written that opens a request.
  pub data Opening : Type 0 where
    on_floor : is_safety_floor_host (request_host web ctx.url) ≡ true → Opening
    by_grant :
        (t : TemporaryRule)
        → Memᴰ t s.temporary_rules
        → IsLive web ctx facts t
        → match_target web ctx facts t.rule ≢ none
        → t.action ≡ RuleAction.allow
        → Opening
    by_rule :
        (u : PolicyRule)
        → Memᴰ u s.rules
        → rule_applies_to_scope u.scope ctx ≡ true
        → match_target web ctx facts u ≢ none
        → u.action ≡ RuleAction.allow
        → Opening

  cause :
      (r : EvalResult)
      → Verdict web s ctx r
      → s.defaults.web_default ≡ RuleAction.block
      → s.defaults.youtube_default ≡ RuleAction.block
      → r.action ≡ RuleAction.allow
      → Opening
  cause r (floor on e) dw dy a = on_floor on
  cause r (grant off d) dw dy a =
      by_grant d.grant d.listed d.live (some-none d.matched)
        (sym (ap (λ (x : EvalResult). x.action) d.result) ∙ a)
  cause r (standing off g d) dw dy a =
      by_rule d.winner d.listed d.applies (some-none d.matched)
        (sym (ap (λ (x : EvalResult). x.action) d.result) ∙ a)
  cause r (default off g k e) dw dy a = absurd (ground (arith, ap (λ (x : EvalResult). x.action) e))

  -- DEFAULT DENY. Where both defaults block, a request is allowed only on the safety floor, or by a
  -- live grant or an applicable standing rule of the snapshot that matches it and says allow.
  pub default_deny :
      s.defaults.web_default ≡ RuleAction.block
      → s.defaults.youtube_default ≡ RuleAction.block
      → (evaluate web s ctx).action ≡ RuleAction.allow
      → Opening
  default_deny = cause (evaluate web s ctx) (evaluate-Verdict web s ctx)
