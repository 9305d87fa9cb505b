-- ===== src/Windows/Evaluate/Agreement.antt =====
-- The port decides as the shared evaluator does.
use ajar_family.Prelude.{
  ◌≡◌, refl, sym, ◌∙◌, inl, inr, List, [], ◌∷◌, Bool, true, false, Option, none, some, Bool-cases,
  and-eq-true_iff,
}
use ajar_family.Prelude.Sort.{sort}
use ajar_family.Text.{Text, all_texts}
use ajar_family.Web.{UrlApi}
use ajar_family.Safety as Floor
use ajar_family.Policy.Model.{
  TemporaryRule, DefaultPolicy, DevicePolicySnapshot, EvalContext, Reason, EvalResult,
}
use ajar_family.Policy.Match.{RequestFacts}
use ajar_family.Policy.Match
use ajar_family.Policy.Evaluate.{request_host}
use ajar_family.Policy.Evaluate as Shared
use ajar_family.Windows.Hosts.Agreement.{
  is_settled, optional_listed, categories_for_host-agrees, is_safety_floor_host-agrees,
}
use ajar_family.Windows.YouTube.Agreement.{normalize_you_tube-agrees}
use ajar_family.Windows.Filters.{FilterSet, categories_from_filters}
use ajar_family.Windows.Evaluate as Port
use ajar_family.Policy.Verdicts.{evaluate_lem, verdict_of}
use ajar_family.Windows.Evaluate.Walks.{
  forget_rule_id, forget_option, first_hit-forget, temp_hit-agrees, standing_hit-agrees,
}

module _ (web : UrlApi) (filters : Option FilterSet) (s : DevicePolicySnapshot)
    (ctx : EvalContext) where
  -- The shared evaluator asks the same filters.
  abbrev pub with_filters : EvalContext
  with_filters = record ctx { category_filters = some (categories_from_filters filters) }

  cats_of_hosts-agrees :
      (hs : List Text)
      → all_texts is_settled hs ≡ true
      → optional_listed s.categories ≡ true
      → Port.cats_of_hosts web filters s ctx hs
        ≡ Shared.categories_of_hosts s.categories with_filters.category_filters hs
  unfolding Port.cats_of_hosts Shared.categories_of_hosts all_texts
  cats_of_hosts-agrees [] settled listed = refl
  cats_of_hosts-agrees (h ∷ hs) settled listed =
      let (here, rest) = (and-eq-true_iff (is_settled h) _).0 settled in
      rw
        (categories_for_host-agrees h here s.categories listed, cats_of_hosts-agrees hs rest listed)

  module _
      (settled : all_texts is_settled (request_host web ctx.url ∷ Port.request_hosts web ctx)
        ≡ true)
      (listed : optional_listed s.categories ≡ true) where
    request_facts-agrees :
        Port.request_facts web filters s ctx ≡ Shared.request_facts web s with_filters
    request_facts-agrees =
        let (host, hosts) =
          (and-eq-true_iff (is_settled (request_host web ctx.url))
              (all_texts is_settled (Port.request_hosts web ctx))).0
            (unfold all_texts in settled) in
        unfold Port.request_facts Shared.request_facts in
        rw
          (
            normalize_you_tube-agrees web ctx.url,
            cats_of_hosts-agrees (Port.request_hosts web ctx) hosts listed,
          )
          (unfold Port.request_hosts Shared.request_hosts in refl)

    same_evaluate : Port.evaluate web filters s ctx ≡ Port.evaluate web filters s with_filters
    same_evaluate =
        unfold Port.evaluate Port.temp_hit Port.standing_hit Port.tier_hit Port.match_target
          Port.target_hit Port.rule_applies_to_scope Port.request_facts Port.request_hosts
          Port.cats_of_hosts in
        refl

    on_the_floor-agrees :
        Port.is_safety_floor_host (request_host web ctx.url)
        ≡ Floor.is_safety_floor_host (request_host web ctx.url)
    unfolding all_texts
    on_the_floor-agrees =
        is_safety_floor_host-agrees (request_host web ctx.url)
          ((and-eq-true_iff (is_settled (request_host web ctx.url)) _).0 settled).0

grant_keeps_id :
    (web : UrlApi) (ctx : EvalContext) (facts : RequestFacts) (ts : List TemporaryRule)
    → Shared.temp_hit web ctx facts ts ≡ forget_option (Shared.temp_hit web ctx facts ts)
grant_keeps_id web ctx facts ts =
    unfold Shared.temp_hit in
    first_hit-forget _ (Shared.temp_result web ctx facts) kept
      (sort Shared.temp_le (Shared.active_temps web ctx facts ts))
  where
    id_kept :
        (t : TemporaryRule) (o : Option Text)
        → Shared.result_if o t.action (Reason.temporary t.grant_kind) t.id
          ≡ forget_option (Shared.result_if o t.action (Reason.temporary t.grant_kind) t.id)
    id_kept t none = refl
    id_kept t (some hit) = unfold forget_rule_id in refl

    kept :
        (t : TemporaryRule)
        → Shared.temp_result web ctx facts t ≡ forget_option (Shared.temp_result web ctx facts t)
    kept t = unfold Shared.temp_result in id_kept t (Match.match_target web ctx facts t.rule)

walk_lem :
    (d : EvalResult) (t u : Option EvalResult)
    → (elim t [ some r ↦ r | none ↦ elim u [ some r ↦ r | none ↦ d ] ]) ≡ verdict_of d t u
walk_lem d (some r) u = refl
walk_lem d none (some r) = refl
walk_lem d none none = refl

forget_verdict :
    (d : EvalResult) (t u : Option EvalResult)
    → t ≡ forget_option t
    → forget_rule_id d ≡ d
    → verdict_of d t (forget_option u) ≡ forget_rule_id (verdict_of d t u)
forget_verdict d (some r) u e k = cc e
forget_verdict d none (some r) e k = refl
forget_verdict d none none e k = sym k

default_kept :
    (d : DefaultPolicy) (yt : Bool)
    → forget_rule_id (Shared.by_default d yt) ≡ Shared.by_default d yt
unfolding forget_rule_id
default_kept d true = refl
default_kept d false = refl

pub port_evaluate_lem :
    (web : UrlApi) (filters : Option FilterSet) (s : DevicePolicySnapshot) (ctx : EvalContext)
    → Port.is_safety_floor_host (request_host web ctx.url) ≡ false
    → Port.evaluate web filters s ctx
      ≡ verdict_of
          (Shared.by_default s.defaults (Port.request_facts web filters s ctx).youtube.is_youtube)
          (Port.temp_hit web ctx (Port.request_facts web filters s ctx) s.temporary_rules)
          (Port.standing_hit web ctx (Port.request_facts web filters s ctx) s.rules)
port_evaluate_lem web filters s ctx off =
    unfold Port.evaluate in
    rw off (
      walk_lem
        (Shared.by_default s.defaults (Port.request_facts web filters s ctx).youtube.is_youtube)
        (Port.temp_hit web ctx (Port.request_facts web filters s ctx) s.temporary_rules)
        (Port.standing_hit web ctx (Port.request_facts web filters s ctx) s.rules))

module _ (web : UrlApi) (filters : Option FilterSet) (s : DevicePolicySnapshot) (ctx : EvalContext)
    (settled : all_texts is_settled (request_host web ctx.url ∷ Port.request_hosts web ctx) ≡ true)
    (listed : optional_listed s.categories ≡ true) where
  off_the_floor :
      Floor.is_safety_floor_host (request_host web ctx.url) ≡ false
      → Port.evaluate web filters s ctx
        ≡ forget_rule_id (Shared.evaluate web s (with_filters web filters s ctx))
  off_the_floor off =
      let c = with_filters web filters s ctx in
      let f = Shared.request_facts web s c in
      let hosts : Port.request_hosts web c ≡ Port.request_hosts web ctx =
        unfold Port.request_hosts in refl in
      let facts = request_facts-agrees web filters s c (rw hosts settled) listed in
      let port_off = on_the_floor-agrees web filters s ctx settled listed ∙ off in
      rw
        (
          same_evaluate web filters s ctx settled listed,
          port_evaluate_lem web filters s c port_off,
          facts,
          temp_hit-agrees web c f s.temporary_rules,
          standing_hit-agrees web c f s.rules,
          evaluate_lem web s c off,
        )
        (forget_verdict (Shared.by_default s.defaults f.youtube.is_youtube)
          (Shared.temp_hit web c f s.temporary_rules) (Shared.standing_hit web c f s.rules)
          (grant_keeps_id web c f s.temporary_rules) (default_kept s.defaults f.youtube.is_youtube))

  -- Where the hosts of a request are settled and the inline lists hold domains in normal form of two
  -- labels or more, the extension's evaluator answers as the shared one that asks the same filters
  -- does, except that it leaves out the id of a standing rule.
  pub evaluate-agrees :
      Port.evaluate web filters s ctx
      ≡ forget_rule_id (Shared.evaluate web s (with_filters web filters s ctx))
  evaluate-agrees = elim (Bool-cases (Floor.is_safety_floor_host (request_host web ctx.url))) [
    | inl on ↦
        unfold Port.evaluate Shared.evaluate in
        rw (on_the_floor-agrees web filters s ctx settled listed, on)
          (unfold forget_rule_id in refl)
    | inr off ↦ off_the_floor off
  ]
