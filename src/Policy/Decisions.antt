-- ===== src/Policy/Decisions.antt =====
-- What decides a request below the safety floor: the best active grant that matches, else the best
-- standing rule of the first tier with a match.
use ajar_family.Prelude.{
  ◌≡◌, ◌≢◌, refl, ◌∙◌, ◌↔◌, List, ◌∷◌, ◌++◌, Bool, true, false, ◌&&◌, Option, none, some, Memᴰ,
  filter, filter-Mem, Mem-filter, and-eq-true_iff,
}
use ajar_family.Prelude.Sort.{
  sort, first_hit, first_hit-sort, first_hit-sort-none, first_hit-eq-none, first_hit-IsFirst,
}
use ajar_family.Text.{Text}
use ajar_family.Web.{UrlApi}
use ajar_family.Policy.Model.{
  TargetType, RuleAction, PolicyRule, TemporaryRule, EvalContext, Reason, EvalResult,
}
use ajar_family.Policy.Match.{RequestFacts, match_target}
use ajar_family.Policy.Evaluate.{
  rule_applies_to_scope, is_active_temp, temp_result, rule_result, tier_hit, temp_hit, standing_hit,
  tier_order, temp_le, rule_le, same_target, result_if, TargetType-discrete,
}
use ajar_family.Policy.Ranking.{
  TempBefore, RuleBefore, temp_le_iff, rule_le_iff, temp_le-IsPreorder, rule_le-IsPreorder,
}

abbrev pub ruled : RuleAction → Reason → Text → Text → EvalResult
ruled action reason id key = record {
  action = action;
  reason = reason;
  matched_rule_id = some id;
  matched_key = some key;
}

result_if-eq-some :
    (o : Option Text) (action : RuleAction) (reason : Reason) (id : Text) {r : EvalResult}
    → result_if o action reason id ≡ some r
    → (key : Text) × (o ≡ some key) × (r ≡ ruled action reason id key)
result_if-eq-some none action reason id e = absurd (cc)
result_if-eq-some (some key) action reason id e = (key, refl, cc)

result_if-eq-none :
    (o : Option Text) (action : RuleAction) (reason : Reason) (id : Text)
    → result_if o action reason id ≡ none
    → o ≡ none
result_if-eq-none none action reason id e = refl
result_if-eq-none (some key) action reason id e = cc

none-result_if :
    (o : Option Text) (action : RuleAction) (reason : Reason) (id : Text)
    → o ≢ none
    → result_if o action reason id ≢ none
none-result_if none action reason id n e = n refl
none-result_if (some key) action reason id n e = cc

pub same_target→eq : (a b : TargetType) → same_target a b ≡ true → a ≡ b
unfolding same_target
same_target→eq a b h = split (TargetType-discrete a b) h
  where
    split : (d : Dec (a ≡ b)) → (elim d [ yes p ↦ true | no n ↦ false ]) ≡ true → a ≡ b
    split (yes p) e = p
    split (no n) e = cc

pub same_target_refl : (a : TargetType) → same_target a a ≡ true
unfolding same_target
same_target_refl a = split (TargetType-discrete a a)
  where
    split : (d : Dec (a ≡ a)) → (elim d [ yes p ↦ true | no n ↦ false ]) ≡ true
    split (yes p) = refl
    split (no n) = absurd (n refl)

-- Every target has its tier.
pub every_tier : (t : TargetType) → Memᴰ t tier_order
every_tier TargetType.url = Memᴰ.head refl
every_tier TargetType.youtube_video = Memᴰ.tail (Memᴰ.head refl)
every_tier TargetType.youtube_playlist = Memᴰ.tail (Memᴰ.tail (Memᴰ.head refl))
every_tier TargetType.youtube_channel = Memᴰ.tail (Memᴰ.tail (Memᴰ.tail (Memᴰ.head refl)))
every_tier TargetType.url_pattern = Memᴰ.tail (Memᴰ.tail (Memᴰ.tail (Memᴰ.tail (Memᴰ.head refl))))
every_tier TargetType.domain =
    Memᴰ.tail (Memᴰ.tail (Memᴰ.tail (Memᴰ.tail (Memᴰ.tail (Memᴰ.head refl)))))
every_tier TargetType.application =
    Memᴰ.tail (Memᴰ.tail (Memᴰ.tail (Memᴰ.tail (Memᴰ.tail (Memᴰ.tail (Memᴰ.head refl))))))
every_tier TargetType.category =
    Memᴰ.tail
      (Memᴰ.tail (Memᴰ.tail (Memᴰ.tail (Memᴰ.tail (Memᴰ.tail (Memᴰ.tail (Memᴰ.head refl)))))))

module _ (web : UrlApi) (ctx : EvalContext) (facts : RequestFacts) where
  -- The grants that may decide: for this child and device, and inside their window.
  pub record IsLive (t : TemporaryRule) : Type 0 where
    pub applies : rule_applies_to_scope t.scope ctx ≡ true
    pub active : is_active_temp t ctx.now_ms ≡ true

  -- A grant that decides: live, matching, and before every other live grant that matches.
  pub record DecidedByGrant (temps : List TemporaryRule) (r : EvalResult) : Type 0 where
    pub grant : TemporaryRule
    pub listed : Memᴰ grant temps
    pub live : IsLive grant
    pub key : Text
    pub matched : match_target web ctx facts grant.rule ≡ some key
    pub result : r ≡ ruled grant.action (Reason.temporary grant.grant_kind) grant.id key
    pub best :
        (t : TemporaryRule)
        → Memᴰ t temps
        → IsLive t
        → match_target web ctx facts t.rule ≢ none
        → TempBefore grant t

  -- A standing rule that decides: it applies and matches, no rule of an earlier tier does, and it
  -- comes before every other rule of its tier that does.
  pub record DecidedByRule (rules : List PolicyRule) (r : EvalResult) : Type 0 where
    pub winner : PolicyRule
    pub listed : Memᴰ winner rules
    pub applies : rule_applies_to_scope winner.scope ctx ≡ true
    pub key : Text
    pub matched : match_target web ctx facts winner ≡ some key
    pub result : r ≡ ruled winner.action (Reason.rule winner.target) winner.id key
    pub earlier : List TargetType
    pub later : List TargetType
    pub place : tier_order ≡ earlier ++ (winner.target ∷ later)
    pub silent :
        (u : PolicyRule)
        → Memᴰ u rules
        → rule_applies_to_scope u.scope ctx ≡ true
        → Memᴰ u.target earlier
        → match_target web ctx facts u ≡ none
    pub best :
        (u : PolicyRule)
        → Memᴰ u rules
        → rule_applies_to_scope u.scope ctx ≡ true
        → u.target ≡ winner.target
        → match_target web ctx facts u ≢ none
        → RuleBefore winner u

  IsLive-iff :
      (t : TemporaryRule)
      → ((rule_applies_to_scope t.scope ctx && is_active_temp t ctx.now_ms) ≡ true) ↔ IsLive t
  IsLive-iff t = (
    λ e. let (a, b) = (and-eq-true_iff _ _).0 e in record { applies = a; active = b },
    λ l. (and-eq-true_iff _ _).1 (l.applies, l.active),
  )

  unfoldable pub grant_test : TemporaryRule → Bool
  grant_test t = rule_applies_to_scope t.scope ctx && is_active_temp t ctx.now_ms

  pub temp_hit_lem :
      (temps : List TemporaryRule)
      → temp_hit web ctx facts temps
        ≡ first_hit (temp_result web ctx facts) (sort temp_le (filter grant_test temps))
  temp_hit_lem temps = unfold temp_hit grant_test in refl

  temp_result-eq-some :
      (t : TemporaryRule) {r : EvalResult}
      → temp_result web ctx facts t ≡ some r
      → (key : Text) × (match_target web ctx facts t.rule ≡ some key)
        × (r ≡ ruled t.action (Reason.temporary t.grant_kind) t.id key)
  temp_result-eq-some t e =
      result_if-eq-some (match_target web ctx facts t.rule) t.action _ t.id
        (unfold temp_result in e)

  temp_result-ne-none :
      (t : TemporaryRule)
      → match_target web ctx facts t.rule ≢ none
      → temp_result web ctx facts t ≢ none
  temp_result-ne-none t n =
      unfold temp_result in
      none-result_if (match_target web ctx facts t.rule) t.action (Reason.temporary t.grant_kind)
        t.id n

  temp_result-eq-none :
      (t : TemporaryRule)
      → temp_result web ctx facts t ≡ none
      → match_target web ctx facts t.rule ≡ none
  temp_result-eq-none t e =
      result_if-eq-none (match_target web ctx facts t.rule) t.action (Reason.temporary t.grant_kind)
        t.id (unfold temp_result in e)

  pub temp_hit-DecidedByGrant :
      (temps : List TemporaryRule) {r : EvalResult}
      → temp_hit web ctx facts temps ≡ some r
      → DecidedByGrant temps r
  temp_hit-DecidedByGrant temps e =
      let b =
        first_hit-sort (temp_result web ctx facts) temp_le temp_le-IsPreorder
          (filter grant_test temps) (rw (temp_hit_lem temps) at e) in
      let (listed, test) = filter-Mem grant_test temps b.listed in
      let (key, matched, result) = temp_result-eq-some b.winner b.hit in
      record {
        grant = b.winner;
        listed = listed;
        live = (IsLive-iff b.winner).0 (unfold grant_test in test);
        key = key;
        matched = matched;
        result = result;
        best = λ t m l n. (temp_le_iff b.winner t).0 (
            b.best t (Mem-filter grant_test temps m (unfold grant_test in (IsLive-iff t).1 l))
              (temp_result-ne-none t n));
      }

  pub temp_hit-eq-none :
      (temps : List TemporaryRule)
      → temp_hit web ctx facts temps ≡ none
      → (t : TemporaryRule) → Memᴰ t temps
      → IsLive t
      → match_target web ctx facts t.rule ≡ none
  temp_hit-eq-none temps e t m l = temp_result-eq-none t (
      first_hit-sort-none (temp_result web ctx facts) temp_le temp_le-IsPreorder
        (filter grant_test temps) (rw (temp_hit_lem temps) at e) t
        (Mem-filter grant_test temps m (unfold grant_test in (IsLive-iff t).1 l)))

  module _ (tier : TargetType) where
    rule_result-eq-some :
        (u : PolicyRule) {r : EvalResult}
        → rule_result web ctx facts tier u ≡ some r
        → (key : Text) × (match_target web ctx facts u ≡ some key)
          × (r ≡ ruled u.action (Reason.rule tier) u.id key)
    rule_result-eq-some u e =
        result_if-eq-some (match_target web ctx facts u) u.action _ u.id (unfold rule_result in e)

    rule_result-ne-none :
        (u : PolicyRule)
        → match_target web ctx facts u ≢ none
        → rule_result web ctx facts tier u ≢ none
    rule_result-ne-none u n =
        unfold rule_result in
        none-result_if (match_target web ctx facts u) u.action (Reason.rule tier) u.id n

    rule_result-eq-none :
        (u : PolicyRule)
        → rule_result web ctx facts tier u ≡ none
        → match_target web ctx facts u ≡ none
    rule_result-eq-none u e =
        result_if-eq-none (match_target web ctx facts u) u.action (Reason.rule tier) u.id
          (unfold rule_result in e)

    unfoldable pub in_tier : PolicyRule → Bool
    in_tier u = same_target u.target tier

    pub tier_hit_lem :
        (rules : List PolicyRule)
        → tier_hit web ctx facts rules tier
          ≡ first_hit (rule_result web ctx facts tier) (sort rule_le (filter in_tier rules))
    tier_hit_lem rules = unfold tier_hit in_tier in refl

    in_tier_of : (u : PolicyRule) → u.target ≡ tier → in_tier u ≡ true
    in_tier_of u e = unfold in_tier in rw e (same_target_refl tier)

    -- No rule of a tier without a hit matches.
    tier_hit-eq-none :
        (rules : List PolicyRule)
        → tier_hit web ctx facts rules tier ≡ none
        → (u : PolicyRule) → Memᴰ u rules
        → u.target ≡ tier
        → match_target web ctx facts u ≡ none
    tier_hit-eq-none rules e u m t = rule_result-eq-none u (
        first_hit-sort-none (rule_result web ctx facts tier) rule_le rule_le-IsPreorder
          (filter in_tier rules) (rw (tier_hit_lem rules) at e) u
          (Mem-filter in_tier rules m (in_tier_of u t)))

  unfoldable pub scope_test : PolicyRule → Bool
  scope_test u = rule_applies_to_scope u.scope ctx

  pub standing_hit_lem :
      (rules : List PolicyRule)
      → standing_hit web ctx facts rules
        ≡ first_hit (tier_hit web ctx facts (filter scope_test rules)) tier_order
  standing_hit_lem rules = unfold standing_hit scope_test in refl

  pub standing_hit-DecidedByRule :
      (rules : List PolicyRule) {r : EvalResult}
      → standing_hit web ctx facts rules ≡ some r
      → DecidedByRule rules r
  standing_hit-DecidedByRule rules e =
      let applicable = filter scope_test rules in
      let first =
        first_hit-IsFirst (tier_hit web ctx facts applicable) tier_order
          (rw (standing_hit_lem rules) at e) in
      let tier = first.found in
      let b =
        first_hit-sort (rule_result web ctx facts tier) rule_le rule_le-IsPreorder
          (filter (in_tier tier) applicable) (rw (tier_hit_lem tier applicable) at first.hit) in
      let (in_scope, test) = filter-Mem (in_tier tier) applicable b.listed in
      let (listed, applies) = filter-Mem scope_test rules in_scope in
      let (key, matched, result) = rule_result-eq-some tier b.winner b.hit in
      let same : b.winner.target ≡ tier =
        same_target→eq b.winner.target tier (unfold in_tier in test) in
      record {
        winner = b.winner;
        listed = listed;
        applies = unfold scope_test in applies;
        key = key;
        matched = matched;
        result = rw same result;
        earlier = first.earlier;
        later = first.later;
        place = rw same first.place;
        silent = λ u m a t.
            tier_hit-eq-none u.target applicable (first.silent u.target t) u
              (Mem-filter scope_test rules m (unfold scope_test in a)) refl;
        best = λ u m a t n. (rule_le_iff b.winner u).0 (
            b.best u
              (Mem-filter (in_tier tier) applicable
                (Mem-filter scope_test rules m (unfold scope_test in a))
                (in_tier_of tier u (t ∙ same)))
              (rule_result-ne-none tier u n));
      }

  -- Where no tier hits, no applicable rule of a listed target matches.
  pub standing_hit-eq-none :
      (rules : List PolicyRule)
      → standing_hit web ctx facts rules ≡ none
      → (u : PolicyRule) → Memᴰ u rules
      → rule_applies_to_scope u.scope ctx ≡ true
      → match_target web ctx facts u ≡ none
  standing_hit-eq-none rules e u m a =
      tier_hit-eq-none u.target (filter scope_test rules)
        (first_hit-eq-none (tier_hit web ctx facts (filter scope_test rules)) tier_order
          (rw (standing_hit_lem rules) at e) u.target (every_tier u.target))
        u (Mem-filter scope_test rules m (unfold scope_test in a)) refl
