-- ===== src/Windows/Evaluate/Walks.antt =====
-- The port's walks over grants and rules stop where the shared walks stop.
use ajar_family.Prelude.{
  ◌≡◌, refl, ap, inl, inr, List, [], ◌∷◌, Bool, Option, none, some, Option-cases, filter,
}
use ajar_family.Prelude.Sort.{sort, first_hit}
use ajar_family.Text.{Text}
use ajar_family.Web.{UrlApi}
use ajar_family.Policy.Model.{
  TargetType, RuleAction, PolicyRule, TemporaryRule, EvalContext, Reason, EvalResult,
}
use ajar_family.Policy.Match.{RequestFacts}
use ajar_family.Policy.Match
use ajar_family.Policy.Evaluate.{request_host}
use ajar_family.Policy.Evaluate as Shared
use ajar_family.Windows.Evaluate as Port

-- What the port's answer leaves out: the id of a standing rule.
unfoldable pub forget_rule_id : EvalResult → EvalResult
forget_rule_id r = elim r.reason [ Reason.rule tier ↦ record r { matched_rule_id = none } | _ ↦ r ]

abbrev pub forget_option : Option EvalResult → Option EvalResult
forget_option none = none
forget_option (some r) = some (forget_rule_id r)

first_hit-agrees {ℓ κ} :
    {A : Type ℓ} {B : Type κ} (f g : A → Option B)
    → ((a : A) → f a ≡ g a)
    → (xs : List A) → first_hit f xs ≡ first_hit g xs
first_hit-agrees f g h xs = λ i. first_hit (λ a. h a i) xs

pub first_hit-forget :
    {A : Type 0} (f g : A → Option EvalResult)
    → ((a : A) → f a ≡ forget_option (g a))
    → (xs : List A) → first_hit f xs ≡ forget_option (first_hit g xs)
unfolding first_hit
first_hit-forget f g h [] = refl
first_hit-forget f g h (x ∷ xs) = elim (Option-cases (g x)) [
  | inl n ↦ rw (h x, n, first_hit) (first_hit-forget f g h xs)
  | inr (r, e) ↦ rw (h x, e, first_hit) refl
]

module _ (web : UrlApi) where
  normalize_exact_url-agrees :
      (s : Text) → Port.normalize_exact_url web s ≡ Match.normalize_exact_url web s
  normalize_exact_url-agrees s = unfold Port.normalize_exact_url Match.normalize_exact_url in refl

  matches_pattern-agrees :
      (s p : Text) → Port.matches_pattern web s p ≡ Match.matches_pattern web s p
  matches_pattern-agrees s p =
      unfold Port.matches_pattern Match.matches_pattern Port.starts_with_prefix Match.matches_prefix
        Port.normalize_exact_url Match.normalize_exact_url in
      refl

  module _ (ctx : EvalContext) (facts : RequestFacts) where
    target_hit-agrees :
        (t : TargetType) (a : RuleAction) (v : Text)
        → Port.target_hit web ctx facts t a v ≡ Match.target_matches web ctx facts t a v
    unfolding Port.target_hit Match.target_matches
    target_hit-agrees TargetType.url a v =
        rw (normalize_exact_url-agrees ctx.url, normalize_exact_url-agrees v)
    target_hit-agrees TargetType.url_pattern a v = matches_pattern-agrees ctx.url v
    target_hit-agrees TargetType.youtube_video a v = refl
    target_hit-agrees TargetType.youtube_playlist a v = refl
    target_hit-agrees TargetType.youtube_channel a v = refl
    target_hit-agrees TargetType.domain a v = refl
    target_hit-agrees TargetType.application a v = refl
    target_hit-agrees TargetType.category a v = refl

    match_target-agrees :
        (r : PolicyRule) → Port.match_target web ctx facts r ≡ Match.match_target web ctx facts r
    match_target-agrees r =
        unfold Port.match_target Match.match_target in
        ap (λ (b : Bool). Match.key_if b (Match.target_label r.target) r.value)
          (target_hit-agrees r.target r.action r.value)

    same_grant :
        (t : TemporaryRule) (o : Option Text)
        → Port.granted web ctx facts t o
          ≡ Shared.result_if o t.action (Reason.temporary t.grant_kind) t.id
    same_grant t none = refl
    same_grant t (some hit) = refl

    same_rule :
        (tier : TargetType) (r : PolicyRule) (o : Option Text)
        → Port.ruled web ctx facts tier r o
          ≡ forget_option (Shared.result_if o r.action (Reason.rule tier) r.id)
    unfolding forget_rule_id
    same_rule tier r none = refl
    same_rule tier r (some hit) = refl

    pub temp_hit-agrees :
        (ts : List TemporaryRule)
        → Port.temp_hit web ctx facts ts ≡ Shared.temp_hit web ctx facts ts
    temp_hit-agrees ts =
        unfold Port.temp_hit Shared.temp_hit Port.temp_le Shared.temp_le Shared.compare_temps
          Shared.active_temps Port.rule_applies_to_scope Shared.rule_applies_to_scope
          Port.is_active_temp Shared.is_active_temp Port.scope_specificity
          Shared.scope_specificity in
        first_hit-agrees _ _ granted (sort Shared.temp_le (Shared.active_temps web ctx facts ts))
      where
        granted :
            (t : TemporaryRule)
            → Port.granted web ctx facts t (Port.match_target web ctx facts t.rule)
              ≡ Shared.temp_result web ctx facts t
        granted t =
            rw (match_target-agrees t.rule)
              (unfold Shared.temp_result in same_grant t (Match.match_target web ctx facts t.rule))

    tier_hit-agrees :
        (rs : List PolicyRule) (tier : TargetType)
        → Port.tier_hit web ctx facts rs tier
          ≡ forget_option (Shared.tier_hit web ctx facts rs tier)
    tier_hit-agrees rs tier =
        unfold Port.tier_hit Shared.tier_hit Port.rule_le Shared.rule_le Shared.compare_rules
          Port.scope_specificity Shared.scope_specificity in
        first_hit-forget _ (Shared.rule_result web ctx facts tier) ruled
          (sort Shared.rule_le (filter (λ r. Shared.same_target r.target tier) rs))
      where
        ruled :
            (r : PolicyRule)
            → Port.ruled web ctx facts tier r (Port.match_target web ctx facts r)
              ≡ forget_option (Shared.rule_result web ctx facts tier r)
        ruled r =
            rw (match_target-agrees r)
              (unfold Shared.rule_result in same_rule tier r (Match.match_target web ctx facts r))

    pub standing_hit-agrees :
        (rs : List PolicyRule)
        → Port.standing_hit web ctx facts rs ≡ forget_option (Shared.standing_hit web ctx facts rs)
    standing_hit-agrees rs =
        unfold Port.standing_hit Shared.standing_hit Port.rule_applies_to_scope
          Shared.rule_applies_to_scope in
        let applicable : List PolicyRule =
          filter (λ r. Shared.rule_applies_to_scope r.scope ctx) rs in
        first_hit-forget _ (Shared.tier_hit web ctx facts applicable) (tier_hit-agrees applicable)
          Shared.tier_order
