-- ===== src/Policy/Tightening.antt =====
-- Outcomes that more host names can only turn into blocks.
use ajar_family.Prelude.{
  ◌≡◌, refl, ◌∙◌, ◌⊎◌, inl, inr, List, [], ◌∷◌, ◌++◌, Bool, true, false, Option, none, some, Memᴰ,
  Option-cases,
}
use ajar_family.Prelude.Sort.{first_hit}
use ajar_family.Text.{Text, includes}
use ajar_family.Text.Laws.{Mem→includes, includes→Mem}
use ajar_family.Policy.Model.{RuleAction, EvalResult, Reason}
use ajar_family.Policy.Match.{key_if}
use ajar_family.Policy.Verdicts.{verdict_of}
use ajar_family.Policy.Evaluate.{result_if, categories_of_hosts, filter_cats}
use ajar_family.Host.{CategoryMap, categories_for_host}
use mathlib.Core.List.Memᴰ as Members

-- A second outcome is the first, or a block.
abbrev pub Tightened : Option EvalResult → Option EvalResult → Type 0
Tightened o o' = (o' ≡ o) ⊎ ((r : EvalResult) × (o' ≡ some r) × (r.action ≡ RuleAction.block))

pub first_hit-Tightened {ℓ} :
    {A : Type ℓ} (f g : A → Option EvalResult) (xs : List A)
    → ((x : A) → Memᴰ x xs → Tightened (f x) (g x))
    → Tightened (first_hit f xs) (first_hit g xs)
unfolding first_hit
first_hit-Tightened f g [] h = inl refl
first_hit-Tightened f g (x ∷ xs) h =
    here (h x (Memᴰ.head refl)) (first_hit-Tightened f g xs (λ y m. h y (Memᴰ.tail m)))
  where
    here :
        Tightened (f x) (g x)
        → Tightened (first_hit f xs) (first_hit g xs)
        → Tightened (first_hit f (x ∷ xs)) (first_hit g (x ∷ xs))
    here (inl e) rest = elim (Option-cases (f x)) [
      | inl n ↦ rw (n, e ∙ n, first_hit) rest
      | inr (r, s) ↦ inl (rw (s, e ∙ s, first_hit))
    ]
    here (inr (r, e, b)) rest = inr (r, rw (e, first_hit), b)

-- A test that can only come to hold, of a rule that blocks.
abbrev pub Grows : RuleAction → Bool → Bool → Type 0
Grows action b b' = (b' ≡ b) ⊎ ((action ≡ RuleAction.block) × (b' ≡ true))

pub Grows-of :
    {action : RuleAction} (b b' : Bool)
    → action ≡ RuleAction.block
    → (b ≡ true → b' ≡ true)
    → Grows action b b'
Grows-of true b' k h = inl (h refl)
Grows-of false true k h = inr (k, refl)
Grows-of false false k h = inl refl

module _ (inline : Option CategoryMap) (filters : Option (Text → List Text)) where
  host-categories :
      (hs : List Text) {c h : Text}
      → Memᴰ h hs
      → Memᴰ c (categories_of_hosts inline filters (h ∷ []))
      → Memᴰ c (categories_of_hosts inline filters hs)
  unfolding categories_of_hosts
  host-categories [] m k = elim m [ ]
  host-categories (g ∷ hs) {c} (Memᴰ.head e) k = widen (rw e at k)
    where
      widen :
          Memᴰ c (categories_for_host inline g ++ (filter_cats filters g ++ []))
          → Memᴰ c (categories_of_hosts inline filters (g ∷ hs))
      widen m = elim (Members.append_cases (categories_for_host inline g) m) [
        | inl a ↦
            Members.append_left (filter_cats filters g ++ categories_of_hosts inline filters hs) a
        | inr b ↦ elim (Members.append_cases (filter_cats filters g) b) [
          | inl a ↦
              Members.append_right (categories_for_host inline g)
                (Members.append_left (categories_of_hosts inline filters hs) a)
          | inr z ↦ elim z [ ]
        ]
      ]
  host-categories (g ∷ hs) (Memᴰ.tail m) k =
      Members.append_right (categories_for_host inline g)
        (Members.append_right (filter_cats filters g) (host-categories hs m k))

  categories-host :
      (hs : List Text) {c : Text}
      → Memᴰ c (categories_of_hosts inline filters hs)
      → (h : Text) × Memᴰ h hs × Memᴰ c (categories_of_hosts inline filters (h ∷ []))
  unfolding categories_of_hosts
  categories-host [] m = elim m [ ]
  categories-host (h ∷ hs) m = elim (Members.append_cases (categories_for_host inline h) m) [
    | inl a ↦ (h, Memᴰ.head refl, Members.append_left (filter_cats filters h ++ []) a)
    | inr b ↦ elim (Members.append_cases (filter_cats filters h) b) [
      | inl a ↦ (
        h,
        Memᴰ.head refl,
        Members.append_right (categories_for_host inline h) (Members.append_left [] a),
      )
      | inr k ↦ let (g, j, c) = categories-host hs k in (g, Memᴰ.tail j, c)
    ]
  ]

  -- More hosts have no fewer categories.
  pub categories_grow :
      (hs ks : List Text) (c : Text)
      → ((h : Text) → Memᴰ h hs → Memᴰ h ks)
      → includes (categories_of_hosts inline filters hs) c ≡ true
      → includes (categories_of_hosts inline filters ks) c ≡ true
  categories_grow hs ks c sub e =
      let (h, m, k) =
        categories-host hs (includes→Mem (categories_of_hosts inline filters hs) c e) in
      Mem→includes (categories_of_hosts inline filters ks) (host-categories ks (sub h m) k)

pub result_if-Tightened :
    (b b' : Bool) (label v : Text) (action : RuleAction) (reason : Reason) (id : Text)
    → Grows action b b'
    → Tightened
        (result_if (key_if b label v) action reason id)
        (result_if (key_if b' label v) action reason id)
result_if-Tightened b b' label v action reason id (inl e) = inl (rw e)
result_if-Tightened b b' label v action reason id (inr (k, e)) = rw e (
    inr (
      record {
        action = action;
        reason = reason;
        matched_rule_id = some id;
        matched_key = some (label ++ (b':' ∷ v));
      },
      refl,
      k,
    ))

pub verdict_of-Tightened :
    (d : EvalResult) {t t' r r' : Option EvalResult}
    → Tightened t t'
    → Tightened r r'
    → (verdict_of d t' r' ≡ verdict_of d t r) ⊎ ((verdict_of d t' r').action ≡ RuleAction.block)
verdict_of-Tightened d {t = some x} (inl e) h = inl (rw e)
verdict_of-Tightened d {t = none} (inl e) (inl k) = inl (rw (e, k))
verdict_of-Tightened d {t = none} (inl e) (inr (x, k, b)) = inr (rw (e, k) b)
verdict_of-Tightened d (inr (x, e, b)) h = inr (rw e b)
