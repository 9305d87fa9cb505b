-- ===== src/Prelude/Sort.antt =====
-- `Array.prototype.sort`, which is stable: insertion by a comparison, and what the first hit in a
-- sorted list says of the whole list.
use mathlib.Core.Path.{◌≡◌, refl, ap}
use mathlib.Core.Logic.{◌≢◌, inl, inr}
use mathlib.Core.Bool.{Bool, true, false}
use mathlib.Core.Option.{Option, none, some}
use mathlib.Core.List.{List, [], ◌∷◌, ◌++◌, Memᴰ}
use ajar_family.Prelude.Tests.{Bool-cases, Option-cases, if◌then◌else◌}

module _ {ℓ} {A : Type ℓ} (le : A → A → Bool) where
  -- Before the first element that it does not follow.
  unfoldable pub insert : A → List A → List A
  insert x [] = x ∷ []
  insert x (y ∷ ys) = if le x y then x ∷ y ∷ ys else y ∷ insert x ys

  unfoldable pub sort : List A → List A
  unfolding insert
  sort [] = []
  sort (x ∷ xs) = insert x (sort xs)

  insert-Mem : {a x : A} (ys : List A) → Memᴰ a (insert x ys) → Memᴰ a (x ∷ ys)
  unfolding insert
  insert-Mem [] m = m
  insert-Mem {a} {x} (y ∷ ys) m = elim (Bool-cases (le x y)) [
    | inl e ↦ rw e at m
    | inr n ↦ exchange (rw n at m) (λ k. insert-Mem ys k)
  ]
    where
      exchange :
          Memᴰ a (y ∷ insert x ys) → (Memᴰ a (insert x ys) → Memᴰ a (x ∷ ys)) → Memᴰ a (x ∷ y ∷ ys)
      exchange (Memᴰ.head e) go = Memᴰ.tail (Memᴰ.head e)
      exchange (Memᴰ.tail k) go = deepen (go k)
        where
          deepen : Memᴰ a (x ∷ ys) → Memᴰ a (x ∷ y ∷ ys)
          deepen (Memᴰ.head e) = Memᴰ.head e
          deepen (Memᴰ.tail j) = Memᴰ.tail (Memᴰ.tail j)

  Mem-insert : {a x : A} (ys : List A) → Memᴰ a (x ∷ ys) → Memᴰ a (insert x ys)
  unfolding insert
  Mem-insert [] m = m
  Mem-insert {a} {x} (y ∷ ys) m = elim (Bool-cases (le x y)) [
    | inl e ↦ rw e m
    | inr n ↦ rw n (exchange m (λ k. Mem-insert ys k))
  ]
    where
      exchange :
          Memᴰ a (x ∷ y ∷ ys) → (Memᴰ a (x ∷ ys) → Memᴰ a (insert x ys)) → Memᴰ a (y ∷ insert x ys)
      exchange (Memᴰ.head e) go = Memᴰ.tail (go (Memᴰ.head e))
      exchange (Memᴰ.tail (Memᴰ.head e)) go = Memᴰ.head e
      exchange (Memᴰ.tail (Memᴰ.tail k)) go = Memᴰ.tail (go (Memᴰ.tail k))

  pub sort-Mem : {a : A} (xs : List A) → Memᴰ a (sort xs) → Memᴰ a xs
  unfolding sort
  sort-Mem [] m = m
  sort-Mem {a} (x ∷ xs) m = keep (insert-Mem (sort xs) m) (λ k. sort-Mem xs k)
    where
      keep : Memᴰ a (x ∷ sort xs) → (Memᴰ a (sort xs) → Memᴰ a xs) → Memᴰ a (x ∷ xs)
      keep (Memᴰ.head e) go = Memᴰ.head e
      keep (Memᴰ.tail k) go = Memᴰ.tail (go k)

  pub Mem-sort : {a : A} (xs : List A) → Memᴰ a xs → Memᴰ a (sort xs)
  unfolding sort
  Mem-sort [] m = m
  Mem-sort (x ∷ xs) (Memᴰ.head e) = Mem-insert (sort xs) (Memᴰ.head e)
  Mem-sort (x ∷ xs) (Memᴰ.tail m) = Mem-insert (sort xs) (Memᴰ.tail (Mem-sort xs m))

  abbrev pub IsSorted : List A → Type ℓ
  IsSorted [] = Unit
  IsSorted (x ∷ xs) = ((y : A) → Memᴰ y xs → le x y ≡ true) × IsSorted xs

  -- A comparison that orders any two, and follows through.
  pub record IsPreorder : Type ℓ where
    pub total : (a b : A) → le a b ≡ false → le b a ≡ true
    pub trans : (a b c : A) → le a b ≡ true → le b c ≡ true → le a c ≡ true

  module _ (order : IsPreorder) where
    le_refl : (a : A) → le a a ≡ true
    le_refl a = elim (Bool-cases (le a a)) [ inl e ↦ e | inr n ↦ order.total a a n ]

    insert-IsSorted : (x : A) (ys : List A) → IsSorted ys → IsSorted (insert x ys)
    unfolding insert
    insert-IsSorted x [] s = ((λ y m. elim m [ ]), tt)
    insert-IsSorted x (y ∷ ys) (h, s) = elim (Bool-cases (le x y)) [
      | inl e ↦ rw e (below e, (h, s))
      | inr n ↦ rw n (above (order.total x y n), insert-IsSorted x ys s)
    ]
      where
        below : le x y ≡ true → (z : A) → Memᴰ z (y ∷ ys) → le x z ≡ true
        below e z (Memᴰ.head q) = rw q e
        below e z (Memᴰ.tail m) = order.trans x y z e (h z m)

        pick : le y x ≡ true → (z : A) → Memᴰ z (x ∷ ys) → le y z ≡ true
        pick e z (Memᴰ.head q) = rw q e
        pick e z (Memᴰ.tail m) = h z m

        above : le y x ≡ true → (z : A) → Memᴰ z (insert x ys) → le y z ≡ true
        above e z m = pick e z (insert-Mem ys m)

    pub sort-IsSorted : (xs : List A) → IsSorted (sort xs)
    unfolding sort
    sort-IsSorted [] = tt
    sort-IsSorted (x ∷ xs) = insert-IsSorted x (sort xs) (sort-IsSorted xs)

-- The loop `for (x of xs) { const hit = f(x); if (hit) return hit; }`.
unfoldable pub first_hit {ℓ κ} : {A : Type ℓ} {B : Type κ} → (A → Option B) → List A → Option B
first_hit f [] = none
first_hit f (x ∷ xs) = elim (f x) [ some b ↦ some b | none ↦ first_hit f xs ]

module _ {ℓ κ} {A : Type ℓ} {B : Type κ} (f : A → Option B) where
  pub first_hit-eq-none : (xs : List A) → first_hit f xs ≡ none → (y : A) → Memᴰ y xs → f y ≡ none
  unfolding first_hit
  first_hit-eq-none [] e y m = elim m [ ]
  first_hit-eq-none (x ∷ xs) e y m = elim (Option-cases (f x)) [
    | inl no_hit ↦ next no_hit m (λ k. first_hit-eq-none xs (rw (no_hit, first_hit) at e) y k)
    | inr (b, hit) ↦ absurd (some-none (rw (hit, first_hit) at e))
  ]
    where
      some-none : {b : B} → some b ≡ none → ⊥
      some-none p = cc

      next : f x ≡ none → Memᴰ y (x ∷ xs) → (Memᴰ y xs → f y ≡ none) → f y ≡ none
      next n (Memᴰ.head q) go = rw q n
      next n (Memᴰ.tail k) go = go k

  pub none-first_hit : (xs : List A) → ((y : A) → Memᴰ y xs → f y ≡ none) → first_hit f xs ≡ none
  unfolding first_hit
  none-first_hit [] h = refl
  none-first_hit (x ∷ xs) h =
      rw (h x (Memᴰ.head refl), first_hit) (none-first_hit xs (λ y m. h y (Memᴰ.tail m)))

  -- The best of the elements that hit, in the order `le`.
  pub record IsBest (le : A → A → Bool) (xs : List A) (b : B) : Type (ℓ ⊔ κ) where
    pub winner : A
    pub listed : Memᴰ winner xs
    pub hit : f winner ≡ some b
    pub best : (y : A) → Memᴰ y xs → f y ≢ none → le winner y ≡ true

  module _ (le : A → A → Bool) (order : IsPreorder le) where
    first_hit-IsBest :
        (xs : List A) {b : B} → IsSorted le xs → first_hit f xs ≡ some b → IsBest le xs b
    unfolding first_hit
    first_hit-IsBest [] s e = absurd (cc)
    first_hit-IsBest (x ∷ xs) {b} (h, s) e = elim (Option-cases (f x)) [
      | inl no_hit ↦ later no_hit (first_hit-IsBest xs s (rw (no_hit, first_hit) at e))
      | inr (c, hit) ↦ record {
        winner = x;
        listed = Memᴰ.head refl;
        hit = rw hit (rw (hit, first_hit) at e);
        best = λ y m n. least y m;
      }
    ]
      where
        least : (y : A) → Memᴰ y (x ∷ xs) → le x y ≡ true
        least y (Memᴰ.head q) = rw q (le_refl le order x)
        least y (Memᴰ.tail m) = h y m

        outrank :
            f x ≡ none
            → {w : A} → ((y : A) → Memᴰ y xs → f y ≢ none → le w y ≡ true)
            → (y : A) → Memᴰ y (x ∷ xs)
            → f y ≢ none
            → le w y ≡ true
        outrank n best y (Memᴰ.head q) k = absurd (k (rw q n))
        outrank n best y (Memᴰ.tail m) k = best y m k

        later : f x ≡ none → IsBest le xs b → IsBest le (x ∷ xs) b
        later n r = record {
          winner = r.winner;
          listed = Memᴰ.tail r.listed;
          hit = r.hit;
          best = outrank n r.best;
        }

    -- What the loop over a sorted list returns comes from the best of all elements that hit.
    pub first_hit-sort : (xs : List A) {b : B} → first_hit f (sort le xs) ≡ some b → IsBest le xs b
    first_hit-sort xs e =
        let r = first_hit-IsBest (sort le xs) (sort-IsSorted le order xs) e in
        record {
          winner = r.winner;
          listed = sort-Mem le xs r.listed;
          hit = r.hit;
          best = λ y m n. r.best y (Mem-sort le xs m) n;
        }

    pub first_hit-sort-none :
        (xs : List A) → first_hit f (sort le xs) ≡ none → (y : A) → Memᴰ y xs → f y ≡ none
    first_hit-sort-none xs e y m = first_hit-eq-none (sort le xs) e y (Mem-sort le xs m)

    pub none-first_hit-sort :
        (xs : List A) → ((y : A) → Memᴰ y xs → f y ≡ none) → first_hit f (sort le xs) ≡ none
    none-first_hit-sort xs h = none-first_hit (sort le xs) (λ y m. h y (sort-Mem le xs m))

-- The loop stops at the first element that hits: none before it does.
pub record IsFirst {ℓ κ} {A : Type ℓ} {B : Type κ} (f : A → Option B) (xs : List A) (b : B)
    : Type (ℓ ⊔ κ) where
  pub earlier : List A
  pub found : A
  pub later : List A
  pub place : xs ≡ earlier ++ (found ∷ later)
  pub hit : f found ≡ some b
  pub silent : (y : A) → Memᴰ y earlier → f y ≡ none

module _ {ℓ κ} {A : Type ℓ} {B : Type κ} (f : A → Option B) where
  pub first_hit-IsFirst : (xs : List A) {b : B} → first_hit f xs ≡ some b → IsFirst f xs b
  unfolding first_hit
  first_hit-IsFirst [] e = absurd (cc)
  first_hit-IsFirst (x ∷ xs) {b} e = elim (Option-cases (f x)) [
    | inl none_here ↦ later none_here (first_hit-IsFirst xs (rw (none_here, first_hit) at e))
    | inr (c, here) ↦ record {
      earlier = [];
      found = x;
      later = xs;
      place = refl;
      hit = rw here (rw (here, first_hit) at e);
      silent = λ y m. elim m [ ];
    }
  ]
    where
      extend :
          f x ≡ none
          → {ys : List A} → ((y : A) → Memᴰ y ys → f y ≡ none)
          → (y : A) → Memᴰ y (x ∷ ys)
          → f y ≡ none
      extend n h y (Memᴰ.head q) = rw q n
      extend n h y (Memᴰ.tail m) = h y m

      later : f x ≡ none → IsFirst f xs b → IsFirst f (x ∷ xs) b
      later n r = record {
        earlier = x ∷ r.earlier;
        found = r.found;
        later = r.later;
        place = ap (λ (ys : List A). x ∷ ys) r.place;
        hit = r.hit;
        silent = extend n r.silent;
      }
