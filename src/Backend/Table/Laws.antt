-- ===== src/Backend/Table/Laws.antt =====
-- Laws of tables.
use ajar_family.Prelude.{
  ◌≡◌, ◌≢◌, refl, inl, inr, [], ◌∷◌, Memᴰ, Bool, true, false, none, some, Bool-cases, if-elim,
  if◌then◌else◌,
}
use ajar_family.Text.{Text, same}
use ajar_family.Text.Laws.{same→eq, same_refl}
use ajar_family.Backend.Table.{Table, get, put, find, values, update_where, remove, remove_where}

module _ {ℓ} {A : Type ℓ} where
  pub get-put : (t : Table A) (key : Text) (v : A) → get (put t key v) key ≡ some v
  unfolding get put
  get-put [] key v = rw (same_refl key)
  get-put ((k, w) ∷ t) key v = elim (Bool-cases (same k key)) [
    | inl e ↦ rw (e, e)
    | inr n ↦ rw (n, n) (get-put t key v)
  ]

  pub get-put_other :
      (t : Table A) (key other : Text) (v : A)
      → same key other ≡ false
      → get (put t key v) other ≡ get t other
  unfolding get put
  get-put_other [] key other v n = rw n
  get-put_other ((k, w) ∷ t) key other v n = elim (Bool-cases (same k key)) [
    | inl e ↦ let m : same k other ≡ false = rw (same→eq k key e) n in rw (e, m)
    | inr m ↦ rw (m, get-put_other t key other v n)
  ]

  -- Every key stands once, and is the id of its entry.
  abbrev pub Keyed : (A → Text) → Table A → Type ℓ
  Keyed id [] = Unit
  Keyed id ((k, v) ∷ t) = (k ≡ id v) × (get t k ≡ none) × Keyed id t

  pub get-Keyed :
      (id : A → Text) (t : Table A) (key : Text) {v : A}
      → Keyed id t
      → get t key ≡ some v
      → id v ≡ key
  unfolding get
  get-Keyed id [] key d e = absurd (cc e)
  get-Keyed id ((k, u) ∷ t) key {v} (i, a, d) e = elim (Bool-cases (same k key)) [
    | inl y ↦ let p : u ≡ v = cc (rw y at e) in rw (← p, ← i) (same→eq k key y)
    | inr n ↦ get-Keyed id t key d (rw n at e)
  ]

  find-get :
      (id : A → Text) (p : A → Bool) (t : Table A) {v : A}
      → Keyed id t
      → find p t ≡ some v
      → get t (id v) ≢ none
  unfolding find get
  find-get id p [] d e = absurd (cc e)
  find-get id p ((k, u) ∷ t) {v} (i, a, d) e = elim (Bool-cases (p u)) [
    | inl y ↦ here (rw y at e)
    | inr n ↦ there (find-get id p t d (rw n at e))
  ]
    where
      here : some u ≡ some v → (if same k (id v) then some u else get t (id v)) ≢ none
      here f = let g : u ≡ v = cc f in rw (i, g, same_refl) (λ z. cc z)

      there : get t (id v) ≢ none → (if same k (id v) then some u else get t (id v)) ≢ none
      there f = if-elim (λ o. o ≢ none) (same k (id v)) (λ _ z. cc z) (λ _. f)

  -- To replace the entry that a search finds is to find what replaced it.
  pub find-put :
      (id : A → Text) (p : A → Bool) (t : Table A) {v : A} (w : A)
      → Keyed id t
      → find p t ≡ some v
      → p w ≡ true
      → find p (put t (id v) w) ≡ some w
  unfolding find put
  find-put id p [] w d e q = absurd (cc e)
  find-put id p ((k, u) ∷ t) {v} w (i, a, d) e q = elim (Bool-cases (p u)) [
    | inl y ↦ here (rw y at e)
    | inr n ↦ elim (Bool-cases (same k (id v))) [
      | inl s ↦ absurd (find-get id p t d (rw n at e) (rw (← same→eq k (id v) s) a))
      | inr m ↦ rw (m, n) (find-put id p t w d (rw n at e) q)
    ]
  ]
    where
      here :
          some u ≡ some v
          → find p (if same k (id v) then (k, w) ∷ t else (k, u) ∷ put t (id v) w) ≡ some w
      here f = let g : u ≡ v = cc f in rw (i, g, same_refl, q)

module _ {ℓ} {A : Type ℓ} (p : A → Bool) where
  -- A search that found nothing finds what is stored next, under whatever key.
  pub find-put_new :
      (t : Table A) (key : Text) {v : A}
      → find p t ≡ none
      → p v ≡ true
      → find p (put t key v) ≡ some v
  unfolding find put
  find-put_new [] key e h = rw h refl
  find-put_new ((k, u) ∷ t) key {v} e h = elim (Bool-cases (p u)) [
    | inl y ↦ absurd (cc (rw y at e))
    | inr n ↦ elim (Bool-cases (same k key)) [
      | inl s ↦ rw (s, h) refl
      | inr m ↦ rw (m, n) (find-put_new t key (rw n at e) h)
    ]
  ]

  pub find-IsTrue : (t : Table A) {v : A} → find p t ≡ some v → p v ≡ true
  unfolding find
  find-IsTrue [] e = absurd (cc e)
  find-IsTrue ((k, u) ∷ t) {v} e = elim (Bool-cases (p u)) [
    | inl y ↦ let q : u ≡ v = cc (rw y at e) in rw (← q) y
    | inr n ↦ find-IsTrue t (rw n at e)
  ]

-- What an update does to an entry.
abbrev pub updated {ℓ} : {A : Type ℓ} → (A → Bool) → (A → A) → A → A
updated q f v = if q v then f v else v

module _ {ℓ} {A : Type ℓ} (q : A → Bool) (f : A → A) where
  -- A search that the update does not disturb finds the entry that it found before, updated.
  pub find-update_where :
      (p : A → Bool)
      → ((v : A) → p (f v) ≡ p v)
      → (t : Table A) {v : A} → find p t ≡ some v
      → find p (update_where q f t) ≡ some (updated q f v)
  unfolding find update_where
  find-update_where p calm [] e = absurd (cc e)
  find-update_where p calm ((k, u) ∷ t) {v} e = elim (Bool-cases (p u)) [
    | inl y ↦ let g : u ≡ v = cc (rw y at e) in rw (undisturbed, y) (rw g refl)
    | inr n ↦ rw (undisturbed, n) (find-update_where p calm t (rw n at e))
  ]
    where
      undisturbed : p (if q u then f u else u) ≡ p u
      undisturbed = if-elim (λ (w : A). p w ≡ p u) (q u) (λ b. calm u) (λ b. refl)

  pub values-update_where :
      (t : Table A) {v : A}
      → Memᴰ v (values (update_where q f t))
      → (w : A) × Memᴰ w (values t) × (v ≡ updated q f w)
  unfolding values update_where
  values-update_where [] m = elim m [ ]
  values-update_where ((k, u) ∷ t) (Memᴰ.head e) = (u, Memᴰ.head refl, e)
  values-update_where ((k, u) ∷ t) (Memᴰ.tail m) =
      let (w, l, e) = values-update_where t m in (w, Memᴰ.tail l, e)

module _ {ℓ} {A : Type ℓ} where
  get-remove-eq-none : (t : Table A) (k key : Text) → get t key ≡ none → get (remove t k) key ≡ none
  unfolding get remove
  get-remove-eq-none [] k key e = refl
  get-remove-eq-none ((j, v) ∷ t) k key e = elim (Bool-cases (same j key)) [
    | inl y ↦ absurd (cc (rw y at e))
    | inr n ↦
        let rest = get-remove-eq-none t k key (rw n at e) in
        if-elim (λ (u : Table A). get u key ≡ none) (same j k) (λ b. rest) (λ b. rw n rest)
  ]

  pub get-remove : (t : Table A) (key : Text) → get (remove t key) key ≡ none
  unfolding get remove
  get-remove [] key = refl
  get-remove ((j, v) ∷ t) key = elim (Bool-cases (same j key)) [
    | inl y ↦ rw y (get-remove t key)
    | inr n ↦ rw (n, n) (get-remove t key)
  ]

  pub remove-Keyed : (id : A → Text) (t : Table A) (k : Text) → Keyed id t → Keyed id (remove t k)
  unfolding remove
  remove-Keyed id [] k d = tt
  remove-Keyed id ((j, v) ∷ t) k (i, a, d) =
      let rest = remove-Keyed id t k d in
      if-elim (Keyed id) (same j k) (λ b. rest) (λ b. (i, get-remove-eq-none t k j a, rest))

  -- What is left after a removal was there, under another id.
  pub values-remove :
      (id : A → Text) (t : Table A) (k : Text) {v : A}
      → Keyed id t
      → Memᴰ v (values (remove t k))
      → Memᴰ v (values t) × (same (id v) k ≡ false)
  unfolding values remove
  values-remove id [] k d m = elim m [ ]
  values-remove id ((j, u) ∷ t) k {v} (i, a, d) m = elim (Bool-cases (same j k)) [
    | inl y ↦ let (l, e) = values-remove id t k d (rw y at m) in (Memᴰ.tail l, e)
    | inr n ↦ here n (rw n at m) (λ l. values-remove id t k d l)
  ]
    where
      here :
          same j k ≡ false
          → Memᴰ v (u ∷ values (remove t k))
          → (Memᴰ v (values (remove t k)) → Memᴰ v (values t) × (same (id v) k ≡ false))
          → Memᴰ v (u ∷ values t) × (same (id v) k ≡ false)
      here n (Memᴰ.head e) go = (Memᴰ.head e, rw (e, ← i) n)
      here n (Memᴰ.tail l) go = let (k, e) = go l in (Memᴰ.tail k, e)

  -- An entry is found under its id.
  pub get-values :
      (id : A → Text) (t : Table A) {v : A} → Keyed id t → Memᴰ v (values t) → get t (id v) ≡ some v
  unfolding get values
  get-values id [] d m = elim m [ ]
  get-values id ((j, u) ∷ t) (i, a, d) (Memᴰ.head e) = rw (e, i, same_refl) refl
  get-values id ((j, u) ∷ t) {v} (i, a, d) (Memᴰ.tail m) =
      let found = get-values id t d m in
      elim (Bool-cases (same j (id v))) [
        | inl y ↦ absurd (cc (a, found, same→eq j (id v) y))
        | inr n ↦ rw n found
      ]

  pub values-remove_where :
      (p : A → Bool) (t : Table A) {v : A} → Memᴰ v (values (remove_where p t)) → p v ≡ false
  unfolding values remove_where
  values-remove_where p [] m = elim m [ ]
  values-remove_where p ((j, u) ∷ t) {v} m = elim (Bool-cases (p u)) [
    | inl y ↦ values-remove_where p t (rw y at m)
    | inr n ↦ here n (rw n at m) (λ l. values-remove_where p t l)
  ]
    where
      here :
          p u ≡ false
          → Memᴰ v (u ∷ values (remove_where p t))
          → (Memᴰ v (values (remove_where p t)) → p v ≡ false)
          → p v ≡ false
      here n (Memᴰ.head e) go = rw e n
      here n (Memᴰ.tail l) go = go l
