-- ===== src/Text/Laws.antt =====
-- What the text operations satisfy.
use ajar_family.Prelude.{
  false, map, Bool, ℕ, ◌≡◌, refl, ap, ◌↔◌, inl, inr, List, [], ◌∷◌, ◌++◌, true, arith, Memᴰ,
  Bool-cases,
}
use ajar_family.Text.{
  keep_nonempty, some_char, nonempty, is_upper, unique_from, some_text, Text, same, includes,
  ends_with, lower, to_lower,
}

pub same→eq : (s t : Text) → same s t ≡ true → s ≡ t
unfolding same
same→eq [] [] h = refl
same→eq [] (d ∷ t) h = cc
same→eq (c ∷ s) [] h = cc
same→eq (c ∷ s) (d ∷ t) h = ground (arith, same→eq s t)

pub same_refl : (s : Text) → same s s ≡ true
unfolding same
same_refl [] = refl
same_refl (c ∷ s) = ground (arith, same_refl s)

pub same_iff : (s t : Text) → (same s t ≡ true) ↔ (s ≡ t)
same_iff s t = (same→eq s t, λ e. rw e (same_refl t))

pub same_comm : (s t : Text) → same s t ≡ same t s
same_comm s t = ground (arith, same_iff s t, same_iff t s)

pub includes→Mem : (ts : List Text) (s : Text) → includes ts s ≡ true → Memᴰ s ts
unfolding includes
includes→Mem [] s h = absurd (cc)
includes→Mem (t ∷ ts) s h = elim (Bool-cases (same t s)) [
  | inl e ↦ Memᴰ.head (rw (same→eq t s e))
  | inr n ↦ Memᴰ.tail (includes→Mem ts s (rw n at h))
]

pub Mem→includes : (ts : List Text) {s : Text} → Memᴰ s ts → includes ts s ≡ true
unfolding includes
Mem→includes [] m = elim m [ ]
Mem→includes (t ∷ ts) {s} (Memᴰ.head e) = rw (e, same_refl)
Mem→includes (t ∷ ts) {s} (Memᴰ.tail m) = ground (arith, Mem→includes ts m)

-- A text ends in another exactly when it is some text followed by that one.
pub ends_with→append :
    (s suffix : Text) → ends_with s suffix ≡ true → (front : Text) × (s ≡ front ++ suffix)
unfolding ends_with
ends_with→append [] suffix h = ([], same→eq [] suffix h)
ends_with→append (c ∷ s) suffix h = elim (Bool-cases (same (c ∷ s) suffix)) [
  | inl e ↦ ([], same→eq (c ∷ s) suffix e)
  | inr n ↦ let (front, e) = ends_with→append s suffix (rw n at h) in (c ∷ front, ap (◌∷◌ c) e)
]

pub ends_with-append : (front suffix : Text) → ends_with (front ++ suffix) suffix ≡ true
unfolding ends_with same
ends_with-append [] [] = refl
ends_with-append [] (c ∷ suffix) = rw same_refl
ends_with-append (c ∷ front) suffix = ground (arith, ends_with-append front suffix)

pub lower_idem : (c : ℕ) → lower (lower c) ≡ lower c
unfolding lower
lower_idem c = ground arith

pub to_lower_idem : (s : Text) → to_lower (to_lower s) ≡ to_lower s
unfolding to_lower
to_lower_idem [] = refl
to_lower_idem (c ∷ s) = cc (lower_idem c, to_lower_idem s)

pub some_text→Mem :
    (p : Text → Bool) (ws : List Text)
    → some_text p ws ≡ true
    → (w : Text) × Memᴰ w ws × (p w ≡ true)
unfolding some_text
some_text→Mem p [] h = absurd (cc)
some_text→Mem p (w ∷ ws) h = elim (Bool-cases (p w)) [
  | inl e ↦ (w, Memᴰ.head refl, e)
  | inr n ↦ let (v, m, e) = some_text→Mem p ws (rw n at h) in (v, Memᴰ.tail m, e)
]

pub Mem→some_text :
    (p : Text → Bool) (ws : List Text) {w : Text} → Memᴰ w ws → p w ≡ true → some_text p ws ≡ true
unfolding some_text
Mem→some_text p [] m h = elim m [ ]
Mem→some_text p (v ∷ ws) (Memᴰ.head e) h = rw (rw e at h)
Mem→some_text p (v ∷ ws) (Memᴰ.tail m) h = ground (arith, Mem→some_text p ws m h)

pub unique_from-Mem : (seen ts : List Text) {a : Text} → Memᴰ a (unique_from seen ts) → Memᴰ a ts
unfolding unique_from
unique_from-Mem seen [] m = m
unique_from-Mem seen (t ∷ ts) {a} m = elim (Bool-cases (includes seen t)) [
  | inl e ↦ Memᴰ.tail (unique_from-Mem seen ts (rw e at m))
  | inr n ↦ keep (rw n at m) (λ k. unique_from-Mem (t ∷ seen) ts k)
]
  where
    keep :
        Memᴰ a (t ∷ unique_from (t ∷ seen) ts)
        → (Memᴰ a (unique_from (t ∷ seen) ts) → Memᴰ a ts)
        → Memᴰ a (t ∷ ts)
    keep (Memᴰ.head e) go = Memᴰ.head e
    keep (Memᴰ.tail k) go = Memᴰ.tail (go k)

-- No text that is not seen yet is lost.
pub Mem-unique_from :
    (seen ts : List Text) {a : Text}
    → Memᴰ a ts
    → includes seen a ≡ false
    → Memᴰ a (unique_from seen ts)
unfolding unique_from
Mem-unique_from seen [] m h = elim m [ ]
Mem-unique_from seen (t ∷ ts) (Memᴰ.head e) h = rw (rw e at h) (Memᴰ.head e)
Mem-unique_from seen (t ∷ ts) {a} (Memᴰ.tail m) h = elim (Bool-cases (includes seen t)) [
  | inl e ↦ rw e (Mem-unique_from seen ts m h)
  | inr n ↦ rw n (here (λ k. Mem-unique_from (t ∷ seen) ts m k))
]
  where
    here :
        (includes (t ∷ seen) a ≡ false → Memᴰ a (unique_from (t ∷ seen) ts))
        → Memᴰ a (t ∷ unique_from (t ∷ seen) ts)
    here go = elim (Bool-cases (same t a)) [
      | inl e ↦ Memᴰ.head (rw (same→eq t a e))
      | inr n ↦ Memᴰ.tail (go (unfold includes in rw n h))
    ]

pub keep_nonempty-Mem : (ws : List Text) {a : Text} → Memᴰ a (keep_nonempty ws) → Memᴰ a ws
unfolding keep_nonempty
keep_nonempty-Mem [] m = m
keep_nonempty-Mem ([] ∷ ws) m = Memᴰ.tail (keep_nonempty-Mem ws m)
keep_nonempty-Mem ((c ∷ w) ∷ ws) (Memᴰ.head e) = Memᴰ.head e
keep_nonempty-Mem ((c ∷ w) ∷ ws) (Memᴰ.tail m) = Memᴰ.tail (keep_nonempty-Mem ws m)

pub Mem-keep_nonempty :
    (ws : List Text) {a : Text} → Memᴰ a ws → nonempty a ≡ true → Memᴰ a (keep_nonempty ws)
unfolding keep_nonempty
Mem-keep_nonempty [] m h = elim m [ ]
Mem-keep_nonempty ([] ∷ ws) (Memᴰ.head e) h = cc (rw e at h)
Mem-keep_nonempty ([] ∷ ws) (Memᴰ.tail m) h = Mem-keep_nonempty ws m h
Mem-keep_nonempty ((c ∷ w) ∷ ws) (Memᴰ.head e) h = Memᴰ.head e
Mem-keep_nonempty ((c ∷ w) ∷ ws) (Memᴰ.tail m) h = Memᴰ.tail (Mem-keep_nonempty ws m h)

pub keep_nonempty-nonempty :
    (ws : List Text) {a : Text} → Memᴰ a (keep_nonempty ws) → nonempty a ≡ true
unfolding keep_nonempty
keep_nonempty-nonempty [] m = elim m [ ]
keep_nonempty-nonempty ([] ∷ ws) m = keep_nonempty-nonempty ws m
keep_nonempty-nonempty ((c ∷ w) ∷ ws) (Memᴰ.head e) = rw e
keep_nonempty-nonempty ((c ∷ w) ∷ ws) (Memᴰ.tail m) = keep_nonempty-nonempty ws m

pub map-Mem {ℓ} :
    {B : Type ℓ} (f : B → Text) (xs : List B) {a : Text}
    → Memᴰ a (map f xs)
    → (x : B) × Memᴰ x xs × (a ≡ f x)
map-Mem f [] m = elim m [ ]
map-Mem f (x ∷ xs) (Memᴰ.head e) = (x, Memᴰ.head refl, e)
map-Mem f (x ∷ xs) (Memᴰ.tail m) = let (y, k, e) = map-Mem f xs m in (y, Memᴰ.tail k, e)

-- No character of a lower-case text is upper case.
abbrev pub has_upper : Text → Bool
has_upper s = some_char (λ c. is_upper c) s

pub has_upper-to_lower : (s : Text) → has_upper (to_lower s) ≡ false
unfolding to_lower some_char lower
has_upper-to_lower [] = refl
has_upper-to_lower (c ∷ s) = ground (arith, has_upper-to_lower s)

pub has_upper-append : (s t : Text) → has_upper t ≡ true → has_upper (s ++ t) ≡ true
unfolding some_char
has_upper-append [] t h = h
has_upper-append (c ∷ s) t h = ground (arith, has_upper-append s t)
