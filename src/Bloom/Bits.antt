-- ===== src/Bloom/Bits.antt =====
-- Bits of a byte array: setting one bit sets it and clears none.
use Prim.Native.Nat.{bit_and, bit_or}
use ajar_family.Prelude.{
  ℕ, zero, suc, ◌/◌, ◌%◌, ◌^◌, ◌<◌, ◌≡◌, ◌≢◌, refl, sym, ◌∙◌, Memᴰ, length-set, ◌⊎◌, inl, inr, ◌≤◌,
  List, [], ◌∷◌, Bool, true, false, ◌&&◌, not, ◌==◌, get_or, set, length, if◌then◌else◌, arith,
  Bool-cases, ==_iff, and-eq-true_iff, ap, ltb,
}
use ajar_family.Bloom.{set_bit, set_bits, is_clear, all_hit}

-- A test of every number under a bound, run by evaluation.
unfoldable passes : (ℕ → Bool) → ℕ → Bool
passes test zero = true
passes test (suc bound) = passes test bound && test bound

passes-at :
    (test : ℕ → Bool) (bound : ℕ) → passes test bound ≡ true → (k : ℕ) → k < bound → test k ≡ true
unfolding passes
passes-at test zero all k under = absurd (omega arith)
passes-at test (suc bound) all k under =
    let (earlier, last) = (and-eq-true_iff (passes test bound) (test bound)).0 all in
    elim (Bool-cases (k == bound)) [
      | inl e ↦ rw ((==_iff k bound).0 e) last
      | inr n ↦ passes-at test bound earlier k (ground (arith, n, under))
    ]

-- Bit `j` of a byte is 0.
unfoldable clear_in : ℕ → ℕ → Bool
clear_in x j = bit_and x (2 ^ j) == 0

unfoldable with_bit : ℕ → ℕ → ℕ
with_bit x i = bit_or x (2 ^ i) % 256

abbrev sets : ℕ → ℕ → Bool
sets x i = not (clear_in (with_bit x i) i)

abbrev keeps : ℕ → ℕ → ℕ → Bool
keeps x i j = if clear_in x j then true else not (clear_in (with_bit x i) j)

table : passes (λ x. passes (λ i. sets x i && passes (λ j. keeps x i j) 8) 8) 256 ≡ true
unfolding passes clear_in with_bit
table = refl

not-eq-true : (b : Bool) → not b ≡ true → b ≡ false
not-eq-true false h = refl
not-eq-true true h = sym h

module _ (x i : ℕ) (byte : x < 256) (bit : i < 8) where
  row : (sets x i && passes (λ j. keeps x i j) 8) ≡ true
  row =
      passes-at (λ i. sets x i && passes (λ j. keeps x i j) 8) 8
        (passes-at (λ x. passes (λ i. sets x i && passes (λ j. keeps x i j) 8) 8) 256 table x byte)
        i bit

  with_bit-sets : clear_in (with_bit x i) i ≡ false
  with_bit-sets = not-eq-true (clear_in (with_bit x i) i) ((and-eq-true_iff (sets x i) _).0 row).0

  with_bit-keeps : (j : ℕ) → j < 8 → clear_in x j ≡ false → clear_in (with_bit x i) j ≡ false
  with_bit-keeps j lt h =
      let kept = passes-at (λ j. keeps x i j) 8 ((and-eq-true_iff (sets x i) _).0 row).1 j lt in
      not-eq-true (clear_in (with_bit x i) j) (rw h at kept)

-- Every entry is a byte.
abbrev pub AllBytes : List ℕ → Type 0
AllBytes bits = (i : ℕ) → get_or bits i 0 < 256

get_or-set_self : (xs : List ℕ) (i v : ℕ) → i < length xs → get_or (set xs i v) i 0 ≡ v
get_or-set_self [] i v h = absurd (omega arith)
get_or-set_self (x ∷ xs) zero v h = refl
get_or-set_self (x ∷ xs) (suc i) v h = get_or-set_self xs i v (omega arith)

get_or-set_ne : (xs : List ℕ) (i j v : ℕ) → i ≢ j → get_or (set xs i v) j 0 ≡ get_or xs j 0
get_or-set_ne [] i j v h = refl
get_or-set_ne (x ∷ xs) zero zero v h = absurd (h refl)
get_or-set_ne (x ∷ xs) zero (suc j) v h = refl
get_or-set_ne (x ∷ xs) (suc i) zero v h = refl
get_or-set_ne (x ∷ xs) (suc i) (suc j) v h = get_or-set_ne xs i j v (λ e. h (ap suc e))

get_or-set_out : (xs : List ℕ) (i j v : ℕ) → length xs ≤ i → get_or (set xs i v) j 0 ≡ get_or xs j 0
get_or-set_out [] i j v h = refl
get_or-set_out (x ∷ xs) zero j v h = absurd (omega arith)
get_or-set_out (x ∷ xs) (suc i) zero v h = refl
get_or-set_out (x ∷ xs) (suc i) (suc j) v h = get_or-set_out xs i j v (omega arith)

module _ (bits : List ℕ) (idx : ℕ) (bytes : AllBytes bits) where
  abbrev new : ℕ
  new = with_bit (get_or bits (idx / 8) 0) (idx % 8)

  set_bit_lem : set_bit bits idx ≡ set bits (idx / 8) new
  set_bit_lem = unfold set_bit with_bit in refl

  new-byte : new < 256
  new-byte = unfold with_bit in omega arith

  -- Where an entry of the new array comes from.
  entry_cases :
      (j : ℕ)
      → ((j ≡ idx / 8) × (get_or (set_bit bits idx) j 0 ≡ new))
        ⊎ (get_or (set_bit bits idx) j 0 ≡ get_or bits j 0)
  entry_cases j = rw set_bit_lem (elim (Bool-cases (idx / 8 == j)) [
    | inl e ↦ elim (Bool-cases (ltb j (length bits))) [
      | inl lt ↦
          let same = (==_iff (idx / 8) j).0 e in
          inl
            (sym same, rw (← same) (get_or-set_self bits (idx / 8) new (ground (arith, same, lt))))
      | inr ge ↦
          inr (get_or-set_out bits (idx / 8) j new (ground (arith, (==_iff (idx / 8) j).0 e, ge)))
    ]
    | inr n ↦ inr (get_or-set_ne bits (idx / 8) j new (λ e. ground (arith, e, n)))
  ])

  pub set_bit-AllBytes : AllBytes (set_bit bits idx)
  set_bit-AllBytes j = elim (entry_cases j) [ inl (e, k) ↦ rw k new-byte | inr k ↦ rw k (bytes j) ]

  is_clear_lem : (bs : List ℕ) (i : ℕ) → is_clear bs i ≡ clear_in (get_or bs (i / 8) 0) (i % 8)
  is_clear_lem bs i = unfold is_clear clear_in in refl

  pub set_bit-sets : idx / 8 < length bits → is_clear (set_bit bits idx) idx ≡ false
  set_bit-sets lt =
      rw (is_clear_lem, set_bit_lem, get_or-set_self bits (idx / 8) new lt)
        (with_bit-sets (get_or bits (idx / 8) 0) (idx % 8) (bytes (idx / 8)) (omega arith))

  pub set_bit-keeps : (i : ℕ) → is_clear bits i ≡ false → is_clear (set_bit bits idx) i ≡ false
  set_bit-keeps i h =
      let was : clear_in (get_or bits (i / 8) 0) (i % 8) ≡ false = rw (is_clear_lem bits i) at h in
      rw (is_clear_lem (set_bit bits idx) i) (elim (entry_cases (i / 8)) [
        | inl (e, k) ↦ rw k (
            with_bit-keeps (get_or bits (idx / 8) 0) (idx % 8) (bytes (idx / 8)) (omega arith)
              (i % 8) (omega arith) (rw e at was))
        | inr k ↦ rw k was
      ])

pub set_bits-AllBytes : (bits idxs : List ℕ) → AllBytes bits → AllBytes (set_bits bits idxs)
unfolding set_bits
set_bits-AllBytes bits [] bytes = bytes
set_bits-AllBytes bits (i ∷ idxs) bytes =
    set_bits-AllBytes (set_bit bits i) idxs (set_bit-AllBytes bits i bytes)

pub set_bits-keeps :
    (bits idxs : List ℕ)
    → AllBytes bits
    → (i : ℕ) → is_clear bits i ≡ false
    → is_clear (set_bits bits idxs) i ≡ false
unfolding set_bits
set_bits-keeps bits [] bytes i h = h
set_bits-keeps bits (j ∷ idxs) bytes i h =
    set_bits-keeps (set_bit bits j) idxs (set_bit-AllBytes bits j bytes) i
      (set_bit-keeps bits j bytes i h)

pub length-set_bits : (bits idxs : List ℕ) → length (set_bits bits idxs) ≡ length bits
unfolding set_bits set_bit
length-set_bits bits [] = refl
length-set_bits bits (j ∷ idxs) = length-set_bits (set_bit bits j) idxs ∙ length-set bits (j / 8) _

pub set_bits-sets :
    (bits idxs : List ℕ)
    → AllBytes bits
    → ((i : ℕ) → Memᴰ i idxs → i / 8 < length bits)
    → (i : ℕ) → Memᴰ i idxs
    → is_clear (set_bits bits idxs) i ≡ false
unfolding set_bits
set_bits-sets bits [] bytes inside i m = elim m [ ]
set_bits-sets bits (j ∷ idxs) bytes inside i (Memᴰ.head e) =
    set_bits-keeps (set_bit bits j) idxs (set_bit-AllBytes bits j bytes) i
      (rw e (set_bit-sets bits j bytes (inside j (Memᴰ.head refl))))
set_bits-sets bits (j ∷ idxs) bytes inside i (Memᴰ.tail m) =
    set_bits-sets (set_bit bits j) idxs (set_bit-AllBytes bits j bytes) below i m
  where
    same_length : length (set_bit bits j) ≡ length bits
    same_length =
        unfold set_bit in
        length-set bits (j / 8) (bit_or (get_or bits (j / 8) 0) (2 ^ (j % 8)) % 256)

    below : (i : ℕ) → Memᴰ i idxs → i / 8 < length (set_bit bits j)
    below i k = rw same_length (inside i (Memᴰ.tail k))

pub all_hit-set :
    (bits idxs : List ℕ)
    → ((i : ℕ) → Memᴰ i idxs → is_clear bits i ≡ false)
    → all_hit bits idxs ≡ true
unfolding all_hit
all_hit-set bits [] h = refl
all_hit-set bits (i ∷ idxs) h =
    rw (h i (Memᴰ.head refl)) (all_hit-set bits idxs (λ j m. h j (Memᴰ.tail m)))
