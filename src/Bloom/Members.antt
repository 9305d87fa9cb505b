-- ===== src/Bloom/Members.antt =====
-- A filter finds every item that it was built over.
use Prim.Native.Nat.{bit_or}
use ajar_family.Prelude.{
  ℕ, zero, suc, ◌+◌, ◌/◌, ◌%◌, ◌^◌, ◌<◌, ◌≡◌, refl, ◌∙◌, List, [], ◌∷◌, true, false, length,
  replicate, length-replicate, Memᴰ, arith,
}
use ajar_family.Text.{Text, unique, includes}
use ajar_family.Text.Laws.{Mem-unique_from}
use ajar_family.Bloom.{
  Sizing, seed_a, seed_b, fnv1a, index_loop, indices, set_bits, add_items, params_for, build_bloom,
  bloom_hit, bloom_has, decode_bloom, is_clear,
}
use ajar_family.Bloom.Bits.{
  AllBytes, set_bits-AllBytes, set_bits-keeps, length-set_bits, set_bits-sets, all_hit-set,
}

index_loop-lt : (k i m x h : ℕ) → 0 < m → (j : ℕ) → Memᴰ j (index_loop k i m x h) → j < m
unfolding index_loop
index_loop-lt zero i m x h pos j e = elim e [ ]
index_loop-lt (suc k) i m x h pos j (Memᴰ.head e) = rw e (grind arith)
index_loop-lt (suc k) i m x h pos j (Memᴰ.tail e) =
    index_loop-lt k (i + 1) m ((x + h) % 2 ^ 32) ((h + i) % 2 ^ 32) pos j e

indices-lt : (item : Text) (m k : ℕ) → 0 < m → (j : ℕ) → Memᴰ j (indices item m k) → j < m
indices-lt item m k pos j e =
    index_loop-lt k 0 m (fnv1a item seed_a) (bit_or (fnv1a item seed_b) 1) pos j
      (unfold indices in e)

zeros-AllBytes : (n : ℕ) → AllBytes (replicate n 0)
zeros-AllBytes zero i = omega arith
zeros-AllBytes (suc n) zero = omega arith
zeros-AllBytes (suc n) (suc i) = zeros-AllBytes n i

module _ (platform : Sizing) (m k : ℕ) (positive : 0 < m) (whole : m % 8 ≡ 0) where
  abbrev add : List ℕ → List Text → List ℕ
  add bits items = add_items platform bits items m k

  pub add_items-AllBytes :
      (bits : List ℕ) (items : List Text) → AllBytes bits → AllBytes (add bits items)
  unfolding add_items
  add_items-AllBytes bits [] bytes = bytes
  add_items-AllBytes bits (item ∷ items) bytes =
      add_items-AllBytes (set_bits bits (indices item m k)) items
        (set_bits-AllBytes bits (indices item m k) bytes)

  add_items-keeps :
      (bits : List ℕ) (items : List Text)
      → AllBytes bits
      → (i : ℕ) → is_clear bits i ≡ false
      → is_clear (add bits items) i ≡ false
  unfolding add_items
  add_items-keeps bits [] bytes i h = h
  add_items-keeps bits (item ∷ items) bytes i h =
      add_items-keeps (set_bits bits (indices item m k)) items
        (set_bits-AllBytes bits (indices item m k) bytes) i
        (set_bits-keeps bits (indices item m k) bytes i h)

  add_items-sets :
      (bits : List ℕ) (items : List Text) {item : Text}
      → AllBytes bits
      → length bits ≡ m / 8
      → Memᴰ item items
      → (i : ℕ) → Memᴰ i (indices item m k)
      → is_clear (add bits items) i ≡ false
  unfolding add_items
  add_items-sets bits [] bytes size e i j = elim e [ ]
  add_items-sets bits (first ∷ items) {item} bytes size (Memᴰ.head e) i j =
      add_items-keeps (set_bits bits (indices first m k)) items
        (set_bits-AllBytes bits (indices first m k) bytes) i
        (set_bits-sets bits (indices first m k) bytes inside i (rw e at j))
    where
      inside : (i : ℕ) → Memᴰ i (indices first m k) → i / 8 < length bits
      inside i l = let lt = indices-lt first m k positive i l in rw size (omega arith)
  add_items-sets bits (first ∷ items) bytes size (Memᴰ.tail e) i j =
      add_items-sets (set_bits bits (indices first m k)) items
        (set_bits-AllBytes bits (indices first m k) bytes)
        (length-set_bits bits (indices first m k) ∙ size) e i j

module _ (platform : Sizing) (rate : platform.Rate) (n : ℕ) where
  params-positive : 0 < (params_for platform rate n).0
  unfolding params_for
  params-positive = omega arith

  params-whole : (params_for platform rate n).0 % 8 ≡ 0
  unfolding params_for
  params-whole = omega arith

module _ (platform : Sizing)
    (base64 : (bytes : List ℕ)
      → AllBytes bytes
      → platform.from_base64 (platform.to_base64 bytes) ≡ bytes)
    (rate : platform.Rate) (items : List Text) where
  abbrev m : ℕ
  m = (params_for platform rate (length (unique items))).0

  abbrev k : ℕ
  k = (params_for platform rate (length (unique items))).1

  abbrev built : List ℕ
  built = add_items platform (replicate (m / 8) 0) (unique items) m k

  positive : 0 < m
  positive = params-positive platform rate (length (unique items))

  whole : m % 8 ≡ 0
  whole = params-whole platform rate (length (unique items))

  decoded :
      decode_bloom platform (build_bloom platform rate items)
      ≡ record { m = m; k = k; bits = built }
  decoded =
      unfold build_bloom decode_bloom in
      rw (
        base64 built (
          add_items-AllBytes platform m k positive whole (replicate (m / 8) 0) (unique items)
            (zeros-AllBytes (m / 8))))

  pub bloom_hit-built :
      {item : Text}
      → Memᴰ item items
      → bloom_hit platform (decode_bloom platform (build_bloom platform rate items)) item ≡ true
  bloom_hit-built {item} e = rw decoded (
      unfold bloom_hit in
      all_hit-set built (indices item m k) (
        add_items-sets platform m k positive whole (replicate (m / 8) 0) (unique items)
          (zeros-AllBytes (m / 8)) (length-replicate (m / 8) 0)
          (Mem-unique_from [] items e (unfold includes in refl))))

  -- A filter reports every item that it was built over, at any rate and any sizing: it has no false
  -- negatives, where base64 gives byte arrays back.
  pub bloom_has-build_bloom :
      {item : Text}
      → Memᴰ item items
      → bloom_has platform (build_bloom platform rate items) item ≡ true
  bloom_has-build_bloom e = unfold bloom_has in bloom_hit-built e
