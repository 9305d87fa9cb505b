-- ===== src/Bloom.antt =====
-- shared/categories/bloom.ts: category membership in a few bits for each domain. The logarithms that
-- size a filter and the base64 coding are the platform's.
pub mod Bits
pub mod Members
use Prim.Native.Nat.{bit_and, bit_or, bit_xor}
use ajar_family.Prelude.{
  ℕ, zero, suc, ◌+◌, ◌*◌, ◌/◌, ◌%◌, ◌^◌, max, List, [], ◌∷◌, Bool, true, false, ◌==◌, get_or, set,
  length, replicate, if◌then◌else◌,
}
use ajar_family.Text.{Text, unique, unique_from, includes, some_text}
use ajar_family.Host.{host_candidates}

abbrev pub fnv_prime : ℕ
fnv_prime = 0x01000193

abbrev pub seed_a : ℕ
seed_a = 0x811c9dc5

abbrev pub seed_b : ℕ
seed_b = 0x85ebca77

-- `h ^= byte; h = Math.imul(h, FNV_PRIME) >>> 0`
unfoldable pub fnv1a : List ℕ → ℕ → ℕ
fnv1a [] h = h % 2 ^ 32
fnv1a (byte ∷ bytes) h = fnv1a bytes (bit_xor h byte * fnv_prime % 2 ^ 32)

-- The loop of `indices`, by the rounds that are left.
unfoldable pub index_loop : ℕ → ℕ → ℕ → ℕ → ℕ → List ℕ
index_loop zero i m x h2 = []
index_loop (suc rounds) i m x h2 =
    (x % m) ∷ index_loop rounds (i + 1) m ((x + h2) % 2 ^ 32) ((h2 + i) % 2 ^ 32)

-- A text of ASCII characters is its own UTF-8 coding.
unfoldable pub indices : Text → ℕ → ℕ → List ℕ
unfolding fnv1a index_loop
indices bytes m k = index_loop k 0 m (fnv1a bytes seed_a) (bit_or (fnv1a bytes seed_b) 1)

pub record SerializedBloom : Type 0 where
  pub m : ℕ
  pub k : ℕ
  pub n : ℕ
  pub bits : Text

-- A filter with its bits decoded.
pub record DecodedBloom : Type 0 where
  pub m : ℕ
  pub k : ℕ
  pub bits : List ℕ

-- `bits[idx >>> 3] |= 1 << (idx & 7)`, in an array of bytes.
unfoldable pub set_bit : List ℕ → ℕ → List ℕ
set_bit bits idx = set bits (idx / 8) (bit_or (get_or bits (idx / 8) 0) (2 ^ (idx % 8)) % 256)

unfoldable pub set_bits : List ℕ → List ℕ → List ℕ
unfolding set_bit
set_bits bits [] = bits
set_bits bits (idx ∷ rest) = set_bits (set_bit bits idx) rest

-- `(bits[idx >>> 3] & (1 << (idx & 7))) === 0`; past the end there is no bit.
unfoldable pub is_clear : List ℕ → ℕ → Bool
is_clear bits idx = bit_and (get_or bits (idx / 8) 0) (2 ^ (idx % 8)) == 0

unfoldable pub all_hit : List ℕ → List ℕ → Bool
unfolding is_clear
all_hit bits [] = true
all_hit bits (idx ∷ rest) = if is_clear bits idx then false else all_hit bits rest

-- What a platform computes: false-positive rates, the bits for n items at a rate, rounded up, the
-- hashes for m bits and n items, rounded, and base64.
pub record Sizing : Type 1 where
  pub Rate : Type 0
  -- `1 - Math.pow(1 - TARGET_AGGREGATE_FP, 1 / trials)`
  pub rate_for : ℕ → Rate
  pub bits_for : Rate → ℕ → ℕ
  pub hashes_for : ℕ → ℕ → ℕ
  pub to_base64 : List ℕ → Text
  pub from_base64 : Text → List ℕ

module _ (platform : Sizing) where
  open platform use {Rate, bits_for, hashes_for, to_base64, from_base64}

  -- `m`, a multiple of 8 that is at least 8, and `k`, at least 1.
  unfoldable pub params_for : Rate → ℕ → ℕ × ℕ
  params_for rate n =
      let nn = max 1 n in
      let m = max 8 ((bits_for rate nn + 7) / 8 * 8) in (m, max 1 (hashes_for m nn))

  unfoldable pub add_items : List ℕ → List Text → ℕ → ℕ → List ℕ
  unfolding set_bits indices
  add_items bits [] m k = bits
  add_items bits (item ∷ items) m k = add_items (set_bits bits (indices item m k)) items m k

  unfoldable pub build_bloom : Rate → List Text → SerializedBloom
  unfolding params_for add_items unique_from
  build_bloom rate items =
      let uniq = unique items in
      let m = (params_for rate (length uniq)).0 in
      let k = (params_for rate (length uniq)).1 in
      record {
        m = m;
        k = k;
        n = length uniq;
        bits = to_base64 (add_items (replicate (m / 8) 0) uniq m k);
      }

  unfoldable pub decode_bloom : SerializedBloom → DecodedBloom
  decode_bloom f = record { m = f.m; k = f.k; bits = from_base64 f.bits }

  unfoldable pub bloom_hit : DecodedBloom → Text → Bool
  unfolding all_hit indices
  bloom_hit f item = all_hit f.bits (indices item f.m f.k)

  unfoldable pub bloom_has : SerializedBloom → Text → Bool
  unfolding bloom_hit decode_bloom
  bloom_has f item = bloom_hit (decode_bloom f) item

  -- `CategoryFilters`: the constructor, and `categoriesForHost` on the decoded filters.
  unfoldable pub decode_filters : List (Text × SerializedBloom) → List (Text × DecodedBloom)
  unfolding decode_bloom
  decode_filters [] = []
  decode_filters ((cat, f) ∷ rest) = (cat, decode_bloom f) ∷ decode_filters rest

  unfoldable pub hit_by : List Text → List (Text × DecodedBloom) → List Text
  unfolding bloom_hit some_text
  hit_by cands [] = []
  hit_by cands ((cat, f) ∷ rest) =
      let others = hit_by cands rest in
      if some_text (λ cand. bloom_hit f cand) cands then cat ∷ others else others

  unfoldable pub filtered_categories : List (Text × SerializedBloom) → Text → List Text
  unfolding hit_by decode_filters host_candidates
  filtered_categories filters host = hit_by (host_candidates host) (decode_filters filters)
