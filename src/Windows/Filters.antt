-- ===== src/Windows/Filters.antt =====
-- windows/extension/background.js: the query side of the category filters.
use Prim.Native.Nat.{bit_and, bit_or, bit_xor}
use ajar_family.Prelude.{
  ℕ, zero, suc, ◌+◌, ◌*◌, ◌/◌, ◌%◌, ◌^◌, List, [], ◌∷◌, Bool, true, false, Option, none, some, ◌==◌,
  get_or, if◌then◌else◌,
}
use ajar_family.Text.{Text, some_text}
use ajar_family.Windows.Hosts.{host_candidates}

abbrev fnv_prime : ℕ
fnv_prime = 0x01000193

-- `h ^= byte; h = Math.imul(h, _FNV_PRIME) >>> 0`
unfoldable pub fnv1a : List ℕ → ℕ → ℕ
fnv1a [] h = h % 2 ^ 32
fnv1a (byte ∷ bytes) h = fnv1a bytes (bit_xor h byte * fnv_prime % 2 ^ 32)

-- The loop of `_bloomIndices`, by the rounds that are left.
unfoldable pub probes : ℕ → ℕ → ℕ → ℕ → ℕ → List ℕ
probes zero i m x h = []
probes (suc rounds) i m x h =
    (x % m) ∷ probes rounds (i + 1) m ((x + h) % 2 ^ 32) ((h + i) % 2 ^ 32)

unfoldable pub bloom_indices : Text → ℕ → ℕ → List ℕ
unfolding fnv1a probes
bloom_indices bytes m k = probes k 0 m (fnv1a bytes 0x811c9dc5) (bit_or (fnv1a bytes 0x85ebca77) 1)

pub record Filter : Type 0 where
  pub m : ℕ
  pub k : ℕ
  pub bits : List ℕ

-- `(bits[idx >>> 3] & (1 << (idx & 7))) === 0`; a byte out of range is undefined, and no bit.
unfoldable pub bit_is_clear : List ℕ → ℕ → Bool
bit_is_clear bits idx = bit_and (get_or bits (idx / 8) 0) (2 ^ (idx % 8)) == 0

unfoldable pub all_set : List ℕ → List ℕ → Bool
unfolding bit_is_clear
all_set bits [] = true
all_set bits (idx ∷ rest) = if bit_is_clear bits idx then false else all_set bits rest

unfoldable pub filter_hit : Filter → Text → Bool
unfolding bloom_indices all_set
filter_hit f cand = all_set f.bits (bloom_indices cand f.m f.k)

abbrev pub FilterSet : Type 0
FilterSet = List (Text × Filter)

unfoldable pub hit_categories : List Text → FilterSet → List Text
unfolding filter_hit some_text
hit_categories cands [] = []
hit_categories cands ((cat, f) ∷ rest) =
    let others = hit_categories cands rest in
    if some_text (λ cand. filter_hit f cand) cands then cat ∷ others else others

unfoldable pub categories_from_filters : Option FilterSet → Text → List Text
unfolding hit_categories host_candidates
categories_from_filters none host = []
categories_from_filters (some filters) host = hit_categories (host_candidates host) filters
