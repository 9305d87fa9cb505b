-- ===== src/Backend/Categories/Coverage.antt =====
-- The compiled filters stand in for the lists: they report every category that the lists give.
use ajar_family.Prelude.{
  ℕ, ◌*◌, max, length, ◌≡◌, refl, sym, ◌∙◌, if-elim, inl, inr, map, List, [], ◌∷◌, Bool, true,
  false, some, Memᴰ, Bool-cases, arith,
}
use ajar_family.Text.{Text, includes, some_text, nonempty}
use ajar_family.Text.Laws.{some_text→Mem, Mem→some_text, includes→Mem}
use ajar_family.Host.{
  CategoryMap, normalize_host, host_candidates, matching_categories, categories_for_host,
}
use ajar_family.Safety.{is_safety_floor_host}
use ajar_family.Bloom.{
  Sizing, SerializedBloom, build_bloom, decode_bloom, decode_filters, hit_by, bloom_hit,
  filtered_categories,
}
use ajar_family.Bloom.Bits.{AllBytes}
use ajar_family.Bloom.Members.{bloom_hit-built}
use ajar_family.Backend.Categories.{Compiled, add_filter, compile_each, compile_filters}

abbrev is_compiled : Compiled → Bool
is_compiled (Compiled.compiled fs) = true
is_compiled (Compiled.leaked cat) = false

Mem-map : (f : Text → Text) (ds : List Text) {d : Text} → Memᴰ d ds → Memᴰ (f d) (map f ds)
Mem-map f [] m = elim m [ ]
Mem-map f (e ∷ ds) (Memᴰ.head h) = Memᴰ.head (rw h)
Mem-map f (e ∷ ds) (Memᴰ.tail m) = Memᴰ.tail (Mem-map f ds m)

add_filter-eq-compiled :
    (cat : Text) (f : SerializedBloom) (c : Compiled) {fs : List (Text × SerializedBloom)}
    → add_filter cat f c ≡ Compiled.compiled fs
    → (rest : List (Text × SerializedBloom)) × (c ≡ Compiled.compiled rest) × (fs ≡ (cat, f) ∷ rest)
add_filter-eq-compiled cat f (Compiled.compiled rest) e = (rest, refl, cc e)
add_filter-eq-compiled cat f (Compiled.leaked other) e = absurd (cc e)

module _ (platform : Sizing)
    (base64 : (bytes : List ℕ)
      → AllBytes bytes
      → platform.from_base64 (platform.to_base64 bytes) ≡ bytes) where
  module _ (rate : platform.Rate) (cands : List Text) where
    listed_hit :
        (domains : List Text)
        → some_text (λ d. includes cands (normalize_host d)) domains ≡ true
        → some_text
            (λ cand.
              bloom_hit platform
                (decode_bloom platform (build_bloom platform rate (map normalize_host domains)))
                cand)
            cands
          ≡ true
    listed_hit domains h =
        let (d, m, e) = some_text→Mem (λ d. includes cands (normalize_host d)) domains h in
        Mem→some_text _ cands (includes→Mem cands (normalize_host d) e) (
          bloom_hit-built platform base64 rate (map normalize_host domains)
            (Mem-map normalize_host domains m))

    module _ (name : Text) (domains : List Text) (categories : CategoryMap) where
      abbrev built : SerializedBloom
      built = build_bloom platform rate (map normalize_host domains)

      leaks :
          some_text is_safety_floor_host (map normalize_host domains) ≡ true
          → compile_each platform rate ((name, domains) ∷ categories) ≡ Compiled.leaked name
      leaks b = unfold compile_each in rw b

      goes_on :
          some_text is_safety_floor_host (map normalize_host domains) ≡ false
          → compile_each platform rate ((name, domains) ∷ categories)
            ≡ add_filter name built (compile_each platform rate categories)
      goes_on b = unfold compile_each in rw b

      -- The category at hand, where the rest is covered.
      head_covers :
          (rest : List (Text × SerializedBloom)) (cat : Text)
          → (includes (matching_categories cands categories) cat ≡ true
              → includes (hit_by platform cands (decode_filters platform rest)) cat ≡ true)
          → includes (matching_categories cands ((name, domains) ∷ categories)) cat ≡ true
          → includes (hit_by platform cands (decode_filters platform ((name, built) ∷ rest))) cat
            ≡ true
      head_covers rest cat below h =
          elim (Bool-cases (some_text (λ d. includes cands (normalize_host d)) domains)) [
            | inl hit ↦
                unfold decode_filters hit_by in
                rw (listed_hit domains hit) (taken (unfold matching_categories in rw hit at h))
            | inr miss ↦
                let deep = below (unfold matching_categories in rw miss at h) in
                unfold decode_filters hit_by in
                if-elim (λ (cs : List Text). includes cs cat ≡ true)
                  (some_text (λ cand. bloom_hit platform (decode_bloom platform built) cand) cands)
                  (λ b. under deep) (λ b. deep)
          ]
        where
          under :
              includes (hit_by platform cands (decode_filters platform rest)) cat ≡ true
              → includes (name ∷ hit_by platform cands (decode_filters platform rest)) cat ≡ true
          under k = unfold includes in ground (arith, k)

          taken :
              includes (name ∷ matching_categories cands categories) cat ≡ true
              → includes (name ∷ hit_by platform cands (decode_filters platform rest)) cat ≡ true
          taken k = unfold includes in ground (arith, k, below)

    -- The loop over the categories.
    each_covers :
        (categories : CategoryMap) {fs : List (Text × SerializedBloom)} (cat : Text)
        → compile_each platform rate categories ≡ Compiled.compiled fs
        → includes (matching_categories cands categories) cat ≡ true
        → includes (hit_by platform cands (decode_filters platform fs)) cat ≡ true
    unfolding matching_categories includes
    each_covers [] cat e h = absurd (cc h)
    each_covers ((name, domains) ∷ categories) {fs} cat e h =
        elim (Bool-cases (some_text is_safety_floor_host (map normalize_host domains))) [
          | inl b ↦ absurd (cc (sym (leaks name domains categories b) ∙ e))
          | inr b ↦
              let (rest, k, q) =
                add_filter-eq-compiled name (built name domains categories)
                  (compile_each platform rate categories)
                  (sym (goes_on name domains categories b) ∙ e) in
              rw q (
                head_covers name domains categories rest cat
                  (λ below. each_covers categories cat k below) h)
        ]

  -- Where base64 gives byte arrays back and the data set compiles, the filters report for a host every
  -- category that the lists themselves give for it.
  pub compile_filters-covers :
      (categories : CategoryMap) {fs : List (Text × SerializedBloom)} (host cat : Text)
      → compile_filters platform categories ≡ Compiled.compiled fs
      → includes (categories_for_host (some categories) host) cat ≡ true
      → includes (filtered_categories platform fs host) cat ≡ true
  compile_filters-covers categories {fs} host cat e h = elim (Bool-cases (nonempty host)) [
    | inl named ↦
        unfold filtered_categories in
        each_covers (platform.rate_for (max 1 (length categories * 3))) (host_candidates host)
          categories cat (unfold compile_filters in e) (unfold categories_for_host in rw named at h)
    | inr empty ↦
        let k : includes [] cat ≡ true = unfold categories_for_host in rw empty at h in
        absurd (none_there k)
  ]
    where
      none_there : includes [] cat ≡ true → ⊥
      none_there k = let j : false ≡ true = unfold includes in k in cc j
