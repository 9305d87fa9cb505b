-- ===== src/Backend/Categories.antt =====
-- backend/src/categories/provider.ts: the data set of categories, and the filters compiled from it.
-- The rows of the data set are the store's.
pub mod Coverage
use ajar_family.Prelude.{
  ℕ, ◌*◌, max, map, List, [], ◌∷◌, ◌++◌, Bool, true, false, Option, none, some, length,
  if◌then◌else◌,
}
use ajar_family.Text.{Text, codes, includes, some_text, to_lower, trim}
use ajar_family.Host.{CategoryMap, normalize_host}
use ajar_family.Safety.{is_safety_floor_host}
use ajar_family.Bloom.{Sizing, SerializedBloom, build_bloom}

abbrev pub forbidden_category_slugs : List Text
forbidden_category_slugs =
    codes "lgbt"
    ∷ codes "lgbtq"
    ∷ codes "lgbtqia"
    ∷ codes "gay"
    ∷ codes "trans"
    ∷ codes "transgender"
    ∷ codes "sexuality"
    ∷ codes "sexual-health"
    ∷ codes "sexualhealth"
    ∷ codes "reproductive-health"
    ∷ codes "abortion"
    ∷ codes "news"
    ∷ codes "politics"
    ∷ codes "political"
    ∷ codes "religion"
    ∷ codes "religious"
    ∷ []

abbrev probes_per_host : ℕ
probes_per_host = 3

-- The set of filters, or the category that holds a host of the safety floor.
pub data Compiled : Type 0 where
  compiled : List (Text × SerializedBloom) → Compiled
  leaked : Text → Compiled

abbrev add_filter : Text → SerializedBloom → Compiled → Compiled
add_filter cat f (compiled rest) = compiled ((cat, f) ∷ rest)
add_filter cat f (leaked other) = leaked other

module _ (platform : Sizing) where
  -- The loop over the categories.
  unfoldable pub compile_each : platform.Rate → CategoryMap → Compiled
  unfolding build_bloom some_text is_safety_floor_host normalize_host
  compile_each rate [] = compiled []
  compile_each rate ((cat, domains) ∷ rest) =
      let others = compile_each rate rest in
      let hosts = map normalize_host domains in
      if some_text is_safety_floor_host hosts
      then leaked cat
      else add_filter cat (build_bloom platform rate hosts) others

  unfoldable pub compile_filters : CategoryMap → Compiled
  unfolding compile_each
  compile_filters categories =
      compile_each (platform.rate_for (max 1 (length categories * probes_per_host))) categories

-- `FORBIDDEN_CATEGORY_SLUGS.has(category.toLowerCase().trim())`
unfoldable pub is_forbidden : Text → Bool
unfolding includes to_lower trim
is_forbidden category = includes forbidden_category_slugs (trim (to_lower category))

abbrev entries_of : Text → List Text → List (Text × Text)
entries_of category [] = []
entries_of category (domain ∷ domains) = (category, domain) ∷ entries_of category domains

-- The rows of the new data set, or the category that is refused.
pub data Replaced : Type 0 where
  rows : List (Text × Text) → Replaced
  refused : Text → Replaced

abbrev add_rows : List (Text × Text) → Replaced → Replaced
add_rows new (rows rest) = rows (new ++ rest)
add_rows new (refused category) = refused category

unfoldable pub replace : CategoryMap → Replaced
unfolding is_forbidden
replace [] = rows []
replace ((category, domains) ∷ rest) =
    let others = replace rest in
    if is_forbidden category
    then refused category
    else add_rows (entries_of category domains) others
