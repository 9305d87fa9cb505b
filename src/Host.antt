-- ===== src/Host.antt =====
-- shared/categories/category-data.ts: host names, their candidates and the categories of a host.
pub mod Candidates
use ajar_family.Prelude.{
  ℕ, List, [], ◌∷◌, ◌++◌, Bool, true, false, ◌&&◌, Option, none, some, ◌==◌, if◌then◌else◌,
}
use ajar_family.Text.{Text, to_lower, split, join, nonempty, some_text, includes, push_head, lower}

-- `.replace(/\.$/, "")`
unfoldable pub drop_root_dot : Text → Text
drop_root_dot [] = []
drop_root_dot (c ∷ []) = if c == b'.' then [] else c ∷ []
drop_root_dot (c ∷ d ∷ s) = c ∷ drop_root_dot (d ∷ s)

-- `.replace(/^www\./i, "")`
unfoldable pub strip_www : Text → Text
unfolding lower
strip_www (a ∷ b ∷ c ∷ d ∷ s) =
    if lower a == b'w' && lower b == b'w' && lower c == b'w' && d == b'.'
    then s
    else a ∷ b ∷ c ∷ d ∷ s
strip_www s = s

unfoldable pub normalize_host : Text → Text
unfolding drop_root_dot strip_www to_lower
normalize_host host = to_lower (strip_www (drop_root_dot host))

-- The loop of `hostCandidates`: each proper suffix of two labels or more, joined.
unfoldable pub suffixes : List Text → List Text
suffixes [] = []
suffixes (p ∷ []) = []
suffixes (p ∷ q ∷ ps) = join b'.' (p ∷ q ∷ ps) ∷ suffixes (q ∷ ps)

unfoldable pub host_candidates : Text → List Text
unfolding suffixes join split push_head normalize_host
host_candidates host =
    let h = normalize_host host in if nonempty h then suffixes (split b'.' h) else []

-- A record of category names with their domains, in the order of `Object.entries`.
abbrev pub CategoryMap : Type 0
CategoryMap = List (Text × List Text)

unfoldable pub matching_categories : List Text → CategoryMap → List Text
matching_categories cands [] = []
matching_categories cands ((cat, domains) ∷ rest) =
    let others = matching_categories cands rest in
    if some_text (λ d. includes cands (normalize_host d)) domains then cat ∷ others else others

-- The keys of a record are distinct, so the set of the source is a list without repetition.
unfoldable pub categories_for_host : Option CategoryMap → Text → List Text
unfolding matching_categories
categories_for_host none host = []
categories_for_host (some categories) host =
    if nonempty host then matching_categories (host_candidates host) categories else []
