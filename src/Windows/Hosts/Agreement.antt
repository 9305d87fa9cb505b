-- ===== src/Windows/Hosts/Agreement.antt =====
-- On settled hosts and well-written lists, the port reads hosts as the shared code does.
use ajar_family.Prelude.{
  ◌≡◌, refl, ap, List, [], ◌∷◌, Bool, true, ◌&&◌, Option, none, some, and-eq-true_iff,
}
use ajar_family.Text.{Text, same, to_lower, includes, some_text, all_texts}
use ajar_family.Text.Laws.{same→eq}
use ajar_family.Host.{CategoryMap, normalize_host, drop_root_dot, strip_www, matching_categories}
use ajar_family.Host.Candidates.{has_dot, host_candidates_iff}
use ajar_family.Safety.{lies_under}
use ajar_family.Safety as Floor
use ajar_family.Host as Shared
use ajar_family.Windows.Hosts as Port

-- Normalizing the host again would change nothing, and it ends in no dot.
unfoldable pub is_settled : Text → Bool
unfolding same normalize_host drop_root_dot
is_settled h = same (normalize_host h) h && same (drop_root_dot h) h

-- A domain as a list writes it: in normal form, of two labels or more.
unfoldable pub is_listed : Text → Bool
unfolding same normalize_host
is_listed d = same (normalize_host d) d && has_dot d

unfoldable pub all_listed : CategoryMap → Bool
unfolding is_listed all_texts
all_listed [] = true
all_listed ((cat, domains) ∷ rest) = all_texts is_listed domains && all_listed rest

abbrev pub optional_listed : Option CategoryMap → Bool
optional_listed none = true
optional_listed (some categories) = all_listed categories

module _ (h : Text) (settled : is_settled h ≡ true) where
  pub normalize_host-settled : normalize_host h ≡ h
  unfolding is_settled
  normalize_host-settled = same→eq _ h ((and-eq-true_iff _ _).0 settled).0

  drop_root_dot-settled : drop_root_dot h ≡ h
  unfolding is_settled
  drop_root_dot-settled = same→eq _ h ((and-eq-true_iff _ _).0 settled).1

  strip_host-settled : Port.strip_host h ≡ normalize_host h
  unfolding Port.strip_host Shared.normalize_host
  strip_host-settled =
      ap (λ (x : Text). to_lower (strip_www (drop_root_dot x))) drop_root_dot-settled

  pub is_safety_floor_host-agrees : Port.is_safety_floor_host h ≡ Floor.is_safety_floor_host h
  is_safety_floor_host-agrees =
      unfold Port.is_safety_floor_host Floor.is_safety_floor_host in rw strip_host-settled

  candidate_lem :
      (d : Text)
      → is_listed d ≡ true
      → includes (Shared.host_candidates h) (normalize_host d) ≡ lies_under h d
  candidate_lem d listed =
      let (normal, dotted) =
        (and-eq-true_iff (same (normalize_host d) d) (has_dot d)).0 (unfold is_listed in listed) in
      rw (same→eq _ d normal, host_candidates_iff h d, normalize_host-settled, dotted)
        (unfold lies_under in refl)

  some_candidate_lem :
      (ds : List Text)
      → all_texts is_listed ds ≡ true
      → some_text (λ d. includes (Shared.host_candidates h) (normalize_host d)) ds
        ≡ some_text (λ d. lies_under h d) ds
  unfolding some_text all_texts
  some_candidate_lem [] listed = refl
  some_candidate_lem (d ∷ ds) listed =
      let (here, rest) = (and-eq-true_iff (is_listed d) _).0 listed in
      rw (candidate_lem d here, some_candidate_lem ds rest)

  listed_categories-agrees :
      (cats : CategoryMap)
      → all_listed cats ≡ true
      → Port.listed_categories h cats ≡ matching_categories (Shared.host_candidates h) cats
  unfolding Port.listed_categories Shared.matching_categories all_listed
  listed_categories-agrees [] listed = refl
  listed_categories-agrees ((cat, ds) ∷ cats) listed =
      let (here, rest) = (and-eq-true_iff (all_texts is_listed ds) _).0 listed in
      rw (some_candidate_lem ds here, listed_categories-agrees cats rest)

  pub categories_for_host-agrees :
      (cats : Option CategoryMap)
      → optional_listed cats ≡ true
      → Port.categories_for_host cats h ≡ Shared.categories_for_host cats h
  unfolding Port.categories_for_host Shared.categories_for_host
  categories_for_host-agrees none listed = refl
  categories_for_host-agrees (some cats) listed = rw (listed_categories-agrees cats listed)
