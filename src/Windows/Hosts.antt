-- ===== src/Windows/Hosts.antt =====
-- windows/extension/background.js: host names, the inline categories and the safety floor.
pub mod Agreement
use ajar_family.Prelude.{List, [], ◌∷◌, Bool, true, false, Option, none, some, if◌then◌else◌}
use ajar_family.Text.{Text, codes, to_lower, split, push_head, join, nonempty, some_text}
use ajar_family.Host.{drop_root_dot, strip_www, suffixes, CategoryMap}
use ajar_family.Safety.{lies_under}

-- `.replace(/\.$/, "").replace(/\.$/, "").replace(/^www\./i, "").toLowerCase()`
unfoldable pub strip_host : Text → Text
unfolding drop_root_dot strip_www to_lower
strip_host host = to_lower (strip_www (drop_root_dot (drop_root_dot host)))

unfoldable pub host_candidates : Text → List Text
unfolding suffixes join split push_head strip_host
host_candidates host = let h = strip_host host in if nonempty h then suffixes (split b'.' h) else []

unfoldable pub listed_categories : Text → CategoryMap → List Text
unfolding some_text lies_under
listed_categories host [] = []
listed_categories host ((cat, domains) ∷ rest) =
    let others = listed_categories host rest in
    if some_text (λ d. lies_under host d) domains then cat ∷ others else others

unfoldable pub categories_for_host : Option CategoryMap → Text → List Text
unfolding listed_categories
categories_for_host none host = []
categories_for_host (some categories) host =
    if nonempty host then listed_categories host categories else []

abbrev pub safety_floor_domains : List Text
safety_floor_domains =
    codes "988lifeline.org"
    ∷ codes "suicidepreventionlifeline.org"
    ∷ codes "crisistextline.org"
    ∷ codes "befrienders.org"
    ∷ codes "findahelpline.com"
    ∷ codes "samaritans.org"
    ∷ codes "papyrus-uk.org"
    ∷ codes "thetrevorproject.org"
    ∷ codes "childline.org.uk"
    ∷ codes "kidshelpphone.ca"
    ∷ codes "childhelphotline.org"
    ∷ codes "youthline.co.nz"
    ∷ codes "rainn.org"
    ∷ codes "thehotline.org"
    ∷ codes "childhelp.org"
    ∷ codes "humantraffickinghotline.org"
    ∷ []

unfoldable pub is_safety_floor_host : Text → Bool
unfolding strip_host some_text lies_under
is_safety_floor_host host =
    let h = strip_host host in
    if nonempty h then some_text (λ d. lies_under h d) safety_floor_domains else false
