-- ===== src/Safety.antt =====
-- shared/safety/safety-floor.ts: the hosts that no policy closes.
pub mod Floor
use ajar_family.Prelude.{List, [], ◌∷◌, Bool, false, ◌||◌, if◌then◌else◌}
use ajar_family.Text.{Text, codes, same, ends_with, nonempty, some_text}
use ajar_family.Host.{normalize_host}

abbrev pub safety_floor_domains : List Text
safety_floor_domains =
    codes "988lifeline.org"
    ∷ codes "suicidepreventionlifeline.org"
    ∷ codes "crisistextline.org"
    ∷ codes "befrienders.org"
    ∷ codes "findahelpline.com"
    ∷ codes "samaritans.org"
    ∷ codes "papyrus-uk.org"
    ∷ codes "thetrevorproject.org"
    ∷ codes "childline.org.uk"
    ∷ codes "kidshelpphone.ca"
    ∷ codes "childhelphotline.org"
    ∷ codes "youthline.co.nz"
    ∷ codes "rainn.org"
    ∷ codes "thehotline.org"
    ∷ codes "childhelp.org"
    ∷ codes "humantraffickinghotline.org"
    ∷ []

-- `h === d || h.endsWith("." + d)`
unfoldable pub lies_under : Text → Text → Bool
unfolding same ends_with
lies_under h d = same h d || ends_with h (b'.' ∷ d)

unfoldable pub is_safety_floor_host : Text → Bool
unfolding normalize_host some_text lies_under
is_safety_floor_host host =
    let h = normalize_host host in
    if nonempty h then some_text (λ d. lies_under h d) safety_floor_domains else false
