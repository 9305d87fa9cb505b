-- ===== src/Backend/Email.antt =====
-- backend/src/domain/services.ts: the structural check of an address.
use ajar_family.Prelude.{List, [], ◌∷◌, Bool, false, not, ◌&&◌, ◌||◌, ◌==◌, leb, length}
use ajar_family.Text.{Text, split, push_head, some_char, is_space, nonempty}

-- A dot with a character after it.
unfoldable pub dot_inside : Text → Bool
dot_inside [] = false
dot_inside (c ∷ []) = false
dot_inside (c ∷ d ∷ s) = c == b'.' || dot_inside (d ∷ s)

-- What stands behind the `@`: a character, and later a dot with a character after it.
abbrev is_domain_part : Text → Bool
is_domain_part [] = false
is_domain_part (c ∷ s) = dot_inside s

abbrev has_two_parts : List Text → Bool
has_two_parts (local ∷ domain ∷ []) = nonempty local && is_domain_part domain
has_two_parts _ = false

-- /^[^\s@]+@[^\s@]+\.[^\s@]+$/, of at most 254 characters.
unfoldable pub looks_like_email : Text → Bool
unfolding split push_head some_char is_space dot_inside
looks_like_email address =
    not (some_char is_space address)
    && has_two_parts (split b'@' address)
    && leb (length address) 254
