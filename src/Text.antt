-- ===== src/Text.antt =====
-- Texts as the program's strings: lists of character codes (UTF-16 code units), with the string
-- operations that the source uses. Texts hold ASCII characters, so case folding is ASCII's.
pub mod Laws
use Prim.Native.Char.{code}
use Prim.Native.String
use ajar_family.Prelude.{
  ℕ, ◌+◌, String, List, [], ◌∷◌, ◌++◌, map, Bool, true, false, not, ◌&&◌, ◌||◌, Option, none, some,
  leb, ◌==◌, if◌then◌else◌, length,
}

abbrev pub Text : Type 0
Text = List ℕ

-- A literal of the source.
abbrev pub codes : String → Text
codes String.[] = []
codes (String.◌∷◌ c s) = code c ∷ codes s

-- `s === t`
unfoldable pub same : Text → Text → Bool
same [] [] = true
same [] (d ∷ t) = false
same (c ∷ s) [] = false
same (c ∷ s) (d ∷ t) = c == d && same s t

-- `list.includes(s)`, `set.has(s)`
unfoldable pub includes : List Text → Text → Bool
includes [] s = false
includes (t ∷ ts) s = same t s || includes ts s

-- `s.startsWith(prefix)`
unfoldable pub starts_with : Text → Text → Bool
starts_with s [] = true
starts_with [] (c ∷ prefix) = false
starts_with (d ∷ s) (c ∷ prefix) = d == c && starts_with s prefix

-- `s.endsWith(suffix)`
unfoldable pub ends_with : Text → Text → Bool
ends_with [] suffix = same [] suffix
ends_with (c ∷ s) suffix = same (c ∷ s) suffix || ends_with s suffix

-- One character of `toLowerCase`.
unfoldable pub lower : ℕ → ℕ
lower c = if leb b'A' c && leb c b'Z' then c + 32 else c

unfoldable pub to_lower : Text → Text
to_lower = map lower

unfoldable pub push_head : ℕ → List Text → List Text
push_head c [] = (c ∷ []) ∷ []
push_head c (w ∷ ws) = (c ∷ w) ∷ ws

-- `s.split(sep)` for a separator of one character.
unfoldable pub split : ℕ → Text → List Text
split sep [] = [] ∷ []
split sep (c ∷ s) = let rest = split sep s in if c == sep then [] ∷ rest else push_head c rest

-- `parts.join(sep)`
unfoldable pub join : ℕ → List Text → Text
join sep [] = []
join sep (w ∷ []) = w
join sep (w ∷ v ∷ ws) = w ++ (sep ∷ join sep (v ∷ ws))

-- A text is truthy when it is not empty; an absent one is not.
abbrev pub nonempty : Text → Bool
nonempty [] = false
nonempty (c ∷ s) = true

abbrev pub truthy : Option Text → Bool
truthy none = false
truthy (some s) = nonempty s

-- `parts.filter(Boolean)`
unfoldable pub keep_nonempty : List Text → List Text
keep_nonempty [] = []
keep_nonempty (w ∷ ws) = if nonempty w then w ∷ keep_nonempty ws else keep_nonempty ws

-- `o === s` for an optional `o`.
abbrev pub is : Option Text → Text → Bool
is none s = false
is (some t) s = same t s

-- `[…new Set(list)]`: each text once, at its first place.
unfoldable pub unique_from : List Text → List Text → List Text
unique_from seen [] = []
unique_from seen (t ∷ ts) =
    let fresh = t ∷ unique_from (t ∷ seen) ts in
    let known = unique_from seen ts in if includes seen t then known else fresh

abbrev pub unique : List Text → List Text
unique ts = unique_from [] ts

-- Character classes of the regular expressions.
abbrev pub is_digit : ℕ → Bool
is_digit c = leb b'0' c && leb c b'9'

abbrev pub is_upper : ℕ → Bool
is_upper c = leb b'A' c && leb c b'Z'

abbrev pub is_lower : ℕ → Bool
is_lower c = leb b'a' c && leb c b'z'

abbrev pub is_letter : ℕ → Bool
is_letter c = is_upper c || is_lower c

abbrev pub is_alnum : ℕ → Bool
is_alnum c = is_letter c || is_digit c

-- The white space that `trim` and `\s` know.
unfoldable pub is_space : ℕ → Bool
is_space c =
    leb 9 c && leb c 13
    || c == 32
    || c == 160
    || c == 0x1680
    || leb 0x2000 c && leb c 0x200a
    || c == 0x2028
    || c == 0x2029
    || c == 0x202f
    || c == 0x205f
    || c == 0x3000
    || c == 0xfeff

-- `^[class]{lo,hi}$`
unfoldable pub all_chars : (ℕ → Bool) → Text → Bool
all_chars p [] = true
all_chars p (c ∷ s) = p c && all_chars p s

unfoldable pub some_char : (ℕ → Bool) → Text → Bool
some_char p [] = false
some_char p (c ∷ s) = p c || some_char p s

unfoldable pub all_texts : (Text → Bool) → List Text → Bool
all_texts p [] = true
all_texts p (w ∷ ws) = p w && all_texts p ws

unfoldable pub some_text : (Text → Bool) → List Text → Bool
some_text p [] = false
some_text p (w ∷ ws) = p w || some_text p ws

unfoldable pub last_text : List Text → Text
last_text [] = []
last_text (w ∷ []) = w
last_text (w ∷ v ∷ ws) = last_text (v ∷ ws)

-- `s.trim()`
unfoldable pub trim_start : Text → Text
trim_start [] = []
trim_start (c ∷ s) = if is_space c then trim_start s else c ∷ s

unfoldable pub trim_end : Text → Text
trim_end [] = []
trim_end (c ∷ s) =
    let rest = trim_end s in if is_space c && not (nonempty rest) then [] else c ∷ rest

unfoldable pub trim : Text → Text
unfolding trim_start trim_end
trim s = trim_end (trim_start s)
