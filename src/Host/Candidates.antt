-- ===== src/Host/Candidates.antt =====
-- The candidates of a host are exactly the domains of two labels or more that it lies under.
use ajar_family.Prelude.{
  ℕ, ◌≡◌, refl, ap, inl, inr, List, [], ◌∷◌, Bool, true, false, ◌&&◌, ◌||◌, arith, ◌==◌, Bool-cases,
  if◌then◌else◌,
}
use ajar_family.Text.{Text, same, includes, ends_with, push_head, split, join, some_char, nonempty}
use ajar_family.Text.Laws.{same→eq}
use ajar_family.Host.{suffixes, host_candidates, normalize_host}

abbrev pub has_dot : Text → Bool
has_dot s = some_char (λ c. c == b'.') s

abbrev pub rest_of : List Text → List Text
rest_of [] = []
rest_of (w ∷ ws) = ws

abbrev pub is_cons : List Text → Bool
is_cons [] = false
is_cons (w ∷ ws) = true

split-cons : (s : Text) → (w : Text) × (ws : List Text) × (split b'.' s ≡ w ∷ ws)
unfolding split push_head
split-cons [] = ([], [], refl)
split-cons (c ∷ s) = elim (Bool-cases (c == b'.')) [
  | inl e ↦ ([], split b'.' s, rw e)
  | inr n ↦ let (w, ws, e) = split-cons s in (c ∷ w, ws, rw (n, e))
]

-- A character other than the dot joins the first label.
split-push :
    (c : ℕ) (s : Text)
    → (c == b'.') ≡ false
    → (w : Text) × (ws : List Text) × (split b'.' s ≡ w ∷ ws) × (split b'.' (c ∷ s) ≡ (c ∷ w) ∷ ws)
unfolding split push_head
split-push c s n = let (w, ws, e) = split-cons s in (w, ws, e, rw (n, e))

split-dot : (c : ℕ) (s : Text) → (c == b'.') ≡ true → split b'.' (c ∷ s) ≡ [] ∷ split b'.' s
unfolding split
split-dot c s e = rw e

join-push : (c : ℕ) (w : Text) (ws : List Text) → join b'.' ((c ∷ w) ∷ ws) ≡ c ∷ join b'.' (w ∷ ws)
unfolding join
join-push c w [] = refl
join-push c w (v ∷ ws) = refl

join-nil : (w : Text) (ws : List Text) → join b'.' ([] ∷ w ∷ ws) ≡ b'.' ∷ join b'.' (w ∷ ws)
unfolding join
join-nil w ws = refl

-- Splitting and joining again gives the text back.
pub join-split : (s : Text) → join b'.' (split b'.' s) ≡ s
join-split [] = unfold split join in refl
join-split (c ∷ s) = elim (Bool-cases (c == b'.')) [
  | inl d ↦
      let (w, ws, e) = split-cons s in
      rw (split-dot c s d, e, join-nil w ws, ← e, join-split s)
        (ap (λ (x : ℕ). x ∷ s) (ground arith))
  | inr n ↦ let (w, ws, e, f) = split-push c s n in rw (f, join-push c w ws, ← e, join-split s)
]

pub has_dot-split : (s : Text) → is_cons (rest_of (split b'.' s)) ≡ has_dot s
unfolding some_char
has_dot-split [] = unfold split in refl
has_dot-split (c ∷ s) = elim (Bool-cases (c == b'.')) [
  | inl d ↦ let (w, ws, e) = split-cons s in rw (split-dot c s d, e, d)
  | inr n ↦ let (w, ws, e, f) = split-push c s n in rw (f, n) (rw e at (has_dot-split s))
]

-- The candidates below the first label.
abbrev deeper : Text → List Text
deeper s = suffixes (rest_of (split b'.' s))

suffixes-split : (s : Text) → suffixes (split b'.' s) ≡ (if has_dot s then s ∷ deeper s else [])
suffixes-split s =
    let (w, ws, e) = split-cons s in cons ws e (rw e at (has_dot-split s)) (rw e at (join-split s))
  where
    cons :
        (ws : List Text) {w : Text}
        → split b'.' s ≡ w ∷ ws
        → is_cons ws ≡ has_dot s
        → join b'.' (w ∷ ws) ≡ s
        → suffixes (split b'.' s) ≡ (if has_dot s then s ∷ deeper s else [])
    cons [] e d j = rw (e, ← d) (unfold suffixes in refl)
    cons (v ∷ ws) {w} e d j =
        rw (e, ← d) (unfold suffixes in ap (λ (x : Text). x ∷ suffixes (v ∷ ws)) j)

same→has_dot : (s d : Text) → same s d ≡ true → has_dot d ≡ has_dot s
same→has_dot s d e = rw (same→eq s d e)

ends_with→has_dot : (s d : Text) → ends_with s (b'.' ∷ d) ≡ true → has_dot s ≡ true
unfolding ends_with same some_char
ends_with→has_dot [] d e = cc
ends_with→has_dot (c ∷ s) d e = ground (arith, ends_with→has_dot s d)

module _ (d : Text) where
  includes-suffixes :
      (s : Text)
      → includes (deeper s) d ≡ (has_dot d && ends_with s (b'.' ∷ d))
      → includes (suffixes (split b'.' s)) d ≡ (has_dot d && (same s d || ends_with s (b'.' ∷ d)))
  includes-suffixes s below = rw (suffixes-split s) (elim (Bool-cases (has_dot s)) [
    | inl dotted ↦ rw dotted (unfold includes in ground (arith, below, same→has_dot s d))
    | inr plain ↦
        rw plain (unfold includes in ground (arith, same→has_dot s d, ends_with→has_dot s d))
  ])

  includes-deeper : (s : Text) → includes (deeper s) d ≡ (has_dot d && ends_with s (b'.' ∷ d))
  unfolding ends_with same
  includes-deeper [] = unfold split suffixes includes in ground arith
  includes-deeper (c ∷ s) = elim (Bool-cases (c == b'.')) [
    | inl e ↦ rw (split-dot c s e, e) (includes-suffixes s (includes-deeper s))
    | inr n ↦ let (w, ws, e, f) = split-push c s n in rw (f, n) (rw e at (includes-deeper s))
  ]

guard_empty :
    (h : Text) → (if nonempty h then suffixes (split b'.' h) else []) ≡ suffixes (split b'.' h)
guard_empty [] = unfold suffixes split in refl
guard_empty (c ∷ h) = refl

host_candidates_lem :
    (host : Text) → host_candidates host ≡ suffixes (split b'.' (normalize_host host))
host_candidates_lem host = unfold host_candidates in guard_empty (normalize_host host)

-- A domain is a candidate of a host exactly when it has a dot and the normalized host is the
-- domain or ends in a dot and the domain; so a bare top-level domain never is one.
pub host_candidates_iff :
    (host d : Text)
    → includes (host_candidates host) d
      ≡ (has_dot d && (same (normalize_host host) d || ends_with (normalize_host host) (b'.' ∷ d)))
host_candidates_iff host d =
    rw (host_candidates_lem host)
      (includes-suffixes d (normalize_host host) (includes-deeper d (normalize_host host)))
