-- ===== src/Safety/Floor.antt =====
-- Which hosts the safety floor opens.
use ajar_family.Prelude.{
  ◌≡◌, refl, ◌↔◌, ◌⊎◌, inl, inr, [], ◌∷◌, ◌++◌, true, false, arith, Memᴰ, Bool-cases, if◌then◌else◌,
}
use ajar_family.Text.{Text, same, some_text, nonempty}
use ajar_family.Text.Laws.{
  same→eq, same_refl, ends_with→append, ends_with-append, some_text→Mem, Mem→some_text,
}
use ajar_family.Host.{normalize_host}
use ajar_family.Safety.{safety_floor_domains, lies_under, is_safety_floor_host}

-- A host is the domain, or a label and a dot stand before it.
abbrev pub LiesUnder : Text → Text → Type 0
LiesUnder h d = (h ≡ d) ⊎ ((front : Text) × (h ≡ front ++ (b'.' ∷ d)))

pub lies_under_iff : (h d : Text) → (lies_under h d ≡ true) ↔ LiesUnder h d
lies_under_iff h d = (to, from)
  where
    to : lies_under h d ≡ true → LiesUnder h d
    to e = elim (Bool-cases (same h d)) [
      | inl s ↦ inl (same→eq h d s)
      | inr n ↦ inr (ends_with→append h (b'.' ∷ d) (unfold lies_under in rw n at e))
    ]

    from : LiesUnder h d → lies_under h d ≡ true
    from (inl e) = unfold lies_under in rw (e, same_refl)
    from (inr (front, e)) =
        unfold lies_under in rw e (ground (arith, ends_with-append front (b'.' ∷ d)))

empty_host :
    (h : Text)
    → (if nonempty h then some_text (λ d. lies_under h d) safety_floor_domains else false)
      ≡ some_text (λ d. lies_under h d) safety_floor_domains
empty_host [] = unfold some_text lies_under in refl
empty_host (c ∷ h) = refl

floor_lem :
    (host : Text)
    → is_safety_floor_host host
      ≡ some_text (λ d. lies_under (normalize_host host) d) safety_floor_domains
floor_lem host = unfold is_safety_floor_host in empty_host (normalize_host host)

-- The floor opens a host exactly when its normalized form is one of the listed domains, or ends in a
-- dot and one of them.
pub is_safety_floor_host_iff :
    (host : Text)
    → (is_safety_floor_host host ≡ true)
      ↔ ((d : Text) × Memᴰ d safety_floor_domains × LiesUnder (normalize_host host) d)
is_safety_floor_host_iff host = (
  λ e.
      let (d, m, h) =
        some_text→Mem (λ d. lies_under (normalize_host host) d) safety_floor_domains
          (rw (floor_lem host) at e) in
      (d, m, (lies_under_iff (normalize_host host) d).0 h),
  λ (d, m, h). rw (floor_lem host) (
      Mem→some_text (λ d. lies_under (normalize_host host) d) safety_floor_domains m
        ((lies_under_iff (normalize_host host) d).1 h)),
)
