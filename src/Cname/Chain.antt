-- ===== src/Cname/Chain.antt =====
-- A followed chain is bounded and visits no name twice.
use ajar_family.Prelude.{
  ℕ, zero, suc, ◌≡◌, ◌≤◌, List, [], ◌∷◌, Bool, true, false, not, ◌||◌, Option, arith, Memᴰ, if-elim,
  length,
}
use ajar_family.Text.{Text, includes, nonempty}
use ajar_family.Cname.{depth_of, Resolver, alias, follow, follow_cname_chain, normalize_dns_name}

-- No name repeats, and none is among those already seen.
abbrev pub Fresh : List Text → List Text → Type 0
Fresh seen [] = Unit
Fresh seen (t ∷ ts) = (includes seen t ≡ false) × Fresh (t ∷ seen) ts

module _ (resolve : Resolver) where
  follow-Fresh :
      (rounds : ℕ) (seen : List Text) (cur : Text) → Fresh seen (follow resolve rounds seen cur)
  unfolding follow
  follow-Fresh zero seen cur = tt
  follow-Fresh (suc rounds) seen cur =
      let t = alias (resolve cur) in
      let rest = follow-Fresh rounds (t ∷ seen) t in
      if-elim (Fresh seen) (not (nonempty t) || includes seen t) (λ _. tt)
        (λ n. (unseen (nonempty t) (includes seen t) n, rest))
    where
      unseen : (a b : Bool) → (not a || b) ≡ false → b ≡ false
      unseen a b n = ground arith

  length-follow :
      (rounds : ℕ) (seen : List Text) (cur : Text)
      → length (follow resolve rounds seen cur) ≤ rounds
  unfolding follow
  length-follow zero seen cur = omega arith
  length-follow (suc rounds) seen cur =
      let t = alias (resolve cur) in
      let rest = length-follow rounds (t ∷ seen) t in
      if-elim (λ ts. length ts ≤ suc rounds) (not (nonempty t) || includes seen t) {x = []}
        {y = t ∷ follow resolve rounds (t ∷ seen) t} (λ _. omega arith) (λ _. omega arith)

  follow-nonempty :
      (rounds : ℕ) (seen : List Text) (cur : Text) {t : Text}
      → Memᴰ t (follow resolve rounds seen cur)
      → nonempty t ≡ true
  unfolding follow
  follow-nonempty zero seen cur m = elim m [ ]
  follow-nonempty (suc rounds) seen cur {t} m =
      let a = alias (resolve cur) in
      if-elim (λ ts. Memᴰ t ts → nonempty t ≡ true) (not (nonempty a) || includes seen a)
        (λ _ k. elim k [ ]) (λ n k. cases n k (λ j. follow-nonempty rounds (a ∷ seen) a j)) m
    where
      given : (a b : Bool) → (not a || b) ≡ false → a ≡ true
      given a b n = ground arith

      cases :
          (not (nonempty (alias (resolve cur))) || includes seen (alias (resolve cur))) ≡ false
          → Memᴰ t (
              alias (resolve cur)
              ∷ follow resolve rounds (alias (resolve cur) ∷ seen) (alias (resolve cur)))
          → (Memᴰ t (follow resolve rounds (alias (resolve cur) ∷ seen) (alias (resolve cur)))
              → nonempty t ≡ true)
          → nonempty t ≡ true
      cases n (Memᴰ.head e) go =
          rw e (given (nonempty (alias (resolve cur))) (includes seen (alias (resolve cur))) n)
      cases n (Memᴰ.tail k) go = go k

-- WHATEVER THE RESOLVER ANSWERS, the chain has at most as many names as the depth allows, none of them
-- is empty, no name comes twice, and the name that was asked about is not among them.
pub follow_cname_chain_bounded :
    (host : Text) (resolve : Resolver) (max_depth : Option ℕ)
    → (length (follow_cname_chain host resolve max_depth) ≤ depth_of max_depth)
      × Fresh (normalize_dns_name host ∷ []) (follow_cname_chain host resolve max_depth)
      × ((t : Text) → Memᴰ t (follow_cname_chain host resolve max_depth) → nonempty t ≡ true)
follow_cname_chain_bounded host resolve max_depth =
    let cur = normalize_dns_name host in
    let depth = depth_of max_depth in
    unfold follow_cname_chain in
    (
      if-elim (λ ts. length ts ≤ depth) (nonempty cur) {y = []}
          (λ _. length-follow resolve depth (cur ∷ []) cur) (λ _. omega arith),
      if-elim (Fresh (cur ∷ [])) (nonempty cur) (λ _. follow-Fresh resolve depth (cur ∷ []) cur)
          (λ _. tt),
      λ t.
          if-elim (λ ts. Memᴰ t ts → nonempty t ≡ true) (nonempty cur)
            (λ _ m. follow-nonempty resolve depth (cur ∷ []) cur m) (λ _ m. elim m [ ]),
    )
