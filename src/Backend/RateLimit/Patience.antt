-- ===== src/Backend/RateLimit/Patience.antt =====
-- How many attempts the limiter of backend/src/http/rate-limit.ts lets through at least.
use ajar_family.Prelude.{
  ℕ, suc, ◌+◌, ◌-◌, ◌≤◌, ◌≡◌, refl, inl, inr, List, [], ◌∷◌, Bool, false, filter, min, length,
  length-append, ltb, leb, if◌then◌else◌, if-elim, Bool-cases, arith,
}
use mathlib.Core.Path.{subst}
use ajar_family.Text.{Text, same}
use ajar_family.Text.Laws.{same→eq, same_refl}
use ajar_family.Backend.Table.{Table, get, put}
use ajar_family.Backend.RateLimit.{
  RateLimiter, allow, attempts_at, bounded_hits, is_recent, most_keys, recorded, sweep,
}
use ajar_family.Backend.RateLimit.Bound.{Attempt, Within, at_most_limit_in_window, count_allowed}

leb-false : (a b : ℕ) → leb a b ≡ false → suc b ≤ a
leb-false a b h = ground arith

length-filter-le : (p : ℕ → Bool) (ts : List ℕ) → length (filter p ts) ≤ length ts
length-filter-le p [] = omega arith
length-filter-le p (t ∷ ts) =
    if-elim (λ us. length us ≤ suc (length ts)) (p t) (λ b. omega (arith, length-filter-le p ts))
      (λ b. omega (arith, length-filter-le p ts))

-- How many times are recorded of a client.
unfoldable pub total : Table (List ℕ) → Text → ℕ
unfolding same
total [] key = 0
total ((k, ts) ∷ hits) key = let n = total hits key in if same k key then length ts + n else n

length-recorded : (hits : Table (List ℕ)) (key : Text) → length (recorded hits key) ≤ total hits key
unfolding recorded get total
length-recorded [] key = omega arith
length-recorded ((k, ts) ∷ hits) key = elim (Bool-cases (same k key)) [
  | inl y ↦ rw (recorded, y) (omega arith)
  | inr n ↦ rw (recorded, n) (length-recorded hits key)
]

total-put :
    (hits : Table (List ℕ)) (key : Text) (ts : List ℕ)
    → length ts ≤ suc (length (recorded hits key))
    → total (put hits key ts) key ≤ suc (total hits key)
unfolding put total recorded get
total-put [] key ts h = rw (same_refl key) (omega arith)
total-put ((k, us) ∷ hits) key ts h = elim (Bool-cases (same k key)) [
  | inl y ↦ let g : length ts ≤ suc (length us) = rw (recorded, y) at h in rw (y, y) (omega arith)
  | inr n ↦
      let g : length ts ≤ suc (length (recorded hits key)) = rw (recorded, n) at h in
      rw (n, n) (total-put hits key ts g)
]

total-put_other :
    (hits : Table (List ℕ)) (other key : Text) (ts : List ℕ)
    → same other key ≡ false
    → total (put hits other ts) key ≤ total hits key
unfolding put total
total-put_other [] other key ts n = rw n (omega arith)
total-put_other ((k, us) ∷ hits) other key ts n = elim (Bool-cases (same k other)) [
  | inl y ↦ let m : same k key ≡ false = rw (same→eq k other y) n in rw (y, m) (omega arith)
  | inr m ↦ elim (Bool-cases (same k key)) [
    | inl y ↦ rw (m, y) (omega (arith, total-put_other hits other key ts n))
    | inr l ↦ rw (m, l) (total-put_other hits other key ts n)
  ]
]

module _ (live : ℕ → Bool) where
  total-swept_row :
      (k key : Text) (ts : List ℕ) (hits : Table (List ℕ)) (fs : List ℕ)
      → filter live ts ≡ fs
      → length fs ≤ length ts
      → total (sweep live hits) key ≤ total hits key
      → total (sweep live ((k, ts) ∷ hits)) key ≤ total ((k, ts) ∷ hits) key
  unfolding sweep total
  total-swept_row k key ts hits [] e h rest =
      rw (sweep, e)
        (if-elim (λ n. total (sweep live hits) key ≤ n) (same k key) (λ b. omega arith) (λ b. rest))
  total-swept_row k key ts hits (f ∷ fs) e h rest = elim (Bool-cases (same k key)) [
    | inl y ↦ rw (sweep, e, y) (omega arith)
    | inr n ↦ rw (sweep, e, n) rest
  ]

  total-sweep : (hits : Table (List ℕ)) (key : Text) → total (sweep live hits) key ≤ total hits key
  unfolding sweep total
  total-sweep [] key = omega arith
  total-sweep ((k, ts) ∷ hits) key =
      total-swept_row k key ts hits (filter live ts) refl (length-filter-le live ts)
        (total-sweep hits key)

  total-bounded_hits :
      (hits : Table (List ℕ)) (key : Text) → total (bounded_hits live hits) key ≤ total hits key
  unfolding bounded_hits
  total-bounded_hits hits key =
      if-elim (λ h. total h key ≤ total hits key) (ltb most_keys (length hits))
        (λ b. total-sweep hits key) (λ b. omega arith)

module _ (limiter : RateLimiter) (now : ℕ) where
  length-attempts_at :
      (key : Text) → length (attempts_at limiter now key) ≤ suc (length (recorded limiter.hits key))
  unfolding attempts_at
  length-attempts_at key = omega (
    arith,
    length-append (filter (is_recent limiter.window_ms now) (recorded limiter.hits key)) (now ∷ []),
    length-filter-le (is_recent limiter.window_ms now) (recorded limiter.hits key),
  )

  total-allow_own :
      (key : Text) → total (allow limiter now key).0.hits key ≤ suc (total limiter.hits key)
  unfolding allow
  total-allow_own key = omega (
    arith,
    total-bounded_hits (is_recent limiter.window_ms now)
        (put limiter.hits key (attempts_at limiter now key)) key,
    total-put limiter.hits key (attempts_at limiter now key) (length-attempts_at key),
  )

  total-allow_other :
      (other key : Text)
      → same other key ≡ false
      → total (allow limiter now other).0.hits key ≤ total limiter.hits key
  unfolding allow
  total-allow_other other key n = omega (
    arith,
    total-bounded_hits (is_recent limiter.window_ms now)
        (put limiter.hits other (attempts_at limiter now other)) key,
    total-put_other limiter.hits other key (attempts_at limiter now other) n,
  )

  refused-full :
      (key : Text) → (allow limiter now key).1 ≡ false → limiter.limit ≤ total limiter.hits key
  unfolding allow
  refused-full key h = omega (
    arith,
    leb-false (length (attempts_at limiter now key)) limiter.limit h,
    length-attempts_at key,
    length-recorded limiter.hits key,
  )

-- How often a client attempts.
unfoldable pub attempts_of : Text → List Attempt → ℕ
unfolding same
attempts_of key [] = 0
attempts_of key (a ∷ rest) = let n = attempts_of key rest in if same a.key key then suc n else n

allowed_at_least :
    (limiter : RateLimiter) (key : Text) (attempts : List Attempt)
    → min (attempts_of key attempts) (limiter.limit - total limiter.hits key)
      ≤ count_allowed limiter key attempts
unfolding count_allowed allow attempts_of
allowed_at_least limiter key [] = omega arith
allowed_at_least limiter key (a ∷ rest) =
    let after : RateLimiter = (allow limiter a.time a.key).0 in
    let more : min (attempts_of key rest) (limiter.limit - total after.hits key)
        ≤ count_allowed after key rest =
      allowed_at_least after key rest in
    elim (Bool-cases (same a.key key)) [
      | inl y ↦
          let mine : a.key ≡ key = same→eq a.key key y in
          let theirs : total after.hits a.key ≤ suc (total limiter.hits a.key) =
            total-allow_own limiter a.time a.key in
          let own : total after.hits key ≤ suc (total limiter.hits key) =
            subst (λ k. total after.hits k ≤ suc (total limiter.hits k)) mine theirs in
          let full : (allow limiter a.time a.key).1 ≡ false
              → limiter.limit ≤ total limiter.hits key =
            subst
              (λ k. (allow limiter a.time a.key).1 ≡ false → limiter.limit ≤ total limiter.hits k)
              mine (refused-full limiter a.time a.key) in
          rw y (
            if-elim
              (λ n. min (suc (attempts_of key rest)) (limiter.limit - total limiter.hits key) ≤ n)
              (allow limiter a.time a.key).1 (λ ok. omega (arith, more, own))
              (λ refused. omega (arith, more, full refused)))
      | inr n ↦ rw n (omega (arith, more, total-allow_other limiter a.time a.key key n))
    ]

-- THE BUDGET OF A WINDOW. Of the attempts of one client in a series whose times lie in one window,
-- the limiter lets through at most the limit, whatever it holds before and whoever else attempts;
-- and it lets all of them through, or at least as many as the limit leaves over the times that it
-- held of that client before.
pub allow_budget :
    (limiter : RateLimiter) (start : ℕ) (key : Text) (attempts : List Attempt)
    → Within start limiter.window_ms attempts
    → (count_allowed limiter key attempts ≤ limiter.limit)
      × (min (attempts_of key attempts) (limiter.limit - total limiter.hits key)
          ≤ count_allowed limiter key attempts)
allow_budget limiter start key attempts h =
    (at_most_limit_in_window limiter start key attempts h, allowed_at_least limiter key attempts)
