-- ===== src/Backend/RateLimit/Bound.antt =====
-- How many attempts the limiter of backend/src/http/rate-limit.ts lets through in a window.
use ajar_family.Prelude.{
  ℕ, suc, ◌+◌, ◌-◌, ◌<◌, ◌≤◌, ◌≡◌, refl, ◌∙◌, ◌&&◌, inl, inr, List, [], ◌∷◌, ◌++◌, Bool, true,
  false, filter, length, ltb, leb, lt→ltb, leb→le, if◌then◌else◌, if-elim, Bool-cases, arith,
}
use mathlib.Core.Path.{subst}
use ajar_family.Text.{Text, same}
use ajar_family.Text.Laws.{same→eq}
use ajar_family.Backend.Table.{Table, get, put}
use ajar_family.Backend.Table.Laws.{get-put, get-put_other}
use ajar_family.Backend.RateLimit.{
  RateLimiter, allow, attempts_at, bounded_hits, is_recent, most_keys, recorded, sweep,
}

-- The recorded times from `start` on.
unfoldable since : ℕ → List ℕ → ℕ
since start [] = 0
since start (t ∷ ts) = let n = since start ts in if leb start t then suc n else n

since-le-length : (start : ℕ) (ts : List ℕ) → since start ts ≤ length ts
unfolding since
since-le-length start [] = omega arith
since-le-length start (t ∷ ts) =
    let rest = since-le-length start ts in
    if-elim (λ n. n ≤ suc (length ts)) (leb start t) (λ b. omega arith) (λ b. omega arith)

since-append :
    (start t : ℕ) (ts : List ℕ) → start ≤ t → since start (ts ++ t ∷ []) ≡ suc (since start ts)
unfolding since
since-append start t [] h = ground arith
since-append start t (u ∷ ts) h = elim (Bool-cases (leb start u)) [
  | inl y ↦ rw (y, since-append start t ts h)
  | inr n ↦ rw (n, since-append start t ts h)
]

recorded-row :
    (k key : Text) (ts : List ℕ) (hits : Table (List ℕ))
    → recorded ((k, ts) ∷ hits) key ≡ (if same k key then ts else recorded hits key)
unfolding recorded get
recorded-row k key ts hits = elim (Bool-cases (same k key)) [
  | inl y ↦ rw (y, recorded) refl
  | inr n ↦ rw (n, recorded) refl
]

recorded-put :
    (hits : Table (List ℕ)) (key : Text) (ts : List ℕ) → recorded (put hits key ts) key ≡ ts
unfolding recorded
recorded-put hits key ts = rw (recorded, get-put hits key ts)

recorded-put_other :
    (hits : Table (List ℕ)) (other key : Text) (ts : List ℕ)
    → same other key ≡ false
    → recorded (put hits other ts) key ≡ recorded hits key
unfolding recorded
recorded-put_other hits other key ts n = rw (recorded, get-put_other hits other key ts n)

module _ (live : ℕ → Bool) (start : ℕ) (keeps : (t : ℕ) → start ≤ t → live t ≡ true) where
  since-filter : (ts : List ℕ) → since start (filter live ts) ≡ since start ts
  unfolding since
  since-filter [] = refl
  since-filter (t ∷ ts) = elim (Bool-cases (leb start t)) [
    | inl y ↦ rw (keeps t (leb→le start t y), y, since-filter ts)
    | inr n ↦ elim (Bool-cases (live t)) [
      | inl l ↦ rw (l, n, since-filter ts)
      | inr l ↦ rw (l, n, since-filter ts)
    ]
  ]

  swept_row :
      (key k : Text) (ts : List ℕ) (hits : Table (List ℕ)) (fs : List ℕ)
      → filter live ts ≡ fs
      → since start (recorded hits key) ≤ since start (recorded (sweep live hits) key)
      → since start (recorded ((k, ts) ∷ hits) key)
        ≤ since start (recorded (sweep live ((k, ts) ∷ hits)) key)
  unfolding sweep since
  swept_row key k ts hits [] e rest =
      let idle : since start ts ≡ 0 = rw (← since-filter ts, e) refl in
      rw (sweep, e, recorded-row k key ts hits)
        (if-elim (λ held. since start held ≤ since start (recorded (sweep live hits) key))
          (same k key) (λ b. omega (arith, idle)) (λ b. rest))
  swept_row key k ts hits (f ∷ fs) e rest =
      let held : since start ts ≡ since start (f ∷ fs) = rw (← since-filter ts, e) refl in
      rw (sweep, e, recorded-row k key ts hits, recorded-row k key (f ∷ fs) (sweep live hits))
        (elim (Bool-cases (same k key)) [ inl y ↦ rw (y, held) (omega arith) | inr n ↦ rw n rest ])

  -- A sweep forgets no time from `start` on.
  sweep-keeps :
      (hits : Table (List ℕ)) (key : Text)
      → since start (recorded hits key) ≤ since start (recorded (sweep live hits) key)
  unfolding sweep recorded get since
  sweep-keeps [] key = omega arith
  sweep-keeps ((k, ts) ∷ hits) key =
      swept_row key k ts hits (filter live ts) refl (sweep-keeps hits key)

  bounded_hits-keeps :
      (hits : Table (List ℕ)) (key : Text)
      → since start (recorded hits key) ≤ since start (recorded (bounded_hits live hits) key)
  unfolding bounded_hits
  bounded_hits-keeps hits key =
      if-elim (λ h. since start (recorded hits key) ≤ since start (recorded h key))
        (ltb most_keys (length hits)) (λ b. sweep-keeps hits key) (λ b. omega arith)

-- An attempt of the client `key` at `time`.
pub record Attempt : Type 0 where
  pub time : ℕ
  pub key : Text

-- The attempts of one client that are let through.
unfoldable pub count_allowed : RateLimiter → Text → List Attempt → ℕ
unfolding same allow
count_allowed limiter key [] = 0
count_allowed limiter key (a ∷ rest) =
    let (after, allowed) = allow limiter a.time a.key in
    let n = count_allowed after key rest in if same a.key key && allowed then suc n else n

-- The attempts lie within one window.
abbrev pub Within : ℕ → ℕ → List Attempt → Type 0
Within start window [] = Unit
Within start window (a ∷ rest) =
    (start ≤ a.time) × (a.time < start + window) × Within start window rest

-- What is known of the client's past when an attempt is made.
abbrev past : ℕ → RateLimiter → Text → ℕ
past start limiter key = since start (recorded limiter.hits key)

module _ (start now : ℕ) (limiter : RateLimiter) (from : start ≤ now)
    (near : now < start + limiter.window_ms) where
  recent : (t : ℕ) → start ≤ t → is_recent limiter.window_ms now t ≡ true
  unfolding is_recent
  recent t h = lt→ltb now (t + limiter.window_ms) (omega arith)

  since-attempts_at :
      (key : Text) → since start (attempts_at limiter now key) ≡ suc (past start limiter key)
  unfolding attempts_at
  since-attempts_at key =
      since-append start now (filter (is_recent limiter.window_ms now) (recorded limiter.hits key))
        from
      ∙ rw (since-filter (is_recent limiter.window_ms now) start recent) refl

  past-allow_own :
      (key : Text) → suc (past start limiter key) ≤ past start (allow limiter now key).0 key
  unfolding allow recorded
  past-allow_own key = omega (
    arith,
    since-attempts_at key,
    put_own,
    bounded_hits-keeps (is_recent limiter.window_ms now) start recent
        (put limiter.hits key (attempts_at limiter now key)) key,
  )
    where
      put_own :
          since start (recorded (put limiter.hits key (attempts_at limiter now key)) key)
          ≡ since start (attempts_at limiter now key)
      put_own = rw (recorded-put limiter.hits key (attempts_at limiter now key))

  past-allow_other :
      (other key : Text)
      → same other key ≡ false
      → past start limiter key ≤ past start (allow limiter now other).0 key
  unfolding allow recorded
  past-allow_other other key n = omega (
    arith,
    put_other,
    bounded_hits-keeps (is_recent limiter.window_ms now) start recent
        (put limiter.hits other (attempts_at limiter now other)) key,
  )
    where
      put_other :
          since start (recorded (put limiter.hits other (attempts_at limiter now other)) key)
          ≡ since start (recorded limiter.hits key)
      put_other = rw (recorded-put_other limiter.hits other key (attempts_at limiter now other) n)

  allowed-le :
      (key : Text) → (allow limiter now key).1 ≡ true → suc (past start limiter key) ≤ limiter.limit
  unfolding allow
  allowed-le key h = omega (
    arith,
    since-attempts_at key,
    since-le-length start (attempts_at limiter now key),
    leb→le (length (attempts_at limiter now key)) limiter.limit h,
  )

allowed_left :
    (start : ℕ) (limiter : RateLimiter) (key : Text) (attempts : List Attempt)
    → Within start limiter.window_ms attempts
    → count_allowed limiter key attempts ≤ limiter.limit - past start limiter key
unfolding count_allowed allow
allowed_left start limiter key [] h = omega arith
allowed_left start limiter key (a ∷ rest) (from, near, h) =
    let after : RateLimiter = (allow limiter a.time a.key).0 in
    let left : count_allowed after key rest ≤ limiter.limit - past start after key =
      allowed_left start after key rest h in
    elim (Bool-cases (same a.key key)) [
      | inl y ↦
          let mine : a.key ≡ key = same→eq a.key key y in
          let theirs : suc (past start limiter a.key) ≤ past start after a.key =
            past-allow_own start a.time limiter from near a.key in
          let own : suc (past start limiter key) ≤ past start after key =
            subst (λ k. suc (past start limiter k) ≤ past start after k) mine theirs in
          let within : (allow limiter a.time a.key).1 ≡ true
              → suc (past start limiter key) ≤ limiter.limit =
            subst
              (λ k.
                (allow limiter a.time a.key).1 ≡ true → suc (past start limiter k) ≤ limiter.limit)
              mine (allowed-le start a.time limiter from near a.key) in
          rw y (
            if-elim (λ n. n ≤ limiter.limit - past start limiter key) (allow limiter a.time a.key).1
              (λ ok. omega (arith, left, own, within ok)) (λ refused. omega (arith, left, own)))
      | inr n ↦
          rw n (omega (arith, left, past-allow_other start a.time limiter from near a.key key n))
    ]

pub at_most_limit_in_window :
    (limiter : RateLimiter) (start : ℕ) (key : Text) (attempts : List Attempt)
    → Within start limiter.window_ms attempts
    → count_allowed limiter key attempts ≤ limiter.limit
at_most_limit_in_window limiter start key attempts h =
    omega (arith, allowed_left start limiter key attempts h)
