-- ===== src/Backend/RateLimit.antt =====
-- The sliding-window rate limiter: backend/src/http/rate-limit.ts.
--
-- The recorded times are native numbers. `t > now - windowMs` is written `now < t + windowMs`,
-- since `now - windowMs` may lie before the epoch. The clock is an argument.
pub mod Bound
pub mod Patience
use ajar_family.Prelude.{
  ℕ, ◌+◌, List, [], ◌∷◌, ◌++◌, Bool, true, false, Option, none, some, filter, length, ltb, leb,
  if◌then◌else◌,
}
use ajar_family.Text.{Text, codes, split, trim}
use ajar_family.Backend.Table.{Table, get, put}

pub record RateLimiter : Type 0 where
  pub hits : Table (List ℕ)
  pub limit : ℕ
  pub window_ms : ℕ

-- A recorded attempt that still counts.
unfoldable pub is_recent : ℕ → ℕ → ℕ → Bool
is_recent window now t = ltb now (t + window)

-- `this.hits.get(key) ?? []`
unfoldable pub recorded : Table (List ℕ) → Text → List ℕ
unfolding get
recorded hits key = elim (get hits key) [ none ↦ [] | some times ↦ times ]

unfoldable pub sweep : (ℕ → Bool) → Table (List ℕ) → Table (List ℕ)
sweep live [] = []
sweep live ((key, times) ∷ rest) =
    let swept = sweep live rest in
    elim (filter live times) [ [] ↦ swept | t ∷ ts ↦ (key, t ∷ ts) ∷ swept ]

abbrev pub most_keys : ℕ
most_keys = 10000

unfoldable pub attempts_at : RateLimiter → ℕ → Text → List ℕ
unfolding is_recent recorded
attempts_at limiter now key =
    filter (is_recent limiter.window_ms now) (recorded limiter.hits key) ++ now ∷ []

-- `if (this.hits.size > 10_000) this.sweep(cutoff)`
unfoldable pub bounded_hits : (ℕ → Bool) → Table (List ℕ) → Table (List ℕ)
unfolding sweep
bounded_hits live hits = if ltb most_keys (length hits) then sweep live hits else hits

-- The clock, the key, and the limiter after the attempt with its answer.
unfoldable pub allow : RateLimiter → ℕ → Text → RateLimiter × Bool
unfolding attempts_at put bounded_hits is_recent
allow limiter now key =
    let times = attempts_at limiter now key in
    let kept = bounded_hits (is_recent limiter.window_ms now) (put limiter.hits key times) in
    (
      record { hits = kept; limit = limiter.limit; window_ms = limiter.window_ms },
      leb (length times) limiter.limit,
    )

-- `header?.split(",")[0]?.trim()`
unfoldable pub first_hop : Option Text → Option Text
unfolding split trim
first_hop none = none
first_hop (some header) = elim (split 44 header) [ [] ↦ none | hop ∷ hops ↦ some (trim hop) ]

-- `a || b`, where the empty text counts as absent.
unfoldable pub first_text : Option Text → Text → Text
first_text none other = other
first_text (some []) other = other
first_text (some (c ∷ s)) other = c ∷ s

-- Whom an attempt is counted against.
unfoldable pub client_key : Table Text → Bool → Text
unfolding get first_hop first_text
client_key headers trust_proxy_headers =
    let proxied =
      first_text (first_hop (get headers (codes "x-forwarded-for")))
        (first_text (get headers (codes "x-real-ip")) (codes "shared")) in
    first_text (get headers (codes "cf-connecting-ip"))
      (if trust_proxy_headers then proxied else codes "shared")
