-- ===== src/Tests/Limits.antt =====
-- The rate limiter at a concrete input.
use ajar_family.Prelude.{min, ◌-◌, ℕ, ◌≤◌, ◌≡◌, refl, List, [], ◌∷◌, true, false, arith}
use ajar_family.Text.{codes, same, split, trim, is_space, push_head}
use ajar_family.Backend.Table.{get, put}
use ajar_family.Backend.RateLimit.{
  RateLimiter, allow, attempts_at, bounded_hits, client_key, first_hop, is_recent, first_text,
  recorded,
}
use ajar_family.Backend.RateLimit.Bound.{Attempt, Within, count_allowed}
use ajar_family.Backend.RateLimit.Patience.{allow_budget, attempts_of, total}

abbrev two_a_second : RateLimiter
two_a_second = record { hits = []; limit = 2; window_ms = 1000 }

abbrev attempt : ℕ → Attempt
attempt time = record { time = time; key = codes "203.0.113.7" }

abbrev burst : List Attempt
burst = attempt 5000 ∷ attempt 5400 ∷ attempt 5900 ∷ attempt 5999 ∷ []

burst_test : count_allowed two_a_second (codes "203.0.113.7") burst ≡ 2
unfolding count_allowed allow attempts_at bounded_hits is_recent recorded get put same
burst_test = refl

burst-Within : Within 5000 1000 burst
burst-Within =
    let last : Within 5000 1000 (attempt 5999 ∷ []) = (omega arith, omega arith, tt) in
    let third : Within 5000 1000 (attempt 5900 ∷ attempt 5999 ∷ []) =
      (omega arith, omega arith, last) in
    let second : Within 5000 1000 (attempt 5400 ∷ attempt 5900 ∷ attempt 5999 ∷ []) =
      (omega arith, omega arith, third) in
    (omega arith, omega arith, second)

allow_budget_example :
    (count_allowed two_a_second (codes "203.0.113.7") burst ≤ 2)
    × (min
          (attempts_of (codes "203.0.113.7") burst)
          (2 - total two_a_second.hits (codes "203.0.113.7"))
        ≤ count_allowed two_a_second (codes "203.0.113.7") burst)
allow_budget_example = allow_budget two_a_second 5000 (codes "203.0.113.7") burst burst-Within

forged_test :
    client_key ((codes "x-forwarded-for", codes "198.51.100.1") ∷ []) false ≡ codes "shared"
unfolding client_key get first_text same
forged_test = refl

proxied_test :
    client_key ((codes "x-forwarded-for", codes " 198.51.100.1 , 10.0.0.1") ∷ []) true
    ≡ codes "198.51.100.1"
unfolding client_key first_hop get first_text same split trim is_space push_head
proxied_test = refl
