-- ===== src/Windows/Resolver.antt =====
-- windows/extension/cname-resolve.js: the cache of alias chains that the synchronous listener reads,
-- and the lookup that fills it. The answers of the name servers are the network's.
pub mod Agreement
use ajar_family.Prelude.{
  ℕ, zero, suc, ◌+◌, List, [], ◌∷◌, Bool, not, ◌&&◌, ◌||◌, Option, none, some, ltb, filter, map,
  if◌then◌else◌,
}
use ajar_family.Text.{Text, same, includes, nonempty}
use ajar_family.Host.{normalize_host}
use ajar_family.Backend.Table.{Table, get, put}

abbrev max_depth : ℕ
max_depth = 10

-- `10 * 60 * 1000` and `60 * 1000`
abbrev ttl_ms : ℕ
ttl_ms = 600000

abbrev neg_ttl_ms : ℕ
neg_ttl_ms = 60000

pub record CacheEntry : Type 0 where
  pub chain : List Text
  pub exp : ℕ

abbrev fresh_chain : Option CacheEntry → ℕ → List Text
fresh_chain none now = []
fresh_chain (some e) now = if ltb now e.exp then e.chain else []

unfoldable pub chain_for : Table CacheEntry → ℕ → Text → List Text
unfolding get normalize_host
chain_for cache now host = fresh_chain (get cache (normalize_host host)) now

abbrev is_empty : List Text → Bool
is_empty [] = Bool.true
is_empty (t ∷ ts) = Bool.false

-- What `prime` puts into the cache when a lookup ends.
unfoldable pub keep_chain : Table CacheEntry → ℕ → Text → List Text → Table CacheEntry
unfolding put
keep_chain cache now h chain =
    put cache h
      (record { chain = chain; exp = now + (if is_empty chain then neg_ttl_ms else ttl_ms) })

-- `next = ans ? norm(ans.data) : null`; a lookup that fails has no answer.
abbrev pub next_name : Option Text → Text
next_name none = []
next_name (some data_field) = normalize_host data_field

-- The loop of `_followDoh`, by the rounds that are left.
unfoldable pub follow_rounds : (Text → Option Text) → ℕ → List Text → Text → List Text
unfolding includes normalize_host
follow_rounds answer zero seen cur = []
follow_rounds answer (suc rounds) seen cur =
    let next = next_name (answer cur) in
    let rest = next ∷ follow_rounds answer rounds (next ∷ seen) next in
    if not (nonempty next) || includes seen next then [] else rest

unfoldable pub follow_doh : (Text → Option Text) → Text → List Text
unfolding follow_rounds
follow_doh answer host = follow_rounds answer max_depth (host ∷ []) host

-- `_resolve`: the browser's own answer where there is one, else the name servers'.
unfoldable pub resolve_chain : Option (List Text) → (Text → Option Text) → Text → List Text
unfolding follow_doh same normalize_host
resolve_chain none answer h = follow_doh answer h
resolve_chain (some canon) answer h =
    filter (λ c. nonempty c && not (same c h)) (map normalize_host canon)
