-- ===== src/Cname.antt =====
-- shared/net/cname.ts: following a chain of DNS aliases. The resolver is the platform's.
pub mod Chain
use ajar_family.Prelude.{
  ℕ, zero, suc, List, [], ◌∷◌, Bool, true, false, ◌||◌, not, Option, none, some, if◌then◌else◌,
}
use ajar_family.Text.{Text, includes, nonempty}
use ajar_family.Host.{normalize_host}

-- `normalizeDnsName` is written as `normalizeHost` is.
abbrev pub normalize_dns_name : Text → Text
normalize_dns_name name = normalize_host name

abbrev pub default_max_depth : ℕ
default_max_depth = 10

-- `resolveOne`: the immediate alias of a name; `none` where there is none or the lookup throws.
abbrev pub Resolver : Type 0
Resolver = Text → Option Text

-- `next ? normalizeDnsName(next) : ""`
abbrev pub alias : Option Text → Text
alias none = []
alias (some next) = if nonempty next then normalize_dns_name next else []

-- The loop, by the rounds that are left.
unfoldable pub follow : Resolver → ℕ → List Text → Text → List Text
unfolding includes normalize_host
follow resolve zero seen cur = []
follow resolve (suc rounds) seen cur =
    let t = alias (resolve cur) in
    let rest = t ∷ follow resolve rounds (t ∷ seen) t in
    if not (nonempty t) || includes seen t then [] else rest

-- `opts.maxDepth ?? DEFAULT_MAX_DEPTH`
abbrev pub depth_of : Option ℕ → ℕ
depth_of none = default_max_depth
depth_of (some d) = d

unfoldable pub follow_cname_chain : Text → Resolver → Option ℕ → List Text
unfolding follow
follow_cname_chain host resolve max_depth =
    let cur = normalize_dns_name host in
    let depth = depth_of max_depth in
    if nonempty cur then follow resolve depth (cur ∷ []) cur else []
