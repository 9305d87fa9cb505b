-- ===== src/Windows/Resolver/Agreement.antt =====
-- The extension follows the chain that the shared resolver follows.
use ajar_family.Prelude.{ℕ, zero, suc, ◌≡◌, refl, List, [], ◌∷◌, true, Option, none, some}
use ajar_family.Text.{Text, nonempty}
use ajar_family.Host.{normalize_host}
use ajar_family.Cname.{alias, follow, follow_cname_chain}
use ajar_family.Windows.Resolver.{next_name, follow_rounds, follow_doh}

next_name_lem : (o : Option Text) → next_name o ≡ alias o
next_name_lem none = refl
next_name_lem (some []) = unfold normalize_host in refl
next_name_lem (some (ch ∷ s)) = refl

follow_rounds_lem :
    (answer : Text → Option Text) (n : ℕ) (seen : List Text) (cur : Text)
    → follow_rounds answer n seen cur ≡ follow answer n seen cur
unfolding follow_rounds follow
follow_rounds_lem answer zero seen cur = refl
follow_rounds_lem answer (suc n) seen cur = rw (
  next_name_lem (answer cur),
  follow_rounds_lem answer n (alias (answer cur) ∷ seen) (alias (answer cur)),
)

-- Looking up a host with the name servers follows its chain of aliases as the shared resolver does.
pub follow_doh-agrees :
    (answer : Text → Option Text) (host : Text)
    → nonempty (normalize_host host) ≡ true
    → follow_doh answer (normalize_host host) ≡ follow_cname_chain host answer none
follow_doh-agrees answer host named =
    unfold follow_doh follow_cname_chain in
    rw (named, follow_rounds_lem answer 10 (normalize_host host ∷ []) (normalize_host host))
