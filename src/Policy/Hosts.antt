-- ===== src/Policy/Hosts.antt =====
-- The hosts of a request: normalized, and growing with the CNAME chain.
use ajar_family.Prelude.{
  some, ◌≡◌, refl, inl, inr, List, [], ◌∷◌, map, true, false, none, Memᴰ, Bool-cases,
}
use ajar_family.Text.{Text, some_char, keep_nonempty, unique, nonempty, some_text, includes}
use ajar_family.Text.Laws.{
  unique_from-Mem, Mem-unique_from, keep_nonempty-Mem, Mem-keep_nonempty, keep_nonempty-nonempty,
  map-Mem, has_upper, has_upper-to_lower, has_upper-append, some_text→Mem,
}
use ajar_family.Web.{UrlApi}
use ajar_family.Host.{normalize_host, drop_root_dot, strip_www}
use ajar_family.Safety.{lies_under}
use ajar_family.Safety.Floor.{LiesUnder, lies_under_iff}
use ajar_family.Policy.Model.{TargetType, RuleAction, PolicyRule, DevicePolicySnapshot, EvalContext}
use ajar_family.Policy.Match.{RequestFacts, target_matches, match_target, key_if, target_label}
use ajar_family.Policy.Evaluate.{request_host, request_hosts, request_facts, or_none}

has_upper-normalize_host : (h : Text) → has_upper (normalize_host h) ≡ false
has_upper-normalize_host h =
    unfold normalize_host in has_upper-to_lower (strip_www (drop_root_dot h))

module _ (web : UrlApi) where
  all_hosts : EvalContext → List Text
  all_hosts ctx = map normalize_host (request_host web ctx.url ∷ or_none ctx.resolved_hosts)

  request_hosts_lem :
      (ctx : EvalContext) → request_hosts web ctx ≡ unique (keep_nonempty (all_hosts ctx))
  request_hosts_lem ctx = unfold request_hosts all_hosts in refl

  Mem-request_hosts :
      (ctx : EvalContext) {h : Text}
      → Memᴰ h (all_hosts ctx)
      → nonempty h ≡ true
      → Memᴰ h (request_hosts web ctx)
  Mem-request_hosts ctx m n = rw (request_hosts_lem ctx) (
      Mem-unique_from [] (keep_nonempty (all_hosts ctx)) (Mem-keep_nonempty (all_hosts ctx) m n)
        (unfold includes in refl))

  request_hosts-Mem :
      (ctx : EvalContext) {h : Text}
      → Memᴰ h (request_hosts web ctx)
      → Memᴰ h (all_hosts ctx) × (nonempty h ≡ true)
  request_hosts-Mem ctx m =
      let k =
        unique_from-Mem [] (keep_nonempty (all_hosts ctx)) (rw (request_hosts_lem ctx) at m) in
      (keep_nonempty-Mem (all_hosts ctx) k, keep_nonempty-nonempty (all_hosts ctx) k)

  request_hosts-lower :
      (ctx : EvalContext) {h : Text} → Memᴰ h (request_hosts web ctx) → has_upper h ≡ false
  request_hosts-lower ctx {h} m =
      let (k, n) = request_hosts-Mem ctx m in
      let (x, j, e) =
        map-Mem normalize_host (request_host web ctx.url ∷ or_none ctx.resolved_hosts) {a = h}
          (unfold all_hosts in k) in
      rw e (has_upper-normalize_host x)

  -- The host of the request is among the hosts with a chain too.
  pub request_hosts_grow :
      (ctx : EvalContext) {h : Text}
      → Memᴰ h (request_hosts web (record ctx { resolved_hosts = none }))
      → Memᴰ h (request_hosts web ctx)
  request_hosts_grow ctx {h} m =
      let (k, n) = request_hosts-Mem (record ctx { resolved_hosts = none }) m in
      Mem-request_hosts ctx (first (unfold all_hosts in k)) n
    where
      first : Memᴰ h (normalize_host (request_host web ctx.url) ∷ []) → Memᴰ h (all_hosts ctx)
      first (Memᴰ.head e) = unfold all_hosts in Memᴰ.head e
      first (Memᴰ.tail j) = elim j [ ]

  -- A name of the chain is among the hosts.
  pub chain-Mem :
      (ctx : EvalContext) (d : Text)
      → ctx.resolved_hosts ≡ some (d ∷ [])
      → normalize_host d ≡ d
      → nonempty d ≡ true
      → Memᴰ d (request_hosts web ctx)
  chain-Mem ctx d e c n =
      Mem-request_hosts ctx (unfold all_hosts in rw (e, c) (Memᴰ.tail (Memᴰ.head refl))) n

  LiesUnder-lower : (h v : Text) → LiesUnder h v → has_upper v ≡ true → has_upper h ≡ true
  LiesUnder-lower h v (inl e) u = rw e u
  LiesUnder-lower h v (inr (front, e)) u =
      rw e (has_upper-append front (b'.' ∷ v) (unfold some_char in u))

  module _ (ctx : EvalContext) (facts : RequestFacts) where
    pub match_target_lem :
        (u : PolicyRule)
        → match_target web ctx facts u
          ≡ key_if
              (target_matches web ctx facts u.target u.action u.value)
              (target_label u.target)
              u.value
    match_target_lem u = unfold match_target in refl

    pub domain_matches :
        (action : RuleAction) (v : Text)
        → target_matches web ctx facts TargetType.domain action v
          ≡ some_text (λ h. lies_under h v) facts.hosts
    domain_matches action v = unfold target_matches in refl

  -- A DOMAIN rule whose value holds a capital letter matches no request: every host is in lower case
  -- and the value is compared as it stands.
  pub capital_domain_never_matches :
      (s : DevicePolicySnapshot) (ctx : EvalContext) (u : PolicyRule)
      → u.target ≡ TargetType.domain
      → has_upper u.value ≡ true
      → match_target web ctx (request_facts web s ctx) u ≡ none
  capital_domain_never_matches s ctx u t up =
      let facts = request_facts web s ctx in
      rw (match_target_lem ctx facts u, t, domain_matches ctx facts u.action u.value)
        (elim (Bool-cases (some_text (λ h. lies_under h u.value) facts.hosts)) [
          | inl e ↦
              let (h, m, l) = some_text→Mem (λ h. lies_under h u.value) facts.hosts e in
              let capital = LiesUnder-lower h u.value ((lies_under_iff h u.value).0 l) up in
              let lower = request_hosts-lower ctx {h = h} (unfold request_facts in m) in cc
          | inr n ↦ rw n
        ])
