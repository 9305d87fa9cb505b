-- ===== src/Backend/Scopes/Mapping.antt =====
-- What a parent's answer opens: its targets, scopes and expiry.
use ajar_family.Prelude.{
  ◌≡◌, ◌≢◌, refl, ◌&&◌, ◌⊎◌, List, [], ◌∷◌, ◌++◌, ◌||◌, Bool, true, false, some, arith,
}
use ajar_family.Text.{Text, nonempty, truthy}
use ajar_family.Web.{UrlApi}
use ajar_family.Policy.Model.{TargetType}
use ajar_family.Backend.Model.{AccessRequest, ApprovalScope}
use ajar_family.Backend.Scopes.{
  Mapped, default_scope_for, lists, list_if, applicable_scopes, host_of, target_of, map_scope,
  is_video, is_channel, ApprovalScope-discrete,
}

-- An allow is never wider than what the parent picked: the rule lies in the request's family; it is
-- for every child only where the parent said the whole family; and its target is the requested one,
-- or the page or the host of the request.
pub record IsNarrow (web : UrlApi) (req : AccessRequest) (scope : ApprovalScope) (m : Mapped)
    : Type 0 where
  pub family : m.rule_scope.family_id ≡ req.family_id
  pub child : scope ≢ ApprovalScope.whole_family → m.rule_scope.child_id ≡ some req.child_id
  pub once : scope ≡ ApprovalScope.this_request → m.rule_scope.device_id ≡ some req.device_id
  pub one_device : scope ≡ ApprovalScope.this_device → m.rule_scope.device_id ≡ some req.device_id
  pub target :
      ((m.target_type ≡ req.target_type) × (m.target_value ≡ req.target_value))
      ⊎ ((m.target_type ≡ TargetType.url) × (req.url ≡ some m.target_value))
      ⊎ ((m.target_type ≡ TargetType.domain) × (m.target_value ≡ host_of web req))

lists-append :
    (xs ys : List ApprovalScope) (s : ApprovalScope)
    → lists (xs ++ ys) s ≡ (lists xs s || lists ys s)
unfolding lists
lists-append [] ys s = refl
lists-append (x ∷ xs) ys s =
    elim (ApprovalScope-discrete x s)
      as (λ d.
        (elim d [ yes p ↦ true | no n ↦ lists (xs ++ ys) s ])
        ≡ ((elim d [ yes p ↦ true | no n ↦ lists xs s ]) || lists ys s)) [
          | yes p ↦ refl
          | no n ↦ lists-append xs ys s
        ]

-- One test for each scope.
abbrev pub offers : Bool → Bool → Bool → Bool → ApprovalScope → Bool
offers v c u d ApprovalScope.this_video = v
offers v c u d ApprovalScope.this_channel = c
offers v c u d ApprovalScope.this_url = u
offers v c u d ApprovalScope.this_domain = d
offers v c u d _ = true

tail_lists :
    (s : ApprovalScope)
    → lists
        (ApprovalScope.this_request ∷ ApprovalScope.this_device ∷ ApprovalScope.this_child
          ∷ ApprovalScope.whole_family ∷ [])
        s
      ≡ offers false false false false s
unfolding lists ApprovalScope-discrete
tail_lists ApprovalScope.this_request = refl
tail_lists ApprovalScope.this_url = refl
tail_lists ApprovalScope.this_video = refl
tail_lists ApprovalScope.this_channel = refl
tail_lists ApprovalScope.this_domain = refl
tail_lists ApprovalScope.this_device = refl
tail_lists ApprovalScope.this_child = refl
tail_lists ApprovalScope.whole_family = refl

lists-list_if : (b : Bool) (t s : ApprovalScope) → lists (list_if b t) s ≡ (b && lists (t ∷ []) s)
unfolding lists
lists-list_if true t s = refl
lists-list_if false t s = refl

listed :
    (v c u d : Bool) (s : ApprovalScope)
    → ((v && lists (ApprovalScope.this_video ∷ []) s)
        || ((c && lists (ApprovalScope.this_channel ∷ []) s)
            || ((u && lists (ApprovalScope.this_url ∷ []) s)
                || ((d && lists (ApprovalScope.this_domain ∷ []) s)
                    || offers false false false false s))))
      ≡ offers v c u d s
unfolding lists ApprovalScope-discrete
listed v c u d ApprovalScope.this_request = ground arith
listed v c u d ApprovalScope.this_url = ground arith
listed v c u d ApprovalScope.this_video = ground arith
listed v c u d ApprovalScope.this_channel = ground arith
listed v c u d ApprovalScope.this_domain = ground arith
listed v c u d ApprovalScope.this_device = ground arith
listed v c u d ApprovalScope.this_child = ground arith
listed v c u d ApprovalScope.whole_family = ground arith

module _ (web : UrlApi) (req : AccessRequest) where
  -- What `applicableScopes` lists, as one test for each scope.
  abbrev pub is_offered : ApprovalScope → Bool
  is_offered =
      offers (is_video req.target_type) (is_channel req.target_type) (truthy req.url)
        (nonempty (host_of web req))

  offered : (s : ApprovalScope) → lists (applicable_scopes web req) s ≡ is_offered s
  offered s =
      unfold applicable_scopes in
      rw
        (
          lists-append, lists-append, lists-append, lists-append, lists-list_if, lists-list_if,
          lists-list_if, lists-list_if, tail_lists,
        )
        (listed (is_video req.target_type) (is_channel req.target_type) (truthy req.url)
          (nonempty (host_of web req)) s)

  mapped_when :
      (scope : ApprovalScope)
      → is_offered scope ≡ true
      → map_scope web req scope ≡ some (target_of web req scope)
  mapped_when scope y = unfold map_scope in rw (offered scope, y)

default_offered :
    (t : TargetType) (u d : Bool)
    → (t ≡ TargetType.url → u ≡ true)
    → (t ≡ TargetType.url_pattern → u ≡ true)
    → (t ≡ TargetType.domain → d ≡ true)
    → (t ≡ TargetType.category → d ≡ true)
    → offers (is_video t) (is_channel t) u d (default_scope_for t) ≡ true
unfolding default_scope_for
default_offered TargetType.url u d a b c e = a refl
default_offered TargetType.url_pattern u d a b c e = b refl
default_offered TargetType.domain u d a b c e = c refl
default_offered TargetType.category u d a b c e = e refl
default_offered TargetType.youtube_video u d a b c e = refl
default_offered TargetType.youtube_channel u d a b c e = refl
default_offered TargetType.youtube_playlist u d a b c e = refl
default_offered TargetType.application u d a b c e = refl

-- The scope offered first makes a rule: for a page or a pattern where the request carries its URL, for
-- a site or a category where it has a host, and for every other target always.
pub default_scope_applies :
    (web : UrlApi) (req : AccessRequest)
    → (req.target_type ≡ TargetType.url → truthy req.url ≡ true)
    → (req.target_type ≡ TargetType.url_pattern → truthy req.url ≡ true)
    → (req.target_type ≡ TargetType.domain → nonempty (host_of web req) ≡ true)
    → (req.target_type ≡ TargetType.category → nonempty (host_of web req) ≡ true)
    → map_scope web req (default_scope_for req.target_type)
      ≡ some (target_of web req (default_scope_for req.target_type))
default_scope_applies web req a b c e =
    mapped_when web req (default_scope_for req.target_type)
      (default_offered req.target_type (truthy req.url) (nonempty (host_of web req)) a b c e)
