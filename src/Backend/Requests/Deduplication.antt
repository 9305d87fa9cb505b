-- ===== src/Backend/Requests/Deduplication.antt =====
-- Asking again files no second request.
use ajar_family.Prelude.{
  ℕ, ◌≡◌, refl, sym, ap, ◌∙◌, inl, inr, List, [], ◌∷◌, ◌++◌, filter, Bool, true, false, ◌&&◌,
  Option, none, some, Bool-cases, Option-cases,
}
use ajar_family.Text.{Text, same}
use ajar_family.Text.Laws.{same_refl}
use ajar_family.Web.{UrlApi}
use ajar_family.Policy.Model.{TargetType}
use ajar_family.Policy.Evaluate.{same_target, TargetType-discrete}
use ajar_family.Targets.{TargetError, child_request_target_error}
use ajar_family.Backend.Enrollment.{event}
use ajar_family.Backend.Model.{AccessRequest, AuditKind}
use ajar_family.Backend.Table.{Table, get, put, values}
use ajar_family.Backend.Store.{MemoryStore, get_device, create_access_request, add_audit_event}
use ajar_family.Backend.Outcome.{ErrorCode, done, failed}
use ajar_family.Backend.Grants.{list_pending, is_pending}
use ajar_family.Backend.Requests.{
  normalize_referrer_host, or_else_text, is_same_text, RequestInput, is_own_device, is_same_ask,
  first_match, enriched, is_changed, new_request, file_request, create_request,
}

values-put {ℓ} :
    {A : Type ℓ} (t : Table A) (key : Text) (v : A)
    → get t key ≡ none
    → values (put t key v) ≡ values t ++ (v ∷ [])
unfolding values put get
values-put [] key v n = refl
values-put ((k, w) ∷ t) key v n = elim (Bool-cases (same k key)) [
  | inl y ↦ absurd (cc (rw y at n))
  | inr m ↦ rw m (ap (λ xs. w ∷ xs) (values-put t key v (rw m at n)))
]

-- What is found after a match is added at the end.
first_match-filter {ℓ} :
    {A : Type ℓ} (p q : A → Bool) (xs : List A) (v : A)
    → first_match p (filter q xs) ≡ none
    → q v ≡ true
    → p v ≡ true
    → first_match p (filter q (xs ++ (v ∷ []))) ≡ some v
unfolding first_match
first_match-filter p q [] v n a b = rw (a, b)
first_match-filter p q (x ∷ xs) v n a b = elim (Bool-cases (q x)) [
  | inr m ↦ rw m (first_match-filter p q xs v (rw m at n) a b)
  | inl m ↦ elim (Bool-cases (p x)) [
    | inl y ↦ absurd (cc (rw (m, y) at n))
    | inr k ↦ rw (m, k) (first_match-filter p q xs v (rw (m, k) at n) a b)
  ]
]

or_else_same : (o : Option Text) → or_else_text o o ≡ o
or_else_same none = refl
or_else_same (some a) = refl

is_same_text_refl : (o : Option Text) → is_same_text o o ≡ true
is_same_text_refl none = refl
is_same_text_refl (some a) = same_refl a

same_target_refl : (t : TargetType) → same_target t t ≡ true
unfolding same_target
same_target_refl t =
    elim (TargetType-discrete t t) as (λ d. (elim d [ yes p ↦ true | no n ↦ false ]) ≡ true) [
      | yes p ↦ refl
      | no n ↦ absurd (n refl)
    ]

module _ (web : UrlApi) (s : MemoryStore) (now : ℕ) (id event_id : Text)
    (input : RequestInput) where
  abbrev filed : MemoryStore
  filed =
      add_audit_event (create_access_request s (new_request web now id input))
        (event event_id input.family_id input.device_id AuditKind.request_created now)

  new_enriched : enriched web input (new_request web now id input) ≡ new_request web now id input
  new_enriched = rw (
    or_else_same input.title,
    or_else_same input.url,
    or_else_same input.reason,
    or_else_same (normalize_referrer_host web input.referrer_host),
  )

  new_unchanged :
      is_changed web
        (enriched web input (new_request web now id input))
        (new_request web now id input)
      ≡ false
  new_unchanged =
      let host = normalize_referrer_host web input.referrer_host in
      rw
        (
          or_else_same input.title,
          or_else_same input.url,
          or_else_same input.reason,
          or_else_same host,
        )
        (rw (
          is_same_text_refl input.title,
          is_same_text_refl input.url,
          is_same_text_refl input.reason,
          is_same_text_refl host,
        ))

  new_same_ask : is_same_ask input (new_request web now id input) ≡ true
  new_same_ask =
      unfold is_same_ask in
      rw (
        same_refl input.child_id,
        same_refl input.device_id,
        same_target_refl input.target_type,
        same_refl input.target_value,
      )

  filed_found :
      first_match (is_same_ask input) (list_pending s input.family_id) ≡ none
      → get s.requests id ≡ none
      → first_match (is_same_ask input) (list_pending filed input.family_id)
        ≡ some (new_request web now id input)
  filed_found n fresh =
      unfold list_pending create_access_request in
      rw (values-put s.requests id (new_request web now id input) fresh) (
        first_match-filter (is_same_ask input)
          (λ r. same r.family_id input.family_id && is_pending r.status) (values s.requests)
          (new_request web now id input) (unfold list_pending in n) (rw (same_refl input.family_id))
          new_same_ask)

module _ (web : UrlApi) (s : MemoryStore) (now : ℕ) (id event_id : Text)
    (input : RequestInput) where
  refused_device :
      is_own_device (get_device s input.device_id) input ≡ false
      → create_request web s now id event_id input ≡ failed ErrorCode.forbidden s
  refused_device n = unfold create_request in rw n

  refused_target :
      is_own_device (get_device s input.device_id) input ≡ true
      → (e : TargetError)
      → child_request_target_error web input.target_type input.target_value ≡ some e
      → create_request web s now id event_id input ≡ failed ErrorCode.bad_request s
  refused_target y e n = unfold create_request in rw (y, n, create_request)

  let_through :
      is_own_device (get_device s input.device_id) input ≡ true
      → child_request_target_error web input.target_type input.target_value ≡ none
      → create_request web s now id event_id input ≡ file_request web s now id event_id input
  let_through y n = unfold create_request in rw (y, n, create_request)

  files_new :
      first_match (is_same_ask input) (list_pending s input.family_id) ≡ none
      → file_request web s now id event_id input
        ≡ done (new_request web now id input) (filed web s now id event_id input)
  files_new n = unfold file_request in rw (n, file_request)

  files_known :
      (r : AccessRequest)
      → first_match (is_same_ask input) (list_pending s input.family_id) ≡ some r
      → enriched web input r ≡ r
      → is_changed web (enriched web input r) r ≡ false
      → file_request web s now id event_id input ≡ done r s
  files_known r n e c =
      unfold file_request in rw (n, file_request, c) (ap (λ (q : AccessRequest). done q s) e)

-- ASKING AGAIN FILES NOTHING. After a device's ask has been filed under a fresh id, where no open ask of
-- it for the same target was there, the same ask made again, whenever, answers the filed request and
-- changes nothing: no second request, and no second event.
pub create_request_idempotent :
    (web : UrlApi) (s : MemoryStore) (now : ℕ) (id event_id : Text) (input : RequestInput)
    (r : AccessRequest) (s' : MemoryStore)
    → first_match (is_same_ask input) (list_pending s input.family_id) ≡ none
    → get s.requests id ≡ none
    → create_request web s now id event_id input ≡ done r s'
    → (later : ℕ) (id' event_id' : Text)
    → create_request web s' later id' event_id' input ≡ done r s'
create_request_idempotent web s now id event_id input r s' n fresh e later id' event_id' =
    elim (Bool-cases (is_own_device (get_device s input.device_id) input)) [
      | inr m ↦ absurd (cc (e, refused_device web s now id event_id input m))
      | inl y ↦
          elim (Option-cases
            (child_request_target_error web input.target_type input.target_value)) [
              | inr (c, k) ↦ absurd (cc (e, refused_target web s now id event_id input y c k))
              | inl k ↦ again (y) (k) (
                  sym (
                    let_through web s now id event_id input y k
                    ∙ files_new web s now id event_id input n)
                  ∙ e)
            ]
    ]
  where
    again :
        is_own_device (get_device s input.device_id) input ≡ true
        → child_request_target_error web input.target_type input.target_value ≡ none
        → done (new_request web now id input) (filed web s now id event_id input) ≡ done r s'
        → create_request web s' later id' event_id' input ≡ done r s'
    again y k f =
        let new_r : new_request web now id input ≡ r = cc f in
        let new_s : filed web s now id event_id input ≡ s' = cc f in
        rw (← new_r, ← new_s)
          (let_through web (filed web s now id event_id input) later id' event_id' input
              (unfold get_device create_access_request in (unfold get_device in y)) k
            ∙ files_known web (filed web s now id event_id input) later id' event_id' input
                (new_request web now id input) (filed_found web s now id event_id input n fresh)
                (new_enriched web s now id event_id input)
                (new_unchanged web s now id event_id input))
