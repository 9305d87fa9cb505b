-- ===== src/Backend/Grants/Once.antt =====
-- A single-use grant is spent once.
use ajar_family.Prelude.{
  ℕ, ◌+◌, ◌≡◌, refl, inl, inr, true, false, not, ◌&&◌, none, some, Bool-cases, Option-cases,
  if-elim,
}
use ajar_family.Text.{Text, same, is, truthy}
use ajar_family.Backend.Model.{Device, TemporaryGrant}
use ajar_family.Backend.Table.{get, put}
use ajar_family.Backend.Table.Laws.{get-put}
use ajar_family.Backend.Store.{
  MemoryStore, get_device, get_temporary_rule, is_consumed, mark_temporary_rule_consumed,
  bump_policy_version, get_policy_version, version_key,
}
use ajar_family.Backend.Outcome.{ErrorCode, done, failed}
use ajar_family.Backend.Grants.{consume_error, spend, after_spending, consume_grant, is_once}

-- What a spent grant answers, to any device.
refused :
    (device_id : Text) (d : Device) (g : TemporaryGrant)
    → is_consumed g ≡ true
    → (c : ErrorCode) × (consume_error device_id d g ≡ some c)
refused device_id d g y =
    unfold consume_error in
    if-elim (λ o. (c : ErrorCode) × (o ≡ some c)) (not (same g.grant.scope.family_id d.family_id))
      (λ _. (ErrorCode.not_found, refl))
      (λ _.
        if-elim (λ o. (c : ErrorCode) × (o ≡ some c))
          (truthy g.grant.scope.child_id && not (is g.grant.scope.child_id d.child_id))
          (λ _. (ErrorCode.forbidden, refl))
          (λ _.
            if-elim (λ o. (c : ErrorCode) × (o ≡ some c))
              (truthy g.grant.scope.device_id && not (is g.grant.scope.device_id device_id))
              (λ _. (ErrorCode.forbidden, refl))
              (λ _.
                if-elim (λ o. (c : ErrorCode) × (o ≡ some c)) (not (is_once g.grant.grant_kind))
                  (λ _. (ErrorCode.bad_request, refl))
                  (λ _.
                    if-elim (λ o. (c : ErrorCode) × (o ≡ some c)) (is_consumed g)
                      (λ _. (ErrorCode.gone, refl)) (λ n. absurd (cc (y, n)))))))

abbrev pub marked : ℕ → TemporaryGrant → TemporaryGrant
marked now g = record g { consumed_at = some (some now) }

abbrev pub marked_store : MemoryStore → ℕ → Text → TemporaryGrant → MemoryStore
marked_store s now rule_id g = record s { temp_rules = put s.temp_rules rule_id (marked now g) }

module _ (s : MemoryStore) (now : ℕ) (event_id device_id rule_id : Text) where
  consume_known :
      (d : Device) (g : TemporaryGrant)
      → get_device s device_id ≡ some d
      → get_temporary_rule s rule_id ≡ some g
      → consume_error device_id d g ≡ none
      → consume_grant s now event_id device_id rule_id ≡ spend s now event_id device_id d rule_id g
  consume_known d g e f n = unfold consume_grant in rw (e, f, n, consume_grant)

  consume_refused :
      (d : Device) (g : TemporaryGrant) (c : ErrorCode)
      → get_device s device_id ≡ some d
      → get_temporary_rule s rule_id ≡ some g
      → consume_error device_id d g ≡ some c
      → consume_grant s now event_id device_id rule_id ≡ failed c s
  consume_refused d g c e f n = unfold consume_grant in rw (e, f, n, consume_grant)

  consume_no_device :
      get_device s device_id ≡ none
      → consume_grant s now event_id device_id rule_id ≡ failed ErrorCode.not_found s
  consume_no_device e = unfold consume_grant in rw (e, consume_grant)

  consume_no_grant :
      (d : Device)
      → get_device s device_id ≡ some d
      → get_temporary_rule s rule_id ≡ none
      → consume_grant s now event_id device_id rule_id ≡ failed ErrorCode.not_found s
  consume_no_grant d e f = unfold consume_grant in rw (e, f, consume_grant)

  -- A spent grant is refused, whoever asks.
  consumed_refused :
      (g : TemporaryGrant)
      → get_temporary_rule s rule_id ≡ some g
      → is_consumed g ≡ true
      → (c : ErrorCode) × (consume_grant s now event_id device_id rule_id ≡ failed c s)
  consumed_refused g f y = elim (Option-cases (get_device s device_id)) [
    | inl n ↦ (ErrorCode.not_found, consume_no_device n)
    | inr (d, e) ↦ let (c, r) = refused device_id d g y in (c, consume_refused d g c e f r)
  ]

  spend_lem :
      (d : Device) (g : TemporaryGrant)
      → get_temporary_rule s rule_id ≡ some g
      → is_consumed g ≡ false
      → spend s now event_id device_id d rule_id g
        ≡ done
            (marked now g)
            (after_spending (marked_store s now rule_id g) now event_id device_id d)
  spend_lem d g f n =
      let k : get s.temp_rules rule_id ≡ some g = unfold get_temporary_rule in f in
      let m : mark_temporary_rule_consumed s rule_id (some now)
          ≡ (true, marked_store s now rule_id g) =
        unfold mark_temporary_rule_consumed in rw (k, n, mark_temporary_rule_consumed) in
      unfold spend in rw (m, spend)

unspent :
    (device_id : Text) (d : Device) (g : TemporaryGrant)
    → consume_error device_id d g ≡ none
    → is_consumed g ≡ false
unspent device_id d g e = elim (Bool-cases (is_consumed g)) [
  | inl y ↦ let (c, r) = refused device_id d g y in absurd (cc (e, r))
  | inr n ↦ n
]

-- What a grant that is consumed was, and what is left.
pub record Spent (s : MemoryStore) (now : ℕ) (event_id device_id rule_id : Text)
    (r : TemporaryGrant) (s' : MemoryStore) : Type 0 where
  pub device : Device
  pub known_device : get_device s device_id ≡ some device
  pub grant : TemporaryGrant
  pub known_grant : get_temporary_rule s rule_id ≡ some grant
  pub allowed : consume_error device_id device grant ≡ none
  pub result : r ≡ marked now grant
  pub left : s' ≡ after_spending (marked_store s now rule_id grant) now event_id device_id device

module _ (s : MemoryStore) (now : ℕ) (event_id device_id rule_id : Text) where
  consume-Spent :
      {r : TemporaryGrant} {s' : MemoryStore}
      → consume_grant s now event_id device_id rule_id ≡ done r s'
      → Spent s now event_id device_id rule_id r s'
  consume-Spent {r} {s'} e = elim (Option-cases (get_device s device_id)) [
    | inl n ↦ absurd (cc (e, consume_no_device s now event_id device_id rule_id n))
    | inr (d, k) ↦ elim (Option-cases (get_temporary_rule s rule_id)) [
      | inl n ↦ absurd (cc (e, consume_no_grant s now event_id device_id rule_id d k n))
      | inr (g, f) ↦ elim (Option-cases (consume_error device_id d g)) [
        | inr (c, x) ↦ absurd (cc (e, consume_refused s now event_id device_id rule_id d g c k f x))
        | inl x ↦
            let q = consume_known s now event_id device_id rule_id d g k f x in
            let p = spend_lem s now event_id device_id rule_id d g f (unspent device_id d g x) in
            record {
              device = d;
              known_device = k;
              grant = g;
              known_grant = f;
              allowed = x;
              result = cc (e, q, p);
              left = cc (e, q, p);
            }
      ]
    ]
  ]

  left_marked :
      (d : Device) (g : TemporaryGrant)
      → get_temporary_rule
          (after_spending (marked_store s now rule_id g) now event_id device_id d)
          rule_id
        ≡ some (marked now g)
  left_marked d g =
      unfold get_temporary_rule after_spending bump_policy_version in
      get-put s.temp_rules rule_id (marked now g)

  left_version :
      (d : Device) (g : TemporaryGrant)
      → get_policy_version
          (after_spending (marked_store s now rule_id g) now event_id device_id d)
          d.family_id
          d.child_id
        ≡ get_policy_version s d.family_id d.child_id + 1
  left_version d g =
      unfold get_policy_version after_spending bump_policy_version in
      rw (get-put s.versions (version_key d.family_id d.child_id))

-- JUST ONCE. After a device has spent a grant, whoever reports it spent again, whenever, is refused and
-- changes nothing; and the policy version of the device's child has gone up by one.
pub consume_once :
    (s : MemoryStore) (now : ℕ) (event_id device_id rule_id : Text) (r : TemporaryGrant)
    (s' : MemoryStore)
    → consume_grant s now event_id device_id rule_id ≡ done r s'
    → ((later : ℕ) (event_id' other : Text)
        → (c : ErrorCode) × (consume_grant s' later event_id' other rule_id ≡ failed c s'))
      × ((d : Device) × (get_device s device_id ≡ some d)
          × (get_policy_version s' d.family_id d.child_id
              ≡ get_policy_version s d.family_id d.child_id + 1))
consume_once s now event_id device_id rule_id r s' e =
    let k = consume-Spent s now event_id device_id rule_id e in
    (
      λ later event_id' other.
          consumed_refused s' later event_id' other rule_id (marked now k.grant)
            (rw k.left (left_marked s now event_id device_id rule_id k.device k.grant)) refl,
      (
        k.device,
        k.known_device,
        rw k.left (left_version s now event_id device_id rule_id k.device k.grant),
      ),
    )
