-- ===== src/Backend/Enrollment/SingleUse.antt =====
-- An enrollment code is used once, and what it enrolls.
use ajar_family.Prelude.{
  ℕ, ◌≡◌, refl, sym, [], ◌∷◌, inl, inr, true, false, none, some, Bool-cases, Option-cases,
  if◌then◌else◌, Option, ◌≤◌, ltb, arith,
}
use ajar_family.Text.{Text, same}
use ajar_family.Policy.Model.{Instant}
use ajar_family.Backend.Model.{Device, EnrollmentToken}
use ajar_family.Backend.Table.{Table, find}
use ajar_family.Backend.Table.Laws.{get-put, Keyed, find-put}
use ajar_family.Backend.Store.{
  MemoryStore, get_enrollment_token_by_code, get_device, create_device, update_enrollment_token,
}
use ajar_family.Backend.Outcome.{ErrorCode, Outcome, done, failed}
use ajar_family.Backend.Enrollment.{is_redeemed, is_past, redeem, redeemed, enrolled, spent}

-- Why a code is taken.
pub record Redeemed (s : MemoryStore) (now : ℕ) (device_id event_id code key name : Text)
    (d : Device) (s' : MemoryStore) : Type 0 where
  pub token : EnrollmentToken
  pub known : get_enrollment_token_by_code s code ≡ some token
  pub unused : is_redeemed token ≡ false
  pub in_time : is_past token.expires_at now ≡ false
  pub device : d ≡ enrolled token now device_id key name
  pub store : s' ≡ redeemed s now token event_id d

found_code :
    (code : Text) (t : Table EnrollmentToken) {v : EnrollmentToken}
    → find (λ t. same t.code code) t ≡ some v
    → same v.code code ≡ true
unfolding find
found_code code [] e = absurd (cc e)
found_code code ((k, u) ∷ t) {v} e = elim (Bool-cases (same u.code code)) [
  | inl y ↦ let p : u ≡ v = cc (rw y at e) in rw (← p) y
  | inr n ↦ found_code code t (rw n at e)
]

-- What a known code comes to.
abbrev taken : MemoryStore → ℕ → Text → Text → Text → Text → EnrollmentToken → Outcome Device
taken s now device_id event_id key name tok =
    let d = enrolled tok now device_id key name in
    if is_redeemed tok
    then failed ErrorCode.gone s
    else if is_past tok.expires_at now
    then failed ErrorCode.gone s
    else done d (redeemed s now tok event_id d)

module _ (s : MemoryStore) (now : ℕ) (device_id event_id code key name : Text) where
  redeem_known :
      (tok : EnrollmentToken)
      → get_enrollment_token_by_code s code ≡ some tok
      → redeem s now device_id event_id code key name ≡ taken s now device_id event_id key name tok
  redeem_known tok k = unfold redeem in rw (k, redeem)

  redeem_unknown :
      get_enrollment_token_by_code s code ≡ none
      → redeem s now device_id event_id code key name ≡ failed ErrorCode.not_found s
  redeem_unknown k = unfold redeem in rw (k, redeem)

  taken-Redeemed :
      (tok : EnrollmentToken) {d : Device} {s' : MemoryStore}
      → get_enrollment_token_by_code s code ≡ some tok
      → taken s now device_id event_id key name tok ≡ done d s'
      → Redeemed s now device_id event_id code key name d s'
  taken-Redeemed tok {d} {s'} k e = elim (Bool-cases (is_redeemed tok)) [
    | inl y ↦ absurd (cc (rw y at e))
    | inr n ↦ elim (Bool-cases (is_past tok.expires_at now)) [
      | inl y ↦ absurd (cc (rw (n, y) at e))
      | inr m ↦
          let f : done (enrolled tok now device_id key name)
                (redeemed s now tok event_id (enrolled tok now device_id key name))
              ≡ done d s' =
            rw (n, m) at e in
          let g : enrolled tok now device_id key name ≡ d = cc f in
          let h : redeemed s now tok event_id (enrolled tok now device_id key name) ≡ s' = cc f in
          record {
            token = tok;
            known = k;
            unused = n;
            in_time = m;
            device = sym g;
            store = rw (← g) (sym h);
          }
    ]
  ]

  redeem-Redeemed :
      {d : Device} {s' : MemoryStore}
      → redeem s now device_id event_id code key name ≡ done d s'
      → Redeemed s now device_id event_id code key name d s'
  redeem-Redeemed e = elim (Option-cases (get_enrollment_token_by_code s code)) [
    | inl n ↦ absurd (cc (e, redeem_unknown n))
    | inr (tok, k) ↦ taken-Redeemed tok k (rw (redeem_known tok k) at e)
  ]

  gone_when :
      (tok : EnrollmentToken)
      → get_enrollment_token_by_code s code ≡ some tok
      → is_redeemed tok ≡ true
      → redeem s now device_id event_id code key name ≡ failed ErrorCode.gone s
  gone_when tok k y = rw (redeem_known tok k, y)

token_spent :
    (s : MemoryStore) (now : ℕ) (event_id code : Text) (tok : EnrollmentToken) (d : Device)
    → Keyed (λ t. t.id) s.enrollments
    → get_enrollment_token_by_code s code ≡ some tok
    → get_enrollment_token_by_code (redeemed s now tok event_id d) code ≡ some (spent tok now)
unfolding get_enrollment_token_by_code redeemed update_enrollment_token create_device
token_spent s now event_id code tok d keyed k =
    find-put (λ (t : EnrollmentToken). t.id) (λ t. same t.code code) s.enrollments (spent tok now)
      keyed k (found_code code s.enrollments k)

-- AN ENROLLMENT CODE IS USED ONCE. In a store whose enrollment tokens are kept under their ids, after
-- a code has enrolled a device, every later use of it, whenever and with whatever key, answers GONE
-- and changes nothing.
pub redeem_once :
    (s : MemoryStore) (now : ℕ) (device_id event_id code key name : Text) (d : Device)
    (s' : MemoryStore)
    → Keyed (λ t. t.id) s.enrollments
    → redeem s now device_id event_id code key name ≡ done d s'
    → (later : ℕ) (device_id' event_id' key' name' : Text)
    → redeem s' later device_id' event_id' code key' name' ≡ failed ErrorCode.gone s'
redeem_once s now device_id event_id code key name d s' keyed e later device_id' event_id' key'
      name' =
    let r = redeem-Redeemed s now device_id event_id code key name e in
    gone_when s' later device_id' event_id' code key' name' (spent r.token now)
      (rw r.store (token_spent s now event_id code r.token d keyed r.known)) refl

-- What an enrollment comes to, field by field.
pub record IsEnrolled (s : MemoryStore) (now : ℕ) (device_id code public_key shown : Text)
    (d : Device) (s' : MemoryStore) : Type 0 where
  pub token : EnrollmentToken
  pub known : get_enrollment_token_by_code s code ≡ some token
  pub unused : token.redeemed_at ≡ none
  pub in_time : (t : ℕ) → token.expires_at ≡ some t → now ≤ t
  pub id : d.id ≡ device_id
  pub family : d.family_id ≡ token.family_id
  pub child : d.child_id ≡ token.child_id
  pub platform : d.platform ≡ token.platform
  pub key : d.device_public_key ≡ public_key
  pub name : d.display_name ≡ shown
  pub enrolled_at : d.enrolled_at ≡ some now
  pub no_policy : d.last_synced_version ≡ 0
  pub never_seen : d.last_seen_at ≡ none
  pub stored : get_device s' device_id ≡ some d

never_redeemed : (tok : EnrollmentToken) → is_redeemed tok ≡ false → tok.redeemed_at ≡ none
never_redeemed tok h = unread tok.redeemed_at h
  where
    unread : (at : Option Instant) → (elim at [ none ↦ false | some t ↦ true ]) ≡ false → at ≡ none
    unread none h = refl
    unread (some t) h = absurd (cc h)

still_open : (at : Instant) (now t : ℕ) → is_past at now ≡ false → at ≡ some t → now ≤ t
still_open none now t h e = absurd (cc e)
still_open (some u) now t h e = let p : u ≡ t = cc e in rw (← p) (ltb-false now u h)
  where
    ltb-false : (now u : ℕ) → ltb u now ≡ false → now ≤ u
    ltb-false now u h = ground arith

stored-get_device :
    (s : MemoryStore) (now : ℕ) (event_id device_id key name : Text) (tok : EnrollmentToken)
    → get_device (redeemed s now tok event_id (enrolled tok now device_id key name)) device_id
      ≡ some (enrolled tok now device_id key name)
unfolding get_device redeemed update_enrollment_token create_device
stored-get_device s now event_id device_id key name tok =
    get-put s.devices device_id (enrolled tok now device_id key name)

-- A device that a code enrolls belongs to the family, the child and the platform of a token of that
-- code, has the id, the key and the name that it was given, is enrolled now, was never seen and has
-- no policy yet, and the store then has it under its id. The token was not used before, and the time
-- is not after its expiry, where that is readable.
pub redeem_enrolls :
    (s : MemoryStore) (now : ℕ) (device_id event_id code key name : Text) (d : Device)
    (s' : MemoryStore)
    → redeem s now device_id event_id code key name ≡ done d s'
    → IsEnrolled s now device_id code key name d s'
redeem_enrolls s now device_id event_id code key name d s' e =
    let r = redeem-Redeemed s now device_id event_id code key name e in
    record {
      token = r.token;
      known = r.known;
      unused = never_redeemed r.token r.unused;
      in_time = λ t f. still_open r.token.expires_at now t r.in_time f;
      id = rw r.device refl;
      family = rw r.device refl;
      child = rw r.device refl;
      platform = rw r.device refl;
      key = rw r.device refl;
      name = rw r.device refl;
      enrolled_at = rw r.device refl;
      no_policy = rw r.device refl;
      never_seen = rw r.device refl;
      stored = rw (r.store, r.device) (stored-get_device s now event_id device_id key name r.token);
    }
