-- ===== src/Backend/Enrollment.antt =====
-- backend/src/domain/services.ts: EnrollmentService and the device lifecycle of DeviceService. An
-- operation takes the time and the fresh ids that it uses.
pub mod SingleUse
use ajar_family.Prelude.{
  ℕ, ◌+◌, ◌*◌, Bool, true, false, not, ◌&&◌, ◌||◌, Option, none, some, if◌then◌else◌, ltb, max,
}
use ajar_family.Text.{Text, same}
use ajar_family.Policy.Model.{Instant}
use ajar_family.Backend.Model.{
  Platform, Device, EnrollmentToken, Child, FamilyMembership, AuditKind, AuditEvent,
}
use ajar_family.Backend.Store.{
  MemoryStore, get_membership, get_child, create_enrollment_token, get_enrollment_token_by_code,
  update_enrollment_token, create_device, get_device, update_device, delete_device_cascade,
  bump_policy_version, add_audit_event,
}
use ajar_family.Backend.Outcome.{ErrorCode, Outcome, done, failed}
use ajar_family.Backend.Scopes.{can_manage_policy}

abbrev pub event : Text → Text → Text → AuditKind → ℕ → AuditEvent
event id family_id actor_id kind now = record {
  id = id;
  family_id = family_id;
  actor_id = actor_id;
  kind = kind;
  created_at = some now;
}

-- `!m || !canManagePolicy(m.role)`
abbrev pub may_manage : Option FamilyMembership → Bool
may_manage none = false
may_manage (some m) = can_manage_policy m.role

-- `child && child.familyId === familyId`
abbrev pub is_child_of : Option Child → Text → Bool
is_child_of none family_id = false
is_child_of (some c) family_id = same c.family_id family_id

unfoldable pub create_token :
    MemoryStore → ℕ → Text → Text → Text → Text → Text → Platform → ℕ → Outcome EnrollmentToken
unfolding get_membership get_child same create_enrollment_token
create_token s now id code family_id acting_user_id child_id platform ttl_minutes =
    if not (may_manage (get_membership s family_id acting_user_id))
    then failed ErrorCode.forbidden s
    else if not (is_child_of (get_child s child_id) family_id)
    then failed ErrorCode.bad_request s
    else let t : EnrollmentToken = record {
      id = id;
      code = code;
      family_id = family_id;
      child_id = child_id;
      platform = platform;
      expires_at = some (now + ttl_minutes * 60000);
      redeemed_at = none;
      created_by = acting_user_id;
    } in
      done t (create_enrollment_token s t)

abbrev pub is_redeemed : EnrollmentToken → Bool
is_redeemed t = elim t.redeemed_at [ none ↦ false | some at ↦ true ]

-- `Date.parse(expiresAt) < Date.now()`, false where it is NaN.
abbrev pub is_past : Instant → ℕ → Bool
is_past none now = false
is_past (some t) now = ltb t now

-- The device that a code makes, and the store that it leaves.
abbrev pub enrolled : EnrollmentToken → ℕ → Text → Text → Text → Device
enrolled tok now device_id public_key display_name = record {
  id = device_id;
  family_id = tok.family_id;
  child_id = tok.child_id;
  platform = tok.platform;
  display_name = display_name;
  device_public_key = public_key;
  enrolled_at = some now;
  last_synced_version = 0;
  last_seen_at = none;
}

abbrev pub spent : EnrollmentToken → ℕ → EnrollmentToken
spent tok now = record tok { redeemed_at = some (some now) }

unfoldable pub redeemed : MemoryStore → ℕ → EnrollmentToken → Text → Device → MemoryStore
unfolding create_device update_enrollment_token
redeemed s now tok event_id device =
    add_audit_event (update_enrollment_token (create_device s device) (spent tok now))
      (event event_id tok.family_id device.id AuditKind.device_enrolled now)

unfoldable pub redeem : MemoryStore → ℕ → Text → Text → Text → Text → Text → Outcome Device
unfolding get_enrollment_token_by_code redeemed
redeem s now device_id event_id code public_key display_name =
    elim (get_enrollment_token_by_code s code) [
      | none ↦ failed ErrorCode.not_found s
      | some tok ↦
          if is_redeemed tok
          then failed ErrorCode.gone s
          else if is_past tok.expires_at now
          then failed ErrorCode.gone s
          else done (enrolled tok now device_id public_key display_name)
              (redeemed s now tok event_id (enrolled tok now device_id public_key display_name))
    ]

-- `none` for `synced` where the source has no finite number.
unfoldable pub next_version : Device → Option ℕ → ℕ
next_version d none = d.last_synced_version
next_version d (some v) = max d.last_synced_version v

unfoldable pub heartbeat : MemoryStore → ℕ → Text → Option ℕ → Option Device × MemoryStore
unfolding get_device update_device next_version
heartbeat s now device_id synced = elim (get_device s device_id) [
  | none ↦ (none, s)
  | some d ↦
      let next = record d {
        last_seen_at = some (some now);
        last_synced_version = next_version d synced;
      } in
      (some next, update_device s next)
]

abbrev pub is_device_of : Option Device → Text → Bool
is_device_of none family_id = false
is_device_of (some d) family_id = same d.family_id family_id

unfoldable pub remove_device : MemoryStore → ℕ → Text → Text → Text → Text → Outcome Unit
unfolding get_membership get_device same delete_device_cascade bump_policy_version
remove_device s now event_id family_id acting_user_id device_id =
    if not (may_manage (get_membership s family_id acting_user_id))
    then failed ErrorCode.forbidden s
    else elim (get_device s device_id) [
      | none ↦ failed ErrorCode.not_found s
      | some d ↦
          if not (same d.family_id family_id)
          then failed ErrorCode.not_found s
          else let bumped =
              bump_policy_version (delete_device_cascade s family_id device_id) family_id
                d.child_id in
            done tt (
              add_audit_event bumped
                (event event_id family_id acting_user_id AuditKind.device_removed now))
    ]
