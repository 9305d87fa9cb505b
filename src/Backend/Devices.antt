-- ===== src/Backend/Devices.antt =====
-- backend/src/domain/services.ts: DeviceService.listWithStatus, PolicyService.getDefaults and
-- setDefaults. The source looks a child's version up once per call; here it is looked up each time.
pub mod Visible
use ajar_family.Prelude.{
  ℕ, ◌+◌, ◌*◌, List, [], ◌∷◌, map, filter, Bool, true, false, not, ◌&&◌, ◌||◌, Option, none, some,
  if◌then◌else◌, ltb, leb,
}
use ajar_family.Text.{Text, same, includes}
use ajar_family.Policy.Model.{DefaultPolicy, Instant}
use ajar_family.Backend.Model.{Device, FamilyMembership}
use ajar_family.Backend.Table.{values, put}
use ajar_family.Backend.Store.{
  MemoryStore, get_membership, get_policy_version, get_default_policy, bump_policy_version,
  version_key,
}
use ajar_family.Backend.Outcome.{ErrorCode, Outcome, done, failed}
use ajar_family.Backend.Enrollment.{may_manage}
use ajar_family.Backend.Assembly.{or_initial}
use ajar_family.Backend.Decide.{is_assigned}

abbrev pub device_stale_after_ms : ℕ
device_stale_after_ms = 24 * 60 * 60 * 1000

pub record DeviceStatus : Type 0 where
  pub device : Device
  pub current_version : ℕ
  pub up_to_date : Bool
  pub stale : Bool

unfoldable pub list_devices : MemoryStore → Text → List Device
unfolding values same
list_devices s family_id = filter (λ d. same d.family_id family_id) (values s.devices)

-- `d.lastSeenAt ? Date.parse(d.lastSeenAt) : Date.parse(d.enrolledAt)`
abbrev pub last_contact : Device → Instant
last_contact d = elim d.last_seen_at [ none ↦ d.enrolled_at | some t ↦ t ]

abbrev pub is_silent : Instant → ℕ → Bool
is_silent none now = true
is_silent (some t) now = ltb (t + device_stale_after_ms) now

unfoldable pub status_at : MemoryStore → ℕ → Text → Device → DeviceStatus
unfolding get_policy_version
status_at s now family_id d = record {
  device = d;
  current_version = get_policy_version s family_id d.child_id;
  up_to_date = leb (get_policy_version s family_id d.child_id) d.last_synced_version;
  stale = is_silent (last_contact d) now;
}

unfoldable pub list_with_status : MemoryStore → ℕ → Text → Text → Outcome (List DeviceStatus)
unfolding get_membership list_devices includes status_at
list_with_status s now family_id acting_user_id = elim (get_membership s family_id acting_user_id) [
  | none ↦ failed ErrorCode.forbidden s
  | some m ↦
      done
        (map (status_at s now family_id)
          (filter (λ d. is_assigned m d.child_id) (list_devices s family_id)))
        s
]

unfoldable pub set_default_policy : MemoryStore → Text → Text → DefaultPolicy → MemoryStore
unfolding put version_key
set_default_policy s family_id child_id d = record s {
  defaults = put s.defaults (version_key family_id child_id) d;
}

unfoldable pub get_defaults : MemoryStore → Text → Text → Text → Outcome DefaultPolicy
unfolding get_membership includes get_default_policy
get_defaults s family_id acting_user_id child_id =
    elim (get_membership s family_id acting_user_id) [
      | none ↦ failed ErrorCode.forbidden s
      | some m ↦
          if not (is_assigned m child_id)
          then failed ErrorCode.forbidden s
          else done (or_initial (get_default_policy s family_id child_id)) s
    ]

unfoldable pub set_defaults : MemoryStore → Text → Text → Text → DefaultPolicy → Outcome Unit
unfolding get_membership set_default_policy bump_policy_version
set_defaults s family_id acting_user_id child_id d =
    if not (may_manage (get_membership s family_id acting_user_id))
    then failed ErrorCode.forbidden s
    else done tt
        (bump_policy_version (set_default_policy s family_id child_id d) family_id child_id)
