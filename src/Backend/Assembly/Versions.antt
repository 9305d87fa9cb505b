-- ===== src/Backend/Assembly/Versions.antt =====
-- What a device may claim to hold, and when it is served.
use ajar_family.Prelude.{ℕ, ◌≡◌, ◌≤◌, ◌<◌, false, Option, some, arith, leb, min}
use ajar_family.Text.{Text}
use ajar_family.Host.{CategoryMap}
use ajar_family.Prelude.{List}
use ajar_family.Policy.Model.{DevicePolicySnapshot}
use ajar_family.Backend.Model.{Device}
use ajar_family.Backend.Table.Laws.{get-put}
use ajar_family.Backend.Store.{MemoryStore, get_device, update_device, get_policy_version}
use ajar_family.Backend.Enrollment.{heartbeat, next_version}
use ajar_family.Backend.Assembly.{
  clamp_synced_version, last_synced, sync_since, build_snapshot, asked,
}

-- NO CLAIM HIDES A NEW POLICY. Where the version of a child's policy is above the one that its device
-- was last known to hold, a sync serves the device a snapshot, whatever version it claims to hold.
pub sync_since_serves :
    (category_map : List Text → CategoryMap) (sign : DevicePolicySnapshot → Text) (s : MemoryStore)
    (now : ℕ) (family_id child_id device_id : Text) (claimed : Option ℕ)
    → last_synced (get_device s device_id) < get_policy_version s family_id child_id
    → sync_since category_map sign s now family_id child_id device_id claimed
      ≡ some (build_snapshot category_map sign s now family_id child_id device_id)
sync_since_serves category_map sign s now family_id child_id device_id claimed h =
    let stale : leb (get_policy_version s family_id child_id)
          (clamp_synced_version s device_id claimed)
        ≡ false =
      unfold clamp_synced_version in
      not_reached (get_policy_version s family_id child_id) (asked claimed)
        (last_synced (get_device s device_id)) h in
    unfold sync_since in rw (stale, sync_since)
  where
    not_reached : (v c l : ℕ) → l < v → leb v (min c l) ≡ false
    not_reached v c l h = ground arith

abbrev seen : Device → ℕ → Option ℕ → Device
seen d now synced = record d {
  last_seen_at = some (some now);
  last_synced_version = next_version d synced;
}

heartbeat_known :
    (s : MemoryStore) (now : ℕ) (device_id : Text) (synced : Option ℕ) (d : Device)
    → get_device s device_id ≡ some d
    → heartbeat s now device_id synced
      ≡ (some (seen d now synced), update_device s (seen d now synced))
heartbeat_known s now device_id synced d k = unfold heartbeat in rw (k, heartbeat)

stored : (s : MemoryStore) (d : Device) → get_device (update_device s d) d.id ≡ some d
stored s d = unfold get_device update_device in get-put s.devices d.id d

left_max : (d : Device) (v : ℕ) → d.last_synced_version ≤ next_version d (some v)
unfolding next_version
left_max d v = omega arith

right_max : (d : Device) (v : ℕ) → v ≤ next_version d (some v)
unfolding next_version
right_max d v = omega arith

-- A heartbeat of a known device stores it with a version no lower than before, and no lower than the
-- one that it reports.
pub heartbeat_monotone :
    (s : MemoryStore) (now : ℕ) (device_id : Text) (v : ℕ) (d : Device)
    → d.id ≡ device_id
    → get_device s device_id ≡ some d
    → (d' : Device) × (get_device (heartbeat s now device_id (some v)).1 device_id ≡ some d')
      × (d.last_synced_version ≤ d'.last_synced_version)
      × (v ≤ d'.last_synced_version)
heartbeat_monotone s now device_id v d i k =
    let next = seen d now (some v) in
    (
      next,
      rw (heartbeat_known s now device_id (some v) d k, ← i) (stored s next),
      left_max d v,
      right_max d v,
    )
