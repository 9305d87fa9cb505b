-- ===== src/Backend/Devices/Visible.antt =====
-- What a member of a family is shown of its devices.
use ajar_family.Prelude.{
  ℕ, ◌≡◌, refl, List, [], ◌∷◌, map, filter, filter-Mem, true, none, some, Memᴰ, Option-cases, inl,
  inr, leb, ◌≤◌, ◌<◌, ◌↔◌, ◌⊎◌, ◌+◌, arith, Option, ltb→lt, lt→ltb,
}
use ajar_family.Text.{Text, same}
use ajar_family.Text.Laws.{same→eq}
use ajar_family.Policy.Model.{Instant}
use ajar_family.Backend.Model.{Device, FamilyMembership}
use ajar_family.Backend.Table.{values}
use ajar_family.Backend.Store.{MemoryStore, get_membership, get_policy_version}
use ajar_family.Backend.Outcome.{ErrorCode, done, failed}
use ajar_family.Backend.Decide.{is_assigned}
use ajar_family.Backend.Devices.{
  DeviceStatus, list_devices, status_at, list_with_status, last_contact, is_silent,
}

map-Mem {ℓ} :
    {A B : Type ℓ} (f : A → B) (xs : List A) {b : B}
    → Memᴰ b (map f xs)
    → (a : A) × Memᴰ a xs × (b ≡ f a)
map-Mem f [] m = elim m [ ]
map-Mem f (x ∷ xs) (Memᴰ.head e) = (x, Memᴰ.head refl, e)
map-Mem f (x ∷ xs) (Memᴰ.tail m) = let (a, k, e) = map-Mem f xs m in (a, Memᴰ.tail k, e)

-- When the device was heard of last: its last heartbeat, or its enrollment where it had none.
pub data LastContact (d : Device) : Instant → Type 0 where
  by_heartbeat : {t : Instant} → d.last_seen_at ≡ some t → LastContact d t
  by_enrollment : d.last_seen_at ≡ none → LastContact d d.enrolled_at

-- Nothing was heard of the device for 24 hours, or its last time is not readable.
abbrev pub IsSilent : ℕ → Device → Type 0
IsSilent now d =
    (at : Instant) × LastContact d at
    × ((at ≡ none) ⊎ ((t : ℕ) × (at ≡ some t) × (t + 86400000 < now)))

leb_iff : (a b : ℕ) → (leb a b ≡ true) ↔ (a ≤ b)
leb_iff a b = ground arith

contact : (d : Device) → LastContact d (last_contact d)
contact d = read d.last_seen_at refl
  where
    read :
        (seen : Option Instant)
        → d.last_seen_at ≡ seen
        → LastContact d (elim seen [ none ↦ d.enrolled_at | some t ↦ t ])
    read none n = by_enrollment n
    read (some t) e = by_heartbeat e

contact_unique : (d : Device) {at : Instant} → LastContact d at → at ≡ last_contact d
contact_unique d (by_heartbeat e) = rw e refl
contact_unique d (by_enrollment n) = rw n refl

is_silent-to :
    (at : Instant) (now : ℕ)
    → is_silent at now ≡ true
    → (at ≡ none) ⊎ ((t : ℕ) × (at ≡ some t) × (t + 86400000 < now))
is_silent-to none now h = inl refl
is_silent-to (some t) now h = inr (t, refl, ltb→lt (t + 86400000) now h)

is_silent-from :
    (at : Instant) (now : ℕ)
    → (at ≡ none) ⊎ ((t : ℕ) × (at ≡ some t) × (t + 86400000 < now))
    → is_silent at now ≡ true
is_silent-from at now (inl n) = rw n refl
is_silent-from at now (inr (t, e, h)) = rw e (lt→ltb (t + 86400000) now h)

module _ (s : MemoryStore) (now : ℕ) (family_id user_id : Text) where
  -- One line of the list: the status of a device of the family, of a child that the member may see.
  pub record IsShown (st : DeviceStatus) : Type 0 where
    pub member : FamilyMembership
    pub is_member : get_membership s family_id user_id ≡ some member
    pub device : Device
    pub stored : Memᴰ device (values s.devices)
    pub family : device.family_id ≡ family_id
    pub assigned : is_assigned member device.child_id ≡ true
    pub of_device : st.device ≡ device
    pub version : st.current_version ≡ get_policy_version s family_id device.child_id
    pub up_to_date :
        (st.up_to_date ≡ true)
        ↔ (get_policy_version s family_id device.child_id ≤ device.last_synced_version)
    pub stale : (st.stale ≡ true) ↔ IsSilent now device

  status_device : (d : Device) → (status_at s now family_id d).device ≡ d
  unfolding status_at
  status_device d = refl

  status_version :
      (d : Device)
      → (status_at s now family_id d).current_version ≡ get_policy_version s family_id d.child_id
  unfolding status_at
  status_version d = refl

  status_up_to_date :
      (d : Device)
      → ((status_at s now family_id d).up_to_date ≡ true)
        ↔ (get_policy_version s family_id d.child_id ≤ d.last_synced_version)
  unfolding status_at
  status_up_to_date d = leb_iff (get_policy_version s family_id d.child_id) d.last_synced_version

  status_stale : (d : Device) → ((status_at s now family_id d).stale ≡ true) ↔ IsSilent now d
  unfolding status_at
  status_stale d = (to, from)
    where
      to : is_silent (last_contact d) now ≡ true → IsSilent now d
      to h = (last_contact d, contact d, is_silent-to (last_contact d) now h)

      from : IsSilent now d → is_silent (last_contact d) now ≡ true
      from (at, c, h) = rw (← contact_unique d c) (is_silent-from at now h)

  listed :
      (d : Device)
      → Memᴰ d (list_devices s family_id)
      → Memᴰ d (filter (λ d. same d.family_id family_id) (values s.devices))
  unfolding list_devices
  listed d l = l

  IsShown-to :
      (m : FamilyMembership) {st : DeviceStatus}
      → get_membership s family_id user_id ≡ some m
      → Memᴰ st (
          map
            (status_at s now family_id)
            (filter (λ d. is_assigned m d.child_id) (list_devices s family_id)))
      → IsShown st
  IsShown-to m k i =
      let (d, j, e) =
        map-Mem (status_at s now family_id)
          (filter (λ d. is_assigned m d.child_id) (list_devices s family_id)) i in
      let (l, a) = filter-Mem (λ d. is_assigned m d.child_id) (list_devices s family_id) j in
      let (v, f) = filter-Mem (λ d. same d.family_id family_id) (values s.devices) (listed d l) in
      record {
        member = m;
        is_member = k;
        device = d;
        stored = v;
        family = same→eq d.family_id family_id f;
        assigned = a;
        of_device = rw e (status_device d);
        version = rw e (status_version d);
        up_to_date = rw e (status_up_to_date d);
        stale = rw e (status_stale d);
      }

  listed_to :
      (m : FamilyMembership)
      → get_membership s family_id user_id ≡ some m
      → list_with_status s now family_id user_id
        ≡ done
            (map
              (status_at s now family_id)
              (filter (λ d. is_assigned m d.child_id) (list_devices s family_id)))
            s
  listed_to m k = unfold list_with_status in rw (k, list_with_status)

  listed_to_nobody :
      get_membership s family_id user_id ≡ none
      → list_with_status s now family_id user_id ≡ failed ErrorCode.forbidden s
  listed_to_nobody k = unfold list_with_status in rw (k, list_with_status)

-- Whoever is shown a family's devices is a member of it, and a limited guardian is shown only those
-- of the children assigned to them. Every line names a stored device of the family with the child's
-- policy version, is up to date exactly where the device has synced that version, and is stale
-- exactly where the last contact, its last heartbeat or else its enrollment, is unreadable or more
-- than 24 hours ago.
pub list_with_status-IsShown :
    (s : MemoryStore) (now : ℕ) (family_id user_id : Text) (out : List DeviceStatus)
    (s' : MemoryStore)
    → list_with_status s now family_id user_id ≡ done out s'
    → (st : DeviceStatus) → Memᴰ st out
    → IsShown s now family_id user_id st
list_with_status-IsShown s now family_id user_id out s' e st i =
    elim (Option-cases (get_membership s family_id user_id)) [
      | inl n ↦ absurd (cc (e, listed_to_nobody s now family_id user_id n))
      | inr (m, k) ↦
          let same_out : map (status_at s now family_id)
                (filter (λ d. is_assigned m d.child_id) (list_devices s family_id))
              ≡ out =
            cc (e, listed_to s now family_id user_id m k) in
          IsShown-to s now family_id user_id m k (rw same_out i)
    ]
