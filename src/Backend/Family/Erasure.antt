-- ===== src/Backend/Family/Erasure.antt =====
-- What is left of a child that is removed.
use ajar_family.Prelude.{
  ◌≡◌, ◌≢◌, refl, inl, inr, List, [], ◌∷◌, filter, Bool, true, false, not, ◌&&◌, Option, none, some,
  Memᴰ, Bool-cases, if-elim, if◌then◌else◌, and-eq-true_iff, arith,
}
use ajar_family.Text.{Text, same, is, includes}
use ajar_family.Text.Laws.{same_refl}
use ajar_family.Policy.Model.{PolicyRule}
use ajar_family.Backend.Model.{Device, Child, FamilyMembership, AccessRequest, TemporaryGrant}
use ajar_family.Backend.Table.{Table, get, values, remove}
use ajar_family.Backend.Table.Laws.{
  Keyed, get-remove, remove-Keyed, values-remove, get-values, values-remove_where,
  values-update_where, updated,
}
use ajar_family.Backend.Store.{MemoryStore, version_key, delete_device_cascade}
use ajar_family.Backend.Store.Cascades.{delete_devices, delete_child_rows, delete_child_cascade}

module _ (family_id child_id : Text) where
  -- None of these rows is the child's, or names it. Enrollment codes, decisions and audit events of the
  -- child are not among them.
  pub record IsErased (s : MemoryStore) : Type 0 where
    pub no_child :
        (c : Child)
        → Memᴰ c (values s.children)
        → (same c.id child_id && same c.family_id family_id) ≡ false
    pub no_device :
        (d : Device)
        → Memᴰ d (values s.devices)
        → (same d.family_id family_id && same d.child_id child_id) ≡ false
    pub no_rule :
        (r : PolicyRule)
        → Memᴰ r (values s.rules)
        → (same r.scope.family_id family_id && is r.scope.child_id child_id) ≡ false
    pub no_grant :
        (t : TemporaryGrant)
        → Memᴰ t (values s.temp_rules)
        → (same t.grant.scope.family_id family_id && is t.grant.scope.child_id child_id) ≡ false
    pub no_request :
        (r : AccessRequest)
        → Memᴰ r (values s.requests)
        → (same r.family_id family_id && same r.child_id child_id) ≡ false
    pub no_defaults : get s.defaults (version_key family_id child_id) ≡ none
    pub no_version : get s.versions (version_key family_id child_id) ≡ none
    pub no_assignment :
        (m : FamilyMembership)
        → Memᴰ m (values s.memberships)
        → (same m.family_id family_id && includes m.assigned_child_ids child_id) ≡ false

  abbrev is_own : Device → Bool
  is_own d = same d.family_id family_id && same d.child_id child_id

  -- Every device of the child is in the list that the loop still has.
  abbrev Pending : MemoryStore → List Device → Type 0
  Pending s ds = (d : Device) → Memᴰ d (values s.devices) → is_own d ≡ true → Memᴰ d ds

  abbrev without : Table Device → Text → Option Device → Table Device
  without t id none = t
  without t id (some d) = if same d.family_id family_id then remove t id else t

  cascade_devices :
      (s : MemoryStore) (id : Text)
      → (delete_device_cascade s family_id id).devices ≡ without s.devices id (get s.devices id)
  unfolding delete_device_cascade remove get
  cascade_devices s id = known (get s.devices id)
    where
      known :
          (o : Option Device)
          → (elim o [
            | none ↦ s.devices
            | some d ↦ if same d.family_id family_id then remove s.devices id else s.devices
          ])
            ≡ without s.devices id o
      known none = refl
      known (some d) = refl

  without-Keyed :
      (t : Table Device) (id : Text) (o : Option Device)
      → Keyed (λ d. d.id) t
      → Keyed (λ d. d.id) (without t id o)
  without-Keyed t id none keyed = keyed
  without-Keyed t id (some d) keyed =
      if-elim (λ (u : Table Device). Keyed (λ (d : Device). d.id) u) (same d.family_id family_id)
        (λ b. remove-Keyed (λ d. d.id) t id keyed) (λ b. keyed)

  -- What is left was there, and is no device of the child under the id taken away.
  left_over :
      (t : Table Device) (id : Text) (o : Option Device) {v : Device}
      → Keyed (λ d. d.id) t
      → get t id ≡ o
      → Memᴰ v (values (without t id o))
      → Memᴰ v (values t) × (is_own v ≡ true → v.id ≢ id)
  left_over t id none keyed e m =
      (m, λ own same_id. cc (e, get-values (λ (d : Device). d.id) t keyed m, same_id))
  left_over t id (some d) {v} keyed e m = elim (Bool-cases (same d.family_id family_id)) [
    | inl y ↦
        let (l, n) = values-remove (λ (d : Device). d.id) t id keyed (rw y at m) in
        (l, λ own same_id. different n same_id)
    | inr n ↦
        let k : Memᴰ v (values t) = rw n at m in
        (k, λ own same_id. stranger n own (get-values (λ (d : Device). d.id) t keyed k) same_id)
  ]
    where
      different : same v.id id ≡ false → v.id ≡ id → ⊥
      different n q = cc (rw (q, same_refl id) at n)

      stranger :
          same d.family_id family_id ≡ false → is_own v ≡ true → get t v.id ≡ some v → v.id ≡ id → ⊥
      stranger n own found q =
          let p : d ≡ v = cc (e, found, q) in
          let (a, b) =
            (and-eq-true_iff (same v.family_id family_id) (same v.child_id child_id)).0 own in
          cc (rw p at n, a)

  -- The loop over the devices takes every device of the child away.
  delete_devices-none :
      (ds : List Device) (s : MemoryStore)
      → Keyed (λ d. d.id) s.devices
      → Pending s ds
      → (d : Device) → Memᴰ d (values (delete_devices family_id child_id ds s).devices)
      → is_own d ≡ false
  unfolding delete_devices
  delete_devices-none [] s keyed pending = λ v m. none_left v (pending v m)
    where
      none_left : (v : Device) → (is_own v ≡ true → Memᴰ v []) → is_own v ≡ false
      none_left v f = elim (Bool-cases (is_own v)) [ inl own ↦ elim (f own) [ ] | inr n ↦ n ]
  delete_devices-none (d ∷ ds) s keyed pending =
      if-elim
        (λ (x : MemoryStore).
          (v : Device)
          → Memᴰ v (values (delete_devices family_id child_id ds x).devices)
          → is_own v ≡ false)
        (is_own d)
        (λ own.
          delete_devices-none ds (delete_device_cascade s family_id d.id)
            (rw (cascade_devices s d.id) (without-Keyed s.devices d.id (get s.devices d.id) keyed))
            next)
        (λ n. delete_devices-none ds s keyed (skipped n))
    where
      other : {v : Device} → Memᴰ v (d ∷ ds) → v.id ≢ d.id → Memᴰ v ds
      other (Memᴰ.head e) n = absurd (n (rw e))
      other (Memᴰ.tail l) n = l

      next : Pending (delete_device_cascade s family_id d.id) ds
      next v m own =
          let (l, n) =
            left_over s.devices d.id (get s.devices d.id) keyed refl
              (rw (cascade_devices s d.id) at m) in
          other (pending v l own) (n own)

      apart : {v : Device} → is_own d ≡ false → is_own v ≡ true → Memᴰ v (d ∷ ds) → Memᴰ v ds
      apart n own (Memᴰ.head e) = absurd (cc (n, e, own))
      apart n own (Memᴰ.tail l) = l

      skipped : is_own d ≡ false → Pending s ds
      skipped n v m own = apart n own (pending v m own)

  other_child :
      (ids : List Text) → includes (filter (λ c. not (same c child_id)) ids) child_id ≡ false
  unfolding includes
  other_child [] = refl
  other_child (c ∷ ids) = elim (Bool-cases (same c child_id)) [
    | inl y ↦ rw y (other_child ids)
    | inr n ↦ rw (n, n) (other_child ids)
  ]

  -- Once its devices are gone, the remaining rows go.
  rows_gone :
      (s : MemoryStore)
      → ((d : Device) → Memᴰ d (values s.devices) → is_own d ≡ false)
      → IsErased (delete_child_rows s family_id child_id)
  unfolding delete_child_rows
  rows_gone s devices = record {
    no_child = λ c m.
        values-remove_where (λ (c : Child). same c.id child_id && same c.family_id family_id)
          s.children m;
    no_device = devices;
    no_rule = λ r m.
        values-remove_where
          (λ (r : PolicyRule). same r.scope.family_id family_id && is r.scope.child_id child_id)
          s.rules m;
    no_grant = λ t m.
        values-remove_where
          (λ (t : TemporaryGrant).
            same t.grant.scope.family_id family_id && is t.grant.scope.child_id child_id)
          s.temp_rules m;
    no_request = λ r m.
        values-remove_where
          (λ (r : AccessRequest). same r.family_id family_id && same r.child_id child_id) s.requests
          m;
    no_defaults = get-remove s.defaults (version_key family_id child_id);
    no_version = get-remove s.versions (version_key family_id child_id);
    no_assignment = λ m l.
        let (w, k, e) = values-update_where assigned freed s.memberships l in rw e (unassigned w);
  }
    where
      assigned : FamilyMembership → Bool
      assigned m = same m.family_id family_id && includes m.assigned_child_ids child_id

      freed : FamilyMembership → FamilyMembership
      freed m = record m {
        assigned_child_ids = filter (λ c. not (same c child_id)) m.assigned_child_ids;
      }

      unassigned : (w : FamilyMembership) → assigned (updated assigned freed w) ≡ false
      unassigned w = elim (Bool-cases (assigned w)) [
        | inl y ↦ rw y (rw (other_child w.assigned_child_ids) (ground arith))
        | inr n ↦ rw n n
      ]

  -- WHAT THE CASCADE ERASES OF A CHILD. In a store whose devices are kept under their ids, the cascade
  -- leaves no row of the child in the family, no device, rule, grant or request of it, no defaults and
  -- no policy version of it, and no guardian of the family assigned to it.
  pub delete_child_cascade-IsErased :
      (s : MemoryStore)
      → Keyed (λ d. d.id) s.devices
      → IsErased (delete_child_cascade s family_id child_id)
  delete_child_cascade-IsErased s keyed =
      unfold delete_child_cascade in
      rows_gone (delete_devices family_id child_id (values s.devices) s)
        (delete_devices-none (values s.devices) s keyed (λ d m own. m))
