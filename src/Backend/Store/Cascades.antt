-- ===== src/Backend/Store/Cascades.antt =====
-- backend/src/store/memory.ts: erasing a child, a family and an account.
use ajar_family.Prelude.{List, [], ◌∷◌, filter, not, ◌&&◌, none, some, if◌then◌else◌}
use ajar_family.Text.{Text, same, is, includes, starts_with}
use ajar_family.Backend.Model.{Child, Device}
use ajar_family.Backend.Table.{Table, get, remove, values, remove_where, update_where}
use ajar_family.Backend.Store.{MemoryStore, version_key, delete_device_cascade}

-- The loop over the devices of the child.
unfoldable pub delete_devices : Text → Text → List Device → MemoryStore → MemoryStore
unfolding delete_device_cascade same
delete_devices family_id child_id [] s = s
delete_devices family_id child_id (d ∷ ds) s =
    let next =
      if same d.family_id family_id && same d.child_id child_id
      then delete_device_cascade s family_id d.id
      else s in
    delete_devices family_id child_id ds next

-- The rest of `deleteChildCascade`.
unfoldable pub delete_child_rows : MemoryStore → Text → Text → MemoryStore
unfolding remove remove_where update_where version_key same includes
delete_child_rows s family_id child_id = record s {
  rules =
      remove_where (λ r. same r.scope.family_id family_id && is r.scope.child_id child_id) s.rules;
  temp_rules =
      remove_where
        (λ t. same t.grant.scope.family_id family_id && is t.grant.scope.child_id child_id)
        s.temp_rules;
  requests = remove_where (λ r. same r.family_id family_id && same r.child_id child_id) s.requests;
  defaults = remove s.defaults (version_key family_id child_id);
  versions = remove s.versions (version_key family_id child_id);
  children = remove_where (λ c. same c.id child_id && same c.family_id family_id) s.children;
  memberships =
      update_where (λ m. same m.family_id family_id && includes m.assigned_child_ids child_id)
        (λ m. record m {
          assigned_child_ids = filter (λ c. not (same c child_id)) m.assigned_child_ids;
        })
        s.memberships;
}

unfoldable pub delete_child_cascade : MemoryStore → Text → Text → MemoryStore
unfolding delete_devices delete_child_rows values
delete_child_cascade s family_id child_id =
    delete_child_rows (delete_devices family_id child_id (values s.devices) s) family_id child_id

-- The loop over the children of the family.
unfoldable pub delete_children : Text → List Child → MemoryStore → MemoryStore
unfolding delete_child_cascade same
delete_children family_id [] s = s
delete_children family_id (c ∷ cs) s =
    let next = if same c.family_id family_id then delete_child_cascade s family_id c.id else s in
    delete_children family_id cs next

-- `for (const k of [...map.keys()]) if (k.startsWith(prefix)) map.delete(k)`
unfoldable pub remove_prefixed {ℓ} : {A : Type ℓ} → Text → Table A → Table A
unfolding starts_with
remove_prefixed prefix [] = []
remove_prefixed prefix ((k, v) ∷ t) =
    let rest = remove_prefixed prefix t in if starts_with k prefix then rest else (k, v) ∷ rest

-- What is left of the family.
unfoldable pub delete_family_rows : MemoryStore → Text → MemoryStore
unfolding remove remove_where remove_prefixed version_key same
delete_family_rows s family_id = record s {
  devices = remove_where (λ d. same d.family_id family_id) s.devices;
  rules = remove_where (λ r. same r.scope.family_id family_id) s.rules;
  temp_rules = remove_where (λ t. same t.grant.scope.family_id family_id) s.temp_rules;
  requests = remove_where (λ r. same r.family_id family_id) s.requests;
  decisions = remove_where (λ d. same d.family_id family_id) s.decisions;
  enrollments = remove_where (λ e. same e.family_id family_id) s.enrollments;
  memberships = remove_where (λ m. same m.family_id family_id) s.memberships;
  defaults = remove_prefixed (version_key family_id []) s.defaults;
  versions = remove_prefixed (version_key family_id []) s.versions;
  audit = filter (λ a. not (same a.family_id family_id)) s.audit;
  families = remove s.families family_id;
}

unfoldable pub delete_family_cascade : MemoryStore → Text → MemoryStore
unfolding delete_children delete_family_rows values
delete_family_cascade s family_id =
    delete_family_rows (delete_children family_id (values s.children) s) family_id

-- A pending sign-up for the address of the account goes with it.
unfoldable pub delete_user_cascade : MemoryStore → Text → MemoryStore
unfolding get remove remove_where same
delete_user_cascade s user_id = record s {
  sessions = remove_where (λ v. same v.user_id user_id) s.sessions;
  credentials = remove_where (λ c. same c.user_id user_id) s.credentials;
  challenges = remove_where (λ c. is c.user_id user_id) s.challenges;
  endpoints = remove_where (λ e. same e.user_id user_id) s.endpoints;
  reset_tokens = remove_where (λ t. same t.user_id user_id) s.reset_tokens;
  verify_tokens = remove_where (λ t. same t.user_id user_id) s.verify_tokens;
  memberships = remove_where (λ m. same m.user_id user_id) s.memberships;
  pending_registrations = elim (get s.users user_id) [
    | none ↦ s.pending_registrations
    | some u ↦ remove_where (λ p. same p.email u.email) s.pending_registrations
  ];
  users = remove s.users user_id;
}
