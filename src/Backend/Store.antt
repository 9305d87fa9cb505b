-- ===== src/Backend/Store.antt =====
-- backend/src/store/memory.ts: the in-memory store, the tables that the modelled services use.
pub mod Accounts
pub mod Cascades
use ajar_family.Prelude.{
  ℕ, ◌+◌, List, [], ◌∷◌, ◌++◌, filter, Bool, true, false, ◌&&◌, Option, none, some, if◌then◌else◌,
}
use ajar_family.Text.{Text, same, is}
use ajar_family.Policy.Model.{PolicyRule, DefaultPolicy, Instant}
use ajar_family.Backend.Model.{
  FamilyMembership, Child, Device, EnrollmentToken, AccessRequest, ApprovalDecision, AuditEvent,
  TemporaryGrant,
}
use ajar_family.Backend.Model.Accounts.{
  User, Session, Family, PasswordResetToken, EmailVerificationToken, PendingRegistration,
  NotificationEndpoint, WebAuthnCredential, WebAuthnChallenge,
}
use ajar_family.Backend.Table.{Table, get, put, remove, values, find, remove_where}

pub record MemoryStore : Type 0 where
  pub memberships : Table FamilyMembership
  pub children : Table Child
  pub devices : Table Device
  pub enrollments : Table EnrollmentToken
  pub defaults : Table DefaultPolicy
  pub rules : Table PolicyRule
  pub temp_rules : Table TemporaryGrant
  pub versions : Table ℕ
  pub requests : Table AccessRequest
  pub decisions : Table ApprovalDecision
  pub audit : List AuditEvent
  pub users : Table User
  pub sessions : Table Session
  pub families : Table Family
  pub reset_tokens : Table PasswordResetToken
  pub verify_tokens : Table EmailVerificationToken
  pub pending_registrations : Table PendingRegistration
  pub endpoints : Table NotificationEndpoint
  pub credentials : Table WebAuthnCredential
  pub challenges : Table WebAuthnChallenge

unfoldable pub version_key : Text → Text → Text
version_key family_id child_id = family_id ++ (b':' ∷ child_id)

unfoldable pub get_membership : MemoryStore → Text → Text → Option FamilyMembership
unfolding find same
get_membership s family_id user_id =
    find (λ m. same m.family_id family_id && same m.user_id user_id) s.memberships

unfoldable pub get_child : MemoryStore → Text → Option Child
unfolding get
get_child s id = get s.children id

unfoldable pub list_children : MemoryStore → Text → List Child
unfolding values same
list_children s family_id = filter (λ c. same c.family_id family_id) (values s.children)

unfoldable pub create_device : MemoryStore → Device → MemoryStore
unfolding put
create_device s d = record s { devices = put s.devices d.id d }

unfoldable pub get_device : MemoryStore → Text → Option Device
unfolding get
get_device s id = get s.devices id

unfoldable pub update_device : MemoryStore → Device → MemoryStore
unfolding put
update_device s d = record s { devices = put s.devices d.id d }

unfoldable pub create_enrollment_token : MemoryStore → EnrollmentToken → MemoryStore
unfolding put
create_enrollment_token s t = record s { enrollments = put s.enrollments t.id t }

unfoldable pub get_enrollment_token_by_code : MemoryStore → Text → Option EnrollmentToken
unfolding find same
get_enrollment_token_by_code s code = find (λ t. same t.code code) s.enrollments

unfoldable pub update_enrollment_token : MemoryStore → EnrollmentToken → MemoryStore
unfolding put
update_enrollment_token s t = record s { enrollments = put s.enrollments t.id t }

unfoldable pub get_default_policy : MemoryStore → Text → Text → Option DefaultPolicy
unfolding get version_key
get_default_policy s family_id child_id = get s.defaults (version_key family_id child_id)

unfoldable pub create_rule : MemoryStore → PolicyRule → MemoryStore
unfolding put
create_rule s r = record s { rules = put s.rules r.id r }

-- Only a rule of the family is deleted.
unfoldable pub delete_rule : MemoryStore → Text → Text → MemoryStore
unfolding get remove same
delete_rule s family_id rule_id = elim (get s.rules rule_id) [
  | none ↦ s
  | some r ↦
      if same r.scope.family_id family_id then record s { rules = remove s.rules rule_id } else s
]

unfoldable pub list_rules : MemoryStore → Text → List PolicyRule
unfolding values same
list_rules s family_id = filter (λ r. same r.scope.family_id family_id) (values s.rules)

unfoldable pub create_temporary_rule : MemoryStore → TemporaryGrant → MemoryStore
unfolding put
create_temporary_rule s t = record s { temp_rules = put s.temp_rules t.grant.id t }

unfoldable pub get_temporary_rule : MemoryStore → Text → Option TemporaryGrant
unfolding get
get_temporary_rule s id = get s.temp_rules id

unfoldable pub list_temporary_rules : MemoryStore → Text → List TemporaryGrant
unfolding values same
list_temporary_rules s family_id =
    filter (λ t. same t.grant.scope.family_id family_id) (values s.temp_rules)

unfoldable pub delete_temporary_rule : MemoryStore → Text → Text → MemoryStore
unfolding get remove same
delete_temporary_rule s family_id id = elim (get s.temp_rules id) [
  | none ↦ s
  | some t ↦
      if same t.grant.scope.family_id family_id
      then record s { temp_rules = remove s.temp_rules id }
      else s
]

abbrev pub is_consumed : TemporaryGrant → Bool
is_consumed t = elim t.consumed_at [ none ↦ false | some at ↦ true ]

-- The grant's new state, and whether it was spent now.
unfoldable pub mark_temporary_rule_consumed : MemoryStore → Text → Instant → Bool × MemoryStore
unfolding get put
mark_temporary_rule_consumed s id at = elim (get s.temp_rules id) [
  | none ↦ (false, s)
  | some t ↦ if is_consumed t then (false, s) else (
    true,
    record s { temp_rules = put s.temp_rules id (record t { consumed_at = some at }) },
  )
]

abbrev pub or_zero : Option ℕ → ℕ
or_zero none = 0
or_zero (some n) = n

unfoldable pub get_policy_version : MemoryStore → Text → Text → ℕ
unfolding get version_key
get_policy_version s family_id child_id = or_zero (get s.versions (version_key family_id child_id))

unfoldable pub bump_policy_version : MemoryStore → Text → Text → MemoryStore
unfolding get put version_key
bump_policy_version s family_id child_id =
    let k = version_key family_id child_id in
    record s { versions = put s.versions k (or_zero (get s.versions k) + 1) }

unfoldable pub create_access_request : MemoryStore → AccessRequest → MemoryStore
unfolding put
create_access_request s r = record s { requests = put s.requests r.id r }

unfoldable pub get_access_request : MemoryStore → Text → Option AccessRequest
unfolding get
get_access_request s id = get s.requests id

unfoldable pub update_access_request : MemoryStore → AccessRequest → MemoryStore
unfolding put
update_access_request s r = record s { requests = put s.requests r.id r }

unfoldable pub create_approval_decision : MemoryStore → ApprovalDecision → MemoryStore
unfolding put
create_approval_decision s d = record s { decisions = put s.decisions d.id d }

abbrev pub add_audit_event : MemoryStore → AuditEvent → MemoryStore
add_audit_event s e = record s { audit = s.audit ++ (e ∷ []) }

-- The device, and the rules, grants and requests that name it.
unfoldable pub delete_device_cascade : MemoryStore → Text → Text → MemoryStore
unfolding get remove remove_where same
delete_device_cascade s family_id device_id = record s {
  rules =
      remove_where (λ r. same r.scope.family_id family_id && is r.scope.device_id device_id)
        s.rules;
  temp_rules =
      remove_where
        (λ t. same t.grant.scope.family_id family_id && is t.grant.scope.device_id device_id)
        s.temp_rules;
  requests =
      remove_where (λ r. same r.family_id family_id && same r.device_id device_id) s.requests;
  devices = elim (get s.devices device_id) [
    | none ↦ s.devices
    | some d ↦ if same d.family_id family_id then remove s.devices device_id else s.devices
  ];
}
