-- ===== src/Backend/Family.antt =====
-- backend/src/domain/services.ts: FamilyService. The platform's time zones are a parameter; a
-- role that is none of the three is `none`.
pub mod Parents
pub mod Erasure
use ajar_family.Prelude.{
  ℕ, List, [], ◌∷◌, Bool, true, false, not, ◌&&◌, ◌||◌, Option, none, some, if◌then◌else◌,
}
use ajar_family.Text.{Text, codes, nonempty, trim, unique, unique_from, all_texts}
use ajar_family.Policy.Model.{RuleAction, DefaultPolicy}
use ajar_family.Backend.Model.{Role, FamilyMembership, Child, AuditKind}
use ajar_family.Backend.Model.Accounts.{User, Family}
use ajar_family.Backend.Store.{
  MemoryStore, get_membership, get_child, bump_policy_version, add_audit_event,
}
use ajar_family.Backend.Store.Accounts.{
  create_user, get_user, get_user_by_email, create_family, add_membership, create_child,
}
use ajar_family.Backend.Store.Cascades.{delete_child_cascade}
use ajar_family.Backend.Days.{Calendar, is_valid_time_zone}
use ajar_family.Backend.Outcome.{ErrorCode, Outcome, done, failed}
use ajar_family.Backend.Email.{looks_like_email}
use ajar_family.Backend.Devices.{set_default_policy}
use ajar_family.Backend.Scopes.{can_manage_policy}
use ajar_family.Backend.Enrollment.{event, may_manage, is_child_of}

abbrev pub can_manage_parents : Role → Bool
can_manage_parents Role.owner = true
can_manage_parents _ = false

-- `requireRole(familyId, userId, canManageParents, …)`
abbrev pub manages_parents : Option FamilyMembership → Bool
manages_parents none = false
manages_parents (some m) = can_manage_parents m.role

abbrev pub is_some {ℓ} : {A : Type ℓ} → Option A → Bool
is_some none = false
is_some (some a) = true

abbrev pub is_limited_guardian : Role → Bool
is_limited_guardian Role.limited_guardian = true
is_limited_guardian _ = false

abbrev pub is_empty : List Text → Bool
is_empty [] = true
is_empty (c ∷ cs) = false

-- `FamilyService.createUser`: the account of the address where there is one.
unfoldable pub create_shell_user : MemoryStore → ℕ → Text → Text → Text → User × MemoryStore
unfolding get_user_by_email create_user
create_shell_user s now id address display_name =
    let u : User = record {
      id = id;
      email = address;
      display_name = display_name;
      password_hash = none;
      token_version = 0;
      email_verified_at = none;
      created_at = some now;
    } in
    elim (get_user_by_email s address) [ some known ↦ (known, s) | none ↦ (u, create_user s u) ]

-- `createFamily`, with the ids of the family, the membership and the audit event.
unfoldable pub found_family :
    MemoryStore → ℕ → Text → Text → Text → Text → Text → Family × MemoryStore
unfolding create_family add_membership
found_family s now id member_id event_id name owner_user_id =
    let f : Family = record { id = id; name = name; created_at = some now } in
    let m : FamilyMembership = record {
      id = member_id;
      family_id = id;
      user_id = owner_user_id;
      role = Role.owner;
      assigned_child_ids = [];
      created_at = some now;
    } in
    (
      f,
      add_audit_event (add_membership (create_family s f) m)
          (event event_id id owner_user_id AuditKind.family_created now),
    )

abbrev pub new_member : ℕ → Text → Text → Text → Role → List Text → FamilyMembership
new_member now member_id family_id user_id role assigned = record {
  id = member_id;
  family_id = family_id;
  user_id = user_id;
  role = role;
  assigned_child_ids = assigned;
  created_at = some now;
}

-- The writes of `addParent`.
unfoldable pub join_family : MemoryStore → ℕ → Text → Text → Text → FamilyMembership → MemoryStore
unfolding add_membership
join_family s now event_id family_id acting_user_id m =
    add_audit_event (add_membership s m)
      (event event_id family_id acting_user_id AuditKind.family_parent_added now)

-- `addParent` from the look-up of the account on, for a role that is known.
unfoldable pub add_account :
    MemoryStore → ℕ → Text → Text → Text → Text → Text → Role → List Text → Outcome FamilyMembership
unfolding get_user get_membership get_child all_texts join_family
add_account s now member_id event_id family_id acting_user_id new_user_id role assigned =
    let m = new_member now member_id family_id new_user_id role assigned in
    if not (is_some (get_user s new_user_id))
    then failed ErrorCode.not_found s
    else if is_some (get_membership s family_id new_user_id)
    then failed ErrorCode.conflict s
    else if not (all_texts (λ c. is_child_of (get_child s c) family_id) assigned)
    then failed ErrorCode.not_found s
    else if not (is_limited_guardian role) && not (is_empty assigned)
    then failed ErrorCode.bad_request s
    else done m (join_family s now event_id family_id acting_user_id m)

abbrev add_if_known :
    MemoryStore → (Role → Outcome FamilyMembership) → Text → Option Role → Outcome FamilyMembership
add_if_known s go new_user_id none = failed ErrorCode.bad_request s
add_if_known s go new_user_id (some role) =
    if nonempty new_user_id then go role else failed ErrorCode.bad_request s

-- `addParent`; an account stands under its id, so `user.id` is the id asked for.
unfoldable pub add_parent :
    MemoryStore
    → ℕ
    → Text
    → Text
    → Text
    → Text
    → Text
    → Option Role
    → List Text
    → Outcome FamilyMembership
unfolding get_membership add_account unique_from
add_parent s now member_id event_id family_id acting_user_id new_user_id role assigned_child_ids =
    if not (manages_parents (get_membership s family_id acting_user_id))
    then failed ErrorCode.forbidden s
    else add_if_known s
        (λ r.
          add_account s now member_id event_id family_id acting_user_id new_user_id r
            (unique assigned_child_ids))
        new_user_id role

unfoldable pub invite_parent_by_email :
    MemoryStore
    → ℕ
    → Text
    → Text
    → Text
    → Text
    → Text
    → Option Role
    → List Text
    → Outcome FamilyMembership
unfolding get_membership looks_like_email get_user_by_email trim add_parent
invite_parent_by_email s now member_id event_id family_id acting_user_id address role assigned =
    if not (manages_parents (get_membership s family_id acting_user_id))
    then failed ErrorCode.forbidden s
    else if not (looks_like_email address)
    then failed ErrorCode.bad_request s
    else elim (get_user_by_email s (trim address)) [
      | none ↦ failed ErrorCode.not_found s
      | some u ↦ add_parent s now member_id event_id family_id acting_user_id u.id role assigned
    ]

unfoldable pub add_child :
    Calendar → MemoryStore → ℕ → Text → Text → Text → Text → Text → Text → Outcome Child
unfolding get_membership create_child set_default_policy bump_policy_version is_valid_time_zone
add_child calendar s now child_id event_id family_id acting_user_id display_name timezone =
    let c : Child = record {
      id = child_id;
      family_id = family_id;
      display_name = display_name;
      timezone = timezone;
      created_at = some now;
    } in
    let posture : DefaultPolicy = record {
      web_default = RuleAction.allow;
      youtube_default = RuleAction.block;
    } in
    if not (may_manage (get_membership s family_id acting_user_id))
    then failed ErrorCode.forbidden s
    else if not (nonempty display_name)
    then failed ErrorCode.bad_request s
    else if not (is_valid_time_zone calendar timezone)
    then failed ErrorCode.bad_request s
    else done c (
        add_audit_event
          (bump_policy_version (set_default_policy (create_child s c) family_id child_id posture)
            family_id child_id)
          (event event_id family_id acting_user_id AuditKind.child_added now))

unfoldable pub set_child_timezone :
    Calendar → MemoryStore → ℕ → Text → Text → Text → Text → Text → Outcome Child
unfolding get_membership get_child create_child is_valid_time_zone
set_child_timezone calendar s now event_id family_id acting_user_id child_id timezone =
    if not (may_manage (get_membership s family_id acting_user_id))
    then failed ErrorCode.forbidden s
    else elim (get_child s child_id) [
      | none ↦ failed ErrorCode.not_found s
      | some c ↦
          let updated = record c { timezone = timezone } in
          if not (is_child_of (some c) family_id)
          then failed ErrorCode.not_found s
          else if not (is_valid_time_zone calendar timezone)
          then failed ErrorCode.bad_request s
          else done updated (
              add_audit_event (create_child s updated)
                (event event_id family_id acting_user_id AuditKind.child_updated now))
    ]

unfoldable pub remove_child : MemoryStore → ℕ → Text → Text → Text → Text → Outcome Unit
unfolding get_membership get_child delete_child_cascade
remove_child s now event_id family_id acting_user_id child_id =
    if not (may_manage (get_membership s family_id acting_user_id))
    then failed ErrorCode.forbidden s
    else if not (is_child_of (get_child s child_id) family_id)
    then failed ErrorCode.not_found s
    else done tt (
        add_audit_event (delete_child_cascade s family_id child_id)
          (event event_id family_id acting_user_id AuditKind.child_removed now))

-- `none` inside stands for every child.
unfoldable pub visible_child_ids : MemoryStore → Text → Text → Outcome (Option (List Text))
unfolding get_membership
visible_child_ids s family_id user_id = elim (get_membership s family_id user_id) [
  | none ↦ failed ErrorCode.forbidden s
  | some m ↦ done (if is_limited_guardian m.role then some m.assigned_child_ids else none) s
]
