-- ===== src/Backend/Grants.antt =====
-- backend/src/domain/services.ts: what ApprovalService does to grants and requests that exist.
pub mod Once
use ajar_family.Prelude.{
  ℕ, ◌+◌, ◌-◌, ◌*◌, List, [], ◌∷◌, filter, Bool, true, false, not, ◌&&◌, ◌||◌, Option, none, some,
  if◌then◌else◌, ltb, leb,
}
use ajar_family.Text.{Text, same, is, truthy}
use ajar_family.Policy.Model.{Instant, GrantKind, RuleScope}
use ajar_family.Backend.Model.{Device, TemporaryGrant, AccessRequest, RequestStatus, AuditKind}
use ajar_family.Backend.Table.{values}
use ajar_family.Backend.Store.{
  MemoryStore, get_device, get_temporary_rule, is_consumed, mark_temporary_rule_consumed,
  bump_policy_version, add_audit_event, update_access_request,
}
use ajar_family.Backend.Outcome.{ErrorCode, Outcome, done, failed}
use ajar_family.Backend.Enrollment.{event}

abbrev pub is_once : GrantKind → Bool
is_once GrantKind.once = true
is_once _ = false

-- The guards of `consumeGrant` on a grant that is there.
unfoldable pub consume_error : Text → Device → TemporaryGrant → Option ErrorCode
unfolding same
consume_error device_id device g =
    if not (same g.grant.scope.family_id device.family_id)
    then some ErrorCode.not_found
    else if truthy g.grant.scope.child_id && not (is g.grant.scope.child_id device.child_id)
    then some ErrorCode.forbidden
    else if truthy g.grant.scope.device_id && not (is g.grant.scope.device_id device_id)
    then some ErrorCode.forbidden
    else if not (is_once g.grant.grant_kind)
    then some ErrorCode.bad_request
    else if is_consumed g
    then some ErrorCode.gone
    else none

-- The store after a grant is spent.
unfoldable pub after_spending : MemoryStore → ℕ → Text → Text → Device → MemoryStore
unfolding bump_policy_version
after_spending marked now event_id device_id device =
    add_audit_event (bump_policy_version marked device.family_id device.child_id)
      (event event_id device.family_id device_id AuditKind.grant_consumed now)

unfoldable pub spend :
    MemoryStore → ℕ → Text → Text → Device → Text → TemporaryGrant → Outcome TemporaryGrant
unfolding mark_temporary_rule_consumed after_spending
spend s now event_id device_id device rule_id g =
    let (was_spent, marked) = mark_temporary_rule_consumed s rule_id (some now) in
    if not was_spent
    then failed ErrorCode.gone s
    else done (record g { consumed_at = some (some now) })
        (after_spending marked now event_id device_id device)

unfoldable pub consume_grant : MemoryStore → ℕ → Text → Text → Text → Outcome TemporaryGrant
unfolding get_device get_temporary_rule consume_error spend
consume_grant s now event_id device_id rule_id = elim (get_device s device_id) [
  | none ↦ failed ErrorCode.not_found s
  | some device ↦ elim (get_temporary_rule s rule_id) [
    | none ↦ failed ErrorCode.not_found s
    | some g ↦ elim (consume_error device_id device g) [
      | some code ↦ failed code s
      | none ↦ spend s now event_id device_id device rule_id g
    ]
  ]
]

abbrev pub request_expires_after_ms : ℕ
request_expires_after_ms = 3 * 24 * 60 * 60000

abbrev pub is_pending : RequestStatus → Bool
is_pending RequestStatus.pending = true
is_pending _ = false

-- `listAccessRequests(familyId, "PENDING")`
unfoldable pub list_pending : MemoryStore → Text → List AccessRequest
unfolding values same
list_pending s family_id =
    filter (λ r. same r.family_id family_id && is_pending r.status) (values s.requests)

-- `Number.isFinite(age) && age >= REQUEST_EXPIRES_AFTER_MS`; a time ahead of now has a negative age.
unfoldable pub is_stale : Instant → ℕ → Bool
is_stale none now = false
is_stale (some t) now = leb (t + request_expires_after_ms) now

unfoldable pub expire_each : MemoryStore → ℕ → List AccessRequest → MemoryStore
unfolding is_stale update_access_request
expire_each s now [] = s
expire_each s now (r ∷ rs) =
    let skipped = expire_each s now rs in
    let aged =
      expire_each (update_access_request s (record r { status = RequestStatus.expired })) now rs in
    if is_stale r.created_at now then aged else skipped

unfoldable pub count_stale : ℕ → List AccessRequest → ℕ
unfolding is_stale
count_stale now [] = 0
count_stale now (r ∷ rs) =
    let n = count_stale now rs in if is_stale r.created_at now then n + 1 else n

unfoldable pub expire_stale_requests : MemoryStore → Text → ℕ → ℕ × MemoryStore
unfolding list_pending count_stale expire_each
expire_stale_requests s family_id now =
    let pending = list_pending s family_id in (count_stale now pending, expire_each s now pending)
