-- ===== src/Backend/Decide.antt =====
-- backend/src/domain/services.ts: ApprovalService.decide. The platform's time
-- zones, the time and the fresh ids are arguments; the nudges to devices and
-- consoles that follow the writes are left out.
pub mod Once
use ajar_family.Prelude.{
  ℕ, Bool, true, false, not, ◌&&◌, ◌||◌, Option, none, some, if◌then◌else◌, List,
}
use ajar_family.Prelude.Int.{ℤ, pos}
use ajar_family.Text.{Text, same, includes}
use ajar_family.Web.{UrlApi}
use ajar_family.Policy.Model.{RuleAction, GrantKind, PolicyRule, TemporaryRule}
use ajar_family.Backend.Model.{
  Role, FamilyMembership, Child, AccessRequest, RequestStatus, ApprovalScope, ApprovalDuration,
  ApprovalDecision, TemporaryGrant, AuditKind,
}
use ajar_family.Backend.Store.{
  MemoryStore, get_membership, get_child, get_access_request, update_access_request,
  create_approval_decision, create_temporary_rule, bump_policy_version, add_audit_event,
}
use ajar_family.Backend.Days.{Calendar, safe_time_zone}
use ajar_family.Backend.Outcome.{ErrorCode, Outcome, done, failed}
use ajar_family.Backend.Scopes.{Expiry, Mapped, duration_to_expiry, map_scope, can_approve}
use ajar_family.Backend.Grants.{is_pending}
use ajar_family.Backend.Assembly.{add_rule}
use ajar_family.Backend.Enrollment.{event}

pub record DecideInput : Type 0 where
  pub family_id : Text
  pub request_id : Text
  pub decided_by : Text
  pub decision : RuleAction
  pub scope : ApprovalScope
  pub duration : ApprovalDuration

pub record FreshIds : Type 0 where
  pub rule : Text
  pub decision : Text
  pub event : Text

abbrev pub is_guardian : Role → Bool
is_guardian Role.limited_guardian = true
is_guardian _ = false

abbrev pub is_assigned : FamilyMembership → Text → Bool
is_assigned m child_id = not (is_guardian m.role) || includes m.assigned_child_ids child_id

abbrev pub zone_of : Option Child → Option Text
zone_of none = none
zone_of (some c) = some c.timezone

abbrev pub kind_of : ApprovalDuration → GrantKind
kind_of ApprovalDuration.once = GrantKind.once
kind_of ApprovalDuration.until_end_of_day = GrantKind.until_end_of_day
kind_of _ = GrantKind.timed

abbrev pub status_of : RuleAction → RequestStatus
status_of RuleAction.allow = RequestStatus.approved
status_of RuleAction.block = RequestStatus.denied

-- The rule of a decision, of the given priority.
abbrev pub decided_rule : ℕ → Text → DecideInput → Mapped → ℕ → PolicyRule
decided_rule now id input m priority = record {
  id = id;
  target = m.target_type;
  value = m.target_value;
  action = input.decision;
  scope = m.rule_scope;
  priority = some (pos priority);
  created_at = some now;
  created_by = input.decided_by;
}

abbrev pub decided_grant : ℕ → Text → DecideInput → Mapped → AccessRequest → ℕ → TemporaryGrant
decided_grant now id input m req expires_at = record {
  grant = record {
    rule = decided_rule now id input m 100;
    starts_at = some now;
    expires_at = some expires_at;
    request_id = req.id;
    approved_by = input.decided_by;
    grant_kind = kind_of input.duration;
  };
  consumed_at = none;
}

abbrev pub settled : AccessRequest → RuleAction → AccessRequest
settled req action = record req { status = status_of action }

-- What follows once the rule is made.
unfoldable pub conclude :
    MemoryStore
    → ℕ
    → FreshIds
    → DecideInput
    → AccessRequest
    → Text
    → Outcome (ApprovalDecision × AccessRequest)
unfolding update_access_request create_approval_decision
conclude s now ids input req rule_id =
    let decision : ApprovalDecision = record {
      id = ids.decision;
      request_id = req.id;
      family_id = input.family_id;
      decided_by = input.decided_by;
      decision = input.decision;
      scope = input.scope;
      duration = input.duration;
      created_at = some now;
      produced_rule_id = some rule_id;
    } in
    let decided =
      create_approval_decision (update_access_request s (settled req input.decision)) decision in
    done (decision, settled req input.decision)
      (add_audit_event decided
        (event ids.event input.family_id input.decided_by AuditKind.approval_decided now))

-- The rule or the grant of a decision.
unfoldable pub settle :
    MemoryStore
    → ℕ
    → FreshIds
    → DecideInput
    → AccessRequest
    → Mapped
    → Expiry
    → Outcome (ApprovalDecision × AccessRequest)
unfolding conclude add_rule create_temporary_rule bump_policy_version
settle s now ids input req m Expiry.refused = failed ErrorCode.bad_request s
settle s now ids input req m Expiry.unprintable = failed ErrorCode.range_error s
settle s now ids input req m (Expiry.until at) =
    conclude
      (bump_policy_version (create_temporary_rule s (decided_grant now ids.rule input m req at))
        input.family_id req.child_id)
      now ids input req ids.rule
settle s now ids input req m Expiry.standing =
    elim (add_rule s now ids.rule input.family_id input.decided_by
      (decided_rule now ids.rule input m 10)) [
        | failed code t ↦ failed code t
        | done rule t ↦ conclude t now ids input req rule.id
      ]

module _ (web : UrlApi) (calendar : Calendar) where
  unfoldable pub decide_request :
      MemoryStore
      → ℕ
      → FreshIds
      → DecideInput
      → FamilyMembership
      → AccessRequest
      → Outcome (ApprovalDecision × AccessRequest)
  unfolding map_scope settle duration_to_expiry safe_time_zone same includes get_child
  decide_request s now ids input m req =
      if not (same req.family_id input.family_id)
      then failed ErrorCode.not_found s
      else if not (is_pending req.status)
      then failed ErrorCode.conflict s
      else if not (is_assigned m req.child_id)
      then failed ErrorCode.forbidden s
      else elim (map_scope web req input.scope) [
        | none ↦ failed ErrorCode.bad_request s
        | some target ↦ settle s now ids input req target (
            duration_to_expiry calendar input.duration
              (safe_time_zone calendar (zone_of (get_child s req.child_id))) now)
      ]

  unfoldable pub decide :
      MemoryStore → ℕ → FreshIds → DecideInput → Outcome (ApprovalDecision × AccessRequest)
  unfolding decide_request get_membership get_access_request
  decide s now ids input = elim (get_membership s input.family_id input.decided_by) [
    | none ↦ failed ErrorCode.forbidden s
    | some m ↦ elim (get_access_request s input.request_id) [
      | none ↦ failed ErrorCode.not_found s
      | some req ↦ decide_request s now ids input m req
    ]
  ]
