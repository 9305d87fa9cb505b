-- ===== src/Backend/Assembly.antt =====
-- backend/src/domain/services.ts: PolicyService. The category provider, the signature, the time and
-- the fresh ids are arguments.
pub mod Complete
pub mod Versions
use ajar_family.Prelude.{
  ℕ, ◌+◌, List, [], ◌∷◌, ◌++◌, map, filter, Bool, true, false, not, ◌&&◌, ◌||◌, Option, none, some,
  if◌then◌else◌, ltb, leb, min,
}
use ajar_family.Text.{Text, same, is, truthy, unique, unique_from}
use ajar_family.Host.{CategoryMap}
use ajar_family.Policy.Model.{
  TargetType, RuleAction, RuleScope, PolicyRule, TemporaryRule, DefaultPolicy, DevicePolicySnapshot,
  Instant,
}
use ajar_family.Policy.Evaluate.{same_target}
use ajar_family.Backend.Model.{Child, Device, TemporaryGrant, AuditKind}
use ajar_family.Backend.Store.{
  MemoryStore, get_membership, get_device, get_default_policy, list_rules, list_temporary_rules,
  get_policy_version, bump_policy_version, list_children, create_rule, delete_rule,
  delete_temporary_rule, add_audit_event, is_consumed,
}
use ajar_family.Backend.Outcome.{ErrorCode, Outcome, done, failed}
use ajar_family.Backend.Enrollment.{may_manage, event}

unfoldable pub applies_to_child_device : RuleScope → Text → Text → Bool
applies_to_child_device scope child_id device_id =
    if truthy scope.child_id && not (is scope.child_id child_id)
    then false
    else if truthy scope.device_id && not (is scope.device_id device_id)
    then false
    else true

-- `Date.parse(t.expiresAt) > nowMs`
abbrev pub runs_out_after : Instant → ℕ → Bool
runs_out_after none now = false
runs_out_after (some t) now = ltb now t

unfoldable pub shipped_rules : MemoryStore → Text → Text → Text → List PolicyRule
unfolding list_rules applies_to_child_device
shipped_rules s family_id child_id device_id =
    filter (λ r. applies_to_child_device r.scope child_id device_id) (list_rules s family_id)

-- What `buildSnapshot` keeps of the family's grants, in its three filters.
unfoldable pub shipped_grants : MemoryStore → ℕ → Text → Text → Text → List TemporaryRule
unfolding list_temporary_rules applies_to_child_device
shipped_grants s now family_id child_id device_id =
    map (λ t. t.grant)
      (filter (λ t. not (is_consumed t))
        (filter (λ t. runs_out_after t.grant.expires_at now)
          (filter (λ t. applies_to_child_device t.grant.scope child_id device_id)
            (list_temporary_rules s family_id))))

abbrev pub or_initial : Option DefaultPolicy → DefaultPolicy
or_initial none = record { web_default = RuleAction.allow; youtube_default = RuleAction.block }
or_initial (some d) = d

-- The categories that CATEGORY rules name, each once.
unfoldable pub active_categories : List PolicyRule → List Text
unfolding same_target unique_from
active_categories rules =
    unique (map (λ r. r.value) (filter (λ r. same_target r.target TargetType.category) rules))

abbrev pub map_if_any : (List Text → CategoryMap) → List Text → Option CategoryMap
map_if_any category_map [] = none
map_if_any category_map (c ∷ cs) = some (category_map (c ∷ cs))

unfoldable pub unsigned_snapshot :
    (List Text → CategoryMap) → MemoryStore → ℕ → Text → Text → Text → DevicePolicySnapshot
unfolding get_default_policy shipped_rules shipped_grants get_policy_version active_categories
unsigned_snapshot category_map s now family_id child_id device_id =
    let rules = shipped_rules s family_id child_id device_id in
    let grants = shipped_grants s now family_id child_id device_id in
    record {
      version = get_policy_version s family_id child_id;
      family_id = family_id;
      child_id = child_id;
      device_id = device_id;
      defaults = or_initial (get_default_policy s family_id child_id);
      rules = rules;
      temporary_rules = grants;
      categories =
          map_if_any category_map
            (active_categories (rules ++ map (λ (t : TemporaryRule). t.rule) grants));
      issued_at = some now;
      signature = [];
    }

unfoldable pub build_snapshot :
    (List Text → CategoryMap)
    → (DevicePolicySnapshot → Text)
    → MemoryStore
    → ℕ
    → Text
    → Text
    → Text
    → DevicePolicySnapshot
unfolding unsigned_snapshot
build_snapshot category_map sign s now family_id child_id device_id =
    let unsigned = unsigned_snapshot category_map s now family_id child_id device_id in
    record unsigned { signature = sign unsigned }

abbrev pub last_synced : Option Device → ℕ
last_synced none = 0
last_synced (some d) = d.last_synced_version

abbrev pub asked : Option ℕ → ℕ
asked none = 0
asked (some v) = v

-- The claim is a number from 0 on; `none` where it is not finite. (A negative one is raised to 0.)
unfoldable pub clamp_synced_version : MemoryStore → Text → Option ℕ → ℕ
unfolding get_device
clamp_synced_version s device_id claimed =
    min (asked claimed) (last_synced (get_device s device_id))

unfoldable pub sync_since :
    (List Text → CategoryMap)
    → (DevicePolicySnapshot → Text)
    → MemoryStore
    → ℕ
    → Text
    → Text
    → Text
    → Option ℕ
    → Option DevicePolicySnapshot
unfolding clamp_synced_version get_policy_version build_snapshot
sync_since category_map sign s now family_id child_id device_id since =
    if leb (get_policy_version s family_id child_id) (clamp_synced_version s device_id since)
    then none
    else some (build_snapshot category_map sign s now family_id child_id device_id)

unfoldable pub bump_children : MemoryStore → Text → List Child → MemoryStore
unfolding bump_policy_version
bump_children s family_id [] = s
bump_children s family_id (c ∷ cs) =
    bump_children (bump_policy_version s family_id c.id) family_id cs

unfoldable pub bump_for_scope : MemoryStore → Text → RuleScope → MemoryStore
unfolding bump_policy_version list_children bump_children
bump_for_scope s family_id scope = elim scope.child_id [
  | none ↦ bump_children s family_id (list_children s family_id)
  | some [] ↦ bump_children s family_id (list_children s family_id)
  | some (c ∷ cs) ↦ bump_policy_version s family_id (c ∷ cs)
]

-- The rule as the service stores it: the id, the time and the author are the server's.
unfoldable pub add_rule : MemoryStore → ℕ → Text → Text → Text → PolicyRule → Outcome PolicyRule
unfolding get_membership create_rule bump_for_scope
add_rule s now id family_id acting_user_id rule =
    if not (may_manage (get_membership s family_id acting_user_id))
    then failed ErrorCode.forbidden s
    else let created = record rule {
      id = id;
      created_at = some now;
      created_by = acting_user_id;
    } in
      done created (bump_for_scope (create_rule s created) family_id rule.scope)

unfoldable pub find_grant : List TemporaryGrant → Text → Option TemporaryGrant
unfolding same
find_grant [] id = none
find_grant (t ∷ ts) id = if same t.grant.id id then some t else find_grant ts id

unfoldable pub revoke_grant : MemoryStore → ℕ → Text → Text → Text → Text → Outcome Unit
unfolding get_membership find_grant list_temporary_rules delete_temporary_rule bump_for_scope
revoke_grant s now event_id family_id acting_user_id grant_id =
    if not (may_manage (get_membership s family_id acting_user_id))
    then failed ErrorCode.forbidden s
    else elim (find_grant (list_temporary_rules s family_id) grant_id) [
      | none ↦ failed ErrorCode.not_found s
      | some t ↦
          let bumped =
            bump_for_scope (delete_temporary_rule s family_id grant_id) family_id t.grant.scope in
          done tt (
            add_audit_event bumped
              (event event_id family_id acting_user_id AuditKind.grant_revoked now))
    ]

unfoldable pub remove_rule : MemoryStore → Text → Text → Text → Outcome Unit
unfolding get_membership delete_rule list_children bump_children
remove_rule s family_id acting_user_id rule_id =
    if not (may_manage (get_membership s family_id acting_user_id))
    then failed ErrorCode.forbidden s
    else let deleted = delete_rule s family_id rule_id in
      done tt (bump_children deleted family_id (list_children deleted family_id))
