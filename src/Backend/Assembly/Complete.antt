-- ===== src/Backend/Assembly/Complete.antt =====
-- A device's snapshot decides as all that the family has written would.
use ajar_family.Prelude.{
  ℕ, ◌≡◌, ◌≤◌, refl, ◌∙◌, ap, inl, inr, List, [], ◌∷◌, map, filter, Bool, true, false, not, ◌&&◌,
  arith, Bool-cases, if◌then◌else◌,
}
use ajar_family.Text.{Text, is, truthy}
use ajar_family.Web.{UrlApi}
use ajar_family.Host.{CategoryMap}
use ajar_family.Policy.Model.{RuleScope, TemporaryRule, DevicePolicySnapshot, EvalContext}
use ajar_family.Policy.Evaluate.{evaluate, rule_applies_to_scope, is_active_temp}
use ajar_family.Policy.Pruning.{pruned, evaluate-pruned}
use ajar_family.Backend.Model.{TemporaryGrant}
use ajar_family.Backend.Store.{MemoryStore, list_rules, list_temporary_rules, is_consumed}
use ajar_family.Backend.Assembly.{
  applies_to_child_device, runs_out_after, shipped_rules, shipped_grants, build_snapshot,
  unsigned_snapshot,
}

same_scope_test :
    (scope : RuleScope) (ctx : EvalContext)
    → applies_to_child_device scope ctx.child_id ctx.device_id ≡ rule_applies_to_scope scope ctx
unfolding applies_to_child_device rule_applies_to_scope
same_scope_test scope ctx =
    swap (truthy scope.child_id && not (is scope.child_id ctx.child_id))
      (truthy scope.device_id && not (is scope.device_id ctx.device_id))
  where
    swap :
        (a b : Bool)
        → (if a then false else if b then false else true)
          ≡ (if b then false else if a then false else true)
    swap a b = ground arith

module _ (now : ℕ) (child_id device_id : Text) where
  abbrev pub keep_grant : TemporaryRule → Bool
  keep_grant t =
      applies_to_child_device t.scope child_id device_id && runs_out_after t.expires_at now

  kept_grants :
      (ts : List TemporaryGrant)
      → map
          (λ (t : TemporaryGrant). t.grant)
          (filter
            (λ t. not (is_consumed t))
            (filter
              (λ t. runs_out_after t.grant.expires_at now)
              (filter (λ t. applies_to_child_device t.grant.scope child_id device_id) ts)))
        ≡ filter keep_grant
            (map (λ (t : TemporaryGrant). t.grant) (filter (λ t. not (is_consumed t)) ts))
  kept_grants [] = refl
  kept_grants (t ∷ ts) =
      let rest = kept_grants ts in
      elim (Bool-cases (applies_to_child_device t.grant.scope child_id device_id)) [
        | inr n ↦ elim (Bool-cases (is_consumed t)) [
          | inl c ↦ rw (n, c) rest
          | inr c ↦ rw (n, c, n) rest
        ]
        | inl a ↦ elim (Bool-cases (runs_out_after t.grant.expires_at now)) [
          | inr n ↦ elim (Bool-cases (is_consumed t)) [
            | inl c ↦ rw (a, n, c) rest
            | inr c ↦ rw (a, n, c, a, n) rest
          ]
          | inl r ↦ elim (Bool-cases (is_consumed t)) [
            | inl c ↦ rw (a, r, c) rest
            | inr c ↦ rw (a, r, c, a, r) (ap (λ (xs : List TemporaryRule). t.grant ∷ xs) rest)
          ]
        ]
      ]

runs_on :
    (t : TemporaryRule) (now at : ℕ)
    → now ≤ at
    → is_active_temp t at ≡ true
    → runs_out_after t.expires_at now ≡ true
unfolding is_active_temp
runs_on t now at le h = ground arith

-- All the family's rules and its unspent grants, in place of those that the snapshot carries.
abbrev pub whole_family_snapshot : MemoryStore → Text → DevicePolicySnapshot → DevicePolicySnapshot
whole_family_snapshot s family_id snapshot = record snapshot {
  rules = list_rules s family_id;
  temporary_rules =
      map (λ (t : TemporaryGrant). t.grant)
        (filter (λ t. not (is_consumed t)) (list_temporary_rules s family_id));
}

module _ (web : UrlApi) (category_map : List Text → CategoryMap)
    (sign : DevicePolicySnapshot → Text) (s : MemoryStore) (now : ℕ) (family_id : Text)
    (ctx : EvalContext) where
  built-pruned :
      build_snapshot category_map sign s now family_id ctx.child_id ctx.device_id
      ≡ pruned web ctx
          (keep_grant now ctx.child_id ctx.device_id)
          (λ u. applies_to_child_device u.scope ctx.child_id ctx.device_id)
          (whole_family_snapshot s family_id
            (build_snapshot category_map sign s now family_id ctx.child_id ctx.device_id))
  built-pruned =
      let snap = build_snapshot category_map sign s now family_id ctx.child_id ctx.device_id in
      let e : shipped_grants s now family_id ctx.child_id ctx.device_id
          ≡ filter (keep_grant now ctx.child_id ctx.device_id) (
              map (λ (t : TemporaryGrant). t.grant)
                (filter (λ t. not (is_consumed t)) (list_temporary_rules s family_id))) =
        unfold shipped_grants in
        kept_grants now ctx.child_id ctx.device_id (list_temporary_rules s family_id) in
      unfold build_snapshot unsigned_snapshot shipped_rules in
      ap (λ (xs : List TemporaryRule). record snap { temporary_rules = xs }) e

  -- THE SNAPSHOT IS COMPLETE. From the moment that a device's snapshot is built, it decides every
  -- request of that child and device as a snapshot with all the rules of the family and all its unspent
  -- grants (and the same defaults and categories) would: what assembly leaves out could not have decided.
  pub build_snapshot_complete :
      now ≤ ctx.now_ms
      → evaluate web
          (build_snapshot category_map sign s now family_id ctx.child_id ctx.device_id)
          ctx
        ≡ evaluate web
            (whole_family_snapshot s family_id
              (build_snapshot category_map sign s now family_id ctx.child_id ctx.device_id))
            ctx
  build_snapshot_complete le =
      ap (λ (d : DevicePolicySnapshot). evaluate web d ctx) built-pruned
      ∙ evaluate-pruned web ctx (keep_grant now ctx.child_id ctx.device_id)
          (λ u. applies_to_child_device u.scope ctx.child_id ctx.device_id)
          (whole_family_snapshot s family_id
            (build_snapshot category_map sign s now family_id ctx.child_id ctx.device_id))
          (λ t a b. rw (same_scope_test t.scope ctx, a) (runs_on t now ctx.now_ms le b))
          (λ u a. rw (same_scope_test u.scope ctx, a))
