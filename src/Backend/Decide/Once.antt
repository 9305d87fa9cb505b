-- ===== src/Backend/Decide/Once.antt =====
-- A request is decided once, by somebody who may.
use ajar_family.Prelude.{
  ℕ, ◌≡◌, refl, sym, ap, ◌∙◌, inl, inr, true, false, none, some, Bool-cases, Option-cases,
}
use ajar_family.Text.{Text, same}
use ajar_family.Web.{UrlApi}
use ajar_family.Policy.Model.{RuleAction, PolicyRule}
use ajar_family.Backend.Model.{FamilyMembership, AccessRequest, ApprovalDecision}
use ajar_family.Backend.Table.{get}
use ajar_family.Backend.Table.Laws.{get-put, Keyed, get-Keyed}
use ajar_family.Backend.Store.{
  MemoryStore, bump_policy_version, create_temporary_rule, get_membership, get_child,
  get_access_request, update_access_request, create_approval_decision,
}
use ajar_family.Backend.Outcome.{ErrorCode, Outcome, done, failed, state}
use ajar_family.Backend.Days.{Calendar, safe_time_zone}
use ajar_family.Backend.Scopes.{Expiry, Mapped, duration_to_expiry, map_scope}
use ajar_family.Backend.Grants.{is_pending}
use ajar_family.Backend.Assembly.{add_rule}
use ajar_family.Backend.Decide.{
  DecideInput, FreshIds, is_assigned, zone_of, settled, conclude, settle, decide_request, decide,
  decided_rule, decided_grant,
}

abbrev Reply : Type 0
Reply = Outcome (ApprovalDecision × AccessRequest)

-- The request is left settled.
settled_after :
    (s : MemoryStore) (now : ℕ) (ids : FreshIds) (input : DecideInput) (req : AccessRequest)
    (id : Text) {r : ApprovalDecision × AccessRequest} {s' : MemoryStore}
    → conclude s now ids input req id ≡ done r s'
    → get_access_request s' req.id ≡ some (settled req input.decision)
settled_after s now ids input req id {r} {s'} e =
    let q : get_access_request (state (conclude s now ids input req id)) req.id
        ≡ some (settled req input.decision) =
      unfold get_access_request conclude update_access_request create_approval_decision in
      get-put s.requests req.id (settled req input.decision) in
    let p : state (conclude s now ids input req id) ≡ s' = ap (λ (o : Reply). state o) e in
    rw (← p) q

settle-settled :
    (s : MemoryStore) (now : ℕ) (ids : FreshIds) (input : DecideInput) (req : AccessRequest)
    (m : Mapped) (x : Expiry) {r : ApprovalDecision × AccessRequest} {s' : MemoryStore}
    → settle s now ids input req m x ≡ done r s'
    → get_access_request s' req.id ≡ some (settled req input.decision)
unfolding settle
settle-settled s now ids input req m Expiry.refused e = absurd (cc e)
settle-settled s now ids input req m Expiry.unprintable e = absurd (cc e)
settle-settled s now ids input req m (Expiry.until at) e =
    settled_after
      (bump_policy_version (create_temporary_rule s (decided_grant now ids.rule input m req at))
        input.family_id req.child_id)
      now ids input req ids.rule e
settle-settled s now ids input req m Expiry.standing {r} {s'} e =
    made
      (add_rule s now ids.rule input.family_id input.decided_by
        (decided_rule now ids.rule input m 10))
      e
  where
    made :
        (o : Outcome PolicyRule)
        → (elim o [
          | failed code t ↦ failed code t
          | done rule t ↦ conclude t now ids input req rule.id
        ])
          ≡ done r s'
        → get_access_request s' req.id ≡ some (settled req input.decision)
    made (failed code t) e = absurd (cc e)
    made (done rule t) e = settled_after t now ids input req rule.id e

settled_not_pending :
    (action : RuleAction) (req : AccessRequest) → is_pending (settled req action).status ≡ false
settled_not_pending RuleAction.allow req = refl
settled_not_pending RuleAction.block req = refl

module _ (web : UrlApi) (calendar : Calendar) where
  -- Who decided what, and what was asked.
  pub record Decided (s : MemoryStore) (input : DecideInput) (req : AccessRequest) : Type 0 where
    pub member : FamilyMembership
    pub is_member : get_membership s input.family_id input.decided_by ≡ some member
    pub assigned : is_assigned member req.child_id ≡ true
    pub asked : get_access_request s input.request_id ≡ some req
    pub family : same req.family_id input.family_id ≡ true
    pub pending : is_pending req.status ≡ true
    pub target : Mapped
    pub mapped : map_scope web req input.scope ≡ some target

  module _ (s : MemoryStore) (now : ℕ) (ids : FreshIds) (input : DecideInput) where
    abbrev expiry : AccessRequest → Expiry
    expiry req =
        duration_to_expiry calendar input.duration
          (safe_time_zone calendar (zone_of (get_child s req.child_id))) now

    decide_known :
        (m : FamilyMembership) (req : AccessRequest)
        → get_membership s input.family_id input.decided_by ≡ some m
        → get_access_request s input.request_id ≡ some req
        → decide web calendar s now ids input ≡ decide_request web calendar s now ids input m req
    decide_known m req e f = unfold decide in rw (e, f, decide)

    decide_stranger :
        get_membership s input.family_id input.decided_by ≡ none
        → decide web calendar s now ids input ≡ failed ErrorCode.forbidden s
    decide_stranger e = unfold decide in rw (e, decide)

    decide_missing :
        (m : FamilyMembership)
        → get_membership s input.family_id input.decided_by ≡ some m
        → get_access_request s input.request_id ≡ none
        → decide web calendar s now ids input ≡ failed ErrorCode.not_found s
    decide_missing m e f = unfold decide in rw (e, f, decide)

    module _ (m : FamilyMembership) (req : AccessRequest) where
      wrong_family :
          same req.family_id input.family_id ≡ false
          → decide_request web calendar s now ids input m req ≡ failed ErrorCode.not_found s
      wrong_family a = unfold decide_request in rw a

      not_open :
          same req.family_id input.family_id ≡ true
          → is_pending req.status ≡ false
          → decide_request web calendar s now ids input m req ≡ failed ErrorCode.conflict s
      not_open a b = unfold decide_request in rw (a, b)

      not_assigned :
          same req.family_id input.family_id ≡ true
          → is_pending req.status ≡ true
          → is_assigned m req.child_id ≡ false
          → decide_request web calendar s now ids input m req ≡ failed ErrorCode.forbidden s
      not_assigned a b c = unfold decide_request in rw (a, b, c)

      misfit :
          same req.family_id input.family_id ≡ true
          → is_pending req.status ≡ true
          → is_assigned m req.child_id ≡ true
          → map_scope web req input.scope ≡ none
          → decide_request web calendar s now ids input m req ≡ failed ErrorCode.bad_request s
      misfit a b c k = unfold decide_request in rw (a, b, c, k, decide_request)

      passed :
          (t : Mapped)
          → same req.family_id input.family_id ≡ true
          → is_pending req.status ≡ true
          → is_assigned m req.child_id ≡ true
          → map_scope web req input.scope ≡ some t
          → decide_request web calendar s now ids input m req
            ≡ settle s now ids input req t (expiry req)
      passed t a b c k = unfold decide_request in rw (a, b, c, k, decide_request)

      -- The result of a request that is not open.
      closed :
          is_pending req.status ≡ false
          → (c : ErrorCode) × (decide_request web calendar s now ids input m req ≡ failed c s)
      closed b = elim (Bool-cases (same req.family_id input.family_id)) [
        | inl a ↦ (ErrorCode.conflict, not_open a b)
        | inr a ↦ (ErrorCode.not_found, wrong_family a)
      ]

      gates :
          {r : ApprovalDecision × AccessRequest} {s' : MemoryStore}
          → decide_request web calendar s now ids input m req ≡ done r s'
          → get_membership s input.family_id input.decided_by ≡ some m
          → get_access_request s input.request_id ≡ some req
          → Decided s input req × (get_access_request s' req.id ≡ some (settled req input.decision))
      gates {r} {s'} e is asked = elim (Bool-cases (same req.family_id input.family_id)) [
        | inr a ↦ absurd (cc (e, wrong_family a))
        | inl a ↦ elim (Bool-cases (is_pending req.status)) [
          | inr b ↦ absurd (cc (e, not_open a b))
          | inl b ↦ elim (Bool-cases (is_assigned m req.child_id)) [
            | inr c ↦ absurd (cc (e, not_assigned a b c))
            | inl c ↦ elim (Option-cases (map_scope web req input.scope)) [
              | inl k ↦ absurd (cc (e, misfit a b c k))
              | inr (t, k) ↦ (
                record {
                  member = m;
                  is_member = is;
                  assigned = c;
                  asked = asked;
                  family = a;
                  pending = b;
                  target = t;
                  mapped = k;
                },
                settle-settled s now ids input req t (expiry req) (rw (passed t a b c k) at e),
              )
            ]
          ]
        ]
      ]

    decided :
        {r : ApprovalDecision × AccessRequest} {s' : MemoryStore}
        → decide web calendar s now ids input ≡ done r s'
        → (req : AccessRequest) × Decided s input req
          × (get_access_request s' req.id ≡ some (settled req input.decision))
    decided {r} {s'} e = elim (Option-cases (get_membership s input.family_id input.decided_by)) [
      | inl n ↦ absurd (cc (e, decide_stranger n))
      | inr (m, k) ↦ elim (Option-cases (get_access_request s input.request_id)) [
        | inl n ↦ absurd (cc (e, decide_missing m k n))
        | inr (req, f) ↦
            let (d, g) = gates m req (rw (decide_known m req k f) at e) k f in (req, d, g)
      ]
    ]

    -- A request that is not open is refused to everybody.
    closed_to_all :
        (req : AccessRequest)
        → get_access_request s input.request_id ≡ some req
        → is_pending req.status ≡ false
        → (c : ErrorCode) × (decide web calendar s now ids input ≡ failed c s)
    closed_to_all req f b =
        elim (Option-cases (get_membership s input.family_id input.decided_by)) [
          | inl n ↦ (ErrorCode.forbidden, decide_stranger n)
          | inr (m, k) ↦ let (c, e) = closed m req b in (c, decide_known m req k f ∙ e)
        ]

-- Who decides is a member of the family, and a limited guardian only for a child assigned to them; what
-- is decided is a request of that family which waits, by a scope that fits it.
pub decide-Decided :
    (web : UrlApi) (calendar : Calendar) (s : MemoryStore) (now : ℕ) (ids : FreshIds)
    (input : DecideInput) (r : ApprovalDecision × AccessRequest) (s' : MemoryStore)
    → decide web calendar s now ids input ≡ done r s'
    → (req : AccessRequest) × Decided web calendar s input req
decide-Decided web calendar s now ids input r s' e =
    let (req, d, _) = decided web calendar s now ids input e in (req, d)

-- A REQUEST IS DECIDED ONCE. In a store whose requests are kept under their ids, after a decision every
-- later one on the same request, by whomever and whatever it says, is refused and changes nothing.
pub decide_once :
    (web : UrlApi) (calendar : Calendar) (s : MemoryStore) (now : ℕ) (ids : FreshIds)
    (input : DecideInput) (r : ApprovalDecision × AccessRequest) (s' : MemoryStore)
    → Keyed (λ q. q.id) s.requests
    → decide web calendar s now ids input ≡ done r s'
    → (later : ℕ) (ids' : FreshIds) (again : DecideInput) → again.request_id ≡ input.request_id
    → (c : ErrorCode) × (decide web calendar s' later ids' again ≡ failed c s')
decide_once web calendar s now ids input r s' keyed e later ids' again same_request =
    let (req, d, f) = decided web calendar s now ids input e in
    let found : get s.requests input.request_id ≡ some req = unfold get_access_request in d.asked in
    let id : req.id ≡ again.request_id =
      get-Keyed (λ (q : AccessRequest). q.id) s.requests input.request_id keyed found
      ∙ sym same_request in
    closed_to_all web calendar s' later ids' again (settled req input.decision) (rw (← id) f)
      (settled_not_pending input.decision req)
