-- ===== src/Windows/Worker/Spending.antt =====
-- One-time grants: what a page load spends stays spent while snapshots still list the grant.
use ajar_family.Prelude.{
  ◌≡◌, ◌≢◌, refl, inl, inr, ℕ, List, ◌∷◌, true, false, not, ◌||◌, Option, none, some, Option-cases,
  if◌then◌else◌, if-elim, filter-Mem, Mem-filter, arith,
}
use ajar_family.Text.{Text, nonempty, includes}
use ajar_family.Text.Laws.{same_refl, includes→Mem, Mem→includes}
use ajar_family.Web.{UrlApi}
use ajar_family.Policy.Model.{RuleAction, GrantKind, Reason, DevicePolicySnapshot, TemporaryRule}
use ajar_family.Policy.Match.{is_allow}
use ajar_family.Windows.YouTube.{RequestType, is_frame, normalize_you_tube, is_playback_support_url}
use ajar_family.Windows.Filters.{FilterSet}
use ajar_family.Windows.Evaluate.{evaluate}
use ajar_family.Windows.Evaluate.Matched.{evaluate-id}
use ajar_family.Windows.Resolver.{keep_chain}
use ajar_family.Windows.Worker.{
  Worker, Clocks, Decision, DecisionReason, is_once, without_policy, spend_grant, spend_once,
  decide, visible_snapshot, context_of, apply_snapshot, lists_grant, of_result,
}
use ajar_family.Windows.Worker.Pages.{
  Platform, Answer, is_page_load, on_before_request, on_history_state_updated,
}

-- What happens to a worker while every snapshot that arrives lists the grant.
pub data Step (web : UrlApi) (platform : Platform) (id : Text) : Worker → Worker → Type 0 where
  request :
      (w : Worker) (c : Clocks) (url : Text) (type : RequestType) (initiator : Text)
      → Step web platform id w (on_before_request web platform w c url type initiator).0
  route :
      (w : Worker) (c : Clocks) (url : Text)
      → Step web platform id w (on_history_state_updated web platform w c url).0
  snapshot :
      (w : Worker) (s : DevicePolicySnapshot) (server_now : Option ℕ) (c : Clocks)
      → lists_grant id s.temporary_rules ≡ true
      → Step web platform id w (apply_snapshot s server_now c w)
  resolved :
      (w : Worker) (c : Clocks) (host : Text) (chain : List Text)
      → Step web platform id w (record w { cname = keep_chain w.cname c.date_now host chain })
  filters :
      (w : Worker) (f : Option FilterSet)
      → Step web platform id w (record w { category_filters = f })

pub data Steps (web : UrlApi) (platform : Platform) (id : Text) : Worker → Worker → Type 0 where
  done : {w : Worker} → Steps web platform id w w
  step :
      {w v u : Worker}
      → Step web platform id w v
      → Steps web platform id v u
      → Steps web platform id w u

module _ (d : Decision) (w : Worker) (id : Text) where
  abbrev Spent : Worker × Option Text → Type 0
  Spent r = includes r.0.spent id ≡ true

  spend_grant-keeps : (o : Option Text) → includes w.spent id ≡ true → Spent (spend_grant d w o)
  spend_grant-keeps none h = unfold spend_grant in h
  spend_grant-keeps (some new) h =
      unfold spend_grant in
      if-elim Spent (not (nonempty new) || not (is_once d.reason) || not (is_allow d.action))
        {x = (w, none)}
        {y = if includes w.spent new
          then (w, none)
          else (record w { spent = new ∷ w.spent }, if w.backend_mode then some new else none)}
        (λ b. h) (λ b. if-elim Spent (includes w.spent new) (λ k. h) (λ k. later new h))
    where
      later : (new : Text) → includes w.spent id ≡ true → includes (new ∷ w.spent) id ≡ true
      later new k = unfold includes in ground (arith, k)

  spend_once-keeps : includes w.spent id ≡ true → Spent (spend_once d w)
  spend_once-keeps h = unfold spend_once in spend_grant-keeps d.matched_rule_id h

  spend_once-spends :
      is_allow d.action ≡ true
      → is_once d.reason ≡ true
      → d.matched_rule_id ≡ some id
      → nonempty id ≡ true
      → Spent (spend_once d w)
  spend_once-spends allowed once matched named =
      unfold spend_once in
      rw (matched) (
        unfold spend_grant in
        rw (allowed, once, named)
          (if-elim Spent (includes w.spent id) {x = (w, none)}
            {y = (record w { spent = id ∷ w.spent }, if w.backend_mode then some id else none)}
            (λ k. k) (λ k. head)))
    where
      head : includes (id ∷ w.spent) id ≡ true
      head = unfold includes in rw (same_refl id) refl

module _ (web : UrlApi) (w : Worker) (c : Clocks) (url : Text) where
  pub frame_decision :
      (type : RequestType) {s : DevicePolicySnapshot}
      → is_frame type ≡ true
      → w.snapshot ≡ some s
      → decide web w c url type
        ≡ of_result
            (evaluate web w.category_filters (visible_snapshot w type s) (context_of web w c s url))
  frame_decision type {s} frame e = unfold decide in rw (e, no_playback) refl
    where
      no_playback : is_playback_support_url web url type ≡ false
      no_playback = unfold is_playback_support_url in rw frame

  no_policy :
      w.snapshot ≡ none
      → decide web w c url RequestType.main_frame
        ≡ without_policy (normalize_you_tube web url).is_youtube
  no_policy e = unfold decide in rw e

  -- A page load is never decided by a grant that is spent.
  pub spent_grant_decides_no_page :
      {id : Text}
      → includes w.spent id ≡ true
      → (decide web w c url RequestType.main_frame).matched_rule_id ≢ some id
  spent_grant_decides_no_page {id} spent h = elim (Option-cases w.snapshot) [
    | inl n ↦ bare n
    | inr (s, e) ↦
        let (t, m, same_id) =
          evaluate-id web w.category_filters (visible_snapshot w RequestType.main_frame s)
            (context_of web w c s url) (rw (frame_decision RequestType.main_frame refl e) at h) in
        let (listed, unspent) =
          filter-Mem (λ (t : TemporaryRule). not (includes w.spent t.id)) {a = t} s.temporary_rules
            (unfold visible_snapshot in m) in
        clash (rw same_id at unspent)
  ]
    where
      clash : not (includes w.spent id) ≡ true → ⊥
      clash k = cc (rw spent at k)

      bare : w.snapshot ≡ none → ⊥
      bare n = cc (rw (no_policy n) at h)

module _ (web : UrlApi) (platform : Platform) (id : Text) where
  abbrev Kept : Worker × Option Text × Answer → Type 0
  Kept r = includes r.0.spent id ≡ true

  module _ (w : Worker) (c : Clocks) (url : Text) where
    request-keeps :
        (type : RequestType) (initiator : Text)
        → includes w.spent id ≡ true
        → Kept (on_before_request web platform w c url type initiator)
    request-keeps type initiator h =
        let d = decide web w c url type in
        let next = spend_once-keeps d w id h in
        unfold on_before_request in
        if-elim Kept (is_allow d.action)
          (λ a. if-elim Kept (is_page_load type) (λ b. next) (λ b. h))
          (λ a. if-elim Kept (is_page_load type) (λ b. h) (λ b. h))

    route-keeps : includes w.spent id ≡ true → Kept (on_history_state_updated web platform w c url)
    route-keeps h =
        let d = decide web w c url RequestType.main_frame in
        let next = spend_once-keeps d w id h in
        unfold on_history_state_updated in if-elim Kept (is_allow d.action) (λ a. next) (λ a. h)

  snapshot-keeps :
      (w : Worker) (s : DevicePolicySnapshot) (server_now : Option ℕ) (c : Clocks)
      → lists_grant id s.temporary_rules ≡ true
      → includes w.spent id ≡ true
      → includes (apply_snapshot s server_now c w).spent id ≡ true
  snapshot-keeps w s server_now c listed h =
      unfold apply_snapshot in
      Mem→includes _ (
        Mem-filter (λ i. lists_grant i s.temporary_rules) w.spent (includes→Mem w.spent id h)
          listed)

  Step-keeps :
      {w v : Worker}
      → Step web platform id w v
      → includes w.spent id ≡ true
      → includes v.spent id ≡ true
  Step-keeps (Step.request w c url type initiator) h = request-keeps w c url type initiator h
  Step-keeps (Step.route w c url) h = route-keeps w c url h
  Step-keeps (Step.snapshot w s server_now c listed) h = snapshot-keeps w s server_now c listed h
  Step-keeps (Step.resolved w c host chain) h = h
  Step-keeps (Step.filters w f) h = h

  Steps-keeps :
      {w v : Worker}
      → Steps web platform id w v
      → includes w.spent id ≡ true
      → includes v.spent id ≡ true
  Steps-keeps Steps.done h = h
  Steps-keeps (Steps.step s rest) h = Steps-keeps rest (Step-keeps s h)

  -- Once a one-time grant has let a page load through, no later page load is decided by it, whatever
  -- requests, route changes, resolved names, filters and snapshots that still list it come between.
  pub once_opens_one_page :
      (w : Worker) {v : Worker} (c c2 : Clocks) (url url2 initiator : Text)
      → (decide web w c url RequestType.main_frame).action ≡ RuleAction.allow
      → (decide web w c url RequestType.main_frame).reason
        ≡ DecisionReason.by_policy (Reason.temporary GrantKind.once)
      → (decide web w c url RequestType.main_frame).matched_rule_id ≡ some id
      → nonempty id ≡ true
      → Steps web platform id
          (on_before_request web platform w c url RequestType.main_frame initiator).0
          v
      → (decide web v c2 url2 RequestType.main_frame).matched_rule_id ≢ some id
  once_opens_one_page w {v} c c2 url url2 initiator allowed once matched named steps =
      spent_grant_decides_no_page web v c2 url2 (Steps-keeps steps spent)
    where
      spent : Kept (on_before_request web platform w c url RequestType.main_frame initiator)
      spent =
          unfold on_before_request in
          rw allowed (
            spend_once-spends (decide web w c url RequestType.main_frame) w id (rw allowed refl)
              (rw once refl) matched named)
