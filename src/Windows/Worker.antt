-- ===== src/Windows/Worker.antt =====
-- windows/extension/background.js: the service worker. What it holds, how it decides a request, and
-- what each event does to it.
pub mod Pages
pub mod Spending
pub mod Verdict
pub mod Clock
use ajar_family.Prelude.{
  ℕ, ◌+◌, ◌-◌, List, [], ◌∷◌, Bool, true, false, not, ◌&&◌, ◌||◌, Option, none, some, filter, leb,
  if◌then◌else◌,
}
use ajar_family.Text.{Text, nonempty, includes, same}
use ajar_family.Web.{UrlApi}
use ajar_family.Backend.Table.{Table}
use ajar_family.Policy.Model.{
  TargetType, RuleAction, GrantKind, PolicyRule, TemporaryRule, DevicePolicySnapshot, EvalContext,
  Reason, EvalResult,
}
use ajar_family.Policy.Evaluate.{same_target}
use ajar_family.Policy.Match.{is_allow}
use ajar_family.Windows.Filters.{FilterSet}
use ajar_family.Windows.YouTube.{RequestType, normalize_you_tube, is_playback_support_url}
use ajar_family.Windows.Evaluate.{evaluate, is_active_temp}
use ajar_family.Windows.Resolver.{CacheEntry, chain_for}

-- CLOCK_ANCHOR
pub record Anchor : Type 0 where
  pub server_now_ms : ℕ
  pub perf_now_at_anchor : ℕ

-- The module's variables SNAPSHOT, CLOCK_ANCHOR, SPENT, CATEGORY_FILTERS, BACKEND_MODE and CNAME.
pub record Worker : Type 0 where
  pub snapshot : Option DevicePolicySnapshot
  pub clock_anchor : Option Anchor
  pub spent : List Text
  pub category_filters : Option FilterSet
  pub backend_mode : Bool
  pub cname : Table CacheEntry

-- `performance.now()` and `Date.now()` at an event.
pub record Clocks : Type 0 where
  pub perf_now : ℕ
  pub date_now : ℕ

pub data DecisionReason : Type 0 where
  by_policy : Reason → DecisionReason
  fail_closed fail_open playback_support : DecisionReason

pub record Decision : Type 0 where
  pub action : RuleAction
  pub reason : DecisionReason
  pub matched_rule_id : Option Text
  pub matched_key : Option Text

abbrev anchored_now : Option Anchor → Clocks → ℕ
anchored_now none c = c.date_now
anchored_now (some a) c = a.server_now_ms + c.perf_now - a.perf_now_at_anchor

-- `nowMs()`
unfoldable pub now_ms : Worker → Clocks → ℕ
now_ms w c = anchored_now w.clock_anchor c

unfoldable pub allows_a_video : PolicyRule → Bool
unfolding same_target
allows_a_video r = is_allow r.action && same_target r.target TargetType.youtube_video

unfoldable some_grant : (TemporaryRule → Bool) → List TemporaryRule → Bool
some_grant p [] = false
some_grant p (t ∷ ts) = p t || some_grant p ts

unfoldable some_rule : (PolicyRule → Bool) → List PolicyRule → Bool
some_rule p [] = false
some_rule p (r ∷ rs) = p r || some_rule p rs

unfoldable pub any_video_approved : DevicePolicySnapshot → ℕ → Bool
unfolding allows_a_video is_active_temp some_grant some_rule
any_video_approved s now =
    some_grant (λ t. allows_a_video t.rule && is_active_temp t now) s.temporary_rules
    || some_rule allows_a_video s.rules

abbrev pub without_policy : Bool → Decision
without_policy yt = record {
  action = if yt then RuleAction.block else RuleAction.allow;
  reason = if yt then fail_closed else fail_open;
  matched_rule_id = none;
  matched_key = none;
}

abbrev pub for_playback : Decision
for_playback = record {
  action = RuleAction.allow;
  reason = playback_support;
  matched_rule_id = none;
  matched_key = none;
}

abbrev pub of_result : EvalResult → Decision
of_result r = record {
  action = r.action;
  reason = by_policy r.reason;
  matched_rule_id = r.matched_rule_id;
  matched_key = r.matched_key;
}

abbrev pub is_main_frame : RequestType → Bool
is_main_frame RequestType.main_frame = true
is_main_frame _ = false

-- A page load sees the policy without the grants that are spent.
unfoldable pub visible_snapshot : Worker → RequestType → DevicePolicySnapshot → DevicePolicySnapshot
unfolding includes
visible_snapshot w type s =
    if is_main_frame type
    then record s { temporary_rules = filter (λ t. not (includes w.spent t.id)) s.temporary_rules }
    else s

module _ (web : UrlApi) where
  unfoldable pub raw_host : Text → Text
  raw_host url = elim (web.parse url) [ none ↦ [] | some u ↦ web.hostname u ]

  unfoldable pub context_of : Worker → Clocks → DevicePolicySnapshot → Text → EvalContext
  unfolding raw_host chain_for now_ms
  context_of w c s url =
      let host = raw_host url in
      record {
        url = url;
        child_id = s.child_id;
        device_id = s.device_id;
        now_ms = now_ms w c;
        app_id = none;
        category_filters = none;
        resolved_hosts = some (if nonempty host then chain_for w.cname c.date_now host else []);
      }

  unfoldable pub decide : Worker → Clocks → Text → RequestType → Decision
  unfolding normalize_you_tube is_playback_support_url any_video_approved visible_snapshot
      context_of evaluate now_ms
  decide w c url type = elim w.snapshot [
    | none ↦ without_policy (normalize_you_tube web url).is_youtube
    | some s ↦
        if is_playback_support_url web url type && any_video_approved s (now_ms w c)
        then for_playback
        else of_result
            (evaluate web w.category_filters (visible_snapshot w type s) (context_of w c s url))
  ]

-- `res.reason === "temporary:ONCE"`
abbrev pub is_once : DecisionReason → Bool
is_once (by_policy (Reason.temporary GrantKind.once)) = true
is_once _ = false

-- The worker after, and the grant that it reports to the backend.
unfoldable pub spend_grant : Decision → Worker → Option Text → Worker × Option Text
unfolding includes
spend_grant d w none = (w, none)
spend_grant d w (some id) =
    if not (nonempty id) || not (is_once d.reason) || not (is_allow d.action)
    then (w, none)
    else if includes w.spent id
    then (w, none)
    else (record w { spent = id ∷ w.spent }, if w.backend_mode then some id else none)

unfoldable pub spend_once : Decision → Worker → Worker × Option Text
unfolding spend_grant
spend_once d w = spend_grant d w d.matched_rule_id

unfoldable pub lists_grant : Text → List TemporaryRule → Bool
unfolding same
lists_grant id [] = false
lists_grant id (t ∷ ts) = same t.id id || lists_grant id ts

abbrev anchor_at : Option ℕ → Clocks → Option Anchor → Option Anchor
anchor_at none c old = old
anchor_at (some server_now) c old =
    some (record { server_now_ms = server_now; perf_now_at_anchor = c.perf_now })

-- `applySnapshot`
unfoldable pub apply_snapshot : DevicePolicySnapshot → Option ℕ → Clocks → Worker → Worker
unfolding lists_grant
apply_snapshot s server_now c w = record w {
  snapshot = some s;
  spent = filter (λ id. lists_grant id s.temporary_rules) w.spent;
  clock_anchor = anchor_at server_now c w.clock_anchor;
}

-- What `chrome.storage.local` gives back, which the child can write.
pub record Cached : Type 0 where
  pub snapshot : Option DevicePolicySnapshot
  pub clock_anchor : Option Anchor
  pub category_filters : Option (FilterSet × Text)

abbrev verified {ℓ} :
    {A : Type ℓ} → (A → Text → Bool) → Option Text → Option A → Option A → Option A
verified check key none old = old
verified check none (some v) old = none
verified check (some key) (some v) old = if check v key then some v else none

-- An anchor is taken where it is at most a minute ahead of the device's clock.
abbrev kept_anchor : Option Anchor → Clocks → Option Anchor → Option Anchor
kept_anchor none c old = old
kept_anchor (some a) c old = if leb a.server_now_ms (c.date_now + 60000) then some a else old

-- `restoreCachedPolicy`, with the check of a signature under the key of the trust anchor. Filters that
-- are refused leave those that are installed.
unfoldable pub restore_cached_policy :
    (DevicePolicySnapshot → Text → Bool)
    → (FilterSet × Text → Text → Bool)
    → Option Text
    → Cached
    → Clocks
    → Worker
    → Worker
restore_cached_policy check_snapshot check_filters key v c w = record w {
  snapshot = verified check_snapshot key v.snapshot w.snapshot;
  category_filters = elim (verified check_filters key v.category_filters none) [
    | none ↦ w.category_filters
    | some f ↦ some f.0
  ];
  clock_anchor = kept_anchor v.clock_anchor c w.clock_anchor;
}
