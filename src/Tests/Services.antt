-- ===== src/Tests/Services.antt =====
-- The services at concrete inputs.
use ajar_family.Prelude.{false, Memᴰ, ℕ, ◌+◌, ◌≡◌, refl, ◌≤◌, ◌<◌, List, [], ◌∷◌, none, some, arith}
use ajar_family.Text.{is_space, Text, codes}
use ajar_family.Host.{CategoryMap}
use ajar_family.Policy.Model.{TargetType, RuleAction, GrantKind, DevicePolicySnapshot, EvalContext}
use ajar_family.Policy.Evaluate.{evaluate}
use ajar_family.Samples.{read_address, sample_web, sample_rule, sample_grant, sample_context}
use ajar_family.Backend.Model.{
  Role, Platform, FamilyMembership, Device, EnrollmentToken, RequestStatus, AccessRequest,
  ApprovalScope, ApprovalDuration, ApprovalDecision, TemporaryGrant,
}
use ajar_family.Backend.Table.Laws.{Keyed}
use ajar_family.Backend.Table.{get}
use ajar_family.Backend.Store.{MemoryStore, get_device, get_policy_version}
use ajar_family.Backend.Outcome.{ErrorCode, Outcome, done, failed, state}
use ajar_family.Backend.Scopes.{map_scope, target_of, default_scope_for}
use ajar_family.Backend.Scopes.Mapping.{default_scope_applies}
use ajar_family.Backend.Enrollment.{redeem, heartbeat}
use ajar_family.Backend.Enrollment.SingleUse.{IsEnrolled, redeem_once, redeem_enrolls}
use ajar_family.Backend.Grants.{consume_grant}
use ajar_family.Backend.Grants.Once.{consume_once}
use ajar_family.Backend.Devices.{DeviceStatus, list_with_status}
use ajar_family.Backend.Devices.Visible.{IsShown, list_with_status-IsShown}
use ajar_family.Backend.Requests.{
  RequestInput, create_request, new_request, normalize_referrer_host, first_match, is_same_ask,
}
use ajar_family.Backend.Requests.Deduplication.{create_request_idempotent}
use ajar_family.Backend.Grants.{list_pending}
use ajar_family.Backend.Assembly.{build_snapshot, sync_since, last_synced}
use ajar_family.Backend.Assembly.Complete.{whole_family_snapshot, build_snapshot_complete}
use ajar_family.Backend.Assembly.Versions.{sync_since_serves, heartbeat_monotone}
use ajar_family.Backend.Decide.{DecideInput, FreshIds, decide}
use ajar_family.Tests.Days.{calendar}
use ajar_family.Backend.Decide.Once.{Decided, decide-Decided, decide_once}

abbrev parent_member : FamilyMembership
parent_member = record {
  id = codes "m1";
  family_id = codes "f1";
  user_id = codes "u1";
  role = Role.parent;
  assigned_child_ids = [];
  created_at = some 10;
}

abbrev laptop : Device
laptop = record {
  id = codes "d1";
  family_id = codes "f1";
  child_id = codes "c1";
  platform = Platform.macos;
  display_name = codes "Laptop";
  device_public_key = codes "key";
  enrolled_at = some 50;
  last_synced_version = 2;
  last_seen_at = none;
}

abbrev open_code : EnrollmentToken
open_code = record {
  id = codes "t1";
  code = codes "ABCD2345";
  family_id = codes "f1";
  child_id = codes "c1";
  platform = Platform.ios;
  expires_at = some 9000;
  redeemed_at = none;
  created_by = codes "u1";
}

abbrev video_request : AccessRequest
video_request = record {
  id = codes "r1";
  family_id = codes "f1";
  child_id = codes "c1";
  device_id = codes "d1";
  target_type = TargetType.youtube_video;
  target_value = codes "dQw4w9WgXcQ";
  title = none;
  url = none;
  reason = none;
  referrer_host = none;
  status = RequestStatus.pending;
  created_at = some 400;
}

abbrev once_grant : TemporaryGrant
once_grant = record {
  grant =
      record (sample_grant (codes "g1") TargetType.domain (codes "youtube.com") RuleAction.allow) {
        grant_kind = GrantKind.once;
      };
  consumed_at = none;
}

abbrev sample_store : MemoryStore
sample_store = record {
  memberships = (codes "m1", parent_member) ∷ [];
  children = [];
  devices = (codes "d1", laptop) ∷ [];
  enrollments = (codes "t1", open_code) ∷ [];
  defaults = [];
  rules =
      (codes "b", sample_rule (codes "b") TargetType.domain (codes "youtube.com") RuleAction.block)
      ∷ [];
  temp_rules = (codes "g1", once_grant) ∷ [];
  versions = (codes "f1:c1", 5) ∷ [];
  requests = (codes "r1", video_request) ∷ [];
  decisions = [];
  audit = [];
  users = [];
  sessions = [];
  families = [];
  reset_tokens = [];
  verify_tokens = [];
  pending_registrations = [];
  endpoints = [];
  credentials = [];
  challenges = [];
}

abbrev no_categories : List Text → CategoryMap
no_categories cs = []

abbrev unsigned : DevicePolicySnapshot → Text
unsigned s = []

-- Enrollment.
abbrev first_use : Outcome Device
first_use =
    redeem sample_store 500 (codes "d2") (codes "e1") (codes "ABCD2345") (codes "pk")
      (codes "Phone")

abbrev phone : Device
phone = record {
  id = codes "d2";
  family_id = codes "f1";
  child_id = codes "c1";
  platform = Platform.ios;
  display_name = codes "Phone";
  device_public_key = codes "pk";
  enrolled_at = some 500;
  last_synced_version = 0;
  last_seen_at = none;
}

first_use_test : first_use ≡ done phone (state first_use)
unfolding redeem
first_use_test = refl

enrollments-Keyed : Keyed (λ (t : EnrollmentToken). t.id) sample_store.enrollments
unfolding get
enrollments-Keyed = (refl, refl, tt)

redeem_once_example :
    redeem
      (state first_use)
      900
      (codes "d3")
      (codes "e2")
      (codes "ABCD2345")
      (codes "other")
      (codes "Second")
    ≡ failed ErrorCode.gone (state first_use)
redeem_once_example =
    redeem_once sample_store 500 (codes "d2") (codes "e1") (codes "ABCD2345") (codes "pk")
      (codes "Phone") phone (state first_use) enrollments-Keyed first_use_test 900 (codes "d3")
      (codes "e2") (codes "other") (codes "Second")

redeem_enrolls_example :
    IsEnrolled sample_store 500
      (codes "d2")
      (codes "ABCD2345")
      (codes "pk")
      (codes "Phone")
      phone
      (state first_use)
redeem_enrolls_example =
    redeem_enrolls sample_store 500 (codes "d2") (codes "e1") (codes "ABCD2345") (codes "pk")
      (codes "Phone") phone (state first_use) first_use_test

-- A single-use grant.
abbrev spending : Outcome TemporaryGrant
spending = consume_grant sample_store 2000 (codes "e1") (codes "d1") (codes "g1")

spending_test :
    spending ≡ done (record once_grant { consumed_at = some (some 2000) }) (state spending)
unfolding consume_grant
spending_test = refl

consume_once_example :
    ((later : ℕ) (event_id' other : Text)
      → (c : ErrorCode) × (consume_grant (state spending) later event_id' other (codes "g1")
          ≡ failed c (state spending)))
    × ((d : Device) × (get_device sample_store (codes "d1") ≡ some d)
        × (get_policy_version (state spending) d.family_id d.child_id
            ≡ get_policy_version sample_store d.family_id d.child_id + 1))
consume_once_example =
    consume_once sample_store 2000 (codes "e1") (codes "d1") (codes "g1")
      (record once_grant { consumed_at = some (some 2000) }) (state spending) spending_test

-- Snapshots.
abbrev at_video : EvalContext
at_video = sample_context (codes "https://www.youtube.com/watch?v=dQw4w9WgXcQ")

build_snapshot_complete_example :
    evaluate sample_web
      (build_snapshot no_categories unsigned sample_store 3000
        (codes "f1")
        (codes "c1")
        (codes "d1"))
      at_video
    ≡ evaluate sample_web
        (whole_family_snapshot sample_store (codes "f1") (
          build_snapshot no_categories unsigned sample_store 3000
            (codes "f1")
            (codes "c1")
            (codes "d1")))
        at_video
build_snapshot_complete_example =
    build_snapshot_complete sample_web no_categories unsigned sample_store 3000 (codes "f1")
      at_video (omega arith)

device_behind :
    last_synced (get_device sample_store (codes "d1"))
    < get_policy_version sample_store (codes "f1") (codes "c1")
unfolding get_device get_policy_version
device_behind = omega arith

sync_since_serves_example :
    sync_since no_categories unsigned sample_store 3000
      (codes "f1")
      (codes "c1")
      (codes "d1")
      (some 999999999)
    ≡ some (
        build_snapshot no_categories unsigned sample_store 3000
          (codes "f1")
          (codes "c1")
          (codes "d1"))
sync_since_serves_example =
    sync_since_serves no_categories unsigned sample_store 3000 (codes "f1") (codes "c1")
      (codes "d1") (some 999999999) device_behind

laptop_known : get_device sample_store (codes "d1") ≡ some laptop
unfolding get_device
laptop_known = refl

heartbeat_monotone_example :
    (d' : Device) × (get_device (heartbeat sample_store 700 (codes "d1") (some 5)).1 (codes "d1")
      ≡ some d')
    × (laptop.last_synced_version ≤ d'.last_synced_version)
    × (5 ≤ d'.last_synced_version)
heartbeat_monotone_example =
    heartbeat_monotone sample_store 700 (codes "d1") 5 laptop refl laptop_known

-- Decisions.
abbrev yes_once : DecideInput
yes_once = record {
  family_id = codes "f1";
  request_id = codes "r1";
  decided_by = codes "u1";
  decision = RuleAction.allow;
  scope = ApprovalScope.this_video;
  duration = ApprovalDuration.until_end_of_day;
}

abbrev ids : FreshIds
ids = record { rule = codes "x1"; decision = codes "x2"; event = codes "x3" }

abbrev answer : Outcome (ApprovalDecision × AccessRequest)
answer = decide sample_web calendar sample_store 600 ids yes_once

abbrev answered : ApprovalDecision × AccessRequest
answered = (
  record {
    id = codes "x2";
    request_id = codes "r1";
    family_id = codes "f1";
    decided_by = codes "u1";
    decision = RuleAction.allow;
    scope = ApprovalScope.this_video;
    duration = ApprovalDuration.until_end_of_day;
    created_at = some 600;
    produced_rule_id = some (codes "x1");
  },
  record video_request { status = RequestStatus.approved },
)

answer_test : answer ≡ done answered (state answer)
unfolding decide
answer_test = refl

decide-Decided_example :
    (req : AccessRequest) × Decided sample_web calendar sample_store yes_once req
decide-Decided_example =
    decide-Decided sample_web calendar sample_store 600 ids yes_once answered (state answer)
      answer_test

requests-Keyed : Keyed (λ (q : AccessRequest). q.id) sample_store.requests
unfolding get
requests-Keyed = (refl, refl, tt)

decide_once_example :
    (c : ErrorCode) × (decide sample_web calendar
        (state answer)
        800
        ids
        (record yes_once { decision = RuleAction.block })
      ≡ failed c (state answer))
decide_once_example =
    decide_once sample_web calendar sample_store 600 ids yes_once answered (state answer)
      requests-Keyed answer_test 800 ids (record yes_once { decision = RuleAction.block }) refl

default_scope_applies_example :
    map_scope sample_web video_request (default_scope_for video_request.target_type)
    ≡ some (target_of sample_web video_request (default_scope_for video_request.target_type))
default_scope_applies_example =
    default_scope_applies sample_web video_request (λ e. absurd (cc e)) (λ e. absurd (cc e))
      (λ e. absurd (cc e)) (λ e. absurd (cc e))

-- A device asks twice.
abbrev site_ask : RequestInput
site_ask = record {
  family_id = codes "f1";
  child_id = codes "c1";
  device_id = codes "d1";
  target_type = TargetType.domain;
  target_value = codes "khanacademy.org";
  title = some (codes "Khan");
  url = none;
  reason = none;
  referrer_host = some (codes "https://www.Google.com/search");
}

abbrev filing : Outcome AccessRequest
filing = create_request sample_web sample_store 700 (codes "r2") (codes "e2") site_ask

filing_test : filing ≡ done (new_request sample_web 700 (codes "r2") site_ask) (state filing)
unfolding create_request is_space
filing_test = refl

referrer_test :
    normalize_referrer_host sample_web (some (codes "https://www.Google.com/search"))
    ≡ some (codes "google.com")
unfolding normalize_referrer_host read_address is_space
referrer_test = refl

no_open_ask : first_match (is_same_ask site_ask) (list_pending sample_store (codes "f1")) ≡ none
unfolding first_match list_pending is_same_ask
no_open_ask = refl

fresh_id : get sample_store.requests (codes "r2") ≡ none
unfolding get
fresh_id = refl

create_request_idempotent_example :
    create_request sample_web (state filing) 900 (codes "r3") (codes "e3") site_ask
    ≡ done (new_request sample_web 700 (codes "r2") site_ask) (state filing)
create_request_idempotent_example =
    create_request_idempotent sample_web sample_store 700 (codes "r2") (codes "e2") site_ask
      (new_request sample_web 700 (codes "r2") site_ask) (state filing) no_open_ask fresh_id
      filing_test 900 (codes "r3") (codes "e3")

-- The device list of the parent.
abbrev laptop_status : DeviceStatus
laptop_status = record { device = laptop; current_version = 5; up_to_date = false; stale = false }

device_list_test :
    list_with_status sample_store 900 (codes "f1") (codes "u1")
    ≡ done (laptop_status ∷ []) sample_store
unfolding list_with_status
device_list_test = refl

list_with_status-IsShown_example : IsShown sample_store 900 (codes "f1") (codes "u1") laptop_status
list_with_status-IsShown_example =
    list_with_status-IsShown sample_store 900 (codes "f1") (codes "u1") (laptop_status ∷ [])
      sample_store device_list_test laptop_status (Memᴰ.head refl)
