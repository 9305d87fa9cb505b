-- ===== src/Backend/Requests.antt =====
-- backend/src/domain/services.ts: ApprovalService.createRequest and normalizeReferrerHost. The
-- notifications that follow the writes are left out.
pub mod Deduplication
use ajar_family.Prelude.{
  ℕ, List, [], ◌∷◌, Bool, true, false, not, ◌&&◌, ◌||◌, Option, none, some, if◌then◌else◌, ◌==◌,
  leb, length,
}
use ajar_family.Text.{
  Text, codes, same, starts_with, nonempty, is_letter, is_alnum, trim, split, last_text, all_texts,
  push_head,
}
use ajar_family.Web.{UrlApi}
use ajar_family.Host.{normalize_host}
use ajar_family.Policy.Model.{TargetType}
use ajar_family.Policy.Evaluate.{same_target}
use ajar_family.Targets.{child_request_target_error, tld_re, label_re}
use ajar_family.Backend.Model.{Device, AccessRequest, RequestStatus, AuditKind}
use ajar_family.Backend.Store.{
  MemoryStore, get_device, create_access_request, update_access_request, add_audit_event,
}
use ajar_family.Backend.Outcome.{ErrorCode, Outcome, done, failed}
use ajar_family.Backend.Enrollment.{event}
use ajar_family.Backend.Grants.{list_pending}

-- [a-z0-9+.-], with upper case too
abbrev is_scheme_char : ℕ → Bool
is_scheme_char c = is_alnum c || c == b'+' || c == b'.' || c == b'-'

unfoldable pub scheme_rest : Text → Bool
unfolding starts_with
scheme_rest [] = false
scheme_rest (c ∷ s) = starts_with (c ∷ s) (codes "://") || is_scheme_char c && scheme_rest s

-- `/^[a-z][a-z0-9+.-]*:\/\//i`
unfoldable pub has_scheme : Text → Bool
unfolding scheme_rest
has_scheme [] = false
has_scheme (c ∷ s) = is_letter c && scheme_rest s

-- The checks on the cleaned host, which is in lower case.
unfoldable pub shown_host : Text → Option Text
unfolding split push_head last_text tld_re label_re all_texts
shown_host v =
    let labels = split b'.' v in
    if not (leb (length v) 253) || not (nonempty v)
    then none
    else if not (leb 2 (length labels))
    then none
    else if not (tld_re (last_text labels))
    then none
    else if not (all_texts label_re labels)
    then none
    else some v

-- The host of a full URL, or the text itself.
unfoldable pub referrer_text : UrlApi → Text → Option Text
unfolding has_scheme
referrer_text web v =
    if has_scheme v
    then elim (web.parse v) [ none ↦ none | some u ↦ some (web.hostname u) ]
    else some v

unfoldable pub cleaned : Option Text → Option Text
unfolding shown_host normalize_host
cleaned none = none
cleaned (some v) = shown_host (normalize_host v)

unfoldable pub normalize_referrer_host : UrlApi → Option Text → Option Text
unfolding trim referrer_text cleaned
normalize_referrer_host web none = none
normalize_referrer_host web (some raw) =
    if nonempty (trim raw) then cleaned (referrer_text web (trim raw)) else none

pub record RequestInput : Type 0 where
  pub family_id : Text
  pub child_id : Text
  pub device_id : Text
  pub target_type : TargetType
  pub target_value : Text
  pub title : Option Text
  pub url : Option Text
  pub reason : Option Text
  pub referrer_host : Option Text

-- `device && device.familyId === … && device.childId === …`
abbrev pub is_own_device : Option Device → RequestInput → Bool
is_own_device none input = false
is_own_device (some d) input = same d.family_id input.family_id && same d.child_id input.child_id

-- The same ask.
unfoldable pub is_same_ask : RequestInput → AccessRequest → Bool
unfolding same same_target
is_same_ask input r =
    same r.child_id input.child_id
    && same r.device_id input.device_id
    && same_target r.target_type input.target_type
    && same r.target_value input.target_value

-- `list.find(test)`
unfoldable pub first_match {ℓ} : {A : Type ℓ} → (A → Bool) → List A → Option A
first_match p [] = none
first_match p (x ∷ xs) = if p x then some x else first_match p xs

-- `a ?? b`
abbrev pub or_else_text : Option Text → Option Text → Option Text
or_else_text none b = b
or_else_text (some a) b = some a

abbrev pub is_same_text : Option Text → Option Text → Bool
is_same_text none none = true
is_same_text (some a) (some b) = same a b
is_same_text _ _ = false

module _ (web : UrlApi) where
  abbrev pub enriched : RequestInput → AccessRequest → AccessRequest
  enriched input r = record r {
    title = or_else_text r.title input.title;
    url = or_else_text r.url input.url;
    reason = or_else_text r.reason input.reason;
    referrer_host = or_else_text r.referrer_host (normalize_referrer_host web input.referrer_host);
  }

  abbrev pub is_changed : AccessRequest → AccessRequest → Bool
  is_changed e r =
      not (is_same_text e.title r.title)
      || not (is_same_text e.url r.url)
      || not (is_same_text e.reason r.reason)
      || not (is_same_text e.referrer_host r.referrer_host)

  abbrev pub new_request : ℕ → Text → RequestInput → AccessRequest
  new_request now id input = record {
    id = id;
    family_id = input.family_id;
    child_id = input.child_id;
    device_id = input.device_id;
    target_type = input.target_type;
    target_value = input.target_value;
    title = input.title;
    url = input.url;
    reason = input.reason;
    referrer_host = normalize_referrer_host web input.referrer_host;
    status = RequestStatus.pending;
    created_at = some now;
  }

  unfoldable pub file_request : MemoryStore → ℕ → Text → Text → RequestInput → Outcome AccessRequest
  unfolding list_pending first_match is_same_ask update_access_request create_access_request
      normalize_referrer_host
  file_request s now id event_id input =
      elim (first_match (is_same_ask input) (list_pending s input.family_id)) [
        | some r ↦ done (enriched input r) (
            if is_changed (enriched input r) r
            then update_access_request s (enriched input r)
            else s)
        | none ↦ done (new_request now id input) (
            add_audit_event (create_access_request s (new_request now id input))
              (event event_id input.family_id input.device_id AuditKind.request_created now))
      ]

  unfoldable pub create_request :
      MemoryStore → ℕ → Text → Text → RequestInput → Outcome AccessRequest
  unfolding get_device same child_request_target_error file_request
  create_request s now id event_id input =
      if not (is_own_device (get_device s input.device_id) input)
      then failed ErrorCode.forbidden s
      else elim (child_request_target_error web input.target_type input.target_value) [
        | some e ↦ failed ErrorCode.bad_request s
        | none ↦ file_request s now id event_id input
      ]
