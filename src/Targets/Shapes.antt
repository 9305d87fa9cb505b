-- ===== src/Targets/Shapes.antt =====
-- What a device's target is, when it is let through.
use ajar_family.Prelude.{
  ◌≡◌, ◌≢◌, ◌≤◌, refl, ◌↔◌, List, Bool, true, false, not, ◌&&◌, ◌||◌, none, some, arith, leb,
  leb→le, [], ◌∷◌, if◌then◌else◌, length,
}
use ajar_family.Text.{Text, same, nonempty, trim, split, some_char, all_texts, last_text}
use ajar_family.Text.Laws.{same→eq, same_refl}
use ajar_family.Web.{UrlApi}
use ajar_family.Host.Candidates.{has_dot, has_dot-split, is_cons, rest_of}
use ajar_family.Policy.Model.{TargetType}
use ajar_family.Targets.{
  not_askable, not_valid, is_requestable, has_shape, is_valid_child_request_target,
  child_request_target_error, is_plausible_host, is_forbidden, tld_re, label_re,
}

-- A target that is let through is of an askable type, is not blank, has no white space around it, and
-- has the shape of its type.
pub record IsAskable (web : UrlApi) (type : TargetType) (value : Text) : Type 0 where
  pub not_pattern : type ≢ TargetType.url_pattern
  pub not_category : type ≢ TargetType.category
  pub not_blank : nonempty value ≡ true
  pub trimmed : trim value ≡ value
  pub shape : has_shape web type value ≡ true

both : (a b : Bool) → (a && b) ≡ true → (a ≡ true) × (b ≡ true)
both a b h = ground arith

-- The gates of the validator are passed when each of them is.
gates :
    (a b c d : Bool)
    → (if not a then false else if not b || not c then false else d) ≡ true
    → (a ≡ true) × (b ≡ true) × (c ≡ true) × (d ≡ true)
gates a b c d h = ground arith

all_gates :
    (a b c d : Bool)
    → a ≡ true
    → b ≡ true
    → c ≡ true
    → d ≡ true
    → (if not a then false else if not b || not c then false else d) ≡ true
all_gates a b c d ha hb hc hd = ground arith

error_gate :
    {A : Type 0} (v a : Bool) (e f : A)
    → (if v then none else if not a then some e else some f) ≡ none
    → v ≡ true
error_gate true a e f h = refl
error_gate false true e f h = cc h
error_gate false false e f h = cc h

domain_gates :
    (a b c d e : Bool)
    → (if not a || b then false else if not c then false else if not d then false else e) ≡ true
    → (a ≡ true) × (b ≡ false) × (c ≡ true)
domain_gates a b c d e h = ground arith

requestable_type :
    (type : TargetType)
    → is_requestable type ≡ true
    → (type ≢ TargetType.url_pattern) × (type ≢ TargetType.category)
unfolding is_requestable
requestable_type type h = (λ e. absurd (cc (rw e at h)), λ e. absurd (cc (rw e at h)))

is_requestable-intro :
    (type : TargetType)
    → type ≢ TargetType.url_pattern
    → type ≢ TargetType.category
    → is_requestable type ≡ true
unfolding is_requestable
is_requestable-intro TargetType.url p c = refl
is_requestable-intro TargetType.domain p c = refl
is_requestable-intro TargetType.youtube_video p c = refl
is_requestable-intro TargetType.youtube_channel p c = refl
is_requestable-intro TargetType.youtube_playlist p c = refl
is_requestable-intro TargetType.application p c = refl
is_requestable-intro TargetType.url_pattern p c = absurd (p refl)
is_requestable-intro TargetType.category p c = absurd (c refl)

module _ (web : UrlApi) (type : TargetType) (value : Text) where
  valid_when_no_error :
      child_request_target_error web type value ≡ none
      → is_valid_child_request_target web type value ≡ true
  unfolding child_request_target_error
  valid_when_no_error h = error_gate _ (is_requestable type) (not_askable type) (not_valid type) h

  no_error_when_valid :
      is_valid_child_request_target web type value ≡ true
      → child_request_target_error web type value ≡ none
  unfolding child_request_target_error
  no_error_when_valid h = rw h

  valid_gates :
      is_valid_child_request_target web type value ≡ true
      → (is_requestable type ≡ true)
        × (nonempty (trim value) ≡ true)
        × (same (trim value) value ≡ true)
        × (has_shape web type (trim value) ≡ true)
  unfolding is_valid_child_request_target
  valid_gates h = gates _ _ _ _ h

  gates_valid :
      is_requestable type ≡ true
      → nonempty (trim value) ≡ true
      → same (trim value) value ≡ true
      → has_shape web type (trim value) ≡ true
      → is_valid_child_request_target web type value ≡ true
  unfolding is_valid_child_request_target
  gates_valid a b c d = all_gates _ _ _ _ a b c d

-- A device's target is let through exactly when it is askable.
pub request_target_iff :
    (web : UrlApi) (type : TargetType) (value : Text)
    → (child_request_target_error web type value ≡ none) ↔ IsAskable web type value
request_target_iff web type value = (to, from)
  where
    to : child_request_target_error web type value ≡ none → IsAskable web type value
    to h =
        let (a, b, c, d) = valid_gates web type value (valid_when_no_error web type value h) in
        let e = same→eq (trim value) value c in
        let (p, q) = requestable_type type a in
        record {
          not_pattern = p;
          not_category = q;
          not_blank = rw e at b;
          trimmed = e;
          shape = rw e at d;
        }

    from : IsAskable web type value → child_request_target_error web type value ≡ none
    from k =
        let blank : nonempty (trim value) ≡ true = rw k.trimmed k.not_blank in
        let clean : same (trim value) value ≡ true = rw k.trimmed (same_refl value) in
        let shape : has_shape web type (trim value) ≡ true = rw k.trimmed k.shape in
        no_error_when_valid web type value (
          gates_valid web type value (is_requestable-intro type k.not_pattern k.not_category) blank
            clean shape)

pub plausible :
    (value : Text)
    → is_plausible_host value ≡ true
    → (length value ≤ 253)
      × (some_char is_forbidden value ≡ false)
      × (leb 2 (length (split b'.' value)) ≡ true)
unfolding is_plausible_host
plausible value h =
    let (a, b, c) =
      domain_gates _ _ _ (tld_re (last_text (split b'.' value)))
        (all_texts label_re (split b'.' value)) h in
    (leb→le (length value) 253 a, b, c)

two_cons : (labels : List Text) → leb 2 (length labels) ≡ true → is_cons (rest_of labels) ≡ true
two_cons [] h = ground arith
two_cons (w ∷ []) h = ground arith
two_cons (w ∷ v ∷ ws) h = refl

-- A domain that a device may ask about has at least two labels, 253 characters at most, and no
-- character of a wildcard, path, port or credential; so no bare top-level domain gets through.
pub askable_domain :
    (web : UrlApi) (value : Text)
    → child_request_target_error web TargetType.domain value ≡ none
    → (has_dot value ≡ true) × (some_char is_forbidden value ≡ false) × (length value ≤ 253)
askable_domain web value h =
    let k = (request_target_iff web TargetType.domain value).0 h in
    let (long, chars, labels) = plausible value (unfold has_shape in k.shape) in
    (rw (← has_dot-split value) (two_cons (split b'.' value) labels), chars, long)
