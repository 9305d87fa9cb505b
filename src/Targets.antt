-- ===== src/Targets.antt =====
-- shared/policy/target-validate.ts: what a child's device may name in an access request.
pub mod Shapes
pub mod Specific
use ajar_family.Prelude.{
  ℕ, List, [], ◌∷◌, Bool, true, false, not, ◌&&◌, ◌||◌, Option, none, some, ◌==◌, leb,
  if◌then◌else◌, length,
}
use ajar_family.Text.{
  Text, codes, same, starts_with, split, trim, nonempty, is_letter, is_alnum, is_space, all_chars,
  some_char, all_texts, last_text, push_head, trim_start, trim_end,
}
use ajar_family.Web.{UrlApi}
use ajar_family.YouTube.{is_id_char, video_id_re, channel_id_re, playlist_prefix, playlist_id_re}
use ajar_family.Policy.Model.{TargetType}

-- CHILD_REQUESTABLE_TARGETS.includes(type)
unfoldable pub is_requestable : TargetType → Bool
is_requestable TargetType.url = true
is_requestable TargetType.domain = true
is_requestable TargetType.youtube_video = true
is_requestable TargetType.youtube_channel = true
is_requestable TargetType.youtube_playlist = true
is_requestable TargetType.application = true
is_requestable TargetType.url_pattern = false
is_requestable TargetType.category = false

-- [A-Za-z0-9._-]
abbrev pub is_name_char : ℕ → Bool
is_name_char c = is_alnum c || c == b'.' || c == b'_' || c == b'-'

-- `[A-Za-z0-9._-]{1,60}`
unfoldable pub is_name : Text → Bool
unfolding all_chars
is_name s = leb 1 (length s) && leb (length s) 60 && all_chars is_name_char s

abbrev pub after : Text → Text → Text
after [] s = s
after (c ∷ prefix) [] = []
after (c ∷ prefix) (d ∷ s) = after prefix s

-- `^<prefix>[A-Za-z0-9._-]{1,60}$`
unfoldable pub prefixed_name : Text → Text → Bool
unfolding is_name starts_with
prefixed_name prefix s = starts_with s prefix && is_name (after prefix s)

-- CHANNEL_HANDLE_RE and CHANNEL_PATH_RE.
unfoldable pub channel_name_re : Text → Bool
unfolding prefixed_name
channel_name_re s =
    prefixed_name (codes "@") s || prefixed_name (codes "c/") s || prefixed_name (codes "user/") s

-- PLAYLIST_ID_RE = /^(?:PL|UU|LL|FL|RD|OL|EL)[A-Za-z0-9_-]{10,50}$/
unfoldable pub bounded_playlist_re : Text → Bool
unfolding playlist_id_re
bounded_playlist_re s = playlist_id_re s && leb (length s) 52

-- APP_ID_RE = /^[A-Za-z0-9._-]{1,200}$/
unfoldable pub app_id_re : Text → Bool
unfolding all_chars
app_id_re s = leb 1 (length s) && leb (length s) 200 && all_chars is_name_char s

-- `/[\s*/\\@:]/`
abbrev pub is_forbidden : ℕ → Bool
is_forbidden c = is_space c || c == b'*' || c == b'/' || c == 92 || c == b'@' || c == b':'

-- `/^[A-Za-z0-9](?:[A-Za-z0-9-]{0,61}[A-Za-z0-9])?$/`
abbrev first_is_alnum : Text → Bool
first_is_alnum [] = false
first_is_alnum (c ∷ s) = is_alnum c

unfoldable pub last_is_alnum : Text → Bool
last_is_alnum [] = false
last_is_alnum (c ∷ []) = is_alnum c
last_is_alnum (c ∷ d ∷ s) = last_is_alnum (d ∷ s)

unfoldable pub label_re : Text → Bool
unfolding all_chars last_is_alnum
label_re l =
    first_is_alnum l
    && last_is_alnum l
    && leb (length l) 63
    && all_chars (λ c. is_alnum c || c == b'-') l

-- `/^[a-z]{2,63}$/i`
unfoldable pub tld_re : Text → Bool
unfolding all_chars
tld_re l = leb 2 (length l) && leb (length l) 63 && all_chars (λ c. is_letter c) l

unfoldable pub is_plausible_host : Text → Bool
unfolding some_char split last_text tld_re label_re all_texts push_head
is_plausible_host value =
    let labels = split b'.' value in
    if not (leb (length value) 253) || some_char is_forbidden value
    then false
    else if not (leb 2 (length labels))
    then false
    else if not (tld_re (last_text labels))
    then false
    else all_texts label_re labels

module _ (web : UrlApi) where
  unfoldable pub is_http_url : Text → Bool
  unfolding same
  is_http_url value = elim (web.parse value) [
    | none ↦ false
    | some u ↦
        (same (web.protocol u) (codes "http:") || same (web.protocol u) (codes "https:"))
        && nonempty (web.hostname u)
  ]

  -- The `switch` on the type.
  unfoldable pub has_shape : TargetType → Text → Bool
  unfolding is_http_url is_plausible_host video_id_re channel_id_re channel_name_re
      bounded_playlist_re app_id_re
  has_shape TargetType.url v = leb (length v) 2048 && is_http_url v
  has_shape TargetType.domain v = is_plausible_host v
  has_shape TargetType.youtube_video v = video_id_re v
  has_shape TargetType.youtube_channel v = channel_id_re v || channel_name_re v
  has_shape TargetType.youtube_playlist v = bounded_playlist_re v
  has_shape TargetType.application v = app_id_re v
  has_shape TargetType.url_pattern v = false
  has_shape TargetType.category v = false

  unfoldable pub is_valid_child_request_target : TargetType → Text → Bool
  unfolding is_requestable trim same has_shape
  is_valid_child_request_target type value =
      if not (is_requestable type)
      then false
      else if not (nonempty (trim value)) || not (same (trim value) value)
      then false
      else has_shape type (trim value)

-- Why a target is refused.
pub data TargetError : Type 0 where
  not_askable not_valid : TargetType → TargetError

unfoldable pub child_request_target_error : UrlApi → TargetType → Text → Option TargetError
unfolding is_valid_child_request_target is_requestable
child_request_target_error web type value =
    if is_valid_child_request_target web type value
    then none
    else if not (is_requestable type)
    then some (not_askable type)
    else some (not_valid type)
