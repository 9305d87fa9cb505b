-- ===== src/YouTube.antt =====
-- shared/youtube/youtube-normalize.ts: the canonical YouTube object that a URL denotes.
pub mod Canonical
pub mod Forms
use ajar_family.Prelude.{
  ℕ, List, [], ◌∷◌, ◌++◌, Bool, true, false, not, ◌&&◌, ◌||◌, Option, none, some, ◌==◌, leb,
  if◌then◌else◌, length, get_elem?,
}
use ajar_family.Text.{
  Text, codes, same, includes, starts_with, to_lower, split, keep_nonempty, truthy, nonempty, is,
  is_alnum, all_chars, push_head,
}
use ajar_family.Host.{normalize_host}
use ajar_family.Web.{UrlApi}

pub data ObjectKind : Type 0 where
  video channel playlist watch_with_playlist search shorts other : ObjectKind

pub record YouTubeObject : Type 0 where
  pub kind : ObjectKind
  pub video_id : Option Text
  pub channel_id : Option Text
  pub channel_handle : Option Text
  pub playlist_id : Option Text
  pub is_youtube : Bool
  pub host : Option Text

abbrev pub yt_app_hosts : List Text
yt_app_hosts =
    codes "youtube.com"
    ∷ codes "m.youtube.com"
    ∷ codes "music.youtube.com"
    ∷ codes "gaming.youtube.com"
    ∷ codes "youtubekids.com"
    ∷ codes "youtube-nocookie.com"
    ∷ []

abbrev pub yt_short_hosts : List Text
yt_short_hosts = codes "youtu.be" ∷ []

-- `[A-Za-z0-9_-]`
abbrev pub is_id_char : ℕ → Bool
is_id_char c = is_alnum c || c == b'_' || c == b'-'

-- VIDEO_ID_RE = /^[A-Za-z0-9_-]{11}$/
unfoldable pub video_id_re : Text → Bool
unfolding all_chars
video_id_re s = length s == 11 && all_chars is_id_char s

-- CHANNEL_ID_RE = /^UC[A-Za-z0-9_-]{22}$/
unfoldable pub channel_id_re : Text → Bool
unfolding all_chars starts_with
channel_id_re s = starts_with s (codes "UC") && length s == 24 && all_chars is_id_char s

-- (?:PL|UU|LL|FL|RD|OL|EL)
unfoldable pub playlist_prefix : Text → Bool
unfolding starts_with
playlist_prefix s =
    starts_with s (codes "PL")
    || starts_with s (codes "UU")
    || starts_with s (codes "LL")
    || starts_with s (codes "FL")
    || starts_with s (codes "RD")
    || starts_with s (codes "OL")
    || starts_with s (codes "EL")

-- PLAYLIST_ID_RE = /^(?:PL|UU|LL|FL|RD|OL|EL)[A-Za-z0-9_-]{10,}$/
unfoldable pub playlist_id_re : Text → Bool
unfolding all_chars playlist_prefix
playlist_id_re s = playlist_prefix s && leb 12 (length s) && all_chars is_id_char s

unfoldable pub is_valid_video_id : Option Text → Bool
unfolding video_id_re
is_valid_video_id none = false
is_valid_video_id (some id) = nonempty id && video_id_re id

-- `listId && PLAYLIST_ID_RE.test(listId) ? listId : undefined`
unfoldable pub valid_playlist : Option Text → Option Text
unfolding playlist_id_re
valid_playlist none = none
valid_playlist (some id) = if nonempty id && playlist_id_re id then some id else none

unfoldable pub is_valid_channel_id : Option Text → Bool
unfolding channel_id_re
is_valid_channel_id none = false
is_valid_channel_id (some id) = nonempty id && channel_id_re id

-- `.replace(/\/+$/, "")`
unfoldable pub trim_slashes : Text → Text
trim_slashes [] = []
trim_slashes (c ∷ s) =
    let rest = trim_slashes s in if c == b'/' && not (nonempty rest) then [] else c ∷ rest

-- An object with no id.
abbrev pub plain : ObjectKind → Bool → Option Text → YouTubeObject
plain kind yt host = record {
  kind = kind;
  video_id = none;
  channel_id = none;
  channel_handle = none;
  playlist_id = none;
  is_youtube = yt;
  host = host;
}

abbrev pub watched : Text → Option Text → Text → YouTubeObject
watched id list_id host = record {
  kind = if truthy list_id then watch_with_playlist else video;
  video_id = some id;
  channel_id = none;
  channel_handle = none;
  playlist_id = valid_playlist list_id;
  is_youtube = true;
  host = some host;
}

abbrev pub of_video : ObjectKind → Option Text → Text → YouTubeObject
of_video kind id host = record (plain kind true (some host)) { video_id = id }

abbrev pub of_playlist : Option Text → Text → YouTubeObject
of_playlist id host = record (plain playlist true (some host)) { playlist_id = id }

abbrev pub of_channel : Option Text → Option Text → Text → YouTubeObject
of_channel id handle host = record (plain channel true (some host)) {
  channel_id = id;
  channel_handle = handle;
}

abbrev pub or_empty : Option Text → Text
or_empty none = []
or_empty (some s) = s

abbrev pub lower_option : Option Text → Option Text
lower_option none = none
lower_option (some s) = some (to_lower s)

-- `p0 && p0.startsWith("@")`
abbrev pub is_handle : Option Text → Bool
is_handle none = false
is_handle (some s) = nonempty s && starts_with s (codes "@")

-- The legacy forms: `${p0}/${seg[1]}`.
abbrev pub legacy_handle : Option Text → Option Text → Option Text
legacy_handle p0 name = some (or_empty p0 ++ (b'/' ∷ or_empty name))

-- The paths of the application hosts: `p0` is the first segment in lower case, `list_id` and `v`
-- the query parameters.
unfoldable pub app_object :
    Text → Option Text → Option Text → Option Text → Option Text → Option Text → YouTubeObject
unfolding is_valid_video_id is_valid_channel_id valid_playlist starts_with same to_lower
app_object host p0 seg0 seg1 v list_id =
    if is p0 (codes "watch")
    then (if is_valid_video_id v
        then watched (or_empty v) list_id host
        else plain other true (some host))
    else if is p0 (codes "shorts") && is_valid_video_id seg1
    then of_video shorts seg1 host
    else if (is p0 (codes "embed") || is p0 (codes "v")) && is_valid_video_id seg1
    then of_video video seg1 host
    else if is p0 (codes "embed")
        && is (lower_option seg1) (codes "videoseries")
        && truthy (valid_playlist list_id)
    then of_playlist list_id host
    else if is p0 (codes "live") && is_valid_video_id seg1
    then of_video video seg1 host
    else if is p0 (codes "playlist")
    then (if truthy (valid_playlist list_id)
        then of_playlist list_id host
        else plain other true (some host))
    else if is p0 (codes "channel") && is_valid_channel_id seg1
    then of_channel seg1 none host
    else if is_handle p0
    then of_channel none seg0 host
    else if (is p0 (codes "user") || is p0 (codes "c")) && truthy seg1
    then of_channel none (legacy_handle p0 seg1) host
    else if is p0 (codes "results")
    then plain search true (some host)
    else plain other true (some host)

module _ (web : UrlApi) where
  open web use {Url, parse, hostname, pathname, search_param}

  -- youtu.be/<id>
  unfoldable pub short_object : Url → Text → YouTubeObject
  unfolding is_valid_video_id split keep_nonempty push_head
  short_object u host =
      let id = get_elem? (keep_nonempty (split b'/' (pathname u))) 0 in
      if is_valid_video_id id
      then watched (or_empty id) (search_param u (codes "list")) host
      else plain other true (some host)

  unfoldable pub segments : Url → List Text
  unfolding split keep_nonempty trim_slashes push_head
  segments u = keep_nonempty (split b'/' (trim_slashes (pathname u)))

  unfoldable pub url_object : Url → YouTubeObject
  unfolding short_object segments app_object includes normalize_host
  url_object u =
      let host = normalize_host (hostname u) in
      let seg = segments u in
      let seg0 = get_elem? seg 0 in
      if includes yt_short_hosts host
      then short_object u host
      else if not (includes yt_app_hosts host)
      then plain other false (some host)
      else app_object host (lower_option seg0) seg0 (get_elem? seg 1) (search_param u (codes "v"))
          (search_param u (codes "list"))

  unfoldable pub normalize_youtube : Text → YouTubeObject
  unfolding url_object
  normalize_youtube raw = elim (parse raw) [ none ↦ plain other false none | some u ↦ url_object u ]

abbrev is_playlist : ObjectKind → Bool
is_playlist playlist = true
is_playlist _ = false

unfoldable pub youtube_policy_key : YouTubeObject → Option Text
youtube_policy_key o =
    if truthy o.video_id
    then some (codes "YOUTUBE_VIDEO:" ++ or_empty o.video_id)
    else if truthy o.playlist_id && is_playlist o.kind
    then some (codes "YOUTUBE_PLAYLIST:" ++ or_empty o.playlist_id)
    else if truthy o.channel_id
    then some (codes "YOUTUBE_CHANNEL:" ++ or_empty o.channel_id)
    else if truthy o.channel_handle
    then some (codes "YOUTUBE_CHANNEL_HANDLE:" ++ or_empty o.channel_handle)
    else none
