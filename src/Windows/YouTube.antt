-- ===== src/Windows/YouTube.antt =====
-- windows/extension/youtube-normalize.js: the port of the YouTube normalization, and the resources
-- that an approved video needs to play.
pub mod Agreement
use ajar_family.Prelude.{
  List, [], ◌∷◌, Bool, true, false, not, ◌&&◌, ◌||◌, Option, none, some, if◌then◌else◌, get_elem?,
}
use ajar_family.Text.{
  Text, codes, same, includes, starts_with, ends_with, to_lower, split, keep_nonempty, truthy,
  nonempty, is, push_head, some_text,
}
use ajar_family.Host.{normalize_host}
use ajar_family.Web.{UrlApi}
use ajar_family.Safety.{lies_under}
use ajar_family.YouTube.{
  ObjectKind, YouTubeObject, video_id_re, channel_id_re, playlist_id_re, trim_slashes, or_empty,
  lower_option, legacy_handle, plain,
}

abbrev pub yt_app_hosts : List Text
yt_app_hosts =
    codes "youtube.com"
    ∷ codes "m.youtube.com"
    ∷ codes "music.youtube.com"
    ∷ codes "gaming.youtube.com"
    ∷ codes "youtubekids.com"
    ∷ codes "youtube-nocookie.com"
    ∷ []

abbrev pub yt_short_hosts : List Text
yt_short_hosts = codes "youtu.be" ∷ []

-- What a request is for, as the browser tells it.
pub data RequestType : Type 0 where
  main_frame sub_frame xmlhttprequest media : RequestType

abbrev pub is_frame : RequestType → Bool
is_frame main_frame = true
is_frame sub_frame = true
is_frame _ = false

-- An entry of the support hosts: a name, or `*.` and a base.
pub data SupportEntry : Type 0 where
  exact wildcard : Text → SupportEntry

abbrev pub youtube_playback_support_hosts : List SupportEntry
youtube_playback_support_hosts =
    exact (codes "www.youtube.com")
    ∷ exact (codes "youtubei.googleapis.com")
    ∷ exact (codes "i.ytimg.com")
    ∷ exact (codes "s.ytimg.com")
    ∷ exact (codes "yt3.ggpht.com")
    ∷ wildcard (codes "googlevideo.com")
    ∷ exact (codes "jnn-pa.googleapis.com")
    ∷ exact (codes "fonts.gstatic.com")
    ∷ []

abbrev pub yt_player_paths : List Text
yt_player_paths =
    codes "/youtubei/"
    ∷ codes "/s/player/"
    ∷ codes "/api/timedtext"
    ∷ codes "/videoplayback"
    ∷ codes "/generate_204"
    ∷ codes "/error_204"
    ∷ []

unfoldable pub entry_matches : Text → SupportEntry → Bool
unfolding lies_under same normalize_host
entry_matches h (wildcard base) = lies_under h base
entry_matches h (exact name) = same h (normalize_host name)

unfoldable pub some_entry : Text → List SupportEntry → Bool
unfolding entry_matches
some_entry h [] = false
some_entry h (entry ∷ rest) = entry_matches h entry || some_entry h rest

unfoldable pub is_playback_support_host : Text → Bool
unfolding some_entry normalize_host
is_playback_support_host host = some_entry (normalize_host host) youtube_playback_support_hosts

unfoldable pub is_valid_video_id : Option Text → Bool
unfolding video_id_re
is_valid_video_id none = false
is_valid_video_id (some id) = nonempty id && video_id_re id

-- `listId && PLAYLIST_ID_RE.test(listId)`
unfoldable pub is_playlist_id : Option Text → Bool
unfolding playlist_id_re
is_playlist_id none = false
is_playlist_id (some id) = nonempty id && playlist_id_re id

-- `seg[1] && CHANNEL_ID_RE.test(seg[1])`
unfoldable pub is_channel_id : Option Text → Bool
unfolding channel_id_re
is_channel_id none = false
is_channel_id (some id) = nonempty id && channel_id_re id

-- `p0 && p0.startsWith("@")`
abbrev pub starts_with_at : Option Text → Bool
starts_with_at none = false
starts_with_at (some p0) = nonempty p0 && starts_with p0 (codes "@")

-- The object of a watched video.
unfoldable pub watch_object : Option Text → Option Text → Text → YouTubeObject
unfolding is_playlist_id
watch_object id list_id host = record {
  kind = if truthy list_id then ObjectKind.watch_with_playlist else ObjectKind.video;
  video_id = some (or_empty id);
  channel_id = none;
  channel_handle = none;
  playlist_id = if is_playlist_id list_id then list_id else none;
  is_youtube = true;
  host = some host;
}

-- The branches on the first segment `p0` of the path, from `/watch` to the end.
unfoldable pub path_object :
    Text → Option Text → Option Text → Option Text → Option Text → Option Text → YouTubeObject
unfolding watch_object is_valid_video_id is_playlist_id is_channel_id same starts_with to_lower
path_object host p0 seg0 seg1 v list_id =
    let blank = plain ObjectKind.other true (some host) in
    if is p0 (codes "watch")
    then (if is_valid_video_id v then watch_object v list_id host else blank)
    else if is p0 (codes "shorts") && is_valid_video_id seg1
    then record blank { kind = ObjectKind.shorts; video_id = seg1 }
    else if (is p0 (codes "embed") || is p0 (codes "v")) && is_valid_video_id seg1
    then record blank { kind = ObjectKind.video; video_id = seg1 }
    else if is p0 (codes "embed")
        && is (lower_option seg1) (codes "videoseries")
        && is_playlist_id list_id
    then record blank { kind = ObjectKind.playlist; playlist_id = list_id }
    else if is p0 (codes "live") && is_valid_video_id seg1
    then record blank { kind = ObjectKind.video; video_id = seg1 }
    else if is p0 (codes "playlist")
    then (if is_playlist_id list_id
        then record blank { kind = ObjectKind.playlist; playlist_id = list_id }
        else blank)
    else if is p0 (codes "channel") && is_channel_id seg1
    then record blank { kind = ObjectKind.channel; channel_id = seg1 }
    else if starts_with_at p0
    then record blank { kind = ObjectKind.channel; channel_handle = seg0 }
    else if (is p0 (codes "user") || is p0 (codes "c")) && truthy seg1
    then record blank { kind = ObjectKind.channel; channel_handle = legacy_handle p0 seg1 }
    else if is p0 (codes "results")
    then record blank { kind = ObjectKind.search }
    else blank

module _ (web : UrlApi) where
  open web use {Url, parse, hostname, pathname, search_param}

  -- `isPlaybackSupportUrl` below the test of the type.
  unfoldable pub supports_playback : Url → Bool
  unfolding is_playback_support_host some_text starts_with same normalize_host
  supports_playback u =
      if not (is_playback_support_host (hostname u))
      then false
      else if same (normalize_host (hostname u)) (codes "youtube.com")
      then some_text (λ prefix. starts_with (pathname u) prefix) yt_player_paths
      else true

  unfoldable pub is_playback_support_url : Text → RequestType → Bool
  unfolding supports_playback
  is_playback_support_url raw type =
      if is_frame type
      then false
      else elim (parse raw) [ none ↦ false | some u ↦ supports_playback u ]

  unfoldable pub object_of : Url → YouTubeObject
  unfolding watch_object path_object is_valid_video_id includes normalize_host split keep_nonempty
      trim_slashes push_head
  object_of u =
      let host = normalize_host (hostname u) in
      let list_id = search_param u (codes "list") in
      let id = get_elem? (keep_nonempty (split b'/' (pathname u))) 0 in
      let seg = keep_nonempty (split b'/' (trim_slashes (pathname u))) in
      if includes yt_short_hosts host
      then (if is_valid_video_id id
          then watch_object id list_id host
          else plain ObjectKind.other true (some host))
      else if not (includes yt_app_hosts host)
      then plain ObjectKind.other false (some host)
      else path_object host (lower_option (get_elem? seg 0)) (get_elem? seg 0) (get_elem? seg 1)
          (search_param u (codes "v")) list_id

  unfoldable pub normalize_you_tube : Text → YouTubeObject
  unfolding object_of
  normalize_you_tube raw = elim (parse raw) [
    | none ↦ plain ObjectKind.other false none
    | some u ↦ object_of u
  ]
