-- ===== src/YouTube/Canonical.antt =====
-- The ids of a canonical object have their shape, and a playlist page denotes no video.
use ajar_family.Prelude.{
  ◌≡◌, ◌≢◌, ◌≤◌, refl, inl, inr, Bool, true, false, not, ◌&&◌, ◌||◌, Option, none, some, arith,
  Option-cases, if◌then◌else◌, if-elim, length, get_elem?,
}
use mathlib.Core.Bool.{false≢true}
use ajar_family.Text.{
  Text, codes, truthy, nonempty, all_chars, is, same, includes, starts_with, split, keep_nonempty,
}
use ajar_family.Web.{UrlApi}
use ajar_family.Host.{normalize_host}
use ajar_family.YouTube.{
  ObjectKind, YouTubeObject, is_id_char, video_id_re, channel_id_re, playlist_prefix,
  playlist_id_re, is_valid_video_id, valid_playlist, is_valid_channel_id, plain, watched, of_video,
  of_playlist, of_channel, or_empty, lower_option, is_handle, legacy_handle, app_object,
  short_object, segments, url_object, normalize_youtube, yt_app_hosts, yt_short_hosts,
}

-- Eleven characters of the id alphabet.
abbrev pub IsVideoId : Text → Type 0
IsVideoId v = (length v ≡ 11) × (all_chars is_id_char v ≡ true)

-- A known prefix and ten or more characters of the alphabet.
abbrev pub IsPlaylistId : Text → Type 0
IsPlaylistId l = (playlist_prefix l ≡ true) × (12 ≤ length l) × (all_chars is_id_char l ≡ true)

abbrev pub IsChannelId : Text → Type 0
IsChannelId c =
    (starts_with c (codes "UC") ≡ true) × (length c ≡ 24) × (all_chars is_id_char c ≡ true)

pub record IsCanonical (o : YouTubeObject) : Type 0 where
  pub video : (v : Text) → o.video_id ≡ some v → IsVideoId v
  pub playlist : (l : Text) → o.playlist_id ≡ some l → IsPlaylistId l
  pub channel : (c : Text) → o.channel_id ≡ some c → IsChannelId c
  pub separate : o.kind ≡ ObjectKind.playlist → o.video_id ≡ none

video_id_shape : (v : Text) → video_id_re v ≡ true → IsVideoId v
unfolding video_id_re
video_id_shape v h = ground arith

playlist_id_shape : (l : Text) → playlist_id_re l ≡ true → IsPlaylistId l
unfolding playlist_id_re
playlist_id_shape l h = ground arith

channel_id_shape : (c : Text) → channel_id_re c ≡ true → IsChannelId c
unfolding channel_id_re
channel_id_shape c h = ground arith

second : (b c : Bool) → (b && c) ≡ true → c ≡ true
second b c h = ground arith

some_if : (b : Bool) (w l : Text) → (if b then some w else none) ≡ some l → (b ≡ true) × (w ≡ l)
some_if true w l e = (refl, cc e)
some_if false w l e = absurd (none_some e)
  where
    none_some : none ≡ some l → ⊥
    none_some e = cc

truthy_if : (b : Bool) (w : Text) → truthy (if b then some w else none) ≡ true → b ≡ true
truthy_if true w e = refl
truthy_if false w e = cc

video_id : (o : Option Text) (v : Text) → is_valid_video_id o ≡ true → o ≡ some v → IsVideoId v
video_id none v h e = absurd (none_some e)
  where
    none_some : none ≡ some v → ⊥
    none_some e = cc
video_id (some w) v h e =
    let same : w ≡ v = cc e in
    rw (← same)
      (video_id_shape w (second (nonempty w) (video_id_re w) (unfold is_valid_video_id in h)))

playlist_id : (o : Option Text) (l : Text) → valid_playlist o ≡ some l → IsPlaylistId l
playlist_id none l e = absurd (none_some (unfold valid_playlist in e))
  where
    none_some : none ≡ some l → ⊥
    none_some e = cc
playlist_id (some w) l e =
    let (h, same) = some_if (nonempty w && playlist_id_re w) w l (unfold valid_playlist in e) in
    rw (← same) (playlist_id_shape w (second (nonempty w) (playlist_id_re w) h))

-- A list that stays is the one that was given.
given_playlist :
    (o : Option Text) (l : Text) → truthy (valid_playlist o) ≡ true → o ≡ some l → IsPlaylistId l
given_playlist none l h e = absurd (none_some e)
  where
    none_some : none ≡ some l → ⊥
    none_some e = cc
given_playlist (some w) l h e =
    let same : w ≡ l = cc e in
    rw (← same) (
      playlist_id_shape w (
        second (nonempty w) (playlist_id_re w)
          (truthy_if (nonempty w && playlist_id_re w) w (unfold valid_playlist in h))))

channel_id :
    (o : Option Text) (c : Text) → is_valid_channel_id o ≡ true → o ≡ some c → IsChannelId c
channel_id none c h e = absurd (none_some e)
  where
    none_some : none ≡ some c → ⊥
    none_some e = cc
channel_id (some w) c h e =
    let same : w ≡ c = cc e in
    rw (← same)
      (channel_id_shape w (second (nonempty w) (channel_id_re w) (unfold is_valid_channel_id in h)))

-- One lemma for each way that an object is built.
plain-IsCanonical :
    (kind : ObjectKind) (yt : Bool) (host : Option Text) → IsCanonical (plain kind yt host)
plain-IsCanonical kind yt host = record {
  video = λ v e. absurd (cc);
  playlist = λ l e. absurd (cc);
  channel = λ c e. absurd (cc);
  separate = λ e. refl;
}

watched-IsCanonical :
    (id list_id : Option Text) (host : Text)
    → is_valid_video_id id ≡ true
    → IsCanonical (watched (or_empty id) list_id host)
watched-IsCanonical none list_id host h = absurd (false≢true (unfold is_valid_video_id in h))
watched-IsCanonical (some id) list_id host h = record {
  video = λ v e. video_id (some id) v h e;
  playlist = λ l e. playlist_id list_id l e;
  channel = λ c e. absurd (cc);
  separate = λ e. absurd (ground arith);
}

video-IsCanonical :
    (kind : ObjectKind) (id : Option Text) (host : Text)
    → kind ≢ ObjectKind.playlist
    → is_valid_video_id id ≡ true
    → IsCanonical (of_video kind id host)
video-IsCanonical kind id host n h = record {
  video = λ v e. video_id id v h e;
  playlist = λ l e. absurd (cc);
  channel = λ c e. absurd (cc);
  separate = λ e. absurd (n e);
}

playlist-IsCanonical :
    (id : Option Text) (host : Text)
    → truthy (valid_playlist id) ≡ true
    → IsCanonical (of_playlist id host)
playlist-IsCanonical id host h = record {
  video = λ v e. absurd (cc);
  playlist = λ l e. given_playlist id l h e;
  channel = λ c e. absurd (cc);
  separate = λ e. refl;
}

channel-IsCanonical :
    (id handle : Option Text) (host : Text)
    → ((c : Text) → id ≡ some c → IsChannelId c)
    → IsCanonical (of_channel id handle host)
channel-IsCanonical id handle host h = record {
  video = λ v e. absurd (cc);
  playlist = λ l e. absurd (cc);
  channel = h;
  separate = λ e. refl;
}

handle-IsCanonical :
    (handle : Option Text) (host : Text) → IsCanonical (of_channel none handle host)
handle-IsCanonical handle host = channel-IsCanonical none handle host (λ c e. absurd (cc))

channel_of :
    (seg1 : Option Text) (c : Text)
    → is_valid_channel_id seg1 ≡ true
    → seg1 ≡ some c
    → IsChannelId c
channel_of seg1 c h e = channel_id seg1 c h e

valid_second :
    (b : Bool) (o : Option Text) → (b && is_valid_video_id o) ≡ true → is_valid_video_id o ≡ true
valid_second b o h = second b (is_valid_video_id o) h

pub app_object-IsCanonical :
    (host : Text) (p0 seg0 seg1 v list_id : Option Text)
    → IsCanonical (app_object host p0 seg0 seg1 v list_id)
app_object-IsCanonical host p0 seg0 seg1 v list_id =
    unfold app_object in
    if-elim IsCanonical (is p0 (codes "watch"))
      (λ _.
        if-elim IsCanonical (is_valid_video_id v) (λ h. watched-IsCanonical v list_id host h)
          (λ _. plain-IsCanonical ObjectKind.other true (some host)))
      (λ _.
        if-elim IsCanonical (is p0 (codes "shorts") && is_valid_video_id seg1)
          (λ h.
            video-IsCanonical ObjectKind.shorts seg1 host (λ e. cc e)
              (valid_second (is p0 (codes "shorts")) seg1 h))
          (λ _.
            if-elim IsCanonical
              ((is p0 (codes "embed") || is p0 (codes "v")) && is_valid_video_id seg1)
              (λ h.
                video-IsCanonical ObjectKind.video seg1 host (λ e. cc e)
                  (valid_second (is p0 (codes "embed") || is p0 (codes "v")) seg1 h))
              (λ _.
                if-elim IsCanonical
                  (is p0 (codes "embed")
                    && is (lower_option seg1) (codes "videoseries")
                    && truthy (valid_playlist list_id))
                  (λ h. playlist-IsCanonical list_id host (
                    second (is p0 (codes "embed") && is (lower_option seg1) (codes "videoseries"))
                      (truthy (valid_playlist list_id)) h))
                  (λ _.
                    if-elim IsCanonical (is p0 (codes "live") && is_valid_video_id seg1)
                      (λ h.
                        video-IsCanonical ObjectKind.video seg1 host (λ e. cc e)
                          (valid_second (is p0 (codes "live")) seg1 h))
                      (λ _.
                        if-elim IsCanonical (is p0 (codes "playlist"))
                          (λ _.
                            if-elim IsCanonical (truthy (valid_playlist list_id))
                              (λ h. playlist-IsCanonical list_id host h)
                              (λ _. plain-IsCanonical ObjectKind.other true (some host)))
                          (λ _.
                            if-elim IsCanonical
                              (is p0 (codes "channel") && is_valid_channel_id seg1)
                              (λ h. channel-IsCanonical seg1 none host (λ c e.
                                channel_of seg1 c
                                  (second (is p0 (codes "channel")) (is_valid_channel_id seg1) h)
                                  e))
                              (λ _.
                                if-elim IsCanonical (is_handle p0)
                                  (λ _. handle-IsCanonical seg0 host)
                                  (λ _.
                                    if-elim IsCanonical
                                      ((is p0 (codes "user") || is p0 (codes "c")) && truthy seg1)
                                      (λ _. handle-IsCanonical (legacy_handle p0 seg1) host)
                                      (λ _.
                                        if-elim IsCanonical (is p0 (codes "results"))
                                          (λ _.
                                            plain-IsCanonical ObjectKind.search true (some host))
                                          (λ _.
                                            plain-IsCanonical ObjectKind.other true
                                              (some host)))))))))))

module _ (web : UrlApi) where
  short_object-IsCanonical : (u : web.Url) (host : Text) → IsCanonical (short_object web u host)
  short_object-IsCanonical u host =
      unfold short_object in
      let id = get_elem? (keep_nonempty (split b'/' (web.pathname u))) 0 in
      if-elim IsCanonical (is_valid_video_id id)
        (λ h. watched-IsCanonical id (web.search_param u (codes "list")) host h)
        (λ _. plain-IsCanonical ObjectKind.other true (some host))

  url_object-IsCanonical : (u : web.Url) → IsCanonical (url_object web u)
  url_object-IsCanonical u =
      unfold url_object in
      let host = normalize_host (web.hostname u) in
      let seg = segments web u in
      if-elim IsCanonical (includes yt_short_hosts host) (λ _. short_object-IsCanonical u host)
        (λ _.
          if-elim IsCanonical (not (includes yt_app_hosts host))
            (λ _. plain-IsCanonical ObjectKind.other false (some host))
            (λ _.
              app_object-IsCanonical host (lower_option (get_elem? seg 0)) (get_elem? seg 0)
                (get_elem? seg 1) (web.search_param u (codes "v"))
                (web.search_param u (codes "list"))))

  -- For any text and any URL parser: the video id has eleven characters of the id alphabet, the
  -- playlist and channel ids have their prefix, length and alphabet, and an object that is a playlist
  -- page has no video id.
  pub normalize_youtube-IsCanonical : (raw : Text) → IsCanonical (normalize_youtube web raw)
  normalize_youtube-IsCanonical raw = elim (Option-cases (web.parse raw)) [
    | inl n ↦
        unfold normalize_youtube in
        rw (n, normalize_youtube) (plain-IsCanonical ObjectKind.other false none)
    | inr (u, e) ↦ unfold normalize_youtube in rw (e, normalize_youtube) (url_object-IsCanonical u)
  ]
