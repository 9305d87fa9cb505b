-- ===== src/Windows/YouTube/Agreement.antt =====
-- The port of the YouTube normalization gives the shared objects.
use ajar_family.Prelude.{
  ◌≡◌, refl, [], ◌∷◌, Option, none, some, inl, inr, Option-cases, if◌then◌else◌, arith, get_elem?,
}
use ajar_family.Text.{Text, truthy, codes, split, keep_nonempty}
use ajar_family.Host.{normalize_host}
use ajar_family.Web.{UrlApi}
use ajar_family.YouTube as Shared
use ajar_family.Windows.YouTube as Port

is_playlist_id_lem : (l : Option Text) → Port.is_playlist_id l ≡ truthy (Shared.valid_playlist l)
unfolding Port.is_playlist_id Shared.valid_playlist
is_playlist_id_lem none = refl
is_playlist_id_lem (some []) = refl
is_playlist_id_lem (some (c ∷ s)) = ground arith

kept_playlist_lem :
    (l : Option Text) → (if Port.is_playlist_id l then l else none) ≡ Shared.valid_playlist l
unfolding Port.is_playlist_id Shared.valid_playlist
kept_playlist_lem none = refl
kept_playlist_lem (some s) = refl

is_valid_video_id_lem : (id : Option Text) → Port.is_valid_video_id id ≡ Shared.is_valid_video_id id
unfolding Port.is_valid_video_id Shared.is_valid_video_id
is_valid_video_id_lem none = refl
is_valid_video_id_lem (some id) = refl

is_channel_id_lem : (id : Option Text) → Port.is_channel_id id ≡ Shared.is_valid_channel_id id
unfolding Port.is_channel_id Shared.is_valid_channel_id
is_channel_id_lem none = refl
is_channel_id_lem (some id) = refl

starts_with_at_lem : (p0 : Option Text) → Port.starts_with_at p0 ≡ Shared.is_handle p0
starts_with_at_lem none = refl
starts_with_at_lem (some p0) = refl

watch_object_lem :
    (id l : Option Text) (host : Text)
    → Port.watch_object id l host ≡ Shared.watched (Shared.or_empty id) l host
watch_object_lem id l host = unfold Port.watch_object in rw (kept_playlist_lem l)

path_object-agrees :
    (host : Text) (p0 seg0 seg1 v l : Option Text)
    → Port.path_object host p0 seg0 seg1 v l ≡ Shared.app_object host p0 seg0 seg1 v l
path_object-agrees host p0 seg0 seg1 v l =
    unfold Port.path_object Shared.app_object in
    rw (
      kept_playlist_lem l,
      is_playlist_id_lem l,
      is_valid_video_id_lem v,
      is_valid_video_id_lem seg1,
      is_channel_id_lem seg1,
      starts_with_at_lem p0,
    )

module _ (web : UrlApi) where
  object_of-agrees : (u : web.Url) → Port.object_of web u ≡ Shared.url_object web u
  object_of-agrees u =
      unfold Port.object_of Shared.url_object Shared.short_object Shared.segments in
      let host = normalize_host (web.hostname u) in
      let list_id = web.search_param u (codes "list") in
      let seg = keep_nonempty (split b'/' (Shared.trim_slashes (web.pathname u))) in
      let id = get_elem? (keep_nonempty (split b'/' (web.pathname u))) 0 in
      rw (
        path_object-agrees host (Shared.lower_option (get_elem? seg 0)) (get_elem? seg 0)
            (get_elem? seg 1) (web.search_param u (codes "v")) list_id,
        is_valid_video_id_lem id,
        watch_object_lem id list_id host,
      )

  pub normalize_you_tube-agrees :
      (raw : Text) → Port.normalize_you_tube web raw ≡ Shared.normalize_youtube web raw
  unfolding Port.normalize_you_tube Shared.normalize_youtube
  normalize_you_tube-agrees raw = elim (Option-cases (web.parse raw)) [
    | inl n ↦ rw (n, Port.normalize_you_tube, Shared.normalize_youtube) refl
    | inr (u, e) ↦ rw (e, Port.normalize_you_tube, Shared.normalize_youtube) (object_of-agrees u)
  ]
