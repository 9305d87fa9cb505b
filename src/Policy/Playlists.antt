-- ===== src/Policy/Playlists.antt =====
-- The `list` parameter of a URL is typed by the child: a playlist that is allowed opens no video.
use ajar_family.Prelude.{◌≡◌, ◌≢◌, refl, Bool, true, not, ◌&&◌, none, arith, inl, inr, Bool-cases}
use ajar_family.Text.{truthy, is}
use ajar_family.Web.{UrlApi}
use ajar_family.YouTube.{ObjectKind, normalize_youtube}
use ajar_family.YouTube.Canonical.{normalize_youtube-IsCanonical}
use ajar_family.Policy.Model.{TargetType, RuleAction, PolicyRule, DevicePolicySnapshot, EvalContext}
use ajar_family.Policy.Match.{target_matches, match_target, is_playlist}
use ajar_family.Policy.Evaluate.{request_facts}
use ajar_family.Policy.Hosts.{match_target_lem}

is_playlist→eq : (k : ObjectKind) → is_playlist k ≡ true → k ≡ ObjectKind.playlist
is_playlist→eq ObjectKind.playlist h = refl
is_playlist→eq _ h = cc

on_list_page : (a b c : Bool) → (a && b && not (true && not c)) ≡ true → c ≡ true
on_list_page a b c h = ground arith

-- An ALLOW on a playlist, standing or temporary, matches no request for a video, whatever `list`
-- parameter the URL carries.
pub allowed_playlist_opens_no_video :
    (web : UrlApi) (s : DevicePolicySnapshot) (ctx : EvalContext) (u : PolicyRule)
    → u.target ≡ TargetType.youtube_playlist
    → u.action ≡ RuleAction.allow
    → match_target web ctx (request_facts web s ctx) u ≢ none
    → (normalize_youtube web ctx.url).video_id ≡ none
allowed_playlist_opens_no_video web s ctx u t a n =
    let facts = request_facts web s ctx in
    let yt = normalize_youtube web ctx.url in
    elim (Bool-cases
      (target_matches web ctx facts TargetType.youtube_playlist RuleAction.allow u.value)) [
        | inr missed ↦ absurd (n (rw (match_target_lem web ctx facts u, t, a, missed)))
        | inl e ↦ (normalize_youtube-IsCanonical web ctx.url).separate (
            is_playlist→eq (normalize_youtube web ctx.url).kind (
              unfold target_matches request_facts in
              on_list_page (truthy yt.playlist_id) (is yt.playlist_id u.value) (is_playlist yt.kind)
                e))
      ]
