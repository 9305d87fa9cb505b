-- ===== src/Backend/Auth.antt =====
-- backend/src/domain/services.ts: AuthService: accounts, passwords and sessions. Password hashing, the
-- digest of a token and the delivery of mail are the platform's. Texts of mails are left out: an
-- operation says to whom it writes.
pub mod Registration
pub mod Reset
use ajar_family.Prelude.{
  ℕ, ◌+◌, ◌*◌, List, [], ◌∷◌, map, filter, Bool, true, false, not, ◌&&◌, ◌||◌, Option, none, some,
  leb, ltb, ◌==◌, take, length, if◌then◌else◌,
}
use ajar_family.Text.{Text, same, codes, nonempty}
use ajar_family.Policy.Model.{Instant}
use ajar_family.Backend.Model.{FamilyMembership, Role}
use ajar_family.Backend.Model.Accounts.{
  User, Session, PushKind, NotificationEndpoint, PasswordResetToken,
}
use ajar_family.Backend.Table.{update_where}
use ajar_family.Backend.Store.{MemoryStore}
use ajar_family.Backend.Store.Accounts.{
  is_unset, get_user, get_user_by_email, create_user, update_user, create_session, get_session,
  update_session, list_sessions_for_user, create_password_reset_token,
  get_password_reset_token_by_hash, update_password_reset_token,
  invalidate_password_reset_tokens_for_user, list_memberships, list_memberships_for_user,
  add_notification_endpoint, list_notification_endpoints,
}
use ajar_family.Backend.Store.Cascades.{delete_family_cascade, delete_user_cascade}
use ajar_family.Backend.Outcome.{ErrorCode, Outcome, done, failed}
use ajar_family.Backend.Email.{looks_like_email}

-- `hashPassword` refuses a password that is too short.
pub record Crypto : Type 0 where
  pub hash_password : Text → Option Text
  pub verify_password : Text → Option Text → Bool
  pub sha256b64url : Text → Text

abbrev pub reset_ttl_minutes : ℕ
reset_ttl_minutes = 30

-- `Date.parse(expiresAt) <= Date.now()`, false where that is NaN.
abbrev pub has_expired : Instant → ℕ → Bool
has_expired none now = false
has_expired (some t) now = leb t now

-- `Date.parse(expiresAt) > Date.now()`
abbrev pub is_ahead : Instant → ℕ → Bool
is_ahead none now = false
is_ahead (some t) now = ltb now t

abbrev is_email_at : Text → NotificationEndpoint → Bool
is_email_at address e = elim e.kind [ PushKind.email ↦ same e.token address | _ ↦ false ]

unfoldable pub has_endpoint : Text → List NotificationEndpoint → Bool
unfolding same
has_endpoint address [] = false
has_endpoint address (e ∷ es) = is_email_at address e || has_endpoint address es

-- `registerEmailEndpoint`
unfoldable pub register_email_endpoint : MemoryStore → ℕ → Text → User → MemoryStore
unfolding looks_like_email has_endpoint list_notification_endpoints add_notification_endpoint
register_email_endpoint s now id u =
    if not (looks_like_email u.email)
    then s
    else if has_endpoint u.email (list_notification_endpoints s u.id)
    then s
    else add_notification_endpoint s (record {
      id = id;
      user_id = u.id;
      kind = PushKind.email;
      token = u.email;
      created_at = some now;
    })

-- The loop that revokes the sessions of a user.
unfoldable pub revoke_sessions : MemoryStore → ℕ → Text → MemoryStore
unfolding update_where same
revoke_sessions s now user_id = record s {
  sessions =
      update_where (λ v. same v.user_id user_id && is_unset v.revoked_at)
        (λ v. record v { revoked_at = some (some now) }) s.sessions;
}

-- A new password, and every token that is out made old.
abbrev pub with_password : User → Text → User
with_password u hash = record u { password_hash = some hash; token_version = u.token_version + 1 }

abbrev email_tokens : List NotificationEndpoint → List Text
email_tokens [] = []
email_tokens (e ∷ es) =
    let rest = email_tokens es in elim e.kind [ PushKind.email ↦ e.token ∷ rest | _ ↦ rest ]

module _ (crypto : Crypto) where
  open crypto use {hash_password, verify_password, sha256b64url}

  -- `requestPasswordReset`, with the raw token: the addresses that it goes to.
  unfoldable pub request_password_reset :
      MemoryStore → ℕ → Text → Text → Text → List Text × MemoryStore
  unfolding looks_like_email get_user_by_email invalidate_password_reset_tokens_for_user
      create_password_reset_token list_notification_endpoints
  request_password_reset s now id raw address =
      elim (if looks_like_email address then get_user_by_email s address else none) [
        | none ↦ ([], s)
        | some u ↦
            let tok : PasswordResetToken = record {
              id = id;
              user_id = u.id;
              token_hash = sha256b64url raw;
              expires_at = some (now + reset_ttl_minutes * 60000);
              created_at = some now;
              used_at = none;
            } in
            let after =
              create_password_reset_token
                (invalidate_password_reset_tokens_for_user s u.id (some now)) tok in
            (email_tokens (list_notification_endpoints after u.id), after)
      ]

  -- The writes of `resetPassword`.
  unfoldable pub finish_reset : MemoryStore → ℕ → PasswordResetToken → User → Text → MemoryStore
  unfolding update_password_reset_token invalidate_password_reset_tokens_for_user revoke_sessions
      update_user
  finish_reset s now tok u hash =
      update_user
        (revoke_sessions
          (invalidate_password_reset_tokens_for_user
            (update_password_reset_token s (record tok { used_at = some (some now) })) u.id
            (some now))
          now u.id)
        (with_password u hash)

  -- `resetPassword` for a token that is known, its user, and the hash of the new password.
  unfoldable pub reset_known :
      MemoryStore → ℕ → PasswordResetToken → Option User → Option Text → Outcome User
  unfolding finish_reset
  reset_known s now tok none hash = failed ErrorCode.unauthorized s
  reset_known s now tok (some u) none = failed ErrorCode.bad_request s
  reset_known s now tok (some u) (some hash) =
      done (with_password u hash) (finish_reset s now tok u hash)

  unfoldable pub reset_token : MemoryStore → ℕ → Text → Option PasswordResetToken → Outcome User
  unfolding reset_known get_user
  reset_token s now new_password none = failed ErrorCode.unauthorized s
  reset_token s now new_password (some tok) =
      if not (is_unset tok.used_at) || has_expired tok.expires_at now
      then failed ErrorCode.unauthorized s
      else reset_known s now tok (get_user s tok.user_id) (hash_password new_password)

  unfoldable pub reset_password : MemoryStore → ℕ → Text → Text → Outcome User
  unfolding reset_token get_password_reset_token_by_hash
  reset_password s now raw new_password =
      if ltb (length raw) 16
      then failed ErrorCode.unauthorized s
      else reset_token s now new_password (get_password_reset_token_by_hash s (sha256b64url raw))

  unfoldable pub authenticate : MemoryStore → Text → Text → Outcome User
  unfolding get_user_by_email
  authenticate s address password = elim (get_user_by_email s address) [
    | none ↦ failed ErrorCode.unauthorized s
    | some u ↦
        if verify_password password u.password_hash
        then done u s
        else failed ErrorCode.unauthorized s
  ]

  abbrev change_to : MemoryStore → ℕ → User → Option Text → Outcome User
  change_to s now u none = failed ErrorCode.bad_request s
  change_to s now u (some hash) =
      done (with_password u hash) (update_user (revoke_sessions s now u.id) (with_password u hash))

  unfoldable pub change_password : MemoryStore → ℕ → Text → Text → Text → Outcome User
  unfolding get_user revoke_sessions update_user
  change_password s now user_id current new_password = elim (get_user s user_id) [
    | none ↦ failed ErrorCode.not_found s
    | some u ↦
        if not (verify_password current u.password_hash)
        then failed ErrorCode.unauthorized s
        else change_to s now u (hash_password new_password)
  ]

  abbrev is_owner : FamilyMembership → Bool
  is_owner m = elim m.role [ Role.owner ↦ true | _ ↦ false ]

  -- `others.some((o) => o.userId !== userId && o.role === "OWNER")`
  unfoldable pub another_owner : Text → List FamilyMembership → Bool
  unfolding same
  another_owner user_id [] = false
  another_owner user_id (o ∷ os) =
      not (same o.user_id user_id) && is_owner o || another_owner user_id os

  -- The loop over the memberships: the families erased, and the store.
  unfoldable pub erase_owned : Text → List FamilyMembership → MemoryStore → ℕ × MemoryStore
  unfolding another_owner list_memberships delete_family_cascade
  erase_owned user_id [] s = (0, s)
  erase_owned user_id (m ∷ ms) s =
      let kept = erase_owned user_id ms s in
      let erased = erase_owned user_id ms (delete_family_cascade s m.family_id) in
      if not (is_owner m) || another_owner user_id (list_memberships s m.family_id)
      then kept
      else (erased.0 + 1, erased.1)

  unfoldable pub delete_account : MemoryStore → Text → Text → Outcome ℕ
  unfolding get_user erase_owned list_memberships_for_user delete_user_cascade
  delete_account s user_id password = elim (get_user s user_id) [
    | none ↦ failed ErrorCode.not_found s
    | some u ↦
        let erased = erase_owned user_id (list_memberships_for_user s user_id) s in
        if not (verify_password password u.password_hash)
        then failed ErrorCode.unauthorized s
        else done erased.0 (delete_user_cascade erased.1 user_id)
  ]

unfoldable pub revoke_all_sessions : MemoryStore → ℕ → Text → Outcome User
unfolding get_user revoke_sessions update_user
revoke_all_sessions s now user_id = elim (get_user s user_id) [
  | none ↦ failed ErrorCode.not_found s
  | some u ↦
      let next = record u { token_version = u.token_version + 1 } in
      done next (update_user (revoke_sessions s now user_id) next)
]

unfoldable pub user_for_token : MemoryStore → Text → ℕ → Outcome User
unfolding get_user
user_for_token s user_id tv = elim (get_user s user_id) [
  | none ↦ failed ErrorCode.unauthorized s
  | some u ↦ if u.token_version == tv then done u s else failed ErrorCode.unauthorized s
]

unfoldable pub start_session : MemoryStore → ℕ → Text → Text → Text → ℕ → Session × MemoryStore
unfolding create_session
start_session s now id user_id label ttl_seconds =
    let v : Session = record {
      id = id;
      user_id = user_id;
      label = take 120 (if nonempty label then label else codes "Unknown device");
      created_at = some now;
      last_used_at = some now;
      expires_at = some (now + ttl_seconds * 1000);
      revoked_at = none;
    } in
    (v, create_session s v)

-- Not revoked, and not expired.
unfoldable pub is_live : Session → ℕ → Bool
is_live v now = is_unset v.revoked_at && is_ahead v.expires_at now

unfoldable pub session_active : MemoryStore → ℕ → Text → Bool
unfolding get_session is_live
session_active s now sid = elim (get_session s sid) [ none ↦ false | some v ↦ is_live v now ]

abbrev touch : MemoryStore → ℕ → User → Text → Option Session → Outcome User
touch s now u user_id none = failed ErrorCode.unauthorized s
touch s now u user_id (some v) =
    if not (same v.user_id user_id) || not (is_unset v.revoked_at) || has_expired v.expires_at now
    then failed ErrorCode.unauthorized s
    else done u (update_session s (record v { last_used_at = some now }))

-- `refreshSession`; `none` for a token that carries no session.
unfoldable pub refresh_session : MemoryStore → ℕ → Text → ℕ → Option Text → Outcome User
unfolding user_for_token get_session update_session same
refresh_session s now user_id tv sid = elim (user_for_token s user_id tv) [
  | failed code s2 ↦ failed code s2
  | done u s2 ↦ elim sid [
    | none ↦ failed ErrorCode.unauthorized s
    | some id ↦
        if nonempty id
        then touch s now u user_id (get_session s id)
        else failed ErrorCode.unauthorized s
  ]
]

unfoldable pub list_sessions : MemoryStore → ℕ → Text → List Session
unfolding list_sessions_for_user is_live
list_sessions s now user_id = filter (λ v. is_live v now) (list_sessions_for_user s user_id)

unfoldable pub revoke_session : MemoryStore → ℕ → Text → Text → Outcome Unit
unfolding get_session update_session same
revoke_session s now user_id sid = elim (get_session s sid) [
  | none ↦ failed ErrorCode.not_found s
  | some v ↦
      if not (same v.user_id user_id)
      then failed ErrorCode.not_found s
      else if is_unset v.revoked_at
      then done tt (update_session s (record v { revoked_at = some (some now) }))
      else done tt s
]
