-- ===== src/Backend/Auth/Registration.antt =====
-- backend/src/domain/services.ts: AuthService: signing up and confirming an address. `delivered` says
-- whether a mail that the caller waits on goes out.
use ajar_family.Prelude.{
  ℕ, ◌+◌, ◌*◌, Bool, true, false, not, ◌&&◌, ◌||◌, Option, none, some, ltb, length, if◌then◌else◌,
}
use ajar_family.Text.{Text, nonempty}
use ajar_family.Policy.Model.{Instant}
use ajar_family.Backend.Model.Accounts.{User, EmailVerificationToken, PendingRegistration}
use ajar_family.Backend.Store.{MemoryStore}
use ajar_family.Backend.Store.Accounts.{
  is_unset, create_user, update_user, get_user, get_user_by_email, create_pending_registration,
  get_pending_registration_by_hash, update_pending_registration,
  invalidate_pending_registrations_for_email, create_email_verification_token,
  get_email_verification_token_by_hash, update_email_verification_token,
  invalidate_email_verification_tokens_for_user,
}
use ajar_family.Backend.Outcome.{ErrorCode, Outcome, done, failed}
use ajar_family.Backend.Email.{looks_like_email}
use ajar_family.Backend.Auth.{Crypto, is_ahead, register_email_endpoint}

abbrev pub verify_ttl_minutes : ℕ
verify_ttl_minutes = 60

-- The new account of `register`, for a hash that is there.
abbrev enroll_user :
    MemoryStore → ℕ → Text → Text → Text → Text → Option Instant → Option Text → Outcome User
enroll_user s now id endpoint_id address display_name verified none = failed ErrorCode.bad_request s
enroll_user s now id endpoint_id address display_name verified (some hash) =
    let u : User = record {
      id = id;
      email = address;
      display_name = display_name;
      password_hash = some hash;
      token_version = 0;
      email_verified_at = verified;
      created_at = some now;
    } in
    done u (register_email_endpoint (create_user s u) now endpoint_id u)

abbrev is_known : Option User → Bool
is_known none = false
is_known (some u) = true

-- `register`, with the hash that the options give or that the password has.
unfoldable pub register :
    MemoryStore → ℕ → Text → Text → Text → Text → Option Instant → Option Text → Outcome User
unfolding looks_like_email get_user_by_email create_user register_email_endpoint
register s now id endpoint_id address display_name verified hash =
    if not (nonempty address) || not (nonempty display_name)
    then failed ErrorCode.bad_request s
    else if not (looks_like_email address)
    then failed ErrorCode.bad_request s
    else if is_known (get_user_by_email s address)
    then failed ErrorCode.conflict s
    else enroll_user s now id endpoint_id address display_name verified hash

-- `!rec.usedAt && Date.parse(rec.expiresAt) > Date.now()`
abbrev is_open : Option Instant → Instant → ℕ → Bool
is_open used expires now = is_unset used && is_ahead expires now

abbrev sent : Bool → MemoryStore → Outcome Unit
sent delivered s = if delivered then done tt s else failed ErrorCode.service_unavailable s

module _ (crypto : Crypto) where
  open crypto use {hash_password, sha256b64url}

  abbrev ask_registration :
      Bool → MemoryStore → ℕ → Text → Text → Text → Text → Option Text → Outcome Unit
  ask_registration delivered s now id raw address display_name none = failed ErrorCode.bad_request s
  ask_registration delivered s now id raw address display_name (some hash) =
      let p : PendingRegistration = record {
        id = id;
        email = address;
        display_name = display_name;
        password_hash = hash;
        token_hash = sha256b64url raw;
        expires_at = some (now + verify_ttl_minutes * 60000);
        created_at = some now;
        used_at = none;
      } in
      if is_known (get_user_by_email s address)
      then sent delivered s
      else sent delivered (
          create_pending_registration
            (invalidate_pending_registrations_for_email s address (some now)) p)

  -- `requestRegistration`, with the raw token.
  unfoldable pub request_registration :
      Bool → MemoryStore → ℕ → Text → Text → Text → Text → Text → Outcome Unit
  unfolding looks_like_email get_user_by_email create_pending_registration
      invalidate_pending_registrations_for_email
  request_registration delivered s now id raw address password display_name =
      if not (looks_like_email address)
      then failed ErrorCode.bad_request s
      else if not (nonempty display_name)
      then failed ErrorCode.bad_request s
      else ask_registration delivered s now id raw address display_name (hash_password password)

  -- `requestEmailVerification`: whom it writes to, if anyone.
  unfoldable pub request_email_verification :
      MemoryStore → ℕ → Text → Text → Text → Option Text × MemoryStore
  unfolding looks_like_email get_user_by_email create_email_verification_token
      invalidate_email_verification_tokens_for_user
  request_email_verification s now id raw address =
      elim (if looks_like_email address then get_user_by_email s address else none) [
        | none ↦ (none, s)
        | some u ↦
            let tok : EmailVerificationToken = record {
              id = id;
              user_id = u.id;
              token_hash = sha256b64url raw;
              expires_at = some (now + verify_ttl_minutes * 60000);
              created_at = some now;
              used_at = none;
            } in
            if is_unset u.email_verified_at
            then (
              some u.email,
              create_email_verification_token
                  (invalidate_email_verification_tokens_for_user s u.id (some now)) tok,
            )
            else (none, s)
      ]

  -- A code of a sign-up: the account is created, verified.
  unfoldable pub complete_pending :
      MemoryStore → ℕ → Text → Text → PendingRegistration → Outcome (User × Bool)
  unfolding update_pending_registration invalidate_pending_registrations_for_email get_user_by_email
      register
  complete_pending s now id endpoint_id p =
      let burnt =
        invalidate_pending_registrations_for_email
          (update_pending_registration s (record p { used_at = some (some now) })) p.email
          (some now) in
      if not (is_open p.used_at p.expires_at now)
      then failed ErrorCode.unauthorized s
      else if is_known (get_user_by_email burnt p.email)
      then failed ErrorCode.conflict burnt
      else elim (register burnt now id endpoint_id p.email p.display_name (some (some now))
          (some p.password_hash)) [
            | done u s2 ↦ done (u, true) s2
            | failed code s2 ↦ failed code s2
          ]

  -- A code of an account that is there.
  unfoldable pub confirm_user :
      MemoryStore → ℕ → Text → EmailVerificationToken → User → Outcome (User × Bool)
  unfolding update_email_verification_token invalidate_email_verification_tokens_for_user
      update_user register_email_endpoint
  confirm_user s now endpoint_id tok u =
      let burnt =
        invalidate_email_verification_tokens_for_user
          (update_email_verification_token s (record tok { used_at = some (some now) })) u.id
          (some now) in
      let v : User = record u { email_verified_at = some (some now) } in
      if is_unset u.email_verified_at
      then done (v, false) (register_email_endpoint (update_user burnt v) now endpoint_id v)
      else done (u, false) (register_email_endpoint burnt now endpoint_id u)

  abbrev complete_token :
      MemoryStore → ℕ → Text → Option EmailVerificationToken → Outcome (User × Bool)
  complete_token s now endpoint_id none = failed ErrorCode.unauthorized s
  complete_token s now endpoint_id (some tok) =
      if not (is_open tok.used_at tok.expires_at now)
      then failed ErrorCode.unauthorized s
      else elim (get_user s tok.user_id) [
        | none ↦ failed ErrorCode.unauthorized s
        | some u ↦ confirm_user s now endpoint_id tok u
      ]

  -- `completeVerification`: the user, and whether the account is new.
  unfoldable pub complete_verification :
      MemoryStore → ℕ → Text → Text → Text → Outcome (User × Bool)
  unfolding get_pending_registration_by_hash complete_pending get_email_verification_token_by_hash
      confirm_user get_user
  complete_verification s now id endpoint_id raw =
      if ltb (length raw) 16
      then failed ErrorCode.unauthorized s
      else elim (get_pending_registration_by_hash s (sha256b64url raw)) [
        | some p ↦ complete_pending s now id endpoint_id p
        | none ↦
            complete_token s now endpoint_id
              (get_email_verification_token_by_hash s (sha256b64url raw))
      ]
