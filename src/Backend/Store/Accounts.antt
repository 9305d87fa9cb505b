-- ===== src/Backend/Store/Accounts.antt =====
-- backend/src/store/memory.ts: users, sessions, families, sign-in tokens, endpoints and passkeys.
use ajar_family.Prelude.{List, filter, Bool, true, false, ◌&&◌, Option, none, some}
use ajar_family.Text.{Text, same}
use ajar_family.Policy.Model.{Instant}
use ajar_family.Backend.Model.{FamilyMembership, Child, Device}
use ajar_family.Backend.Model.Accounts.{
  User, Session, Family, PasswordResetToken, EmailVerificationToken, PendingRegistration,
  NotificationEndpoint, WebAuthnCredential, WebAuthnChallenge,
}
use ajar_family.Backend.Table.{get, put, remove, values, find, update_where}
use ajar_family.Backend.Store.{MemoryStore}

-- `!x.usedAt`, `!s.revokedAt`
abbrev pub is_unset : Option Instant → Bool
is_unset none = true
is_unset (some at) = false

unfoldable pub update_user : MemoryStore → User → MemoryStore
unfolding put
update_user s u = record s { users = put s.users u.id u }

unfoldable pub create_user : MemoryStore → User → MemoryStore
unfolding put
create_user s u = record s { users = put s.users u.id u }

unfoldable pub get_user : MemoryStore → Text → Option User
unfolding get
get_user s id = get s.users id

unfoldable pub get_user_by_email : MemoryStore → Text → Option User
unfolding find same
get_user_by_email s address = find (λ u. same u.email address) s.users

unfoldable pub create_session : MemoryStore → Session → MemoryStore
unfolding put
create_session s v = record s { sessions = put s.sessions v.id v }

unfoldable pub get_session : MemoryStore → Text → Option Session
unfolding get
get_session s id = get s.sessions id

unfoldable pub update_session : MemoryStore → Session → MemoryStore
unfolding put
update_session s v = record s { sessions = put s.sessions v.id v }

unfoldable pub list_sessions_for_user : MemoryStore → Text → List Session
unfolding values same
list_sessions_for_user s user_id = filter (λ v. same v.user_id user_id) (values s.sessions)

unfoldable pub create_web_authn_credential : MemoryStore → WebAuthnCredential → MemoryStore
unfolding put
create_web_authn_credential s c = record s { credentials = put s.credentials c.id c }

unfoldable pub get_web_authn_credential : MemoryStore → Text → Option WebAuthnCredential
unfolding get
get_web_authn_credential s id = get s.credentials id

unfoldable pub list_web_authn_credentials : MemoryStore → Text → List WebAuthnCredential
unfolding values same
list_web_authn_credentials s user_id = filter (λ c. same c.user_id user_id) (values s.credentials)

unfoldable pub delete_web_authn_credential : MemoryStore → Text → MemoryStore
unfolding remove
delete_web_authn_credential s id = record s { credentials = remove s.credentials id }

unfoldable pub create_web_authn_challenge : MemoryStore → WebAuthnChallenge → MemoryStore
unfolding put
create_web_authn_challenge s c = record s { challenges = put s.challenges c.challenge c }

-- A challenge is deleted when it is taken.
unfoldable pub take_web_authn_challenge :
    MemoryStore → Text → Option WebAuthnChallenge × MemoryStore
unfolding get remove
take_web_authn_challenge s challenge =
    (get s.challenges challenge, record s { challenges = remove s.challenges challenge })

unfoldable pub create_password_reset_token : MemoryStore → PasswordResetToken → MemoryStore
unfolding put
create_password_reset_token s t = record s { reset_tokens = put s.reset_tokens t.id t }

unfoldable pub get_password_reset_token_by_hash : MemoryStore → Text → Option PasswordResetToken
unfolding find same
get_password_reset_token_by_hash s token_hash =
    find (λ t. same t.token_hash token_hash) s.reset_tokens

unfoldable pub update_password_reset_token : MemoryStore → PasswordResetToken → MemoryStore
unfolding put
update_password_reset_token s t = record s { reset_tokens = put s.reset_tokens t.id t }

unfoldable pub invalidate_password_reset_tokens_for_user :
    MemoryStore → Text → Instant → MemoryStore
unfolding update_where same
invalidate_password_reset_tokens_for_user s user_id at = record s {
  reset_tokens =
      update_where (λ t. same t.user_id user_id && is_unset t.used_at)
        (λ t. record t { used_at = some at }) s.reset_tokens;
}

unfoldable pub create_email_verification_token : MemoryStore → EmailVerificationToken → MemoryStore
unfolding put
create_email_verification_token s t = record s { verify_tokens = put s.verify_tokens t.id t }

unfoldable pub get_email_verification_token_by_hash :
    MemoryStore → Text → Option EmailVerificationToken
unfolding find same
get_email_verification_token_by_hash s token_hash =
    find (λ t. same t.token_hash token_hash) s.verify_tokens

unfoldable pub update_email_verification_token : MemoryStore → EmailVerificationToken → MemoryStore
unfolding put
update_email_verification_token s t = record s { verify_tokens = put s.verify_tokens t.id t }

unfoldable pub invalidate_email_verification_tokens_for_user :
    MemoryStore → Text → Instant → MemoryStore
unfolding update_where same
invalidate_email_verification_tokens_for_user s user_id at = record s {
  verify_tokens =
      update_where (λ t. same t.user_id user_id && is_unset t.used_at)
        (λ t. record t { used_at = some at }) s.verify_tokens;
}

unfoldable pub create_pending_registration : MemoryStore → PendingRegistration → MemoryStore
unfolding put
create_pending_registration s p = record s {
  pending_registrations = put s.pending_registrations p.id p;
}

unfoldable pub get_pending_registration_by_hash : MemoryStore → Text → Option PendingRegistration
unfolding find same
get_pending_registration_by_hash s token_hash =
    find (λ p. same p.token_hash token_hash) s.pending_registrations

unfoldable pub update_pending_registration : MemoryStore → PendingRegistration → MemoryStore
unfolding put
update_pending_registration s p = record s {
  pending_registrations = put s.pending_registrations p.id p;
}

unfoldable pub invalidate_pending_registrations_for_email :
    MemoryStore → Text → Instant → MemoryStore
unfolding update_where same
invalidate_pending_registrations_for_email s address at = record s {
  pending_registrations =
      update_where (λ p. same p.email address && is_unset p.used_at)
        (λ p. record p { used_at = some at }) s.pending_registrations;
}

unfoldable pub create_family : MemoryStore → Family → MemoryStore
unfolding put
create_family s f = record s { families = put s.families f.id f }

unfoldable pub add_membership : MemoryStore → FamilyMembership → MemoryStore
unfolding put
add_membership s m = record s { memberships = put s.memberships m.id m }

unfoldable pub list_memberships : MemoryStore → Text → List FamilyMembership
unfolding values same
list_memberships s family_id = filter (λ m. same m.family_id family_id) (values s.memberships)

unfoldable pub list_memberships_for_user : MemoryStore → Text → List FamilyMembership
unfolding values same
list_memberships_for_user s user_id = filter (λ m. same m.user_id user_id) (values s.memberships)

unfoldable pub create_child : MemoryStore → Child → MemoryStore
unfolding put
create_child s c = record s { children = put s.children c.id c }

unfoldable pub list_devices_for_child : MemoryStore → Text → List Device
unfolding values same
list_devices_for_child s child_id = filter (λ d. same d.child_id child_id) (values s.devices)

unfoldable pub add_notification_endpoint : MemoryStore → NotificationEndpoint → MemoryStore
unfolding put
add_notification_endpoint s e = record s { endpoints = put s.endpoints e.id e }

unfoldable pub list_notification_endpoints : MemoryStore → Text → List NotificationEndpoint
unfolding values same
list_notification_endpoints s user_id = filter (λ e. same e.user_id user_id) (values s.endpoints)
