-- ===== src/Backend/Model/Accounts.antt =====
-- backend/src/domain/model.ts: the entities of accounts.
use ajar_family.Prelude.{ℕ, Bool, Option}
use ajar_family.Text.{Text}
use ajar_family.Policy.Model.{Instant}

pub record User : Type 0 where
  pub id : Text
  pub email : Text
  pub display_name : Text
  pub password_hash : Option Text
  pub token_version : ℕ
  pub email_verified_at : Option Instant
  pub created_at : Instant

pub record Family : Type 0 where
  pub id : Text
  pub name : Text
  pub created_at : Instant

pub record Session : Type 0 where
  pub id : Text
  pub user_id : Text
  pub label : Text
  pub created_at : Instant
  pub last_used_at : Instant
  pub expires_at : Instant
  pub revoked_at : Option Instant

pub data PushKind : Type 0 where
  apns websocket console email webpush : PushKind

pub record NotificationEndpoint : Type 0 where
  pub id : Text
  pub user_id : Text
  pub kind : PushKind
  pub token : Text
  pub created_at : Instant

pub record WebAuthnCredential : Type 0 where
  pub id : Text
  pub user_id : Text
  pub public_key_cose : Text
  pub alg : ℕ
  pub sign_count : ℕ
  pub label : Text
  pub backed_up : Bool
  pub created_at : Instant
  pub last_used_at : Option Instant

pub data ChallengeKind : Type 0 where
  register authenticate : ChallengeKind

pub record WebAuthnChallenge : Type 0 where
  pub challenge : Text
  pub user_id : Option Text
  pub kind : ChallengeKind
  pub expires_at : Instant
  pub created_at : Instant

pub record PasswordResetToken : Type 0 where
  pub id : Text
  pub user_id : Text
  pub token_hash : Text
  pub expires_at : Instant
  pub created_at : Instant
  pub used_at : Option Instant

pub record EmailVerificationToken : Type 0 where
  pub id : Text
  pub user_id : Text
  pub token_hash : Text
  pub expires_at : Instant
  pub created_at : Instant
  pub used_at : Option Instant

pub record PendingRegistration : Type 0 where
  pub id : Text
  pub email : Text
  pub display_name : Text
  pub password_hash : Text
  pub token_hash : Text
  pub expires_at : Instant
  pub created_at : Instant
  pub used_at : Option Instant
