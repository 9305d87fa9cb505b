-- ===== src/Tests/Accounts.antt =====
-- The family and account services at concrete inputs.
use ajar_family.Prelude.{ℕ, ◌≡◌, refl, List, [], ◌∷◌, true, false, none, some, Memᴰ}
use ajar_family.Text.{Text, codes, is_space}
use ajar_family.Policy.Model.{TargetType, RuleAction}
use ajar_family.Samples.{sample_rule}
use ajar_family.Backend.Model.{Role, Platform, FamilyMembership, Child, Device}
use ajar_family.Backend.Model.Accounts.{User, Session, PasswordResetToken}
use ajar_family.Backend.Table.{get}
use ajar_family.Backend.Table.Laws.{Keyed}
use ajar_family.Backend.Store.{MemoryStore}
use ajar_family.Backend.Store.Accounts.{is_unset, get_user, list_sessions_for_user}
use ajar_family.Backend.Store.Cascades.{delete_child_cascade}
use ajar_family.Backend.Outcome.{ErrorCode, Outcome, done, failed, state}
use ajar_family.Backend.Email.{looks_like_email}
use ajar_family.Backend.Family.{add_parent}
use ajar_family.Backend.Family.Parents.{Answered, add_parent-Answered}
use ajar_family.Backend.Family.Erasure.{IsErased, delete_child_cascade-IsErased}
use ajar_family.Backend.Auth.{Crypto, reset_password, user_for_token}
use ajar_family.Backend.Auth.Reset.{reset_password_once}

abbrev account : Text → User
account id = record {
  id = id;
  email = codes "ann@example.org";
  display_name = codes "Ann";
  password_hash = some (codes "old");
  token_version = 4;
  email_verified_at = none;
  created_at = some 10;
}

abbrev laptop_session : Session
laptop_session = record {
  id = codes "s1";
  user_id = codes "u1";
  label = codes "Laptop";
  created_at = some 20;
  last_used_at = some 30;
  expires_at = some 900000;
  revoked_at = none;
}

abbrev reset_code : PasswordResetToken
reset_code = record {
  id = codes "t1";
  user_id = codes "u1";
  token_hash = codes "0123456789abcdef";
  expires_at = some 1000;
  created_at = some 40;
  used_at = none;
}

abbrev member : Text → Role → List Text → FamilyMembership
member user_id role assigned = record {
  id = codes "m1";
  family_id = codes "f1";
  user_id = user_id;
  role = role;
  assigned_child_ids = assigned;
  created_at = some 10;
}

abbrev kid : Child
kid = record {
  id = codes "c1";
  family_id = codes "f1";
  display_name = codes "Kim";
  timezone = codes "UTC";
  created_at = some 10;
}

abbrev tablet : Device
tablet = record {
  id = codes "d1";
  family_id = codes "f1";
  child_id = codes "c1";
  platform = Platform.ipados;
  display_name = codes "Tablet";
  device_public_key = codes "pk";
  enrolled_at = some 10;
  last_synced_version = 1;
  last_seen_at = none;
}

abbrev home : MemoryStore
home = record {
  memberships = (codes "m1", member (codes "u1") Role.owner []) ∷ [];
  children = (codes "c1", kid) ∷ [];
  devices = (codes "d1", tablet) ∷ [];
  enrollments = [];
  defaults = [];
  rules =
      (codes "b", sample_rule (codes "b") TargetType.domain (codes "x.example") RuleAction.block)
      ∷ [];
  temp_rules = [];
  versions = (codes "f1:c1", 5) ∷ [];
  requests = [];
  decisions = [];
  audit = [];
  users = (codes "u1", account (codes "u1")) ∷ (codes "u2", account (codes "u2")) ∷ [];
  sessions = (codes "s1", laptop_session) ∷ [];
  families = [];
  reset_tokens = (codes "t1", reset_code) ∷ [];
  verify_tokens = [];
  pending_registrations = [];
  endpoints = [];
  credentials = [];
  challenges = [];
}

-- Every text is taken as a password, and stands for its hash.
abbrev plain_crypto : Crypto
plain_crypto = record {
  hash_password = λ password. some password;
  verify_password = λ password hash. true;
  sha256b64url = λ raw. raw;
}

abbrev raw_code : Text
raw_code = codes "0123456789abcdef"

abbrev first_reset : Outcome User
first_reset = reset_password plain_crypto home 500 raw_code (codes "correct horse")

abbrev renewed : User
renewed = record (account (codes "u1")) {
  password_hash = some (codes "correct horse");
  token_version = 5;
}

reset_done : first_reset ≡ done renewed (state first_reset)
unfolding reset_password
reset_done = refl

codes-Keyed : Keyed (λ (t : PasswordResetToken). t.id) home.reset_tokens
unfolding get
codes-Keyed = (refl, refl, tt)

users-Keyed : Keyed (λ (u : User). u.id) home.users
unfolding get
users-Keyed = (refl, refl, (refl, refl, tt))

reset_password_once_example :
    ((later : ℕ) (other : Text)
      → reset_password plain_crypto (state first_reset) later raw_code other
        ≡ failed ErrorCode.unauthorized (state first_reset))
    × ((v : Session)
        → Memᴰ v (list_sessions_for_user (state first_reset) (codes "u1"))
        → is_unset v.revoked_at ≡ false)
    × (get_user (state first_reset) (codes "u1") ≡ some renewed)
    × ((before : User)
        → get_user home (codes "u1") ≡ some before
        → user_for_token (state first_reset) (codes "u1") before.token_version
          ≡ failed ErrorCode.unauthorized (state first_reset))
reset_password_once_example =
    reset_password_once plain_crypto home 500 raw_code (codes "correct horse") codes-Keyed
      users-Keyed reset_done

add_parent-Answered_example :
    Answered home 600
      (codes "m2")
      (codes "e1")
      (codes "f1")
      (codes "u1")
      (codes "u2")
      (some Role.limited_guardian)
      (codes "c1" ∷ [])
      (add_parent home 600
        (codes "m2")
        (codes "e1")
        (codes "f1")
        (codes "u1")
        (codes "u2")
        (some Role.limited_guardian)
        (codes "c1" ∷ []))
add_parent-Answered_example =
    add_parent-Answered home 600 (codes "m2") (codes "e1") (codes "f1") (codes "u1") (codes "u2")
      (some Role.limited_guardian) (codes "c1" ∷ [])

devices-Keyed : Keyed (λ (d : Device). d.id) home.devices
unfolding get
devices-Keyed = (refl, refl, tt)

delete_child_cascade-IsErased_example :
    IsErased (codes "f1") (codes "c1") (delete_child_cascade home (codes "f1") (codes "c1"))
delete_child_cascade-IsErased_example =
    delete_child_cascade-IsErased (codes "f1") (codes "c1") home devices-Keyed

email_test : looks_like_email (codes "ann@example.org") ≡ true
unfolding looks_like_email is_space
email_test = refl

no_dot_test : looks_like_email (codes "ann@example") ≡ false
unfolding looks_like_email is_space
no_dot_test = refl
