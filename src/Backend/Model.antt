-- ===== src/Backend/Model.antt =====
-- backend/src/domain/model.ts: the entities that the services keep.
pub mod Accounts
use ajar_family.Prelude.{ℕ, Option, List}
use ajar_family.Prelude.Int.{ℤ}
use ajar_family.Text.{Text}
use ajar_family.Policy.Model.{TargetType, RuleAction, Instant, TemporaryRule}

pub data Role : Type 0 where
  owner parent limited_guardian : Role

pub data Platform : Type 0 where
  ios ipados macos windows : Platform

pub record FamilyMembership : Type 0 where
  pub id : Text
  pub family_id : Text
  pub user_id : Text
  pub role : Role
  pub assigned_child_ids : List Text
  pub created_at : Instant

pub record Child : Type 0 where
  pub id : Text
  pub family_id : Text
  pub display_name : Text
  pub timezone : Text
  pub created_at : Instant

pub record Device : Type 0 where
  pub id : Text
  pub family_id : Text
  pub child_id : Text
  pub platform : Platform
  pub display_name : Text
  pub device_public_key : Text
  pub enrolled_at : Instant
  pub last_synced_version : ℕ
  pub last_seen_at : Option Instant

pub record EnrollmentToken : Type 0 where
  pub id : Text
  pub code : Text
  pub family_id : Text
  pub child_id : Text
  pub platform : Platform
  pub expires_at : Instant
  pub redeemed_at : Option Instant
  pub created_by : Text

pub data RequestStatus : Type 0 where
  pending approved denied expired : RequestStatus

pub record AccessRequest : Type 0 where
  pub id : Text
  pub family_id : Text
  pub child_id : Text
  pub device_id : Text
  pub target_type : TargetType
  pub target_value : Text
  pub title : Option Text
  pub url : Option Text
  pub reason : Option Text
  pub referrer_host : Option Text
  pub status : RequestStatus
  pub created_at : Instant

pub data ApprovalScope : Type 0 where
  this_request this_url this_video this_channel this_domain this_device : ApprovalScope
  this_child whole_family : ApprovalScope

-- `minutes` is what the JSON body holds, in whole minutes; none where it is no finite number.
pub data ApprovalDuration : Type 0 where
  minutes : Option ℤ → ApprovalDuration
  until_end_of_day once always unknown : ApprovalDuration

pub record ApprovalDecision : Type 0 where
  pub id : Text
  pub request_id : Text
  pub family_id : Text
  pub decided_by : Text
  pub decision : RuleAction
  pub scope : ApprovalScope
  pub duration : ApprovalDuration
  pub created_at : Instant
  pub produced_rule_id : Option Text

-- The kinds of audit event that the modelled services write.
pub data AuditKind : Type 0 where
  device_enrolled device_removed grant_revoked grant_consumed request_created approval_decided :
      AuditKind
  family_created family_parent_added child_added child_updated child_removed : AuditKind

pub record AuditEvent : Type 0 where
  pub id : Text
  pub family_id : Text
  pub actor_id : Text
  pub kind : AuditKind
  pub created_at : Instant

pub record TemporaryGrant : Type 0 where
  pub grant : TemporaryRule
  pub consumed_at : Option Instant
