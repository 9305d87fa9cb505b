-- ===== src/Policy/Model.antt =====
-- shared/policy/policy-model.ts: targets, rules, snapshots and the evaluation context. An ISO-8601
-- time is the instant that `Date.parse` reads off it, in milliseconds; `none` where that is NaN.
use ajar_family.Prelude.{ℕ, Option, List}
use ajar_family.Prelude.Int.{ℤ}
use ajar_family.Text.{Text}
use ajar_family.Host.{CategoryMap}

pub data TargetType : Type 0 where
  domain url url_pattern youtube_video youtube_channel youtube_playlist : TargetType
  category application : TargetType

pub data RuleAction : Type 0 where
  allow block : RuleAction

pub data ScopeType : Type 0 where
  family child device : ScopeType

pub data GrantKind : Type 0 where
  timed once until_end_of_day : GrantKind

abbrev pub Instant : Type 0
Instant = Option ℕ

pub record RuleScope : Type 0 where
  pub type : ScopeType
  pub family_id : Text
  pub child_id : Option Text
  pub device_id : Option Text

pub record PolicyRule : Type 0 where
  pub id : Text
  pub target : TargetType
  pub value : Text
  pub action : RuleAction
  pub scope : RuleScope
  pub priority : Option ℤ
  pub created_at : Instant
  pub created_by : Text

pub record TemporaryRule : Type 0 where
  pub rule : PolicyRule
  pub open rule use *
  pub starts_at : Instant
  pub expires_at : Instant
  pub request_id : Text
  pub approved_by : Text
  pub grant_kind : GrantKind

pub record DefaultPolicy : Type 0 where
  pub web_default : RuleAction
  pub youtube_default : RuleAction

pub record DevicePolicySnapshot : Type 0 where
  pub version : ℕ
  pub family_id : Text
  pub child_id : Text
  pub device_id : Text
  pub defaults : DefaultPolicy
  pub rules : List PolicyRule
  pub temporary_rules : List TemporaryRule
  pub categories : Option CategoryMap
  pub issued_at : Instant
  pub signature : Text

pub record EvalContext : Type 0 where
  pub url : Text
  pub child_id : Text
  pub device_id : Text
  pub now_ms : ℕ
  pub app_id : Option Text
  -- `categoryFilters.categoriesForHost`, where filters are given.
  pub category_filters : Option (Text → List Text)
  pub resolved_hosts : Option (List Text)

-- `reason` of a result: "safety-floor", "temporary:…", "rule:…", "default:youtube", "default:web".
pub data Reason : Type 0 where
  safety_floor : Reason
  temporary : GrantKind → Reason
  rule : TargetType → Reason
  default_youtube default_web : Reason

pub record EvalResult : Type 0 where
  pub action : RuleAction
  pub reason : Reason
  pub matched_rule_id : Option Text
  pub matched_key : Option Text
