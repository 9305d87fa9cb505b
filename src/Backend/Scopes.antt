-- ===== src/Backend/Scopes.antt =====
-- backend/src/domain/services.ts: roles, durations, and what an approval scope means for a request.
pub mod Mapping
use ajar_family.Prelude.{
  ℕ, zero, suc, ◌+◌, ◌*◌, List, [], ◌∷◌, ◌++◌, Bool, true, false, not, ◌&&◌, ◌||◌, Option, none,
  some, if◌then◌else◌, leb,
}
use ajar_family.Prelude.Int.{ℤ, pos, negsuc}
use ajar_family.Text.{Text, codes, same, starts_with, nonempty, truthy}
use ajar_family.Web.{UrlApi}
use ajar_family.Policy.Model.{TargetType, Instant, RuleScope, ScopeType}
use ajar_family.Policy.Evaluate.{same_target}
use ajar_family.Backend.Days.{Calendar, end_of_local_day_ms}
use ajar_family.Backend.Model.{Role, AccessRequest, ApprovalScope, ApprovalDuration}

abbrev pub can_approve : Role → Bool
can_approve r = true

abbrev pub can_manage_policy : Role → Bool
can_manage_policy Role.owner = true
can_manage_policy Role.parent = true
can_manage_policy Role.limited_guardian = false

abbrev pub once_grant_ttl_ms : ℕ
once_grant_ttl_ms = 5 * 60000

-- A concrete expiry, or that the rule stands for good, or the DomainError; `unprintable` is the
-- RangeError of toISOString.
pub data Expiry : Type 0 where
  until : ℕ → Expiry
  standing : Expiry
  refused : Expiry
  unprintable : Expiry

-- The last instant that a Date holds.
abbrev pub last_instant_ms : ℕ
last_instant_ms = 8640000000000000

-- `new Date(t).toISOString()`
unfoldable pub printed : ℕ → Expiry
printed t = if leb t last_instant_ms then Expiry.until t else Expiry.unprintable

unfoldable pub duration_to_expiry : Calendar → ApprovalDuration → Text → ℕ → Expiry
unfolding end_of_local_day_ms printed
duration_to_expiry calendar ApprovalDuration.always zone from = Expiry.standing
duration_to_expiry calendar ApprovalDuration.once zone from = printed (from + once_grant_ttl_ms)
duration_to_expiry calendar ApprovalDuration.until_end_of_day zone from =
    printed (end_of_local_day_ms calendar from zone)
duration_to_expiry calendar (ApprovalDuration.minutes none) zone from = Expiry.refused
duration_to_expiry calendar (ApprovalDuration.minutes (some (negsuc n))) zone from = Expiry.refused
duration_to_expiry calendar (ApprovalDuration.minutes (some (pos zero))) zone from = Expiry.refused
duration_to_expiry calendar (ApprovalDuration.minutes (some (pos (suc n)))) zone from =
    printed (from + suc n * 60000)
duration_to_expiry calendar ApprovalDuration.unknown zone from = Expiry.refused

unfoldable pub default_scope_for : TargetType → ApprovalScope
default_scope_for TargetType.youtube_video = ApprovalScope.this_video
default_scope_for TargetType.youtube_channel = ApprovalScope.this_channel
default_scope_for TargetType.url = ApprovalScope.this_url
default_scope_for TargetType.url_pattern = ApprovalScope.this_url
default_scope_for TargetType.domain = ApprovalScope.this_domain
default_scope_for TargetType.category = ApprovalScope.this_domain
default_scope_for TargetType.youtube_playlist = ApprovalScope.this_child
default_scope_for TargetType.application = ApprovalScope.this_child

-- Without its first four characters.
abbrev drop_four : Text → Text
drop_four (a ∷ b ∷ c ∷ d ∷ h) = h
drop_four h = h

-- `.replace(/^www\./, "")`, which minds the case.
unfoldable pub drop_www : Text → Text
unfolding starts_with
drop_www h = if starts_with h (codes "www.") then drop_four h else h

abbrev pub is_domain : TargetType → Bool
is_domain TargetType.domain = true
is_domain _ = false

abbrev pub is_video : TargetType → Bool
is_video TargetType.youtube_video = true
is_video _ = false

abbrev pub is_channel : TargetType → Bool
is_channel TargetType.youtube_channel = true
is_channel _ = false

abbrev pub or_value : Option Text → Text → Text
or_value none v = v
or_value (some s) v = s

abbrev pub or_text : Text → Text → Text
or_text [] v = v
or_text (c ∷ s) v = c ∷ s

-- What a scope maps a request to.
pub record Mapped : Type 0 where
  pub target_type : TargetType
  pub target_value : Text
  pub rule_scope : RuleScope

abbrev pub list_if : Bool → ApprovalScope → List ApprovalScope
list_if b s = if b then s ∷ [] else []

pub ApprovalScope-discrete : Discrete ApprovalScope
ApprovalScope-discrete = hlevel

-- `scopes.includes(scope)`
unfoldable pub lists : List ApprovalScope → ApprovalScope → Bool
unfolding ApprovalScope-discrete
lists [] s = false
lists (t ∷ ts) s = elim (ApprovalScope-discrete t s) [ yes p ↦ true | no n ↦ lists ts s ]

-- The scopes of the rules that a decision makes.
abbrev pub family_wide : AccessRequest → RuleScope
family_wide req = record {
  type = ScopeType.family;
  family_id = req.family_id;
  child_id = none;
  device_id = none;
}

abbrev pub child_wide : AccessRequest → RuleScope
child_wide req = record {
  type = ScopeType.child;
  family_id = req.family_id;
  child_id = some req.child_id;
  device_id = none;
}

abbrev pub device_wide : AccessRequest → RuleScope
device_wide req = record {
  type = ScopeType.device;
  family_id = req.family_id;
  child_id = some req.child_id;
  device_id = some req.device_id;
}

module _ (web : UrlApi) where
  unfoldable pub url_host : Option Text → Text
  unfolding drop_www
  url_host none = []
  url_host (some url) =
      if nonempty url
      then elim (web.parse url) [ none ↦ [] | some u ↦ drop_www (web.hostname u) ]
      else []

  unfoldable pub host_of : AccessRequest → Text
  unfolding url_host
  host_of req = if is_domain req.target_type then req.target_value else url_host req.url

  unfoldable pub applicable_scopes : AccessRequest → List ApprovalScope
  unfolding host_of
  applicable_scopes req =
      list_if (is_video req.target_type) ApprovalScope.this_video
      ++ (list_if (is_channel req.target_type) ApprovalScope.this_channel
          ++ (list_if (truthy req.url) ApprovalScope.this_url
              ++ (list_if (nonempty (host_of req)) ApprovalScope.this_domain
                  ++ (ApprovalScope.this_request ∷ ApprovalScope.this_device
                      ∷ ApprovalScope.this_child ∷ ApprovalScope.whole_family ∷ []))))

  abbrev pub mapped : TargetType → Text → RuleScope → Mapped
  mapped type value scope = record { target_type = type; target_value = value; rule_scope = scope }

  -- The `switch` on the scope.
  unfoldable pub target_of : AccessRequest → ApprovalScope → Mapped
  unfolding host_of
  target_of req ApprovalScope.this_url =
      mapped TargetType.url (or_value req.url req.target_value) (child_wide req)
  target_of req ApprovalScope.this_video =
      mapped TargetType.youtube_video req.target_value (child_wide req)
  target_of req ApprovalScope.this_channel =
      mapped TargetType.youtube_channel req.target_value (child_wide req)
  target_of req ApprovalScope.this_domain =
      mapped TargetType.domain (or_text (host_of req) req.target_value) (child_wide req)
  target_of req ApprovalScope.this_device =
      mapped req.target_type req.target_value (device_wide req)
  target_of req ApprovalScope.this_child = mapped req.target_type req.target_value (child_wide req)
  target_of req ApprovalScope.whole_family =
      mapped req.target_type req.target_value (family_wide req)
  target_of req ApprovalScope.this_request =
      mapped req.target_type req.target_value (device_wide req)

  -- `none` where the source throws BAD_REQUEST.
  unfoldable pub map_scope : AccessRequest → ApprovalScope → Option Mapped
  unfolding applicable_scopes target_of lists
  map_scope req scope =
      if lists (applicable_scopes req) scope then some (target_of req scope) else none
