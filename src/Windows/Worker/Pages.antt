-- ===== src/Windows/Worker/Pages.antt =====
-- windows/extension/background.js: the events. A request, a route change inside a page, a snapshot
-- and the tabs that are open when it lands.
use ajar_family.Prelude.{
  [], ◌++◌, Bool, true, false, not, ◌&&◌, ◌||◌, Option, none, some, if◌then◌else◌, ◌==◌,
}
use ajar_family.Text.{Text, codes, nonempty, same, starts_with, some_char}
use ajar_family.Web.{UrlApi}
use ajar_family.Host.{normalize_host}
use ajar_family.Policy.Model.{GrantKind, Reason}
use ajar_family.Policy.Match.{is_allow, target_label}
use ajar_family.Windows.YouTube.{RequestType}
use ajar_family.Windows.Worker.{Worker, Clocks, Decision, DecisionReason, decide, spend_once}

-- `encodeURIComponent` and `chrome.runtime.getURL("blocked.html")`.
pub record Platform : Type 0 where
  pub encode : Text → Text
  pub block_page : Text

abbrev kind_label : GrantKind → Text
kind_label GrantKind.timed = codes "TIMED"
kind_label GrantKind.once = codes "ONCE"
kind_label GrantKind.until_end_of_day = codes "UNTIL_END_OF_DAY"

abbrev policy_reason : Reason → Text
policy_reason Reason.safety_floor = codes "safety-floor"
policy_reason (Reason.temporary kind) = codes "temporary:" ++ kind_label kind
policy_reason (Reason.rule tier) = codes "rule:" ++ target_label tier
policy_reason Reason.default_youtube = codes "default:youtube"
policy_reason Reason.default_web = codes "default:web"

abbrev reason_text : DecisionReason → Text
reason_text (DecisionReason.by_policy r) = policy_reason r
reason_text DecisionReason.fail_closed = codes "failclosed:no-snapshot"
reason_text DecisionReason.fail_open = codes "failopen:no-snapshot"
reason_text DecisionReason.playback_support = codes "playback-support"

-- `res.matchedKey ? "&key=…" : ""`
abbrev key_part : (Text → Text) → Option Text → Text
key_part encode none = []
key_part encode (some key) = if nonempty key then codes "&key=" ++ encode key else []

-- A redirection of the page, a cancelled request, or neither.
pub data Answer : Type 0 where
  redirect : Text → Answer
  cancel pass : Answer

abbrev pub is_page_load : RequestType → Bool
is_page_load RequestType.main_frame = true
is_page_load _ = false

module _ (web : UrlApi) (platform : Platform) where
  open platform use {encode, block_page}

  unfoldable pub host_of : Text → Text
  unfolding normalize_host some_char
  host_of url = elim (web.parse url) [
    | none ↦ []
    | some u ↦
        let h = normalize_host (web.hostname u) in if some_char (λ c. c == b'.') h then h else []
  ]

  unfoldable pub from_part : Text → Text → Text
  unfolding host_of same
  from_part url from_host =
      if nonempty from_host && not (same from_host (host_of url))
      then codes "&from=" ++ encode from_host
      else []

  -- The address of the block page up to the referrer.
  unfoldable pub block_address : Text → Decision → Text
  block_address url d =
      block_page
      ++ (codes "?u="
          ++ (encode url
              ++ (codes "&reason="
                  ++ (encode (reason_text d.reason) ++ key_part encode d.matched_key))))

  unfoldable pub blocked_url_for : Text → Decision → Text → Text
  unfolding from_part block_address
  blocked_url_for url d from_host = block_address url d ++ from_part url from_host

  -- `onBeforeRequestBlocking`, with the initiator that the browser names: the worker after, the grant
  -- reported as spent, and the answer.
  unfoldable pub on_before_request :
      Worker → Clocks → Text → RequestType → Text → Worker × Option Text × Answer
  unfolding decide spend_once blocked_url_for host_of
  on_before_request w c url type initiator =
      let d = decide web w c url type in
      let (w2, report) = spend_once d w in
      if is_allow d.action
      then (if is_page_load type then (w2, report, pass) else (w, none, pass))
      else if is_page_load type
      then (w, none, redirect (blocked_url_for url d (host_of initiator)))
      else (w, none, cancel)

  -- The listener of history states, in the top frame.
  unfoldable pub on_history_state_updated : Worker → Clocks → Text → Worker × Option Text × Answer
  unfolding decide spend_once block_address
  on_history_state_updated w c url =
      let d = decide web w c url RequestType.main_frame in
      let (w2, report) = spend_once d w in
      if is_allow d.action then (w2, report, pass) else (w, none, redirect (block_address url d))

  -- `original && decide(original, "main_frame").action === "ALLOW"`
  unfoldable pub reopened : Worker → Clocks → Option Text → Option Text
  unfolding decide
  reopened w c none = none
  reopened w c (some original) =
      if nonempty original && is_allow (decide web w c original RequestType.main_frame).action
      then some original
      else none

  unfoldable pub query_u : Text → Option Text
  query_u url = elim (web.parse url) [ none ↦ none | some u ↦ web.search_param u (codes "u") ]

  -- One tab of `reevaluateOpenTabs`: where it is sent, if anywhere.
  unfoldable pub reevaluate_tab : Worker → Clocks → Text → Option Text
  unfolding reopened query_u decide starts_with blocked_url_for
  reevaluate_tab w c url =
      let d = decide web w c url RequestType.main_frame in
      if not (nonempty url)
      then none
      else if starts_with url block_page
      then reopened w c (query_u url)
      else if starts_with url (codes "http:") || starts_with url (codes "https:")
      then (if is_allow d.action then none else some (blocked_url_for url d []))
      else none
