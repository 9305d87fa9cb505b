-- ===== src/Tests/Evaluator.antt =====
-- The evaluator at concrete inputs.
use ajar_family.Prelude.{◌≡◌, ◌≢◌, refl, ◌⊎◌, [], ◌∷◌, true, false, none, some, Memᴰ, Bool}
use ajar_family.Host.{normalize_host}
use ajar_family.Text.{Text, codes, same, some_char}
use ajar_family.Text.Laws.{has_upper}
use ajar_family.Prelude.Int.{ℤ, ◌-ℤ◌}
use ajar_family.Samples.{read_address, look_up}
use ajar_family.Safety.{is_safety_floor_host}
use ajar_family.YouTube.{normalize_youtube}
use ajar_family.Policy.Model.{
  TargetType, RuleAction, PolicyRule, TemporaryRule, DevicePolicySnapshot, EvalContext, Reason,
  ScopeType,
}
use ajar_family.Policy.Match.{match_target}
use ajar_family.Policy.Evaluate.{
  evaluate, request_facts, rule_applies_to_scope, is_active_temp, request_host,
}
use ajar_family.Policy.Decisions.{IsLive}
use ajar_family.Policy.Verdicts.{Verdict, evaluate-Verdict}
use ajar_family.Policy.Guarantees.{
  OpenedByRule, DecidedOver, Opening, deny_wins_tie, grant_overrides_rules, default_deny,
}
use ajar_family.Policy.Pruning.{pruned, evaluate-pruned}
use ajar_family.Policy.Hosts.{capital_domain_never_matches}
use ajar_family.Policy.Chain.{OpensNoHost, without_chain, chain_only_closes}
use ajar_family.Policy.Playlists.{allowed_playlist_opens_no_video}
use ajar_family.Policy.Limits.{chain_can_open, older_grant_wins_tie}
use ajar_family.Samples.{
  sample_web, sample_rule, sample_grant, sample_snapshot, sample_context, family_scope,
}

abbrev video_page : EvalContext
video_page = sample_context (codes "https://www.youtube.com/watch?v=dQw4w9WgXcQ")

abbrev allow_video : PolicyRule
allow_video =
    sample_rule (codes "a") TargetType.youtube_video (codes "dQw4w9WgXcQ") RuleAction.allow

abbrev block_site : PolicyRule
block_site = sample_rule (codes "b") TargetType.domain (codes "youtube.com") RuleAction.block

abbrev grant_site : TemporaryRule
grant_site = sample_grant (codes "g") TargetType.domain (codes "youtube.com") RuleAction.allow

abbrev two_rules : DevicePolicySnapshot
two_rules = sample_snapshot (block_site ∷ allow_video ∷ []) []

two_rules_test :
    (evaluate sample_web two_rules video_page).reason ≡ Reason.rule TargetType.youtube_video
unfolding evaluate read_address look_up
two_rules_test = refl

evaluate-Verdict_example :
    Verdict sample_web two_rules video_page (evaluate sample_web two_rules video_page)
evaluate-Verdict_example = evaluate-Verdict sample_web two_rules video_page

-- A key for a rule at the video page.
off_floor : is_safety_floor_host (request_host sample_web video_page.url) ≡ false
unfolding is_safety_floor_host request_host read_address
off_floor = refl

some_key : {k : Text} → some k ≢ none
some_key e = cc e

block_site_matches :
    match_target sample_web video_page (request_facts sample_web two_rules video_page) block_site
    ≢ none
unfolding match_target request_facts read_address look_up
block_site_matches = some_key

-- A rule for another device, and a grant that has ended: both are left out.
abbrev other_device : PolicyRule
other_device = record block_site {
  id = codes "o";
  scope = record family_scope { type = ScopeType.device; device_id = some (codes "d9") };
}

abbrev ended : TemporaryRule
ended = record grant_site { expires_at = some 4000 }

abbrev crowded : DevicePolicySnapshot
crowded = sample_snapshot (other_device ∷ block_site ∷ allow_video ∷ []) (ended ∷ grant_site ∷ [])

abbrev live : TemporaryRule → Bool
live t = is_active_temp t video_page.now_ms

abbrev own : PolicyRule → Bool
own u = rule_applies_to_scope u.scope video_page

pruned_test :
    pruned sample_web video_page live own crowded
    ≡ sample_snapshot (block_site ∷ allow_video ∷ []) (grant_site ∷ [])
unfolding is_active_temp rule_applies_to_scope same
pruned_test = refl

evaluate-pruned_example :
    evaluate sample_web (pruned sample_web video_page live own crowded) video_page
    ≡ evaluate sample_web crowded video_page
evaluate-pruned_example =
    evaluate-pruned sample_web video_page live own crowded (λ t a b. b) (λ u a. a)

-- An ALLOW and a BLOCK for the same site, the ALLOW of a higher priority.
abbrev strong_allow : PolicyRule
strong_allow =
    record (sample_rule (codes "s") TargetType.domain (codes "youtube.com") RuleAction.allow) {
      priority = some (ℤ.pos 20);
    }

abbrev tied : DevicePolicySnapshot
tied = sample_snapshot (block_site ∷ strong_allow ∷ []) []

tied_reason : (evaluate sample_web tied video_page).reason ≡ Reason.rule block_site.target
unfolding evaluate read_address look_up ◌-ℤ◌
tied_reason = refl

tied_action : (evaluate sample_web tied video_page).action ≡ RuleAction.allow
unfolding evaluate read_address look_up ◌-ℤ◌
tied_action = refl

tied_matches :
    match_target sample_web video_page (request_facts sample_web tied video_page) block_site ≢ none
unfolding match_target request_facts read_address look_up
tied_matches = some_key

applies : rule_applies_to_scope family_scope video_page ≡ true
unfolding rule_applies_to_scope
applies = refl

deny_wins_tie_example :
    OpenedByRule sample_web tied video_page (evaluate sample_web tied video_page) block_site
deny_wins_tie_example =
    deny_wins_tie sample_web tied video_page block_site (Memᴰ.head refl) applies refl tied_matches
      tied_action tied_reason

-- A grant over the blocking rule.
abbrev granted : DevicePolicySnapshot
granted = sample_snapshot (block_site ∷ []) (grant_site ∷ [])

grant-IsLive : IsLive sample_web video_page (request_facts sample_web granted video_page) grant_site
unfolding rule_applies_to_scope is_active_temp
grant-IsLive = record { applies = refl; active = refl }

grant_matches :
    match_target sample_web video_page (request_facts sample_web granted video_page) grant_site.rule
    ≢ none
unfolding match_target request_facts read_address look_up
grant_matches = some_key

grant_overrides_rules_example :
    DecidedOver sample_web granted video_page (evaluate sample_web granted video_page) grant_site
grant_overrides_rules_example =
    grant_overrides_rules sample_web granted video_page grant_site off_floor (Memᴰ.head refl)
      grant-IsLive grant_matches

granted_opens : (evaluate sample_web granted video_page).action ≡ RuleAction.allow
unfolding evaluate read_address look_up
granted_opens = refl

default_deny_example : Opening sample_web granted video_page
default_deny_example = default_deny sample_web granted video_page refl refl granted_opens

-- Two grants that tie: the older opens, the newer blocks.
abbrev block_grant : TemporaryRule
block_grant = sample_grant (codes "h") TargetType.domain (codes "youtube.com") RuleAction.block

abbrev two_grants : DevicePolicySnapshot
two_grants = sample_snapshot [] (grant_site ∷ block_grant ∷ [])

IsLive-in :
    (s : DevicePolicySnapshot) (action : RuleAction) (id : Text)
    → IsLive sample_web video_page
        (request_facts sample_web s video_page)
        (sample_grant id TargetType.domain (codes "youtube.com") action)
unfolding rule_applies_to_scope is_active_temp
IsLive-in s action id = record { applies = refl; active = refl }

older_matches :
    match_target sample_web video_page
      (request_facts sample_web two_grants video_page)
      grant_site.rule
    ≢ none
unfolding match_target request_facts read_address look_up
older_matches = some_key

older_grant_wins_tie_example :
    (evaluate sample_web two_grants video_page).action ≡ grant_site.action
older_grant_wins_tie_example =
    older_grant_wins_tie sample_web two_grants video_page grant_site block_grant off_floor refl
      (IsLive-in two_grants RuleAction.allow (codes "g"))
      (IsLive-in two_grants RuleAction.block (codes "h")) older_matches refl refl

-- A device reports the chain of a host.
abbrev tracked : EvalContext
tracked = record (sample_context (codes "https://cdn.shop.com/x")) {
  resolved_hosts = some (codes "tracker.net" ∷ []);
}

abbrev closing : DevicePolicySnapshot
closing =
    sample_snapshot
      (sample_rule (codes "t") TargetType.domain (codes "tracker.net") RuleAction.block ∷ []) []

closing_rules : (u : PolicyRule) → Memᴰ u closing.rules → OpensNoHost u
closing_rules u (Memᴰ.head e) = rw e (λ p. refl, λ p. refl)
closing_rules u (Memᴰ.tail m) = elim m [ ]

chain_only_closes_example :
    (evaluate sample_web closing tracked ≡ evaluate sample_web closing (without_chain tracked))
    ⊎ ((evaluate sample_web closing tracked).action ≡ RuleAction.block)
chain_only_closes_example =
    chain_only_closes sample_web closing tracked closing_rules (λ t m. elim m [ ])

abbrev allow_tracker : PolicyRule
allow_tracker = sample_rule (codes "o") TargetType.domain (codes "tracker.net") RuleAction.allow

abbrev opening : DevicePolicySnapshot
opening = sample_snapshot (allow_tracker ∷ []) []

opening_applies : rule_applies_to_scope family_scope tracked ≡ true
unfolding rule_applies_to_scope
opening_applies = refl

tracker_normal : normalize_host (codes "tracker.net") ≡ codes "tracker.net"
unfolding normalize_host
tracker_normal = refl

chain_can_open_example : (evaluate sample_web opening tracked).action ≡ RuleAction.allow
chain_can_open_example =
    chain_can_open sample_web opening tracked allow_tracker refl refl refl refl opening_applies refl
      tracker_normal refl

-- A playlist's own page, and a DOMAIN rule with a capital letter.
abbrev playlist_page : EvalContext
playlist_page = sample_context (codes "https://www.youtube.com/playlist?list=PLabcdefghij")

abbrev allow_playlist : PolicyRule
allow_playlist =
    sample_rule (codes "p") TargetType.youtube_playlist (codes "PLabcdefghij") RuleAction.allow

playlist_matches :
    match_target sample_web playlist_page
      (request_facts sample_web (sample_snapshot [] []) playlist_page)
      allow_playlist
    ≢ none
unfolding match_target request_facts read_address look_up
playlist_matches = some_key

allowed_playlist_opens_no_video_example :
    (normalize_youtube sample_web playlist_page.url).video_id ≡ none
allowed_playlist_opens_no_video_example =
    allowed_playlist_opens_no_video sample_web (sample_snapshot [] []) playlist_page allow_playlist
      refl refl playlist_matches

abbrev capital_rule : PolicyRule
capital_rule = sample_rule (codes "k") TargetType.domain (codes "YouTube.com") RuleAction.block

capital_has_upper : has_upper (codes "YouTube.com") ≡ true
unfolding some_char
capital_has_upper = refl

capital_domain_never_matches_example :
    match_target sample_web video_page (request_facts sample_web two_rules video_page) capital_rule
    ≡ none
capital_domain_never_matches_example =
    capital_domain_never_matches sample_web two_rules video_page capital_rule refl capital_has_upper
