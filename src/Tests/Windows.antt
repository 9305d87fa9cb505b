-- ===== src/Tests/Windows.antt =====
-- The Windows extension at concrete inputs.
use ajar_family.Prelude.{◌≡◌, ◌≢◌, refl, [], ◌∷◌, true, false, none, some, arith}
use ajar_family.Text.{Text, codes, all_texts, includes, some_char}
use ajar_family.Policy.Model.{
  TargetType, RuleAction, GrantKind, Reason, TemporaryRule, DevicePolicySnapshot, EvalResult,
}
use ajar_family.Policy.Evaluate as Shared
use ajar_family.Policy.Verdicts.{Verdict}
use ajar_family.Samples.{
  sample_web, sample_rule, sample_grant, sample_snapshot, sample_context, read_address, look_up,
}
use ajar_family.Windows.Hosts.Agreement.{is_settled, optional_listed, all_listed}
use ajar_family.Windows.YouTube.{RequestType}
use ajar_family.Windows.Evaluate.{evaluate, request_hosts, is_active_temp}
use ajar_family.Windows.Evaluate.Walks.{forget_rule_id}
use ajar_family.Windows.Evaluate.Agreement.{with_filters, evaluate-agrees}
use ajar_family.Windows.Worker.{
  Worker, Clocks, DecisionReason, decide, of_result, now_ms, restore_cached_policy, context_of,
}
use ajar_family.Windows.Worker.Pages.{Platform, on_before_request}
use ajar_family.Windows.Worker.Spending.{Steps, once_opens_one_page}
use ajar_family.Windows.Worker.Verdict.{shown, filtered, page_context, frame-Verdict}
use ajar_family.Windows.Worker.Clock.{rewritten, rewritten_anchor_revives_grant}

abbrev video : Text
video = codes "https://www.youtube.com/watch?v=dQw4w9WgXcQ"

abbrev once_grant : TemporaryRule
once_grant =
    record (sample_grant (codes "t1") TargetType.youtube_video (codes "dQw4w9WgXcQ")
      RuleAction.allow) { grant_kind = GrantKind.once }

-- A one-time video and a blocked category.
abbrev held : DevicePolicySnapshot
held =
    record (sample_snapshot
      (sample_rule (codes "p1") TargetType.category (codes "games") RuleAction.block ∷ [])
      (once_grant ∷ [])) { categories = some ((codes "games", codes "play.example" ∷ []) ∷ []) }

abbrev worker : Worker
worker = record {
  snapshot = some held;
  clock_anchor = some (record { server_now_ms = 4000; perf_now_at_anchor = 100 });
  spent = [];
  category_filters = some ((codes "social", record { m = 8; k = 2; bits = 255 ∷ [] }) ∷ []);
  backend_mode = true;
  cname = [];
}

abbrev clocks : Clocks
clocks = record { perf_now = 600; date_now = 4500 }

abbrev platform : Platform
platform = record { encode = λ t. t; block_page = codes "ext://blocked.html" }

settled_video :
    all_texts is_settled
      (Shared.request_host sample_web video ∷ request_hosts sample_web (sample_context video))
    ≡ true
unfolding all_texts is_settled request_hosts Shared.request_host read_address includes
settled_video = refl

listed_games : optional_listed held.categories ≡ true
unfolding all_listed some_char
listed_games = refl

evaluate-agrees_example :
    evaluate sample_web worker.category_filters held (sample_context video)
    ≡ forget_rule_id (
        Shared.evaluate sample_web held
          (with_filters sample_web worker.category_filters held (sample_context video)))
evaluate-agrees_example =
    evaluate-agrees sample_web worker.category_filters held (sample_context video) settled_video
      listed_games

allowed_once : decide sample_web worker clocks video RequestType.main_frame ≡ record {
  action = RuleAction.allow;
  reason = DecisionReason.by_policy (Reason.temporary GrantKind.once);
  matched_rule_id = some (codes "t1");
  matched_key = some (codes "YOUTUBE_VIDEO:dQw4w9WgXcQ");
}
unfolding decide read_address look_up
allowed_once = refl

abbrev after_page : Worker
after_page = (on_before_request sample_web platform worker clocks video RequestType.main_frame []).0

once_opens_one_page_example :
    (decide sample_web after_page clocks video RequestType.main_frame).matched_rule_id
    ≢ some (codes "t1")
once_opens_one_page_example =
    once_opens_one_page sample_web platform (codes "t1") worker clocks clocks video video []
      (rw allowed_once refl) (rw allowed_once refl) (rw allowed_once refl) refl Steps.done

settled_page :
    all_texts is_settled (
      Shared.request_host sample_web video
      ∷ request_hosts sample_web
          (page_context sample_web worker clocks video RequestType.main_frame held))
    ≡ true
unfolding all_texts is_settled request_hosts Shared.request_host read_address includes context_of
settled_page = refl

frame-Verdict_example :
    (r : EvalResult) × Verdict sample_web
      (shown sample_web worker clocks video RequestType.main_frame held)
      (filtered sample_web worker clocks video RequestType.main_frame held)
      r
    × (decide sample_web worker clocks video RequestType.main_frame ≡ of_result (forget_rule_id r))
frame-Verdict_example =
    frame-Verdict sample_web worker clocks video RequestType.main_frame held refl refl settled_page
      listed_games

abbrev late_clocks : Clocks
late_clocks = record { perf_now = 50; date_now = 20000 }

rewritten_anchor_revives_grant_example :
    (is_active_temp once_grant late_clocks.date_now ≡ false)
    × (is_active_temp once_grant (
          now_ms
            (restore_cached_policy
              (λ s k. false)
              (λ f k. false)
              none
              (rewritten 1000 late_clocks)
              late_clocks
              worker)
            late_clocks)
        ≡ true)
rewritten_anchor_revives_grant_example =
    rewritten_anchor_revives_grant (λ s k. false) (λ f k. false) none late_clocks worker once_grant
      refl refl (omega arith) (omega arith)
