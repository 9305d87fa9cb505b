-- ===== src/Windows/Worker/Verdict.antt =====
-- The worker decides a page by the verdict of the shared evaluator.
use ajar_family.Prelude.{◌≡◌, ◌∙◌, ap, true, some, ◌∷◌, if-elim}
use ajar_family.Text.{Text, all_texts}
use ajar_family.Web.{UrlApi}
use ajar_family.Policy.Model.{DevicePolicySnapshot, EvalResult, EvalContext}
use ajar_family.Policy.Evaluate.{request_host}
use ajar_family.Policy.Evaluate as Shared
use ajar_family.Policy.Verdicts.{Verdict, evaluate-Verdict}
use ajar_family.Windows.Hosts.Agreement.{is_settled, optional_listed}
use ajar_family.Windows.YouTube.{RequestType, is_frame}
use ajar_family.Windows.Evaluate.{request_hosts}
use ajar_family.Windows.Evaluate.Walks.{forget_rule_id}
use ajar_family.Windows.Evaluate.Agreement.{with_filters, evaluate-agrees}
use ajar_family.Windows.Worker.{
  Worker, Clocks, decide, of_result, is_main_frame, context_of, visible_snapshot,
}
use ajar_family.Windows.Worker.Spending.{frame_decision}

module _ (web : UrlApi) (w : Worker) (c : Clocks) (url : Text) (type : RequestType)
    (s : DevicePolicySnapshot) where
  abbrev pub shown : DevicePolicySnapshot
  shown = visible_snapshot w type s

  abbrev pub page_context : EvalContext
  page_context = context_of web w c s url

  abbrev pub filtered : EvalContext
  filtered = with_filters web w.category_filters shown page_context

  -- A page or an embedded frame, with a snapshot held, settled hosts and well-written inline lists, is
  -- decided by the shared evaluator's verdict on the snapshot the worker shows it, less the id of a
  -- standing rule; no exception for playback applies.
  pub frame-Verdict :
      is_frame type ≡ true
      → w.snapshot ≡ some s
      → all_texts is_settled (request_host web url ∷ request_hosts web page_context) ≡ true
      → optional_listed s.categories ≡ true
      → (r : EvalResult) × Verdict web shown filtered r
        × (decide web w c url type ≡ of_result (forget_rule_id r))
  frame-Verdict frame held settled listed = (
    Shared.evaluate web shown filtered,
    evaluate-Verdict web shown filtered,
    frame_decision web w c url type frame held
        ∙ ap of_result (
            evaluate-agrees web w.category_filters shown page_context (unfold context_of in settled)
              (same_lists listed)),
  )
    where
      same_lists : optional_listed s.categories ≡ true → optional_listed shown.categories ≡ true
      same_lists h =
          unfold visible_snapshot in
          if-elim (λ (x : DevicePolicySnapshot). optional_listed x.categories ≡ true)
            (is_main_frame type) (λ b. h) (λ b. h)
