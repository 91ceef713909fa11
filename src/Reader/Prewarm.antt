-- ===== src/Reader/Prewarm.antt =====
-- reader.ts: `prewarm`, which queues what a catalog lacks and reports every requested variant. The host's
-- tap, the dispatcher's answer and whether an error says that a retry cannot help are parameters; the
-- logging is left out. A tap that throws is skipped by the hooks, so it stands here as one that answers
-- with the list as it left it.
use framework_module_resizer.Prelude.{
  String, Bool, true, false, not, Option, none, some, List, [], ◌∷◌, ◌++◌, filter, any, length,
  ◌==◌, str_eq, if◌then◌else◌,
}
use framework_module_resizer.Types.{Original, MissingPreview, EnqueueReceipt}
use framework_module_resizer.Database.{Failure, Reply, done, threw}
use framework_module_resizer.Catalog.Formats.{is_configured_format}
use framework_module_resizer.Dispatcher.Confirm.{
  no_original, pipeline_unknown, format_not_configured, internal_error, EnqueueIssue, issue,
  ConfirmedEnqueueResult, no_queue_result,
}
use framework_module_resizer.Reader.{has_original}

pub data PrewarmStatus : Type 0 where
  is_ready is_accepted is_not_required is_incomplete : PrewarmStatus

pub data Reason : Type 0 where
  empty_request filtered_out : Reason

-- `PrewarmResult`
pub record PrewarmResult : Type 0 where
  pub status : PrewarmStatus
  pub reason : Option Reason
  pub requested : List MissingPreview
  pub ready : List MissingPreview
  pub accepted : List MissingPreview
  pub not_required : List MissingPreview
  pub unconfirmed_previews : List MissingPreview
  pub tasks : List EnqueueReceipt
  pub issues : List EnqueueIssue

-- `prewarmFailure`
unfoldable pub prewarm_failure : (retryable : Bool) → List MissingPreview → PrewarmResult
prewarm_failure retryable requested = record {
  status = is_incomplete;
  reason = none;
  requested = requested;
  ready = [];
  accepted = [];
  not_required = [];
  unconfirmed_previews = requested;
  tasks = [];
  issues = issue internal_error retryable requested ∷ [];
}

-- `withUnconfiguredFormats`
unfoldable pub with_unconfigured_formats : PrewarmResult → List MissingPreview → PrewarmResult
with_unconfigured_formats r [] = r
with_unconfigured_formats r (v ∷ vs) = record r {
  status = is_incomplete;
  reason = none;
  requested = r.requested ++ v ∷ vs;
  unconfirmed_previews = r.unconfirmed_previews ++ v ∷ vs;
  issues = r.issues ++ issue format_not_configured false (v ∷ vs) ∷ [];
}

-- What was asked and what of it is ready, required, and not required.
pub record Parts : Type 0 where
  pub ready : List MissingPreview
  pub required : List MissingPreview
  pub not_required : List MissingPreview

abbrev pub requested_of : Parts → List MissingPreview
requested_of parts = parts.ready ++ (parts.required ++ parts.not_required)

abbrev pub report :
    PrewarmStatus
    → Option Reason
    → Parts
    → (accepted unconfirmed_previews : List MissingPreview) → List EnqueueReceipt
    → List EnqueueIssue
    → PrewarmResult
report status reason parts accepted unconfirmed_previews tasks issues = record {
  status = status;
  reason = reason;
  requested = requested_of parts;
  ready = parts.ready;
  accepted = accepted;
  not_required = parts.not_required;
  unconfirmed_previews = unconfirmed_previews;
  tasks = tasks;
  issues = issues;
}

-- `{ ...prewarmFailure(error, required), requested, ready, notRequired }`
abbrev pub failure_report : Bool → Parts → PrewarmResult
failure_report retryable parts =
    report is_incomplete none parts [] parts.required []
      (issue internal_error retryable parts.required ∷ [])

-- Without a required variant.
abbrev pub nothing_required : Parts → PrewarmResult
nothing_required parts =
    if length parts.ready == 0
    then report is_not_required (some filtered_out) parts [] [] [] []
    else report is_ready none parts [] [] [] []

-- The end of `prewarm`, of what the dispatcher confirmed; an invalid timing is reported as a task
-- queue that cannot be used.
abbrev pub attempt_report :
    (timing_retryable : Bool) → Parts → ConfirmedEnqueueResult → PrewarmResult
attempt_report timing_retryable parts a =
    if a.timing_error
    then failure_report timing_retryable parts
    else report (if length a.unconfirmed_previews == 0 then is_accepted else is_incomplete) none
        parts a.accepted a.unconfirmed_previews a.tasks a.issues

abbrev pub named : (MissingPreview → String) → String → List MissingPreview → Bool
named identity x vs = any (λ v. str_eq x (identity v)) vs

-- The task queue of a prewarm: the dispatcher, or the failure that keeps it from being used, with
-- whether a retry may help; or neither.
pub data PrewarmQueue : Type 0 where
  queueing : (List MissingPreview → Reply ConfirmedEnqueueResult) → PrewarmQueue
  unusable : (retryable : Bool) → PrewarmQueue
  no_task_queue : PrewarmQueue

module _ (canonical : List MissingPreview → List MissingPreview) (no_retry : Failure → Bool)
    (timing_retryable : Bool) where
  -- The catch of `prewarm` reports all that was expanded.
  abbrev pub sent_report :
      Parts → (unconfigured : List MissingPreview) → Reply ConfirmedEnqueueResult → PrewarmResult
  sent_report parts unconfigured (threw e) =
      prewarm_failure (not (no_retry e)) (requested_of parts ++ unconfigured)
  sent_report parts unconfigured (done a) =
      with_unconfigured_formats (attempt_report timing_retryable parts a) unconfigured

  abbrev pub by_queue : PrewarmQueue → Parts → (unconfigured : List MissingPreview) → PrewarmResult
  by_queue (queueing send) parts unconfigured = sent_report parts unconfigured (send parts.required)
  by_queue (unusable retryable) parts unconfigured =
      with_unconfigured_formats (failure_report retryable parts) unconfigured
  by_queue no_task_queue parts unconfigured =
      with_unconfigured_formats
        (attempt_report timing_retryable parts (no_queue_result (canonical parts.required)))
        unconfigured

  -- After the policy.
  unfoldable pub prewarm_parts :
      PrewarmQueue → Option Original → Parts → (unconfigured : List MissingPreview) → PrewarmResult
  unfolding prewarm_failure with_unconfigured_formats no_queue_result
  prewarm_parts q original parts unconfigured =
      if length parts.required == 0
      then with_unconfigured_formats (nothing_required parts) unconfigured
      else if not (has_original original)
      then with_unconfigured_formats
          (report is_incomplete none parts [] parts.required []
            (issue no_original false parts.required ∷ []))
          unconfigured
      else by_queue q parts unconfigured

  module _ (identity : MissingPreview → String) (is_fresh : String → Bool) (encoders : List String)
      (before_enqueue : List MissingPreview → List MissingPreview × List MissingPreview) where
    -- The variants without a fresh row, which the tap is given. The tap may change that list in place:
    -- `before_enqueue` gives its answer, and what it left in the list.
    abbrev pub missing_of : List MissingPreview → List MissingPreview
    missing_of before = filter (λ v. not (is_fresh (identity v))) before

    -- What the tap returned for the missing variants, canonical and not fresh.
    unfoldable pub after_policy : List MissingPreview → List MissingPreview
    after_policy before =
        filter (λ v. not (is_fresh (identity v))) (canonical (before_enqueue (missing_of before)).0)

    unfoldable pub parts_of : List MissingPreview → Parts
    unfolding after_policy is_configured_format
    parts_of before =
        let required = filter (λ v. is_configured_format encoders v.format) (after_policy before) in
        record {
          ready = filter (λ v. is_fresh (identity v)) before;
          required = required;
          not_required =
              filter (λ v. not (named identity (identity v) required))
                (before_enqueue (missing_of before)).1;
        }

    -- The variants of the tap in formats without settings join those of the call, once per identity.
    unfoldable pub add_unconfigured :
        List MissingPreview → List MissingPreview → List MissingPreview
    add_unconfigured [] us = us
    add_unconfigured (v ∷ vs) us =
        add_unconfigured vs (if named identity (identity v) us then us else us ++ v ∷ [])

    abbrev pub unknown_report : List MissingPreview → PrewarmResult
    unknown_report before = record {
      status = is_incomplete;
      reason = none;
      requested = before;
      ready = [];
      accepted = [];
      not_required = [];
      unconfirmed_previews = before;
      tasks = [];
      issues = issue pipeline_unknown false before ∷ [];
    }

    abbrev pub empty_report : PrewarmResult
    empty_report =
        report is_not_required (some empty_request)
          (record { ready = []; required = []; not_required = [] }) [] [] [] []

    -- `prewarm`, of the variants that the catalog expands to in configured formats and in others.
    unfoldable pub prewarm :
        (known : Bool)
        → PrewarmQueue
        → Option Original
        → (before unconfigured : List MissingPreview) → PrewarmResult
    unfolding parts_of add_unconfigured prewarm_parts with_unconfigured_formats
    prewarm false q original before unconfigured =
        with_unconfigured_formats (unknown_report before) unconfigured
    prewarm true q original [] unconfigured = with_unconfigured_formats empty_report unconfigured
    prewarm true q original (v ∷ before) unconfigured =
        prewarm_parts q original (parts_of (v ∷ before)) (
          add_unconfigured
            (filter (λ v. not (is_configured_format encoders v.format)) (after_policy (v ∷ before)))
            unconfigured)
