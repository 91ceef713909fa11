-- ===== src/Dispatcher/Confirm.antt =====
-- dispatcher.ts: enqueueConfirmed, the strict dispatch of a prewarm, with confirmActive. The text of an
-- issue's message is left out, and so is the logging.
use framework_module_resizer.Prelude.{
  String, Bool, true, false, not, Option, none, some, List, [], ◌∷◌, ◌++◌, filter, str_eq,
  if◌then◌else◌,
}
use framework_module_resizer.Types.{MissingPreview, EnqueueReceipt, added, in_flight, unconfirmed}
use framework_module_resizer.Database.{Failure, Reply, done, threw}
use framework_module_resizer.Dispatcher.{
  DispatchOutcome, tried, result, add_failed, invalid, not_served, timing_invalid, locks_missing,
  gate_held, route_failed, gate_failed,
}
use framework_module_resizer.Dispatcher.Variants.{
  Confirming, group_variants, take_receipts, unresolved_of, values, has, flat,
}

-- `EnqueueIssue`, by its code.
pub data IssueCode : Type 0 where
  no_original no_queue lock_contended lock_failed queue_failed not_confirmed confirm_failed :
      IssueCode
  variant_conflict task_in_flight pipeline_unknown format_not_configured queue_not_served :
      IssueCode
  internal_error : IssueCode

pub record EnqueueIssue : Type 0 where
  pub code : IssueCode
  pub cause_code : Option String
  pub retryable : Bool
  pub previews : List MissingPreview

-- `ConfirmedEnqueueResult`
pub record ConfirmedEnqueueResult : Type 0 where
  pub accepted : List MissingPreview
  pub unconfirmed_previews : List MissingPreview
  pub tasks : List EnqueueReceipt
  pub issues : List EnqueueIssue
  pub timing_error : Bool

abbrev pub issue : IssueCode → Bool → List MissingPreview → EnqueueIssue
issue code retryable previews = record {
  code = code;
  cause_code = none;
  retryable = retryable;
  previews = previews;
}

-- An issue of the variants, when there are any.
abbrev pub issue_of : IssueCode → Bool → List MissingPreview → List EnqueueIssue
issue_of code retryable [] = []
issue_of code retryable (v ∷ vs) = issue code retryable (v ∷ vs) ∷ []

-- The issue codes by their names; a custom error may carry any code.
unfoldable pub issue_code : String → Option IssueCode
issue_code s =
    if str_eq s "RESIZE_ENQUEUE_NO_ORIGINAL"
    then some no_original
    else if str_eq s "RESIZE_ENQUEUE_NO_QUEUE"
    then some no_queue
    else if str_eq s "RESIZE_ENQUEUE_LOCK_CONTENDED"
    then some lock_contended
    else if str_eq s "RESIZE_ENQUEUE_LOCK_FAILED"
    then some lock_failed
    else if str_eq s "RESIZE_ENQUEUE_QUEUE_FAILED"
    then some queue_failed
    else if str_eq s "RESIZE_ENQUEUE_UNCONFIRMED"
    then some not_confirmed
    else if str_eq s "RESIZE_ENQUEUE_CONFIRM_FAILED"
    then some confirm_failed
    else if str_eq s "RESIZE_ENQUEUE_VARIANT_CONFLICT"
    then some variant_conflict
    else if str_eq s "RESIZE_TASK_IN_FLIGHT"
    then some task_in_flight
    else if str_eq s "RESIZE_PIPELINE_UNKNOWN"
    then some pipeline_unknown
    else if str_eq s "RESIZE_FORMAT_NOT_CONFIGURED"
    then some format_not_configured
    else if str_eq s "RESIZE_QUEUE_NOT_SERVED"
    then some queue_not_served
    else if str_eq s "RESIZE_ENQUEUE_INTERNAL_ERROR"
    then some internal_error
    else none

-- `routeFailureIssue`: `said` is the code and the `retryable` of an error of this package.
abbrev coded : Option IssueCode → String → Bool → List MissingPreview → EnqueueIssue
coded (some c) code retryable previews = issue c retryable previews
coded none code retryable previews = record {
  code = queue_failed;
  cause_code = some code;
  retryable = retryable;
  previews = previews;
}

unfoldable pub route_failure_issue : Option (String × Bool) → List MissingPreview → EnqueueIssue
unfolding issue_code
route_failure_issue (some (code, retryable)) previews =
    coded (issue_code code) code retryable previews
route_failure_issue none previews = issue queue_failed true previews

-- Nothing confirmed, with one issue.
unfoldable pub failed_with :
    (requested conflicts : List MissingPreview)
    → List EnqueueIssue
    → EnqueueIssue
    → ConfirmedEnqueueResult
failed_with requested conflicts issues i = record {
  accepted = [];
  unconfirmed_previews = requested ++ conflicts;
  tasks = [];
  issues = issues ++ i ∷ [];
  timing_error = false;
}

-- The result of `#confirmActive`, after its loop.
unfoldable pub confirmed :
    (identity : MissingPreview → String) (requested conflicts : List MissingPreview)
    → List EnqueueIssue
    → Confirming
    → ConfirmedEnqueueResult
confirmed identity requested conflicts issues c = record {
  accepted = filter (λ v. not (has (identity v) c.unresolved)) requested;
  unconfirmed_previews = values c.unresolved ++ conflicts;
  tasks = c.receipts;
  issues =
      issues
      ++ (issue_of variant_conflict false
            (values (filter (λ e. has e.0 c.unresolved) c.receipt_conflicts))
          ++ issue_of task_in_flight true
              (values (filter (λ e. not (has e.0 c.receipt_conflicts)) c.unresolved)));
  timing_error = false;
}

module _ (canonical : List MissingPreview → List MissingPreview)
    (identity payload : MissingPreview → String) (trim : String → String)
    (said : Failure → Option (String × Bool)) where
  -- `#confirmActive`, with the answer of the carrier's findActive, when it has one.
  unfoldable pub confirm_active :
      Option (Reply (List EnqueueReceipt))
      → (requested conflicts : List MissingPreview) → List EnqueueIssue
      → ConfirmedEnqueueResult
  unfolding confirmed failed_with take_receipts unresolved_of
  confirm_active none requested conflicts issues =
      confirmed identity requested conflicts issues
        (unresolved_of canonical identity payload requested)
  confirm_active (some (threw e)) requested conflicts issues =
      failed_with requested conflicts issues (issue confirm_failed true requested)
  confirm_active (some (done active)) requested conflicts issues =
      confirmed identity requested conflicts issues (
        take_receipts canonical identity payload trim active
          (unresolved_of canonical identity payload requested))

  -- The switch of `enqueueConfirmed`.
  unfoldable pub confirmed_outcome :
      Option (Reply (List EnqueueReceipt))
      → (requested conflicts : List MissingPreview) → List EnqueueIssue
      → DispatchOutcome
      → ConfirmedEnqueueResult
  unfolding confirm_active failed_with route_failure_issue
  confirmed_outcome active requested conflicts issues (tried (result (added id))) = record {
    accepted = requested;
    unconfirmed_previews = conflicts;
    tasks = record { task_id = id; previews = requested } ∷ [];
    issues = issues;
    timing_error = false;
  }
  confirmed_outcome active requested conflicts issues (tried (result (in_flight id))) =
      confirm_active active requested conflicts issues
  confirmed_outcome active requested conflicts issues (tried (result unconfirmed)) =
      failed_with requested conflicts issues (issue not_confirmed true requested)
  confirmed_outcome active requested conflicts issues (tried (add_failed e)) =
      failed_with requested conflicts issues (issue queue_failed true requested)
  confirmed_outcome active requested conflicts issues (tried (invalid stored)) =
      failed_with requested conflicts issues (issue not_confirmed false requested)
  confirmed_outcome active requested conflicts issues not_served =
      failed_with requested conflicts issues (issue queue_not_served false requested)
  confirmed_outcome active requested conflicts issues timing_invalid = record {
    accepted = [];
    unconfirmed_previews = requested ++ conflicts;
    tasks = [];
    issues = [];
    timing_error = true;
  }
  confirmed_outcome active requested conflicts issues locks_missing =
      failed_with requested conflicts issues (record {
        code = lock_failed;
        cause_code = some "RESIZE_LOCKS_REQUIRED";
        retryable = false;
        previews = requested;
      })
  confirmed_outcome active requested conflicts issues gate_held =
      failed_with requested conflicts issues (issue lock_contended true requested)
  confirmed_outcome active requested conflicts issues (route_failed e) =
      failed_with requested conflicts issues (route_failure_issue (said e) requested)
  confirmed_outcome active requested conflicts issues (gate_failed e) =
      failed_with requested conflicts issues (issue lock_failed true requested)

  -- `enqueueConfirmed`, of a dispatch and of the active tasks that findActive reports after it.
  abbrev pub confirm_requested :
      DispatchOutcome
      → Option (Reply (List EnqueueReceipt))
      → (requested conflicts : List MissingPreview) → ConfirmedEnqueueResult
  confirm_requested o active [] conflicts = record {
    accepted = [];
    unconfirmed_previews = conflicts;
    tasks = [];
    issues = issue_of variant_conflict false conflicts;
    timing_error = false;
  }
  confirm_requested o active (v ∷ requested) conflicts =
      confirmed_outcome active (v ∷ requested) conflicts (issue_of variant_conflict false conflicts)
        o

  unfoldable pub confirm_variants :
      (List MissingPreview → DispatchOutcome × Option (Reply (List EnqueueReceipt)))
      → List MissingPreview
      → ConfirmedEnqueueResult
  unfolding confirmed_outcome group_variants
  confirm_variants sent previews =
      let groups = group_variants canonical identity payload previews in
      let requested = values groups.unique in
      confirm_requested (sent requested).0 (sent requested).1 requested
        (flat (values groups.conflicts))

-- `noQueueResult`, of the canonical variants.
unfoldable pub no_queue_result : List MissingPreview → ConfirmedEnqueueResult
no_queue_result canonical = record {
  accepted = [];
  unconfirmed_previews = canonical;
  tasks = [];
  issues = issue no_queue false canonical ∷ [];
  timing_error = false;
}
