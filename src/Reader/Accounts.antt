-- ===== src/Reader/Accounts.antt =====
-- reader.ts: a prewarm never claims to be done with a variant that is not confirmed.
use framework_module_resizer.Prelude.{
  String, Bool, true, false, not, ◌||◌, Option, none, some, List, [], ◌∷◌, filter, length, ◌==◌,
  if◌then◌else◌, ◌≡◌, refl, arith,
}
use framework_module_resizer.Types.{Original, MissingPreview}
use framework_module_resizer.Database.{Failure, Reply, done, threw}
use framework_module_resizer.Dispatcher.Confirm.{
  issue, no_original, ConfirmedEnqueueResult, no_queue_result,
}
use framework_module_resizer.Catalog.Formats.{is_configured_format}
use framework_module_resizer.Reader.{has_original}
use framework_module_resizer.Reader.Prewarm.{
  filtered_out, PrewarmStatus, is_ready, is_accepted, is_not_required, is_incomplete, PrewarmResult,
  prewarm_failure, with_unconfigured_formats, Parts, report, nothing_required, failure_report,
  attempt_report, PrewarmQueue, queueing, unusable, no_task_queue, sent_report, by_queue,
  prewarm_parts, after_policy, parts_of, add_unconfigured, prewarm,
}

abbrev pub says_incomplete : PrewarmStatus → Bool
says_incomplete is_incomplete = true
says_incomplete s = false

-- Nothing is unconfirmed, or the status says so.
abbrev pub is_honest : PrewarmResult → Bool
is_honest r = says_incomplete r.status || (length r.unconfirmed_previews == 0)

with_unconfigured_formats-is_honest :
    (r : PrewarmResult) (us : List MissingPreview)
    → is_honest r ≡ true
    → is_honest (with_unconfigured_formats r us) ≡ true
unfolding with_unconfigured_formats
with_unconfigured_formats-is_honest r [] h = h
with_unconfigured_formats-is_honest r (u ∷ us) h = refl

nothing_required-is_honest : (parts : Parts) → is_honest (nothing_required parts) ≡ true
nothing_required-is_honest parts = by_test (length parts.ready == 0)
  where
    by_test :
        (b : Bool)
        → is_honest (
            if b
            then report is_not_required (some filtered_out) parts [] [] [] []
            else report is_ready none parts [] [] [] [])
          ≡ true
    by_test true = refl
    by_test false = refl

attempt_report-is_honest :
    (retryable : Bool) (parts : Parts) (a : ConfirmedEnqueueResult)
    → is_honest (attempt_report retryable parts a) ≡ true
attempt_report-is_honest retryable parts a =
    by_tests a.timing_error (length a.unconfirmed_previews == 0) refl
  where
    by_tests :
        (t b : Bool)
        → (length a.unconfirmed_previews == 0) ≡ b
        → is_honest (
            if t
            then failure_report retryable parts
            else report
                (if b then is_accepted else is_incomplete)
                none
                parts
                a.accepted
                a.unconfirmed_previews
                a.tasks
                a.issues)
          ≡ true
    by_tests true b e = refl
    by_tests false true e = ground (arith, e)
    by_tests false false e = refl

module _ (canonical : List MissingPreview → List MissingPreview) (no_retry : Failure → Bool)
    (timing_retryable : Bool) where
  by_queue-is_honest :
      (q : PrewarmQueue) (parts : Parts) (us : List MissingPreview)
      → is_honest (by_queue canonical no_retry timing_retryable q parts us) ≡ true
  unfolding prewarm_failure
  by_queue-is_honest (unusable retryable) parts us = with_unconfigured_formats-is_honest _ us refl
  by_queue-is_honest no_task_queue parts us =
      with_unconfigured_formats-is_honest _ us (
        attempt_report-is_honest timing_retryable parts
          (no_queue_result (canonical parts.required)))
  by_queue-is_honest (queueing send) parts us = by_reply (send parts.required)
    where
      by_reply :
          (r : Reply ConfirmedEnqueueResult)
          → is_honest (sent_report canonical no_retry timing_retryable parts us r) ≡ true
      by_reply (threw e) = refl
      by_reply (done a) =
          with_unconfigured_formats-is_honest _ us
            (attempt_report-is_honest timing_retryable parts a)

  prewarm_parts-is_honest :
      (q : PrewarmQueue) (original : Option Original) (parts : Parts) (us : List MissingPreview)
      → is_honest (prewarm_parts canonical no_retry timing_retryable q original parts us) ≡ true
  unfolding prewarm_parts
  prewarm_parts-is_honest q original parts us =
      by_tests (length parts.required == 0) (has_original original)
    where
      by_tests :
          (b c : Bool)
          → is_honest (
              if b
              then with_unconfigured_formats (nothing_required parts) us
              else if not c
              then with_unconfigured_formats
                  (report is_incomplete none parts [] parts.required []
                    (issue no_original false parts.required ∷ []))
                  us
              else by_queue canonical no_retry timing_retryable q parts us)
            ≡ true
      by_tests true c = with_unconfigured_formats-is_honest _ us (nothing_required-is_honest parts)
      by_tests false false = with_unconfigured_formats-is_honest _ us refl
      by_tests false true = by_queue-is_honest q parts us

  module _ (identity : MissingPreview → String) (is_fresh : String → Bool) (encoders : List String)
      (before_enqueue : List MissingPreview → List MissingPreview × List MissingPreview) where
    abbrev parts : List MissingPreview → Parts
    parts = parts_of canonical no_retry timing_retryable identity is_fresh encoders before_enqueue

    -- On every path, a prewarm with an unconfirmed variant says that it is incomplete.
    pub prewarm-is_honest :
        (known : Bool) (q : PrewarmQueue) (original : Option Original)
        (before unconfigured : List MissingPreview)
        → is_honest (
            prewarm canonical no_retry timing_retryable identity is_fresh encoders before_enqueue
              known q original before unconfigured)
          ≡ true
    unfolding prewarm
    prewarm-is_honest false q original before us = with_unconfigured_formats-is_honest _ us refl
    prewarm-is_honest true q original [] us = with_unconfigured_formats-is_honest _ us refl
    prewarm-is_honest true q original (v ∷ before) us =
        prewarm_parts-is_honest q original (parts (v ∷ before)) (
          add_unconfigured canonical no_retry timing_retryable identity is_fresh encoders
            before_enqueue
            (filter (λ v. not (is_configured_format encoders v.format))
              (after_policy canonical no_retry timing_retryable identity is_fresh encoders
                before_enqueue (v ∷ before)))
            us)
