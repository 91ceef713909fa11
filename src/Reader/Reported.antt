-- ===== src/Reader/Reported.antt =====
-- reader.ts: a prewarm reports every variant it was asked for.
use framework_module_resizer.Prelude.{
  String, Bool, true, false, not, ◌&&◌, ◌||◌, Option, none, some, List, [], ◌∷◌, ◌++◌, filter,
  keep_if, any_append, length, ◌==◌, str_eq, eq_iff, if◌then◌else◌, ◌≡◌, refl, ap, ◌∙◌, arith,
}
use framework_module_resizer.Types.{Original, MissingPreview}
use framework_module_resizer.Database.{Failure, Reply, done, threw}
use framework_module_resizer.Dispatcher.Confirm.{
  issue, no_original, ConfirmedEnqueueResult, no_queue_result,
}
use framework_module_resizer.Catalog.Formats.{is_configured_format}
use framework_module_resizer.Reader.{has_original}
use framework_module_resizer.Reader.Prewarm.{
  filtered_out, is_ready, is_accepted, is_not_required, is_incomplete, PrewarmResult,
  prewarm_failure, with_unconfigured_formats, Parts, requested_of, report, failure_report,
  attempt_report, PrewarmQueue, queueing, unusable, no_task_queue, sent_report, by_queue,
  prewarm_parts, named, missing_of, after_policy, parts_of, add_unconfigured, prewarm,
}

module _ (canonical : List MissingPreview → List MissingPreview) (no_retry : Failure → Bool)
    (timing_retryable : Bool) (identity : MissingPreview → String) (is_fresh : String → Bool)
    (encoders : List String)
    (before_enqueue : List MissingPreview → List MissingPreview × List MissingPreview) where
  abbrev parts : List MissingPreview → Parts
  parts = parts_of canonical no_retry timing_retryable identity is_fresh encoders before_enqueue

  abbrev missing : List MissingPreview → List MissingPreview
  missing = missing_of canonical no_retry timing_retryable identity is_fresh encoders before_enqueue

  abbrev name_of : String → List MissingPreview → Bool
  name_of = named identity

  any-filter_by :
      (p : String → Bool) (x : String) (vs : List MissingPreview)
      → name_of x (filter (λ v. p (identity v)) vs) ≡ p x && name_of x vs
  any-filter_by p x [] = ground arith
  any-filter_by p x (v ∷ vs) =
      by_test (p (identity v)) refl (str_eq x (identity v)) refl (any-filter_by p x vs)
    where
      by_test :
          (b : Bool)
          → p (identity v) ≡ b
          → (c : Bool) → str_eq x (identity v) ≡ c
          → name_of x (filter (λ v. p (identity v)) vs) ≡ p x && name_of x vs
          → name_of x (keep_if b v (filter (λ v. p (identity v)) vs)) ≡ p x && (c || name_of x vs)
      by_test true e true n ih =
          let same : p x ≡ true = ap p ((eq_iff x (identity v)).0 n) ∙ e in ground (arith, n, same)
      by_test true e false n ih = ground (arith, n, ih)
      by_test false e true n ih =
          let same : p x ≡ false = ap p ((eq_iff x (identity v)).0 n) ∙ e in
          ground (arith, same, ih)
      by_test false e false n ih = ground (arith, ih)

  -- Nothing asked for is lost between what is ready, required, and not required.
  parts-named :
      (x : String) (before : List MissingPreview)
      → (name_of x (missing before) ≡ true → name_of x (before_enqueue (missing before)).1 ≡ true)
      → name_of x before ≡ true
      → name_of x (requested_of (parts before)) ≡ true
  unfolding parts_of
  parts-named x before kept h =
      let p = parts before in
      let left = (before_enqueue (missing before)).1 in
      let has : String → Bool = λ y. name_of y p.required in
      let a = any_append (λ v. str_eq x (identity v)) p.ready (p.required ++ p.not_required) in
      let b = any_append (λ v. str_eq x (identity v)) p.required p.not_required in
      let c = any-filter_by is_fresh x before in
      let d = any-filter_by (λ y. not (has y)) x left in
      let e = any-filter_by (λ y. not (is_fresh y)) x before in
      a
      ∙ settle (name_of x p.ready) (name_of x p.required) (name_of x p.not_required)
          (name_of x (p.required ++ p.not_required)) (name_of x left) (name_of x (missing before))
          (is_fresh x) (name_of x before) b c d e kept h
    where
      settle :
          (r q n qn l m f t : Bool)
          → qn ≡ q || n
          → r ≡ f && t
          → n ≡ not q && l
          → m ≡ not f && t
          → (m ≡ true → l ≡ true)
          → t ≡ true
          → r || qn ≡ true
      settle r q n qn l true f t b c d e k h = let left = k refl in ground arith
      settle r q n qn l false f t b c d e k h = ground arith

  with_unconfigured_formats-named :
      (x : String) (r : PrewarmResult) (us : List MissingPreview)
      → name_of x (with_unconfigured_formats r us).requested ≡ name_of x r.requested || name_of x us
  unfolding with_unconfigured_formats
  with_unconfigured_formats-named x r [] = ground arith
  with_unconfigured_formats-named x r (u ∷ us) =
      any_append (λ v. str_eq x (identity v)) r.requested (u ∷ us)

  add_unconfigured-named :
      (x : String) (vs us : List MissingPreview)
      → name_of x us ≡ true
      → name_of x (
          add_unconfigured canonical no_retry timing_retryable identity is_fresh encoders
            before_enqueue vs us)
        ≡ true
  unfolding add_unconfigured
  add_unconfigured-named x [] us h = h
  add_unconfigured-named x (v ∷ vs) us h =
      add_unconfigured-named x vs _ (by_test (named identity (identity v) us))
    where
      by_test : (b : Bool) → name_of x (if b then us else us ++ v ∷ []) ≡ true
      by_test true = h
      by_test false = any_append (λ w. str_eq x (identity w)) us (v ∷ []) ∙ ground (arith, h)

  -- A report of the parts names every one of them, and what is in no configured format.
  Named : String → Parts → List MissingPreview → PrewarmResult → Type 0
  Named x p us r = name_of x r.requested ≡ name_of x (requested_of p) || name_of x us

  attempt_report-requested :
      (p : Parts) (a : ConfirmedEnqueueResult)
      → (attempt_report timing_retryable p a).requested ≡ requested_of p
  attempt_report-requested p a = by_test a.timing_error
    where
      by_test :
          (t : Bool)
          → (if t
              then failure_report timing_retryable p
              else report
                  (if length a.unconfirmed_previews == 0 then is_accepted else is_incomplete)
                  none
                  p
                  a.accepted
                  a.unconfirmed_previews
                  a.tasks
                  a.issues).requested
            ≡ requested_of p
      by_test true = refl
      by_test false = refl

  attempt-Named :
      (x : String) (p : Parts) (us : List MissingPreview) (a : ConfirmedEnqueueResult)
      → Named x p us (with_unconfigured_formats (attempt_report timing_retryable p a) us)
  unfolding Named
  attempt-Named x p us a =
      with_unconfigured_formats-named x (attempt_report timing_retryable p a) us
      ∙ ap (λ vs. name_of x vs || name_of x us) (attempt_report-requested p a)

  by_queue-Named :
      (x : String) (q : PrewarmQueue) (p : Parts) (us : List MissingPreview)
      → Named x p us (by_queue canonical no_retry timing_retryable q p us)
  unfolding Named prewarm_failure
  by_queue-Named x (unusable retryable) p us =
      with_unconfigured_formats-named x (failure_report retryable p) us
  by_queue-Named x no_task_queue p us =
      attempt-Named x p us (no_queue_result (canonical p.required))
  by_queue-Named x (queueing send) p us = by_reply (send p.required)
    where
      by_reply :
          (r : Reply ConfirmedEnqueueResult)
          → Named x p us (sent_report canonical no_retry timing_retryable p us r)
      by_reply (threw e) = any_append (λ v. str_eq x (identity v)) (requested_of p) us
      by_reply (done a) = attempt-Named x p us a

  prewarm_parts-Named :
      (x : String) (q : PrewarmQueue) (original : Option Original) (p : Parts)
      (us : List MissingPreview)
      → Named x p us (prewarm_parts canonical no_retry timing_retryable q original p us)
  unfolding prewarm_parts Named
  prewarm_parts-Named x q original p us =
      by_tests (length p.required == 0) (has_original original) (length p.ready == 0)
    where
      by_tests :
          (b c d : Bool)
          → Named x p us (
              if b
              then with_unconfigured_formats
                  (if d
                    then report is_not_required (some filtered_out) p [] [] [] []
                    else report is_ready none p [] [] [] [])
                  us
              else if not c
              then with_unconfigured_formats
                  (report is_incomplete none p [] p.required []
                    (issue no_original false p.required ∷ []))
                  us
              else by_queue canonical no_retry timing_retryable q p us)
      by_tests true c true = with_unconfigured_formats-named x _ us
      by_tests true c false = with_unconfigured_formats-named x _ us
      by_tests false false d = with_unconfigured_formats-named x _ us
      by_tests false true d = by_queue-Named x q p us

  -- Every variant that the catalog expands to, in a configured format or in another, is among the
  -- requested variants of the result, whatever the tap answers, an error of the dispatch included, as
  -- long as the tap takes no identity out of the list that it is given.
  pub prewarm-named :
      (known : Bool) (q : PrewarmQueue) (original : Option Original)
      (before unconfigured : List MissingPreview) (x : String)
      → ((vs : List MissingPreview)
          → named identity x vs ≡ true
          → named identity x (before_enqueue vs).1 ≡ true)
      → named identity x before || named identity x unconfigured ≡ true
      → named identity x
          (prewarm canonical no_retry timing_retryable identity is_fresh encoders before_enqueue
            known q original before unconfigured).requested
        ≡ true
  unfolding prewarm Named
  prewarm-named false q original before us x kept h = with_unconfigured_formats-named x _ us ∙ h
  prewarm-named true q original [] us x kept h = with_unconfigured_formats-named x _ us ∙ h
  prewarm-named true q original (v ∷ before) us x kept h =
      let from_policy =
        filter (λ v. not (is_configured_format encoders v.format))
          (after_policy canonical no_retry timing_retryable identity is_fresh encoders
            before_enqueue (v ∷ before)) in
      let more =
        add_unconfigured canonical no_retry timing_retryable identity is_fresh encoders
          before_enqueue from_policy us in
      prewarm_parts-Named x q original (parts (v ∷ before)) more
      ∙ either (name_of x (v ∷ before)) (name_of x us) h
          (parts-named x (v ∷ before) (kept (missing (v ∷ before))))
          (add_unconfigured-named x from_policy us)
    where
      either :
          {p m : Bool} (b u : Bool)
          → b || u ≡ true
          → (b ≡ true → p ≡ true)
          → (u ≡ true → m ≡ true)
          → p || m ≡ true
      either {p} {m} true u e f g = let t = f refl in ground (arith, t)
      either {p} {m} false u e f g = let t = g e in ground (arith, t)
