-- ===== src/Consumer/Events.antt =====
-- consumer.ts: which event the loop reports for a task.
use framework_module_resizer.Prelude.{
  ℕ, zero, suc, ◌+◌, String, Bool, true, false, not, ◌&&◌, ◌||◌, Option, none, some, List, ◌∷◌, ◌≡◌,
  ◌⊎◌, inl, inr, refl, ◌∙◌, subst, max, leb, if◌then◌else◌,
}
use framework_module_resizer.Types.{ClaimedTask}
use framework_module_resizer.Database.{Reply, done, threw}
use framework_module_resizer.Consumer.{
  TaskCoordination, TaskQueue, QueueTiming, Texts, TaskError, World, Report, TaskEvent, completed,
  failed, dead_lettered, Outcome, resolved, rejected, timed_out, resize_error, not_retryable,
  settled, is_dead_end, bury, retry, finish, give_back, end_task, held_again, heartbeat, heartbeats,
  gate, hold_gate, hold_until, release_gate, cooldown_of, backoff_ms, cut, heartbeat_ms,
  unless_lost, run_task,
}

-- The event that tells how a task ended, `none` for one that goes back unprocessed: completed when
-- its handler resolved; otherwise dead on its last attempt or when no retry can help, and failed
-- when it is retried; a shutdown counts no rejection of the handler, unless no retry can help, and
-- counts a timeout.
abbrev pub expected : (attempts max_attempts : ℕ) → (aborted : Bool) → Outcome → Option TaskEvent
expected attempts max_attempts aborted resolved = some completed
expected attempts max_attempts aborted timed_out =
    if leb max_attempts attempts then some dead_lettered else some failed
expected attempts max_attempts aborted (rejected e) =
    if e.is_resize_error && not e.retryable
    then some dead_lettered
    else if aborted
    then none
    else if leb max_attempts attempts
    then some dead_lettered
    else some failed

-- The events after `events`: none more, or the one given.
abbrev pub OneMore : ClaimedTask → Option TaskEvent → (events events' : List Report) → Type 0
OneMore task none events events' = events' ≡ events
OneMore task (some e) events events' =
    (events' ≡ events) ⊎ (events' ≡ record { event = e; task_id = task.task_id } ∷ events)

module _ {Q L : Type 0} where
  settled-OneMore :
      (event : TaskEvent) (task : ClaimedTask) (act : L → L) (w : World Q L) (x : Reply Bool × Q)
      → OneMore task (some event) w.events (settled event task act w x).events
  settled-OneMore event task act w (done true, q) = inr refl
  settled-OneMore event task act w (done false, q) = inl refl
  settled-OneMore event task act w (threw e, q) = inl refl

module _ {Q L : Type 0} (encode : String → String) (tasks : TaskQueue Q) (timing : QueueTiming)
    (texts : Texts) (clock : ℕ → ℕ) (task : ClaimedTask) (c : Option (TaskCoordination L)) where
  abbrev failure : TaskError → Option TaskEvent
  failure e =
      if is_dead_end encode tasks timing texts clock task c false e
      then some dead_lettered
      else some failed

  finish-OneMore :
      (i : ℕ) (e : TaskError) (w : World Q L)
      → OneMore task
          (failure e)
          w.events
          (finish encode tasks timing texts clock task c i false e w).events
  unfolding finish bury retry
  finish-OneMore i e w = by_end (is_dead_end encode tasks timing texts clock task c false e)
    where
      by_end :
          (b : Bool)
          → OneMore task
              (if b then some dead_lettered else some failed)
              w.events
              (if b
                then bury encode tasks timing texts clock task c i e w
                else retry encode tasks timing texts clock task c i e w).events
      by_end true =
          settled-OneMore dead_lettered task
            (hold_until clock (i + 2) (gate encode tasks.gates_by_task task c)
              (clock (i + 1) + cooldown_of c) true)
            w (tasks.fail_dead task (cut 1000 e.text) (some (cooldown_of c)) (clock i) w.queue)
      by_end false =
          let at = clock i + backoff_ms task.attempts timing in
          settled-OneMore failed task
            (hold_until clock (i + 2) (gate encode tasks.gates_by_task task c)
              (max (clock (i + 1)) at + timing.lease_ms) true)
            w (tasks.fail_retry task at (cut 1000 e.text) w.queue)

  end_task-OneMore :
      (i : ℕ) (aborted : Bool) (outcome : Outcome) (w : World Q L)
      → OneMore task
          (expected task.attempts timing.max_attempts aborted outcome)
          w.events
          (end_task encode tasks timing texts clock task c i aborted outcome w).events
  unfolding end_task give_back is_dead_end not_retryable
  end_task-OneMore i aborted resolved w =
      settled-OneMore completed task (release_gate (gate encode tasks.gates_by_task task c)) w
        (tasks.complete task (clock i) w.queue)
  end_task-OneMore i aborted timed_out w = finish-OneMore i (resize_error texts.timeout) w
  end_task-OneMore i aborted (rejected e) w =
      by_tests (not_retryable e) aborted (leb timing.max_attempts task.attempts)
        (give_back encode tasks timing texts clock task c i texts.shutdown w)
        (finish encode tasks timing texts clock task c i false e w) refl (finish-OneMore i e w)
    where
      by_tests :
          (b a d : Bool) (back ended : World Q L)
          → back.events ≡ w.events
          → OneMore task (if b || d then some dead_lettered else some failed) w.events ended.events
          → OneMore task
              (if b
                then some dead_lettered
                else if a
                then none
                else if d
                then some dead_lettered
                else some failed)
              w.events
              (if a && not b then back else ended).events
      by_tests true true d back ended same one = one
      by_tests true false d back ended same one = one
      by_tests false true d back ended same one = same
      by_tests false false true back ended same one = one
      by_tests false false false back ended same one = one

  heartbeats-events :
      (n i : ℕ) (lost : Bool) (w : World Q L)
      → (heartbeats encode tasks timing texts clock task c n i lost w).1.events ≡ w.events
  unfolding heartbeats heartbeat
  heartbeats-events zero i lost w = refl
  heartbeats-events (suc n) i true w = heartbeats-events n (i + 3) true _
  heartbeats-events (suc n) i false w =
      heartbeats-events n (i + 3) _ _
      ∙ by_reply (tasks.renew task timing.lease_ms (clock i) w.queue)
    where
      by_reply :
          (x : Reply Bool × Q)
          → (held_again encode tasks timing texts clock task c i x w).1.events ≡ w.events
      by_reply (done true, q) = refl
      by_reply (done false, q) = refl
      by_reply (threw e, q) = refl

  -- The lease is lost during the task's heartbeats.
  abbrev pub loses_lease : ℕ → World Q L → Bool
  loses_lease beats w =
      (heartbeats encode tasks timing texts clock task c beats 2 false (record w {
        locks =
            hold_gate (gate encode tasks.gates_by_task task c)
              (timing.lease_ms + heartbeat_ms timing) true (clock 0) (clock 1) w.locks;
      })).0

  -- A task that ran reports at most one event, after its heartbeats and whatever the calls of the
  -- queue and the lock store answered: none once its lease is known to be lost, and otherwise none
  -- but the one that tells how its handler ended. A retry is reported only when fewer deliveries
  -- than the maximum were made and a retry can help. During a shutdown a handler's rejection that a
  -- retry can help is not reported; a timeout is reported also then.
  pub run_task-OneMore :
      (beats end : ℕ) (aborted : Bool) (outcome : Outcome) (w : World Q L)
      → OneMore task
          (if loses_lease beats w
            then none
            else expected task.attempts timing.max_attempts aborted outcome)
          w.events
          (run_task encode tasks timing texts clock task c beats end aborted outcome w).events
  unfolding run_task
  run_task-OneMore beats end aborted outcome w = by_lost _ (heartbeats-events beats 2 false _)
    where
      by_lost :
          (x : Bool × World Q L)
          → x.1.events ≡ w.events
          → OneMore task
              (if x.0 then none else expected task.attempts timing.max_attempts aborted outcome)
              w.events
              (unless_lost encode tasks timing texts clock task c end aborted outcome x).events
      by_lost (true, w') same = same
      by_lost (false, w') same =
          subst
            (λ es.
              OneMore task (expected task.attempts timing.max_attempts aborted outcome) es
                (end_task encode tasks timing texts clock task c end aborted outcome w').events)
            same (end_task-OneMore end aborted outcome w')
