-- ===== src/Consumer/Foreign.antt =====
-- consumer.ts: a worker never disturbs a lock that is not its task's.
use framework_module_resizer.Prelude.{
  ℕ, zero, suc, ◌+◌, ◌-◌, ◌<◌, max, String, Bool, true, false, not, ◌&&◌, Option, none, some, ◌≡◌,
  ltb, lt→ltb, str_eq, if◌then◌else◌, arith, eq_iff,
}
use framework_module_resizer.Types.{ClaimedTask}
use framework_module_resizer.Database.{Reply, done, threw}
use framework_module_resizer.Locks.{Lock, LockStore, lock_for, same_owner, IsLockStore}
use framework_module_resizer.Locks.Exclusion.{acquiring, extending, releasing, made-keeps}
use framework_module_resizer.Consumer.{
  GateLock, TaskCoordination, TaskQueue, QueueTiming, Texts, TaskError, World, TaskEvent, Outcome,
  resolved, rejected, timed_out, taken_back, hold_gate, hold_until, release_gate, settled, gate,
  gate_in, bury, retry, finish, give_back, hold_given_back, end_task, held_again, heartbeat,
  heartbeats, unless_lost, run_task, after_claim, not_retryable, is_dead_end, resize_error,
  dead_lettered, failed, completed, cooldown_of, backoff_ms, cut,
}

-- The lock store of a coordination, when it has one, keeps the contract.
abbrev pub KeepsContract : {L : Type 0} → (L → String → Option Lock) → Option (LockStore L) → Type 0
KeepsContract locks none = Unit
KeepsContract locks (some s) = IsLockStore s locks

abbrev pub store_of : {L : Type 0} → Option (TaskCoordination L) → Option (LockStore L)
store_of none = none
store_of (some c) = c.locks

module _ {L : Type 0} (locks : L → String → Option Lock) (key holder : String) (until : ℕ) where
  abbrev pub Holds : L → Type 0
  Holds l = locks l key ≡ some (lock_for holder until)

  -- A gate lock of another owner.
  abbrev IsOthers : Option (GateLock L) → Type 0
  IsOthers none = Unit
  IsOthers (some g) = IsLockStore g.locks locks × (str_eq holder g.owner ≡ false)

  gate-IsOthers :
      (encode : String → String) (b : Bool) (task : ClaimedTask) (c : Option (TaskCoordination L))
      → KeepsContract locks (store_of c)
      → same_owner holder task.gate_owner ≡ false
      → IsOthers (gate encode b task c)
  unfolding gate
  gate-IsOthers encode true task c law other = tt
  gate-IsOthers encode false task none law other = tt
  gate-IsOthers encode false task (some c) law other =
      by_parts (task.gate_owner) (c.locks) law other
    where
      by_parts :
          (o : Option String) (s : Option (LockStore L))
          → KeepsContract locks s
          → same_owner holder o ≡ false
          → IsOthers (gate_in encode task c o s)
      by_parts none s law other = tt
      by_parts (some o) none law other = tt
      by_parts (some o) (some s) law other = (law, ground (arith, eq_iff o holder, eq_iff holder o))

  hold_gate-Holds :
      (g : Option (GateLock L)) (ttl : ℕ) (retake : Bool) (now later : ℕ) (l : L)
      → IsOthers g
      → later < until
      → Holds l
      → Holds (hold_gate g ttl retake now later l)
  unfolding hold_gate
  hold_gate-Holds none ttl retake now later l other lt h = h
  hold_gate-Holds (some g) ttl retake now later l (law, other) lt h =
      after_extend retake (g.locks.extend g.key g.owner ttl now l) (
        made-keeps g.locks locks law key holder until (extending g.key g.owner ttl now) l
          (ground arith) h)
    where
      after_extend :
          (b : Bool) (x : Reply Bool × L) → Holds x.1 → Holds (taken_back g ttl b later x)
      after_extend true (done false, l') h' =
          made-keeps g.locks locks law key holder until (acquiring g.key g.owner ttl later) l'
            (lt→ltb later until lt) h'
      after_extend false (done false, l') h' = h'
      after_extend b (done true, l') h' = h'
      after_extend b (threw e, l') h' = h'

  release_gate-Holds :
      (g : Option (GateLock L)) (l : L) → IsOthers g → Holds l → Holds (release_gate g l)
  unfolding release_gate
  release_gate-Holds none l other h = h
  release_gate-Holds (some g) l (law, other) h =
      made-keeps g.locks locks law key holder until (releasing g.key g.owner) l (ground arith) h

  module _ (clock : ℕ → ℕ) (early : (i : ℕ) → clock i < until) where
    hold_until-Holds :
        (i : ℕ) (g : Option (GateLock L)) (end : ℕ) (retake : Bool) (l : L)
        → IsOthers g
        → Holds l
        → Holds (hold_until clock i g end retake l)
    unfolding hold_until
    hold_until-Holds i g end retake l other h = by_time (ltb (clock i) end)
      where
        by_time :
            (b : Bool)
            → Holds (
                if b
                then hold_gate g (end - clock i) retake (clock (i + 1)) (clock (i + 2)) l
                else l)
        by_time true = hold_gate-Holds g _ retake _ _ l other (early (i + 2)) h
        by_time false = h

    module _ {Q : Type 0} where
      settled-Holds :
          (event : TaskEvent) (task : ClaimedTask) (act : L → L) (w : World Q L)
          (x : Reply Bool × Q)
          → Holds (act w.locks)
          → Holds w.locks
          → Holds (settled event task act w x).locks
      settled-Holds event task act w (done true, q) h' h = h'
      settled-Holds event task act w (done false, q) h' h = h
      settled-Holds event task act w (threw e, q) h' h = h

      module _ (encode : String → String) (tasks : TaskQueue Q) (timing : QueueTiming)
          (texts : Texts) (task : ClaimedTask) (c : Option (TaskCoordination L))
          (other : IsOthers (gate encode tasks.gates_by_task task c)) where
        bury-Holds :
            (i : ℕ) (e : TaskError) (w : World Q L)
            → Holds w.locks
            → Holds (bury encode tasks timing texts clock task c i e w).locks
        unfolding bury
        bury-Holds i e w h =
            settled-Holds dead_lettered task
              (hold_until clock (i + 2) (gate encode tasks.gates_by_task task c)
                (clock (i + 1) + cooldown_of c) true)
              w (tasks.fail_dead task (cut 1000 e.text) (some (cooldown_of c)) (clock i) w.queue)
              (hold_until-Holds (i + 2) _ _ true w.locks other h) h

        retry-Holds :
            (i : ℕ) (e : TaskError) (w : World Q L)
            → Holds w.locks
            → Holds (retry encode tasks timing texts clock task c i e w).locks
        unfolding retry
        retry-Holds i e w h =
            let at = clock i + backoff_ms task.attempts timing in
            settled-Holds failed task
              (hold_until clock (i + 2) (gate encode tasks.gates_by_task task c)
                (max (clock (i + 1)) at + timing.lease_ms) true)
              w (tasks.fail_retry task at (cut 1000 e.text) w.queue)
              (hold_until-Holds (i + 2) _ _ true w.locks other h) h

        finish-Holds :
            (i : ℕ) (force_dead : Bool) (e : TaskError) (w : World Q L)
            → Holds w.locks
            → Holds (finish encode tasks timing texts clock task c i force_dead e w).locks
        unfolding finish
        finish-Holds i force_dead e w h =
            by_end (is_dead_end encode tasks timing texts clock task c force_dead e)
          where
            by_end :
                (b : Bool)
                → Holds
                    (if b
                      then bury encode tasks timing texts clock task c i e w
                      else retry encode tasks timing texts clock task c i e w).locks
            by_end true = bury-Holds i e w h
            by_end false = retry-Holds i e w h

        give_back-Holds :
            (i : ℕ) (reason : String) (w : World Q L)
            → Holds w.locks
            → Holds (give_back encode tasks timing texts clock task c i reason w).locks
        unfolding give_back
        give_back-Holds i reason w h = by_gate (gate encode tasks.gates_by_task task c) other
          where
            by_gate :
                (g : Option (GateLock L))
                → IsOthers g
                → Holds (hold_given_back encode tasks timing texts clock task c i g w.locks)
            by_gate none o = h
            by_gate (some g) o = hold_until-Holds (i + 1) (some g) _ false w.locks o h

        end_task-Holds :
            (i : ℕ) (aborted : Bool) (outcome : Outcome) (w : World Q L)
            → Holds w.locks
            → Holds (end_task encode tasks timing texts clock task c i aborted outcome w).locks
        unfolding end_task
        end_task-Holds i aborted resolved w h =
            settled-Holds completed task (release_gate (gate encode tasks.gates_by_task task c)) w
              (tasks.complete task (clock i) w.queue) (release_gate-Holds _ w.locks other h) h
        end_task-Holds i aborted timed_out w h =
            finish-Holds i false (resize_error texts.timeout) w h
        end_task-Holds i aborted (rejected e) w h = by_test (aborted && not (not_retryable e))
          where
            by_test :
                (b : Bool)
                → Holds
                    (if b
                      then give_back encode tasks timing texts clock task c i texts.shutdown w
                      else finish encode tasks timing texts clock task c i false e w).locks
            by_test true = give_back-Holds i texts.shutdown w h
            by_test false = finish-Holds i false e w h

        heartbeats-Holds :
            (n i : ℕ) (lost : Bool) (w : World Q L)
            → Holds w.locks
            → Holds (heartbeats encode tasks timing texts clock task c n i lost w).1.locks
        unfolding heartbeats heartbeat
        heartbeats-Holds zero i lost w h = h
        heartbeats-Holds (suc n) i true w h = heartbeats-Holds n (i + 3) true _ h
        heartbeats-Holds (suc n) i false w h =
            heartbeats-Holds n (i + 3) _ _
              (by_reply (tasks.renew task timing.lease_ms (clock i) w.queue))
          where
            by_reply :
                (x : Reply Bool × Q)
                → Holds (held_again encode tasks timing texts clock task c i x w).1.locks
            by_reply (done true, q) = hold_gate-Holds _ _ true _ _ w.locks other (early (i + 2)) h
            by_reply (done false, q) = h
            by_reply (threw e, q) = h

        run_task-Holds :
            (beats end : ℕ) (aborted : Bool) (outcome : Outcome) (w : World Q L)
            → Holds w.locks
            → Holds
                (run_task encode tasks timing texts clock task c beats end aborted outcome w).locks
        unfolding run_task
        run_task-Holds beats end aborted outcome w h = by_lost _ (
            heartbeats-Holds beats 2 false _
              (hold_gate-Holds _ _ true _ _ w.locks other (early 1) h))
          where
            by_lost :
                (x : Bool × World Q L)
                → Holds x.1.locks
                → Holds
                    (unless_lost encode tasks timing texts clock task c end aborted outcome x).locks
            by_lost (true, w') h' = h'
            by_lost (false, w') h' = end_task-Holds end aborted outcome w' h'

        after_claim-Holds :
            (accepted before : Bool) (beats end : ℕ) (aborted : Bool) (outcome : Outcome)
            (w : World Q L)
            → Holds w.locks
            → Holds
                (after_claim encode tasks timing texts clock task c accepted before beats end
                  aborted outcome w).locks
        unfolding after_claim
        after_claim-Holds false before beats end aborted outcome w h =
            give_back-Holds 0 texts.not_accepted w h
        after_claim-Holds true before beats end aborted outcome w h =
            by_tests (ltb timing.max_attempts task.attempts) before
          where
            by_tests :
                (b d : Bool)
                → Holds
                    (if b
                      then finish encode tasks timing texts clock task c 0 true
                          (resize_error texts.too_many_attempts)
                          w
                      else if d
                      then give_back encode tasks timing texts clock task c 0 texts.shutdown w
                      else run_task encode tasks timing texts clock task c beats end aborted outcome
                          w).locks
            by_tests true d = finish-Holds 0 true (resize_error texts.too_many_attempts) w h
            by_tests false true = give_back-Holds 0 texts.shutdown w h
            by_tests false false = run_task-Holds beats end aborted outcome w h

-- Whatever a worker does with a claimed task (gives it back, runs it with any number of heartbeats,
-- completes, retries or buries it), a live lock of another owner, the gate lock that somebody else
-- took over included, is as it was: not moved, not released and not taken. This holds whether or not
-- the calls of the queue and of the lock store reject, as long as that lock's time is not up.
pub after_claim-keeps_foreign :
    {Q L : Type 0} (locks : L → String → Option Lock) (key holder : String) (until : ℕ)
    (clock : ℕ → ℕ) (encode : String → String) (tasks : TaskQueue Q) (timing : QueueTiming)
    (texts : Texts) (task : ClaimedTask) (c : Option (TaskCoordination L)) (accepted before : Bool)
    (beats end : ℕ) (aborted : Bool) (outcome : Outcome) (w : World Q L)
    → KeepsContract locks (store_of c)
    → same_owner holder task.gate_owner ≡ false
    → ((i : ℕ) → clock i < until)
    → locks w.locks key ≡ some (lock_for holder until)
    → locks
        (after_claim encode tasks timing texts clock task c accepted before beats end aborted
          outcome w).locks
        key
      ≡ some (lock_for holder until)
after_claim-keeps_foreign locks key holder until clock encode tasks timing texts task c accepted
      before beats end aborted outcome w law other early h =
    after_claim-Holds locks key holder until clock early encode tasks timing texts task c
      (gate-IsOthers locks key holder until encode tasks.gates_by_task task c law other) accepted
      before beats end aborted outcome w h
