-- ===== src/Consumer.antt =====
-- consumer.ts: the worker loop over a task queue, with the gate lock of a task whose queue does not
-- gate by task. A run reads the clock at its successive readings, `clock 0`, `clock 1` and so on.
-- The handler is a parameter: how it ended, after how many heartbeats. The heartbeats are one after
-- another, and a gate call that does not answer in time is one that threw. What the loop logs and
-- measures is left out.
mod Base
pub mod Gate
pub mod Foreign
pub mod Events
pub mod Waits
mod Tests
unfoldable pub use Base.*
use framework_module_resizer.Prelude.{
  ℕ, zero, suc, ◌+◌, ◌-◌, max, String, Bool, true, false, not, ◌&&◌, ◌||◌, Option, none, some, List,
  [], ◌∷◌, ltb, leb, if◌then◌else◌,
}
use framework_module_resizer.Types.{ClaimedTask}
use framework_module_resizer.Database.{Reply, done, threw}
use framework_module_resizer.Locks.{LockStore}
use framework_module_resizer.Keys.{gate_key}

module _ {L : Type 0} where
  abbrev pub gate_in :
      (String → String)
      → ClaimedTask
      → TaskCoordination L
      → Option String
      → Option (LockStore L)
      → Option (GateLock L)
  gate_in encode task coordination (some owner) (some locks) = some record {
    locks = locks;
    key = gate_key encode task.resizer task.queue task.media_id task.pipeline;
    owner = owner;
    gate_ttl_ms = coordination.gate_ttl_ms;
  }
  gate_in encode task coordination _ _ = none

  -- `#gate`: the gate lock that a task holds, with the queue's `gatesByTask`.
  unfoldable pub gate :
      (String → String) → Bool → ClaimedTask → Option (TaskCoordination L) → Option (GateLock L)
  gate encode true task coordination = none
  gate encode false task none = none
  gate encode false task (some c) = gate_in encode task c task.gate_owner c.locks

  -- After the extend: a lapsed lock is taken back once, while `retake` allows it.
  abbrev pub taken_back : GateLock L → ℕ → Bool → ℕ → Reply Bool × L → L
  taken_back g ttl_ms retake now (done held, l) =
      if not held && retake then (g.locks.acquire g.key g.owner ttl_ms now l).1 else l
  taken_back g ttl_ms retake now (threw e, l) = l

  -- `#holdGate`, the extend at the first reading and the acquire at the second.
  unfoldable pub hold_gate :
      Option (GateLock L) → (ttl_ms : ℕ) → (retake : Bool) → (now later : ℕ) → L → L
  hold_gate none ttl_ms retake now later l = l
  hold_gate (some g) ttl_ms retake now later l =
      taken_back g ttl_ms retake later (g.locks.extend g.key g.owner ttl_ms now l)

  -- `#holdUntil`: three readings from `i` on.
  unfoldable pub hold_until :
      (clock : ℕ → ℕ) → ℕ → Option (GateLock L) → (until : ℕ) → (retake : Bool) → L → L
  unfolding hold_gate
  hold_until clock i g until retake l =
      if ltb (clock i) until
      then hold_gate g (until - clock i) retake (clock (i + 1)) (clock (i + 2)) l
      else l

  -- `#releaseGate`
  unfoldable pub release_gate : Option (GateLock L) → L → L
  release_gate none l = l
  release_gate (some g) l = (g.locks.release g.key g.owner l).1

module _ {Q L : Type 0} where
  abbrev pub report : TaskEvent → ClaimedTask → World Q L → World Q L
  report event task w = record w {
    events = record { event = event; task_id = task.task_id } ∷ w.events;
  }

  -- What follows a terminal call: `act` on the locks and an event once the queue took it.
  abbrev pub settled : TaskEvent → ClaimedTask → (L → L) → World Q L → Reply Bool × Q → World Q L
  settled event task act w (done true, q) =
      report event task (record w { queue = q; locks = act w.locks })
  settled event task act w (done false, q) = record w { queue = q }
  settled event task act w (threw e, q) = record w { queue = q }

module _ {Q L : Type 0} (encode : String → String) (tasks : TaskQueue Q) (timing : QueueTiming)
    (texts : Texts) (clock : ℕ → ℕ) (task : ClaimedTask)
    (coordination : Option (TaskCoordination L)) where
  abbrev pub task_gate : Option (GateLock L)
  task_gate = gate encode tasks.gates_by_task task coordination

  -- `dead` of `#finish`: forced, not retryable, or the last attempt.
  unfoldable pub is_dead_end : Bool → TaskError → Bool
  unfolding not_retryable
  is_dead_end force_dead e = force_dead || not_retryable e || leb timing.max_attempts task.attempts

  pub bury : ℕ → TaskError → World Q L → World Q L
  unfolding hold_until gate
  bury i e w =
      settled dead_lettered task
        (hold_until clock (i + 2) task_gate (clock (i + 1) + cooldown_of coordination) true) w
        (tasks.fail_dead task (cut 1000 e.text) (some (cooldown_of coordination)) (clock i) w.queue)

  pub retry : ℕ → TaskError → World Q L → World Q L
  unfolding hold_until gate backoff_ms
  retry i e w =
      let retry_at = clock i + backoff_ms task.attempts timing in
      settled failed task
        (hold_until clock (i + 2) task_gate (max (clock (i + 1)) retry_at + timing.lease_ms) true) w
        (tasks.fail_retry task retry_at (cut 1000 e.text) w.queue)

  -- `#finish`, from the reading `i` on.
  unfoldable pub finish : ℕ → Bool → TaskError → World Q L → World Q L
  unfolding is_dead_end bury retry
  finish i force_dead e w = if is_dead_end force_dead e then bury i e w else retry i e w

  abbrev pub hold_given_back : ℕ → Option (GateLock L) → L → L
  hold_given_back i none l = l
  hold_given_back i (some g) l = hold_until clock (i + 1) (some g) (clock i + g.gate_ttl_ms) false l

  abbrev return_task : ℕ → String → Option (ClaimedTask → ℕ → Q → Reply Bool × Q) → Q → Q
  return_task now reason none q = (tasks.fail_retry task now reason q).1
  return_task now reason (some release) q = (release task now q).1

  -- `#giveBack`: the hold first, then the task.
  unfoldable pub give_back : ℕ → String → World Q L → World Q L
  unfolding hold_until gate
  give_back i reason w = record w {
    locks = hold_given_back i task_gate w.locks;
    queue = return_task (clock (i + 4)) reason tasks.release w.queue;
  }

  -- The end of `#runTask` for a task whose lease is not known to be lost.
  unfoldable pub end_task : ℕ → Bool → Outcome → World Q L → World Q L
  unfolding finish give_back release_gate gate not_retryable
  end_task i aborted resolved w =
      settled completed task (release_gate task_gate) w (tasks.complete task (clock i) w.queue)
  end_task i aborted (rejected e) w =
      if aborted && not (not_retryable e) then give_back i texts.shutdown w else finish i false e w
  end_task i aborted timed_out w = finish i false (resize_error texts.timeout) w

  abbrev running_gate_ms : ℕ
  running_gate_ms = timing.lease_ms + heartbeat_ms timing

  abbrev pub held_again : ℕ → Reply Bool × Q → World Q L → Bool × World Q L
  held_again i (done true, q) w = (
    false,
    record w {
      queue = q;
      locks = hold_gate task_gate running_gate_ms true (clock (i + 1)) (clock (i + 2)) w.locks;
    },
  )
  held_again i (done false, q) w = (true, record w { queue = q })
  held_again i (threw e, q) w = (false, record w { queue = q })

  -- One heartbeat: whether the lease is known to be lost, and what it leaves.
  unfoldable pub heartbeat : ℕ → Bool → World Q L → Bool × World Q L
  unfolding hold_gate gate
  heartbeat i true w =
      (true, record w { queue = (tasks.renew task timing.lease_ms (clock i) w.queue).1 })
  heartbeat i false w = held_again i (tasks.renew task timing.lease_ms (clock i) w.queue) w

  unfoldable pub heartbeats : ℕ → ℕ → Bool → World Q L → Bool × World Q L
  unfolding heartbeat
  heartbeats zero i lost w = (lost, w)
  heartbeats (suc n) i lost w =
      let (lost', w') = heartbeat i lost w in heartbeats n (i + 3) lost' w'

  abbrev pub unless_lost : ℕ → Bool → Outcome → Bool × World Q L → World Q L
  unless_lost i aborted outcome (true, w) = w
  unless_lost i aborted outcome (false, w) = end_task i aborted outcome w

  -- `#runTask`: `beats` heartbeats while the handler runs. The end starts at reading `end`.
  unfoldable pub run_task : ℕ → ℕ → Bool → Outcome → World Q L → World Q L
  unfolding heartbeats end_task hold_gate gate
  run_task beats end aborted outcome w = unless_lost end aborted outcome (
      heartbeats beats 2 false
        (record w { locks = hold_gate task_gate running_gate_ms true (clock 0) (clock 1) w.locks }))

  -- What `run` does with a claimed task: given back when not accepted, dead after too many
  -- deliveries, given back at a shutdown, or run.
  unfoldable pub after_claim :
      (accepted aborted_before : Bool) → ℕ → ℕ → (aborted : Bool) → Outcome → World Q L → World Q L
  unfolding give_back finish run_task
  after_claim false aborted_before beats end aborted outcome w = give_back 0 texts.not_accepted w
  after_claim true aborted_before beats end aborted outcome w =
      if ltb timing.max_attempts task.attempts
      then finish 0 true (resize_error texts.too_many_attempts) w
      else if aborted_before
      then give_back 0 texts.shutdown w
      else run_task beats end aborted outcome w
