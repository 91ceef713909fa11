-- ===== src/Consumer/Base.antt =====
-- consumer.ts and contracts/taskQueue.ts: what the worker loop works on, and its times.
use framework_module_resizer.Prelude.{
  ℕ, zero, suc, ◌-◌, ◌*◌, ◌/◌, ◌^◌, min, max, String, Bool, true, not, ◌&&◌, Option, none, some,
  List,
}
use Prim.Native.String.{[] as empty, ◌∷◌ as next}
use framework_module_resizer.Types.{ClaimedTask}
use framework_module_resizer.Database.{Call}
use framework_module_resizer.Locks.{LockStore}

-- A `TaskQueue` as the loop calls it, with the clock as an argument of each call that reads it.
pub record TaskQueue (Q : Type 0) : Type 0 where
  pub gates_by_task : Bool
  pub claim : ℕ → Call Q (Option ClaimedTask)
  pub renew : ClaimedTask → ℕ → ℕ → Call Q Bool
  pub complete : ClaimedTask → ℕ → Call Q Bool
  pub fail_dead : ClaimedTask → String → Option ℕ → ℕ → Call Q Bool
  pub fail_retry : ClaimedTask → ℕ → String → Call Q Bool
  pub release : Option (ClaimedTask → ℕ → Call Q Bool)

pub record QueueTiming : Type 0 where
  pub lease_ms : ℕ
  pub idle_poll_ms : ℕ
  pub max_attempts : ℕ
  pub backoff_base : ℕ
  pub backoff_max : ℕ

pub record TaskCoordination (L : Type 0) : Type 0 where
  pub cooldown_ms : ℕ
  pub gate_ttl_ms : ℕ
  pub locks : Option (LockStore L)

pub record GateLock (L : Type 0) : Type 0 where
  pub locks : LockStore L
  pub key : String
  pub owner : String
  pub gate_ttl_ms : ℕ

-- What a handler rejects with: its text, and whether it is a ResizeError that says `retryable`.
pub record TaskError : Type 0 where
  pub text : String
  pub is_resize_error : Bool
  pub retryable : Bool

pub data TaskEvent : Type 0 where
  completed failed dead_lettered : TaskEvent

pub record Report : Type 0 where
  pub event : TaskEvent
  pub task_id : String

-- The queue's state, the lock store's state, and the events reported so far, the last one first.
pub record World (Q L : Type 0) : Type 0 where
  pub queue : Q
  pub locks : L
  pub events : List Report

unfoldable pub backoff_ms : ℕ → QueueTiming → ℕ
backoff_ms attempts timing =
    min (timing.backoff_max) (timing.backoff_base * 2 ^ (max 1 attempts - 1))

abbrev pub max_claim_error_backoff : ℕ
max_claim_error_backoff = 10

-- The wait after a claim that failed, the `failures`-th in a row.
unfoldable pub claim_error_wait : QueueTiming → ℕ → ℕ
claim_error_wait timing failures =
    timing.idle_poll_ms * min (2 ^ (failures - 1)) max_claim_error_backoff

unfoldable pub not_retryable : TaskError → Bool
not_retryable e = e.is_resize_error && not e.retryable

-- `slice(0, n)`, on characters.
abbrev pub cut : ℕ → String → String
cut zero s = empty
cut (suc n) empty = empty
cut (suc n) (next c s) = next c (cut n s)

abbrev pub default_cooldown_ms : ℕ
default_cooldown_ms = 600000

abbrev pub cooldown_of : {L : Type 0} → Option (TaskCoordination L) → ℕ
cooldown_of none = default_cooldown_ms
cooldown_of (some c) = c.cooldown_ms

abbrev pub heartbeat_ms : QueueTiming → ℕ
heartbeat_ms timing = max 1 (timing.lease_ms / 2)

-- How the handler of a task ended.
pub data Outcome : Type 0 where
  resolved : Outcome
  rejected : TaskError → Outcome
  timed_out : Outcome

-- The texts of the errors that the loop makes itself.
pub record Texts : Type 0 where
  pub timeout : String
  pub too_many_attempts : String
  pub not_accepted : String
  pub shutdown : String

-- A ResizeError with its default, `retryable: true`.
abbrev pub resize_error : String → TaskError
resize_error text = record { text = text; is_resize_error = true; retryable = true }
