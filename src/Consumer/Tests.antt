-- ===== src/Consumer/Tests.antt =====
-- Runs of the worker loop over a queue that takes every call and a lock store in memory.
use framework_module_resizer.Prelude.{
  ℕ, suc, ◌+◌, ◌≤◌, String, true, false, Option, none, some, [], ◌≡◌, ◌⊎◌, refl, arith, min, ◌*◌,
}
use framework_module_resizer.Types.{ClaimedTask}
use framework_module_resizer.Database.{done}
use framework_module_resizer.Locks.{Lock, lock_for, put, owned, Same}
use framework_module_resizer.Locks.Memory.{memory, memory-IsLockStore, memory-IsReliable}
use framework_module_resizer.Keys.{gate_key}
use framework_module_resizer.Consumer.{
  TaskQueue, QueueTiming, TaskCoordination, GateLock, TaskError, Texts, World, completed, resolved,
  rejected, gate, finish, end_task, give_back, after_claim, run_task, backoff_ms, hold_until,
  heartbeats, claim_error_wait,
}
use framework_module_resizer.Consumer.Gate.{
  HeldFor, hold_end, finish-holds_gate, end_task-frees_gate, give_back-only_extends,
}
use framework_module_resizer.Consumer.Foreign.{after_claim-keeps_foreign}
use framework_module_resizer.Consumer.Events.{OneMore, run_task-OneMore}
use framework_module_resizer.Consumer.Waits.{backoff-doubles, claim_error_wait-bounds}

abbrev Docs : Type 0
Docs = String → Option Lock

abbrev calls : TaskQueue ℕ
calls = record {
  gates_by_task = false;
  claim = λ now q. (done none, q);
  renew = λ task ms now q. (done true, suc q);
  complete = λ task now q. (done true, suc q);
  fail_dead = λ task error cooldown now q. (done true, suc q);
  fail_retry = λ task at error q. (done true, suc q);
  release = none;
}

abbrev timing : QueueTiming
timing = record {
  lease_ms = 60;
  idle_poll_ms = 5;
  max_attempts = 3;
  backoff_base = 10;
  backoff_max = 100;
}

abbrev coordination : Option (TaskCoordination Docs)
coordination = some record { cooldown_ms = 600; gate_ttl_ms = 300; locks = some memory }

abbrev task : ClaimedTask
task = record {
  task_id = "t";
  resizer = "r";
  queue = "q";
  media_id = "m";
  pipeline = "p";
  previews = [];
  attempts = 1;
  token = "tok";
  gate_owner = some "ann";
}

abbrev encode : String → String
encode s = s

abbrev g : GateLock Docs
g = record {
  locks = memory;
  key = gate_key encode "r" "q" "m" "p";
  owner = "ann";
  gate_ttl_ms = 300;
}

abbrev texts : Texts
texts = record {
  timeout = "late";
  too_many_attempts = "many";
  not_accepted = "no";
  shutdown = "stop";
}

abbrev clock : ℕ → ℕ
clock i = 1000

abbrev start : World ℕ Docs
start = record { queue = 0; locks = λ k. none; events = [] }

abbrev boom : TaskError
boom = record { text = "boom"; is_resize_error = false; retryable = true }

finish-holds_gate_example :
    (hold_end (λ l. l) encode calls timing texts clock task coordination g 0 false boom ≤ 1000)
    ⊎ HeldFor
        (λ l. l)
        g
        (hold_end (λ l. l) encode calls timing texts clock task coordination g 0 false boom)
        (finish encode calls timing texts clock task coordination 0 false boom start).locks
unfolding gate finish hold_until
finish-holds_gate_example =
    finish-holds_gate (λ l. l) encode calls timing texts clock task coordination g 0 false boom
      start memory-IsLockStore memory-IsReliable (λ j k le. omega arith) refl refl (λ e. cc)

end_task-frees_gate_example :
    owned "ann" (
      (end_task encode calls timing texts clock task coordination 0 false resolved start).locks
        g.key)
    ≡ false
unfolding gate end_task
end_task-frees_gate_example =
    end_task-frees_gate (λ l. l) encode calls timing texts clock task coordination g 0 false start
      memory-IsLockStore memory-IsReliable refl (λ e. cc)

give_back-only_extends_example :
    Same start.locks
      (give_back encode calls timing texts clock task coordination 0 "stop" start).locks
unfolding gate
give_back-only_extends_example =
    give_back-only_extends (λ l. l) encode calls timing texts clock task coordination g 0 "stop"
      start memory-IsLockStore refl refl

abbrev taken_over : World ℕ Docs
taken_over = record start { locks = put g.key (some (lock_for "bob" 2000)) start.locks }

after_claim-keeps_foreign_example :
    (after_claim encode calls timing texts clock task coordination true false 2 8 false
        (rejected boom)
        taken_over).locks
      g.key
    ≡ some (lock_for "bob" 2000)
unfolding gate_key
after_claim-keeps_foreign_example =
    after_claim-keeps_foreign (λ l. l) g.key "bob" 2000 clock encode calls timing texts task
      coordination true false 2 8 false (rejected boom) taken_over memory-IsLockStore refl
      (λ i. omega arith) refl

run_task-OneMore_example :
    OneMore task
      (some completed)
      []
      (run_task encode calls timing texts clock task coordination 0 8 false resolved start).events
unfolding heartbeats
run_task-OneMore_example =
    run_task-OneMore encode calls timing texts clock task coordination 0 8 false resolved start

backoff-doubles_example :
    (backoff_ms 1 timing ≡ min 100 10)
    × (backoff_ms (3 + 2) timing ≡ min 100 (2 * backoff_ms (3 + 1) timing))
    × (backoff_ms 3 timing ≤ 100)
    × (backoff_ms 3 timing ≤ backoff_ms (3 + 1) timing)
backoff-doubles_example = backoff-doubles timing 3

claim_error_wait-bounds_example :
    (5 ≤ claim_error_wait timing 2)
    × (claim_error_wait timing 2 ≤ 10 * 5)
    × (claim_error_wait timing 2 ≤ claim_error_wait timing (2 + 1))
    × (claim_error_wait timing (2 + 5) ≡ 10 * 5)
claim_error_wait-bounds_example = claim_error_wait-bounds timing 2
