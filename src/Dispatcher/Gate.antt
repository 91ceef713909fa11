-- ===== src/Dispatcher/Gate.antt =====
-- dispatcher.ts: the gate lock that a dispatch takes beside a queue that does not gate by task.
use framework_module_resizer.Prelude.{
  ℕ, ◌+◌, ◌≤◌, min, String, Bool, true, false, Option, some, List, ◌≡◌, ◌≢◌, ◌⊎◌, refl, arith,
}
use framework_module_resizer.Types.{MissingPreview, added, in_flight, unconfirmed}
use framework_module_resizer.Database.{Reply, done, threw}
use framework_module_resizer.Locks.{
  Lock, LockStore, live, lock_for, put, Same, AcquireSpec, IsLockStore,
}
use framework_module_resizer.Dispatcher.{
  result, add_failed, invalid, DispatchOutcome, tried, not_served, timing_invalid, locks_missing,
  gate_held, route_failed, gate_failed, Carrier, DispatchRequest, DispatcherDeps, State,
  request_key, after_acquire, dispatch, read_outcome, enqueued,
}

-- The gate lock alone is taken, from `now` for its whole time.
abbrev Whole : (key owner : String) (ttl now : ℕ) (before after : String → Option Lock) → Type 0
Whole key owner ttl now before after =
    Same (put key (some (lock_for owner (now + ttl))) before) after

-- The gate lock alone is taken and ends one lease after `later`; or its time was up by then, and it
-- was not shortened.
abbrev Shortened :
    (key owner : String) (ttl lease_ms now later : ℕ) (before after : String → Option Lock) → Type 0
Shortened key owner ttl lease_ms now later before after =
    Same (put key (some (lock_for owner (later + min lease_ms ttl))) before) after
    ⊎ ((now + ttl ≤ later) × Whole key owner ttl now before after)

-- The locks after a dispatch, by its outcome: an add that was answered as added, with a task id or
-- without one, keeps the lock for its whole time; any other add, for one lease; and nothing changes
-- when nothing was tried.
abbrev pub GateAfter :
    (key owner : String) (ttl lease_ms now later : ℕ) (before after : String → Option Lock)
    → DispatchOutcome
    → Type 0
GateAfter key owner ttl lease_ms now later before after (tried (result (added id))) =
    Whole key owner ttl now before after
GateAfter key owner ttl lease_ms now later before after (tried (invalid true)) =
    Whole key owner ttl now before after
GateAfter key owner ttl lease_ms now later before after (tried (result (in_flight id))) =
    Shortened key owner ttl lease_ms now later before after
GateAfter key owner ttl lease_ms now later before after (tried (result unconfirmed)) =
    Shortened key owner ttl lease_ms now later before after
GateAfter key owner ttl lease_ms now later before after (tried (invalid false)) =
    Shortened key owner ttl lease_ms now later before after
GateAfter key owner ttl lease_ms now later before after (tried (add_failed e)) =
    Shortened key owner ttl lease_ms now later before after
GateAfter key owner ttl lease_ms now later before after not_served = Same before after
GateAfter key owner ttl lease_ms now later before after timing_invalid = Same before after
GateAfter key owner ttl lease_ms now later before after locks_missing = Same before after
GateAfter key owner ttl lease_ms now later before after gate_held = Same before after
GateAfter key owner ttl lease_ms now later before after (route_failed e) = Same before after
GateAfter key owner ttl lease_ms now later before after (gate_failed e) = Same before after

module _ {Q L : Type 0} (locks : L → String → Option Lock) (encode : String → String)
    (canonical : List MissingPreview → List MissingPreview) (deps : DispatcherDeps L)
    (req : DispatchRequest) (variants : List MissingPreview) (owner : String) (clock : ℕ → ℕ)
    (c : Carrier Q) (store : LockStore L) (lease_ms : ℕ) (s : State Q L) where
  blocked :
      (x : Reply Bool × L)
      → AcquireSpec
          (request_key encode canonical deps req variants owner clock)
          owner
          deps.gate_ttl_ms
          (clock 0)
          (locks s.locks)
          (locks x.1)
          x.0
      → live (clock 0) (locks s.locks (request_key encode canonical deps req variants owner clock))
        ≡ true
      → ((after_acquire encode canonical deps req variants owner clock c store lease_ms s.queue
            x).1.queue
          ≡ s.queue)
        × (read_outcome
              (after_acquire encode canonical deps req variants owner clock c store lease_ms s.queue
                x).0
            ≢ enqueued)
  unfolding read_outcome
  blocked (done true, l) (free, same) busy = absurd (ground arith)
  blocked (done false, l) spec busy = (refl, λ e. cc)
  blocked (threw e, l) spec busy = (refl, λ q. cc)

  -- While the gate lock of a Resizer, queue, media and pipeline is live, whoever holds it, a
  -- dispatch for them reaches no queue that does not gate by task: nothing is added, and a read does
  -- not count it as queued, even if the lock store fails.
  pub live_gate-blocks :
      IsLockStore store locks
      → c.gates_by_task ≡ false
      → deps.locks ≡ some store
      → live (clock 0) (locks s.locks (request_key encode canonical deps req variants owner clock))
        ≡ true
      → ((dispatch encode canonical deps req variants owner clock
            (done (some c))
            (some lease_ms)
            s).1.queue
          ≡ s.queue)
        × (read_outcome
              (dispatch encode canonical deps req variants owner clock
                (done (some c))
                (some lease_ms)
                s).0
            ≢ enqueued)
  unfolding dispatch
  live_gate-blocks law plain has_locks busy =
      rw (plain, has_locks)
        (blocked
          (store.acquire (request_key encode canonical deps req variants owner clock) owner
            deps.gate_ttl_ms (clock 0) s.locks)
          (law.acquires _ owner deps.gate_ttl_ms (clock 0) s.locks) busy)
