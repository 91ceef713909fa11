-- ===== src/Dispatcher.antt =====
-- dispatcher.ts: one dispatch of missing variants to the task queue, with the gate lock beside a
-- queue that does not gate by task, and what a read makes of its outcome. The carrier of the queue
-- name, its timing, the canonical form of the variants and the fresh lock owner are arguments; the
-- logging, and the flags that only limit it, are left out.
pub mod Gate
pub mod Variants
pub mod Confirm
pub mod Regroup
pub mod Kept
pub mod Partition
pub mod Held
pub mod Accepted
pub mod Enqueue
mod Tests
use framework_module_resizer.Prelude.{
  ℕ, min, String, Bool, true, false, Option, none, some, List, [], ◌∷◌, length, str_eq,
  if◌then◌else◌,
}
use framework_module_resizer.Types.{
  MissingPreview, NewTask, TaskAddResult, added, in_flight, unconfirmed,
}
use framework_module_resizer.Database.{Failure, Reply, done, threw}
use framework_module_resizer.Locks.{LockStore}
use framework_module_resizer.Keys.{gate_key}

-- What `add` of a carrier resolves with: `said_added` with its task id when that is a text, another
-- status of the contract, or anything else.
pub data RawResult : Type 0 where
  said_added : Option String → RawResult
  said_in_flight : Option String → RawResult
  said_unconfirmed : RawResult
  malformed : RawResult

-- `AddOutcome`
pub data AddOutcome : Type 0 where
  result : TaskAddResult → AddOutcome
  add_failed : Failure → AddOutcome
  invalid : (stored : Bool) → AddOutcome

-- `DispatchOutcome`
pub data DispatchOutcome : Type 0 where
  tried : AddOutcome → DispatchOutcome
  not_served timing_invalid locks_missing gate_held : DispatchOutcome
  route_failed gate_failed : Failure → DispatchOutcome

pub record Carrier (Q : Type 0) : Type 0 where
  pub gates_by_task : Bool
  pub add : NewTask → Q → Reply RawResult × Q

-- `DispatchRequest`
pub record DispatchRequest : Type 0 where
  pub media_id : String
  pub pipeline : String
  pub previews : List MissingPreview
  pub queue : String

-- `DispatcherDeps` and the coordination policy.
pub record DispatcherDeps (L : Type 0) : Type 0 where
  pub name : String
  pub locks : Option (LockStore L)
  pub gate_ttl_ms : ℕ

-- `isTaskAddResult` and the rest of `#add`: an added task needs a task id that is not empty.
abbrev added_id : String → AddOutcome
added_id id = if str_eq id "" then invalid true else result (added id)

unfoldable pub add_outcome : Reply RawResult → AddOutcome
add_outcome (threw e) = add_failed e
add_outcome (done (said_added none)) = invalid true
add_outcome (done (said_added (some id))) = added_id id
add_outcome (done (said_in_flight id)) = result (in_flight id)
add_outcome (done said_unconfirmed) = result unconfirmed
add_outcome (done malformed) = invalid false

-- `stored` of `#dispatch`: the queue holds the task, or says so.
unfoldable pub is_stored : AddOutcome → Bool
is_stored (result (added id)) = true
is_stored (invalid stored) = stored
is_stored _ = false

-- The queue's state and the lock store's.
pub record State (Q L : Type 0) : Type 0 where
  pub queue : Q
  pub locks : L

module _ {L : Type 0} (encode : String → String)
    (canonical : List MissingPreview → List MissingPreview) (deps : DispatcherDeps L)
    (req : DispatchRequest) (variants : List MissingPreview) (owner : String) (clock : ℕ → ℕ) where
  unfoldable pub task_for : Option String → NewTask
  task_for gate_owner = record {
    resizer = deps.name;
    queue = req.queue;
    media_id = req.media_id;
    pipeline = req.pipeline;
    previews = canonical variants;
    gate_owner = gate_owner;
  }

  abbrev pub request_key : String
  request_key = gate_key encode deps.name req.queue req.media_id req.pipeline

  -- The lock after an add: kept when the task is stored, shortened to one lease otherwise.
  unfoldable pub kept : LockStore L → (lease_ms : ℕ) → Bool → L → L
  kept store lease_ms true l = l
  kept store lease_ms false l =
      (store.extend request_key owner (min lease_ms deps.gate_ttl_ms) (clock 1) l).1

  module _ {Q : Type 0} where
    abbrev pub after_acquire :
        Carrier Q → LockStore L → ℕ → Q → Reply Bool × L → DispatchOutcome × State Q L
    after_acquire c store lease_ms q (threw e, l) = (gate_failed e, record { queue = q; locks = l })
    after_acquire c store lease_ms q (done false, l) = (gate_held, record { queue = q; locks = l })
    after_acquire c store lease_ms q (done true, l) =
        let (r, q') = c.add (task_for (some owner)) q in
        (
          tried (add_outcome r),
          record { queue = q'; locks = kept store lease_ms (is_stored (add_outcome r)) l },
        )

    -- Beside a carrier without gatesByTask.
    unfoldable pub dispatch_locked :
        Carrier Q → Option (LockStore L) → ℕ → State Q L → DispatchOutcome × State Q L
    unfolding kept task_for add_outcome is_stored
    dispatch_locked c none lease_ms s = (locks_missing, s)
    dispatch_locked c (some store) lease_ms s =
        after_acquire c store lease_ms s.queue
          (store.acquire request_key owner deps.gate_ttl_ms (clock 0) s.locks)

    abbrev dispatch_by : Carrier Q → ℕ → Bool → State Q L → DispatchOutcome × State Q L
    dispatch_by c lease_ms true s =
        let (r, q) = c.add (task_for none) s.queue in
        (tried (add_outcome r), record s { queue = q })
    dispatch_by c lease_ms false s = dispatch_locked c deps.locks lease_ms s

    -- `#dispatch`, with the carrier of the queue name and the lease of its timing, or why there is none.
    unfoldable pub dispatch :
        Reply (Option (Carrier Q)) → Option ℕ → State Q L → DispatchOutcome × State Q L
    unfolding dispatch_locked task_for add_outcome
    dispatch (threw e) lease_ms s = (route_failed e, s)
    dispatch (done none) lease_ms s = (not_served, s)
    dispatch (done (some c)) none s = (timing_invalid, s)
    dispatch (done (some c)) (some lease_ms) s = dispatch_by c lease_ms c.gates_by_task s

-- How a read counts a request.
pub data ReadOutcome : Type 0 where
  enqueued in_flight_already suppressed failed : ReadOutcome

-- The switch of `enqueueWithOutcome`.
unfoldable pub read_outcome : DispatchOutcome → ReadOutcome
read_outcome (tried (result (added id))) = enqueued
read_outcome (tried (result (in_flight id))) = in_flight_already
read_outcome gate_held = in_flight_already
read_outcome _ = failed
