-- ===== src/Dispatcher/Tests.antt =====
-- A dispatch beside a queue that stores every task, and one that loses its answer.
use mathlib.Core.List.{Permᴰ}
use framework_module_resizer.Prelude.Text.{str_le}
use framework_module_resizer.Keys.{◌⁀◌, preview_identity}
use framework_module_resizer.Filters.{filter_sig}
use framework_module_resizer.Payloads.{canonicalize_variants}
use framework_module_resizer.Dispatcher.{said_in_flight}
use framework_module_resizer.Dispatcher.Confirm.{ConfirmedEnqueueResult}
use framework_module_resizer.Dispatcher.Held.{held_by}
use framework_module_resizer.Dispatcher.Accepted.{was_added}
use framework_module_resizer.Dispatcher.Enqueue.{
  Platform, canonical, identity_of, variant_payload_key, sent, requested_variants,
  enqueue_confirmed, enqueue_confirmed-Permᴰ, enqueue_confirmed-held,
}
use framework_module_resizer.Prelude.{
  ◌++◌, ◌||◌, ◌∷◌, all, true, ℕ, suc, String, false, Option, none, some, List, [], ◌≡◌, ◌≢◌, refl,
}
use framework_module_resizer.Types.{MissingPreview, EnqueueReceipt, added}
use framework_module_resizer.Database.{Reply, done, threw, other}
use framework_module_resizer.Locks.{Lock, lock_for, put}
use framework_module_resizer.Locks.Memory.{memory, memory-IsLockStore}
use framework_module_resizer.Keys.{gate_key}
use framework_module_resizer.Dispatcher.{
  said_added, Carrier, DispatchRequest, DispatcherDeps, State, tried, result, enqueued, dispatch,
  read_outcome,
}
use framework_module_resizer.Dispatcher.Gate.{live_gate-blocks}

abbrev Docs : Type 0
Docs = String → Option Lock

abbrev encode : String → String
encode s = s

abbrev as_is : List MissingPreview → List MissingPreview
as_is vs = vs

abbrev deps : DispatcherDeps Docs
deps = record { name = "r"; locks = some memory; gate_ttl_ms = 600 }

abbrev req : DispatchRequest
req = record { media_id = "m"; pipeline = "p"; previews = []; queue = "q" }

abbrev clock : ℕ → ℕ
clock i = 1000

abbrev storing : Carrier ℕ
storing = record { gates_by_task = false; add = λ task q. (done (said_added (some "t")), suc q) }

abbrev losing : Carrier ℕ
losing = record { gates_by_task = false; add = λ task q. (threw (other "timeout"), suc q) }

abbrev free : State ℕ Docs
free = record { queue = 0; locks = λ k. none }

abbrev held : State ℕ Docs
held = record {
  queue = 0;
  locks = put (gate_key encode "r" "q" "m" "p") (some (lock_for "bob" 1001)) (λ k. none);
}

dispatch_runs :
    ((dispatch encode as_is deps req [] "ann" clock (done (some storing)) (some 60) free).0
      ≡ tried (result (added "t")))
    × ((dispatch encode as_is deps req [] "ann" clock (done (some storing)) (some 60) free).1.locks
          (gate_key encode "r" "q" "m" "p")
        ≡ some (lock_for "ann" 1600))
    × ((dispatch encode as_is deps req [] "ann" clock (done (some losing)) (some 60) free).1.locks
          (gate_key encode "r" "q" "m" "p")
        ≡ some (lock_for "ann" 1060))
unfolding dispatch memory gate_key
dispatch_runs = (refl, refl, refl)

live_gate-blocks_example :
    ((dispatch encode as_is deps req [] "ann" clock (done (some storing)) (some 60) held).1.queue
      ≡ 0)
    × (read_outcome
          (dispatch encode as_is deps req [] "ann" clock (done (some storing)) (some 60) held).0
        ≢ enqueued)
unfolding gate_key
live_gate-blocks_example =
    live_gate-blocks (λ l. l) encode as_is deps req [] "ann" clock storing memory 60 held
      memory-IsLockStore refl refl refl

abbrev variant : String → Option ℕ → MissingPreview
variant size width = record {
  size_key = size;
  filters = none;
  requested_width = width;
  requested_height = none;
  format = "webp";
  fit = none;
}

abbrev number_text : Option ℕ → String
number_text none = "-"
number_text (some n) = "n"

abbrev platform : Platform
platform = record {
  encode = encode;
  le = str_le;
  value_text = λ v. "?";
  variant_text = λ v. v.size_key ⁀ number_text v.requested_width;
  trim = λ s. s;
  said = λ e. none;
}

-- Two payloads of 100w, and one of 200w.
abbrev asking : DispatchRequest
asking = record req {
  previews = variant "200w" none ∷ variant "100w" none ∷ variant "100w" (some 100) ∷ [];
}

abbrev busy : Carrier ℕ
busy = record { gates_by_task = true; add = λ task q. (done (said_in_flight none), q) }

abbrev found : ℕ → Reply (List EnqueueReceipt)
found q = done (record { task_id = "t"; previews = variant "200w" none ∷ [] } ∷ [])

abbrev result_of : ConfirmedEnqueueResult
result_of =
    enqueue_confirmed platform deps asking "ann" clock (done (some busy)) (some 60) (some found)
      free

enqueue_runs :
    (result_of.accepted ≡ variant "200w" none ∷ [])
    × (result_of.unconfirmed_previews ≡ variant "100w" none ∷ variant "100w" (some 100) ∷ [])
unfolding enqueue_confirmed preview_identity filter_sig dispatch identity_of variant_payload_key
enqueue_runs = (refl, refl)

enqueue_confirmed-Permᴰ_example :
    Permᴰ
      (result_of.accepted ++ result_of.unconfirmed_previews)
      (canonicalize_variants str_le platform.variant_text asking.previews)
enqueue_confirmed-Permᴰ_example =
    enqueue_confirmed-Permᴰ platform deps asking "ann" clock (done (some busy)) (some 60)
      (some found) free

enqueue_confirmed-held_example :
    all
      (λ v.
        was_added
          (sent platform deps asking "ann" clock (done (some busy)) (some 60) (some found) free (
            requested_variants platform deps asking "ann" clock
              (done (some busy))
              (some 60)
              (some found))).0
        || held_by
            (canonical platform)
            (identity_of platform deps asking "ann" clock (done (some busy)) (some 60) (some found))
            (variant_payload_key platform)
            platform.trim
            (sent platform deps asking "ann" clock (done (some busy)) (some 60) (some found) free (
              requested_variants platform deps asking "ann" clock
                (done (some busy))
                (some 60)
                (some found))).1
            (requested_variants platform deps asking "ann" clock
              (done (some busy))
              (some 60)
              (some found))
            (identity_of platform deps asking "ann" clock
              (done (some busy))
              (some 60)
              (some found)
              v))
      result_of.accepted
    ≡ true
enqueue_confirmed-held_example =
    enqueue_confirmed-held platform deps asking "ann" clock (done (some busy)) (some 60)
      (some found) free
