-- ===== src/MongoTaskQueue.antt =====
-- drivers/mongo/taskQueue.ts: the task queue as documents of a ResizeTask model. Each method is a
-- call on the collection; the clock is an argument, and so is what other callers do to the
-- collection while `add` waits for an answer. What the methods log is left out.
mod Rows
pub mod Steps
pub mod OneGate
pub mod Refines
pub mod Fence
pub mod Delivery
pub mod Redelivery
mod Tests
unfoldable pub use Rows.*
use framework_module_resizer.Prelude.{
  ℕ, zero, suc, ◌+◌, ◌*◌, String, Bool, true, false, not, ◌&&◌, Option, none, some, List, [], ◌∷◌,
  length, filter, all, str_eq, ◌==◌, if◌then◌else◌, or_else, is_some,
}
use framework_module_resizer.Prelude.Sorting.{sort}
use framework_module_resizer.Prelude.Text.{str_le}
use framework_module_resizer.Types.{
  MissingPreview, NewTask, ClaimedTask, TaskAddResult, added, in_flight, unconfirmed,
  EnqueueReceipt,
}
use framework_module_resizer.Database.{
  Failure, duplicate_key, other, Reply, done, threw, Call, ◌>>=◌, ◌>>◌, pure, reading, Collection,
}

abbrev written_paths : List String
written_paths =
    "fileId" ∷ "resizer" ∷ "queue" ∷ "pipeline" ∷ "previews" ∷ "status" ∷ "attempts" ∷ "availableAt"
    ∷ "active" ∷ "cooldownUntil" ∷ "leasedBy" ∷ "leaseToken" ∷ "leaseExpiresAt" ∷ "completedAt"
    ∷ "deadAt" ∷ "error" ∷ []

abbrev pub gate_keys : List String
gate_keys = "resizer" ∷ "fileId" ∷ "pipeline" ∷ "queue" ∷ []

abbrev same_names : List String → List String → Bool
same_names [] [] = true
same_names (x ∷ xs) (y ∷ ys) = str_eq x y && same_names xs ys
same_names _ _ = false

-- `isGateKey`: the key names exactly the gate keys.
unfoldable pub is_gate_key : List String → Bool
is_gate_key names = same_names (sort str_le names) (sort str_le gate_keys)

-- `isGateConflict`
unfoldable pub is_gate_conflict : Failure → Bool
unfolding is_gate_key
is_gate_conflict (duplicate_key (some names)) = is_gate_key names
is_gate_conflict _ = false

-- The ResizeTask model: its collection, and `schema.path` when it exposes one.
pub record TaskModel (Db : Type 0) : Type 0 where
  pub collection : Collection TaskDoc Db
  pub path : Option (String → Bool)

-- `schemaError`: the written paths that the schema lacks.
unfoldable pub missing_paths : Option (String → Bool) → List String
missing_paths none = []
missing_paths (some path) = filter (λ p. not (path p)) written_paths

abbrev outdated : Failure
outdated = other "RESIZE_MONGO_MODEL_OUTDATED"

abbrev pub add_round_limit : ℕ
add_round_limit = 2

abbrev claimed : Option TaskDoc → Option ClaimedTask
claimed none = none
claimed (some d) = some (to_claimed_task d)

abbrev receipts : Option TaskDoc → List EnqueueReceipt
receipts none = []
receipts (some d) = record { task_id = d.id; previews = d.previews } ∷ []

-- The insert of `insertActive`: `none` when another active row holds the gate.
abbrev caught : {A : Type 0} → Reply TaskDoc × A → Reply (Option String) × A
caught (done d, db) = (done (some d.id), db)
caught (threw e, db) = (if is_gate_conflict e then done none else threw e, db)

module _ {Db : Type 0} where
  abbrev when_complete : {A : Type 0} → List String → Call Db A → Call Db A
  when_complete [] call db = call db
  when_complete (p ∷ ps) call db = (threw outdated, db)

  -- `#model()`: a missing model gives `none_yet`, an outdated one throws.
  unfoldable pub with_model :
      {A : Type 0} → Option (TaskModel Db) → A → (Collection TaskDoc Db → Call Db A) → Call Db A
  unfolding missing_paths
  with_model none none_yet use_it = pure none_yet
  with_model (some m) none_yet use_it = when_complete (missing_paths m.path) (use_it m.collection)

  unfoldable pub insert_active : Collection TaskDoc Db → NewTask → ℕ → Call Db (Option String)
  unfolding is_gate_conflict
  insert_active c task now db = caught (c.create (new_row task now) db)

  -- What `add` waits through: others change the collection meanwhile.
  abbrev meanwhile : (Db → Db) → Call Db (Unit {0})
  meanwhile others db = (done tt, others db)

  module _ (c : Collection TaskDoc Db) (task : NewTask) (others : ℕ → Db → Db) (clock : ℕ → ℕ) where
    unfoldable pub retire : TaskDoc → ℕ → Call Db (Option TaskDoc)
    retire row now =
        c.find_one_and_update (λ d. str_eq d.id row.id && d.active && take_over_rule now d) retired
          (λ _. 0)

    -- After a duplicate key: the active row in flight, or retired before the next round.
    unfoldable pub on_conflict : ℕ → Call Db TaskAddResult → Option TaskDoc → Call Db TaskAddResult
    unfolding retire
    on_conflict i next none = next
    on_conflict i next (some row) =
        if can_take_over row (clock (i + 1))
        then (do meanwhile (others (i + 2)); retire row (clock (i + 1)); next)
        else pure (in_flight (some row.id))

    after_insert : ℕ → Call Db TaskAddResult → Option String → Call Db TaskAddResult
    unfolding on_conflict
    after_insert i next (some id) = pure (added id)
    after_insert i next none = do
      meanwhile (others (i + 1))
      active ← reading (c.find_one (is_gate (gate_of task)))
      on_conflict i next active

    -- The loop of `add`, with the rounds left and the number of the next wait.
    unfoldable pub add_rounds : ℕ → ℕ → Call Db TaskAddResult
    unfolding after_insert insert_active
    add_rounds zero i = pure (in_flight none)
    add_rounds (suc rounds) i = do
      meanwhile (others i)
      inserted ← insert_active c task (clock i)
      after_insert i (add_rounds rounds (i + 3)) inserted

  abbrev rescue : {A : Type 0} → A → Reply A × Db → A × Db
  rescue a (done b, db) = (b, db)
  rescue a (threw e, db) = (a, db)

  -- `add` never rejects: an error, a missing and an outdated model give `unconfirmed`.
  unfoldable pub add :
      Option (TaskModel Db) → NewTask → (ℕ → Db → Db) → (ℕ → ℕ) → Db → TaskAddResult × Db
  unfolding with_model add_rounds
  add model task others clock db =
      rescue unconfirmed
        (with_model model unconfirmed (λ c. add_rounds c task others clock add_round_limit 0) db)

  -- `holder` and `token` are the process's lease holder and a fresh `randomHex()`.
  unfoldable pub claim :
      Option (TaskModel Db)
      → (holder token queue : String) → (lease_ms now : ℕ) → Option (List String)
      → Call Db (Option ClaimedTask)
  unfolding with_model
  claim model holder token queue lease_ms now served = with_model model none λ c. do
    doc ←
        c.find_one_and_update (is_claimable queue served now) (lease holder token now lease_ms)
          due_order
    pure (claimed doc)

  -- `#fenced`
  unfoldable pub fenced : Option (TaskModel Db) → ClaimedTask → (TaskDoc → TaskDoc) → Call Db Bool
  unfolding with_model
  fenced model task update =
      with_model model false
        λ c. do doc ← c.find_one_and_update (is_held task) update (λ _. 0); pure (is_some doc)

  unfoldable pub renew : Option (TaskModel Db) → ClaimedTask → (lease_ms now : ℕ) → Call Db Bool
  unfolding fenced
  renew model task lease_ms now = fenced model task (renewed now lease_ms)

  unfoldable pub complete : Option (TaskModel Db) → ClaimedTask → (now : ℕ) → Call Db Bool
  unfolding fenced
  complete model task now = fenced model task (finished now)

  -- `fail` with `'dead'`, and with `{ retryAt }`.
  unfoldable pub fail_dead :
      Option (TaskModel Db) → ClaimedTask → String → Option ℕ → (now : ℕ) → Call Db Bool
  unfolding fenced
  fail_dead model task error cooldown_ms now =
      fenced model task (buried now (or_else cooldown_ms 0) error)

  unfoldable pub fail_retry : Option (TaskModel Db) → ClaimedTask → ℕ → String → Call Db Bool
  unfolding fenced
  fail_retry model task retry_at error = fenced model task (retried retry_at error)

  unfoldable pub release : Option (TaskModel Db) → ClaimedTask → (now : ℕ) → Call Db Bool
  unfolding fenced
  release model task now = fenced model task (released now)

  unfoldable pub find_active : Option (TaskModel Db) → Gate → Call Db (List EnqueueReceipt)
  unfolding with_model
  find_active model gate = with_model model [] λ c. do
    doc ← reading (c.find_one (λ d. is_gate gate d && is_live d.status))
    pure (receipts doc)
