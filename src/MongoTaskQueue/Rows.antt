-- ===== src/MongoTaskQueue/Rows.antt =====
-- drivers/mongo/taskQueue.ts and drivers/mongo/schemas.ts: the rows of the ResizeTask collection,
-- and the filters and updates of the queue's calls, each as the test or the change that it makes on
-- one row. A field that is missing or null is `none`.
use framework_module_resizer.Prelude.{
  ℕ, suc, ◌+◌, ◌-◌, String, Bool, true, false, not, ◌&&◌, ◌||◌, Option, none, some, List, any, ltb,
  leb, str_eq, or_else,
}
use framework_module_resizer.Types.{MissingPreview, NewTask, ClaimedTask}

pub data Status : Type 0 where
  pending processing completed dead : Status

pub record TaskDoc : Type 0 where
  pub id : String
  pub file_id : String
  pub resizer : Option String
  pub queue : Option String
  pub pipeline : String
  pub previews : List MissingPreview
  pub status : Status
  pub attempts : ℕ
  pub available_at : Option ℕ
  pub active : Bool
  pub cooldown_until : Option ℕ
  pub leased_by : Option String
  pub lease_token : Option String
  pub lease_expires_at : Option ℕ
  pub started_at : Option ℕ
  pub completed_at : Option ℕ
  pub dead_at : Option ℕ
  pub finished_at : Option ℕ
  pub error : Option String

abbrev pub is_pending : Status → Bool
is_pending pending = true
is_pending _ = false

abbrev pub is_processing : Status → Bool
is_processing processing = true
is_processing _ = false

abbrev pub is_completed : Status → Bool
is_completed completed = true
is_completed _ = false

abbrev pub is_dead : Status → Bool
is_dead dead = true
is_dead _ = false

-- `{ status: { $in: ['pending', 'processing'] } }`
abbrev pub is_live : Status → Bool
is_live s = is_pending s || is_processing s

-- `{ field: { $not: { $gt: now } } }`: a missing time passes.
abbrev pub not_after : ℕ → Option ℕ → Bool
not_after now none = true
not_after now (some t) = leb t now

-- `{ field: { $lt: now } }`: a missing time fails.
abbrev pub is_before : ℕ → Option ℕ → Bool
is_before now none = false
is_before now (some t) = ltb t now

-- `{ field: value }`: a missing field is no value.
abbrev pub holds : Option String → String → Bool
holds none v = false
holds (some s) v = str_eq s v

-- Two values of an indexed field; a missing one is null.
abbrev pub same_value : Option String → Option String → Bool
same_value none none = true
same_value (some s) t = holds t s
same_value _ _ = false

-- The key of the gate: one Resizer, media, pipeline and queue.
pub record Gate : Type 0 where
  pub resizer : String
  pub file_id : String
  pub pipeline : String
  pub queue : String

abbrev pub gate_of : NewTask → Gate
gate_of task = record {
  resizer = task.resizer;
  file_id = task.media_id;
  pipeline = task.pipeline;
  queue = task.queue;
}

-- The filter `{ ...gate, active: true }` of `add`.
unfoldable pub is_gate : Gate → TaskDoc → Bool
is_gate g d =
    holds d.resizer g.resizer
    && str_eq d.file_id g.file_id
    && str_eq d.pipeline g.pipeline
    && holds d.queue g.queue
    && d.active

-- Two rows that the gate index does not allow side by side: unique, over the active rows.
unfoldable pub gate_clash : TaskDoc → TaskDoc → Bool
gate_clash d e =
    d.active
    && e.active
    && same_value d.resizer e.resizer
    && str_eq d.file_id e.file_id
    && str_eq d.pipeline e.pipeline
    && same_value d.queue e.queue

-- `named`: rows without the field belong to 'default'.
unfoldable pub named : String → Option String → Bool
named value none = str_eq value "default"
named value (some s) = str_eq s value

-- `namedAll`, under `$in`.
unfoldable pub named_all : List String → Option String → Bool
named_all values none = any (λ v. str_eq v "default") values
named_all values (some s) = any (str_eq s) values

abbrev pub serves : Option (List String) → Option String → Bool
serves none r = true
serves (some resizers) r = named_all resizers r

-- The filter of `claim`.
unfoldable pub is_claimable : String → Option (List String) → ℕ → TaskDoc → Bool
is_claimable queue served now d =
    named queue d.queue
    && serves served d.resizer
    && is_live d.status
    && not_after now d.available_at
    && (is_pending d.status && not_after now d.lease_expires_at || is_before now d.lease_expires_at)

-- `{ sort: { availableAt: 1 } }`: a missing time comes first.
abbrev pub due_order : TaskDoc → ℕ
due_order d = elim (d.available_at) [ none ↦ 0 | some t ↦ suc t ]

-- The update of `claim`.
unfoldable pub lease : String → String → ℕ → ℕ → TaskDoc → TaskDoc
lease holder token now lease_ms d = record d {
  status = processing;
  leased_by = some holder;
  lease_token = some token;
  lease_expires_at = some (now + lease_ms);
  available_at = some (now + lease_ms);
  started_at = some now;
  attempts = d.attempts + 1;
}

-- `takeOverRule`, the filter of the retiring update.
unfoldable pub take_over_rule : ℕ → TaskDoc → Bool
take_over_rule now d = is_completed d.status || is_dead d.status && not_after now d.cooldown_until

-- `row.cooldownUntil && row.cooldownUntil.getTime() > now.getTime()`
abbrev pub is_cooling : ℕ → Option ℕ → Bool
is_cooling now none = false
is_cooling now (some t) = ltb now t

-- `canTakeOver`, the same rule on the row that `add` has read.
unfoldable pub can_take_over : TaskDoc → ℕ → Bool
can_take_over row now =
    is_completed row.status || is_dead row.status && not (is_cooling now row.cooldown_until)

-- The fence of `renew`, `complete`, `fail` and `release`.
unfoldable pub is_held : ClaimedTask → TaskDoc → Bool
is_held task d =
    str_eq d.id task.task_id && holds d.lease_token task.token && is_processing d.status

unfoldable pub renewed : ℕ → ℕ → TaskDoc → TaskDoc
renewed now lease_ms d = record d {
  lease_expires_at = some (now + lease_ms);
  available_at = some (now + lease_ms);
}

unfoldable pub finished : ℕ → TaskDoc → TaskDoc
finished now d = record d {
  status = completed;
  completed_at = some now;
  finished_at = some now;
  active = false;
}

unfoldable pub buried : ℕ → ℕ → String → TaskDoc → TaskDoc
buried now cooldown_ms error d = record d {
  status = dead;
  dead_at = some now;
  finished_at = some now;
  error = some error;
  cooldown_until = some (now + cooldown_ms);
}

unfoldable pub retried : ℕ → String → TaskDoc → TaskDoc
retried retry_at error d = record d {
  status = pending;
  lease_token = none;
  lease_expires_at = none;
  available_at = some retry_at;
  error = some error;
}

-- A claimed row has at least one attempt, so the truncated difference is exact.
unfoldable pub released : ℕ → TaskDoc → TaskDoc
released now d = record d {
  status = pending;
  lease_token = none;
  lease_expires_at = none;
  available_at = some now;
  attempts = d.attempts - 1;
}

unfoldable pub retired : TaskDoc → TaskDoc
retired d = record d { active = false }

-- The document that `insertActive` creates.
unfoldable pub new_row : NewTask → ℕ → String → TaskDoc
new_row task now id = record {
  id = id;
  file_id = task.media_id;
  resizer = some task.resizer;
  queue = some task.queue;
  pipeline = task.pipeline;
  previews = task.previews;
  status = pending;
  attempts = 0;
  available_at = some now;
  active = true;
  cooldown_until = none;
  leased_by = none;
  lease_token = none;
  lease_expires_at = none;
  started_at = none;
  completed_at = none;
  dead_at = none;
  finished_at = none;
  error = none;
}

-- `toClaimedTask`; a row that `claim` returns has a token.
unfoldable pub to_claimed_task : TaskDoc → ClaimedTask
to_claimed_task d = record {
  task_id = d.id;
  resizer = or_else d.resizer "default";
  queue = or_else d.queue "default";
  media_id = d.file_id;
  pipeline = d.pipeline;
  previews = d.previews;
  attempts = d.attempts;
  token = or_else d.lease_token "";
  gate_owner = none;
}
