-- ===== src/Types.antt =====
-- The data that the parts exchange: types.d.ts (filters, variants, preview rows, originals, media
-- and receipts) and contracts/taskQueue.ts (a task as it is added, and as it is claimed). Widths
-- and heights are whole numbers, and times are milliseconds since the epoch.
use framework_module_resizer.Prelude.{ℕ, String, Bool, Option, List}

-- A JSON value, as a filter can hold one at run time. A number is the text that prints it, so two
-- numbers are equal when they print alike.
mutual
  pub data Json : Type 0 where
    null : Json
    bool : Bool → Json
    num : String → Json
    str : String → Json
    arr : Items → Json
    obj : Fields → Json

  pub data Items : Type 0 where
    nil : Items
    cons : Json → Items → Items

  pub data Fields : Type 0 where
    end : Fields
    field : String → Json → Fields → Fields

-- Which Resizer and pipeline rendered a preview.
pub record PreviewScope : Type 0 where
  pub resizer : String
  pub pipeline : String

-- One requested variant; an absent key is `none`.
pub record MissingPreview : Type 0 where
  pub size_key : String
  pub filters : Option Fields
  pub requested_width : Option ℕ
  pub requested_height : Option ℕ
  pub format : String
  pub fit : Option Bool

-- A stored preview row, with the fields that the core reads.
pub record Preview : Type 0 where
  pub storage_ref : Option Json
  pub resizer : Option String
  pub pipeline : Option String
  pub size_key : String
  pub filters : Option Fields
  pub format : String
  pub content_type : String
  pub fit : Option Bool
  pub origin : Option String
  pub encode_sig : Option String

pub record Dimensions : Type 0 where
  pub width : ℕ
  pub height : ℕ

pub record Original : Type 0 where
  pub storage_ref : Option Json
  pub width : Option ℕ
  pub height : Option ℕ

pub record MediaLike : Type 0 where
  pub original : Option Original
  pub previews : List Preview

-- A task to store; `gate_owner` only beside a queue without `gatesByTask`.
pub record NewTask : Type 0 where
  pub resizer : String
  pub queue : String
  pub media_id : String
  pub pipeline : String
  pub previews : List MissingPreview
  pub gate_owner : Option String

-- A task held by a worker.
pub record ClaimedTask : Type 0 where
  pub task_id : String
  pub resizer : String
  pub queue : String
  pub media_id : String
  pub pipeline : String
  pub previews : List MissingPreview
  pub attempts : ℕ
  pub token : String
  pub gate_owner : Option String

pub data TaskAddResult : Type 0 where
  added : String → TaskAddResult
  in_flight : Option String → TaskAddResult
  unconfirmed : TaskAddResult

pub record EnqueueReceipt : Type 0 where
  pub task_id : String
  pub previews : List MissingPreview
