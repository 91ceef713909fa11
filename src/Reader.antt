-- ===== src/Reader.antt =====
-- reader.ts: `resolve`, which serves what is stored and queues what is missing or stale. The host's taps
-- and the URLs of the storage driver are parameters; the logging and the counts of a read are left
-- out.
pub mod Joining
pub mod Queued
pub mod Prewarm
pub mod Accounts
pub mod Reported
pub mod Catalogued
mod Tests
use framework_module_resizer.Prelude.{
  ℕ, ◌+◌, String, Bool, true, false, not, ◌&&◌, Option, none, some, List, [], ◌∷◌, ◌++◌, length,
  filter, any, is_some, ◌==◌, str_eq, if◌then◌else◌,
}
use framework_module_resizer.Types.{
  Json, Fields, PreviewScope, Preview, Dimensions, Original, MediaLike, MissingPreview,
}
use framework_module_resizer.Database.{Reply, done, threw}
use framework_module_resizer.Sizes.{SizeInput, get_size_key, to_missing_preview}
use framework_module_resizer.Sizes.Requests.{cell_identity, identity_of}
use framework_module_resizer.Filters.{filter_sig}
use framework_module_resizer.Catalog.{Split, is_null, last, split_stored, stored_preview_rows}
use framework_module_resizer.Catalog.Groups.{lookup}
use framework_module_resizer.Catalog.Formats.{configured_formats, is_configured_format}
use framework_module_resizer.Dispatcher.{ReadOutcome, suppressed, failed}

-- `ReadyEntry`
pub record ReadyEntry : Type 0 where
  pub size_key : String
  pub format : String
  pub url : String
  pub preview : Preview
  pub content_type : String
  pub filters : Option Fields
  pub stale : Bool

-- What the loop of `resolve` has so far.
pub record Grid : Type 0 where
  pub ready : List ReadyEntry
  pub to_queue : List MissingPreview
  pub queued_identities : List String
  pub stale_identities : List String
  pub missing_count : ℕ

abbrev pub empty_grid : Grid
empty_grid = record {
  ready = [];
  to_queue = [];
  queued_identities = [];
  stale_identities = [];
  missing_count = 0;
}

-- A variant joins the queue, unless its identity has.
abbrev pub queue_once : (seen stale : Bool) → String → MissingPreview → Grid → Grid
queue_once true stale id v g = g
queue_once false stale id v g = record g {
  to_queue = g.to_queue ++ v ∷ [];
  queued_identities = g.queued_identities ++ id ∷ [];
  stale_identities = if stale then g.stale_identities ++ id ∷ [] else g.stale_identities;
  missing_count = if stale then g.missing_count else g.missing_count + 1;
}

-- A stored preview, with its URL when the driver gives one.
abbrev pub serve : Option String → SizeInput → String → String → Bool → Preview → Grid → Grid
serve none size key format stale row g = g
serve (some url) size key format stale row g = record g {
  ready =
      g.ready
      ++ record {
        size_key = key;
        format = format;
        url = url;
        preview = row;
        content_type = row.content_type;
        filters = size.filters;
        stale = stale;
      }
        ∷ [];
}

-- How a read counts itself: as the dispatch of its variants, or by why there was none.
pub data ReadResult : Type 0 where
  all_ready unknown_pipeline eager_only no_original : ReadResult
  dispatched : ReadOutcome → ReadResult

pub record ReadDecision : Type 0 where
  pub ready : List ReadyEntry
  pub missing : List MissingPreview
  pub stale : List MissingPreview

module _ (encode : String → String) (le : String → String → Bool) (stringify : Json → String)
    (scope : PreviewScope) (url_of : Option Json → Option String) (known : Bool)
    (split : Split) where
  abbrev queue_cell : Bool → SizeInput → String → String → Grid → Grid
  queue_cell stale size key format g =
      let id = cell_identity encode le stringify scope size key format in
      queue_once (any (str_eq id) g.queued_identities) stale id (to_missing_preview size key format)
        g

  abbrev pub by_rows : Option Preview → Option Preview → SizeInput → String → String → Grid → Grid
  by_rows (some row) old size key format g =
      serve (url_of row.storage_ref) size key format false row g
  by_rows none (some row) size key format g =
      serve (url_of row.storage_ref) size key format true row (queue_cell true size key format g)
  by_rows none none size key format g =
      let queued = queue_cell false size key format g in if known then queued else g

  -- One cell of the loop.
  unfoldable pub resolve_cell : SizeInput → String → String → Grid → Grid
  unfolding to_missing_preview
  resolve_cell size key format g =
      let id = cell_identity encode le stringify scope size key format in
      by_rows (lookup id split.fresh) (lookup id split.stale) size key format g

  unfoldable pub resolve_formats : SizeInput → String → List String → Grid → Grid
  unfolding resolve_cell
  resolve_formats size key [] g = g
  resolve_formats size key (f ∷ fs) g = resolve_formats size key fs (resolve_cell size key f g)

  abbrev pub resolve_size : SizeInput → Option String → List String → Grid → Grid
  resolve_size size none formats g = g
  resolve_size size (some key) formats g = resolve_formats size key formats g

  unfoldable pub resolve_sizes : List SizeInput → List String → Grid → Grid
  unfolding resolve_formats get_size_key
  resolve_sizes [] formats g = g
  resolve_sizes (size ∷ sizes) formats g =
      resolve_sizes sizes formats (resolve_size size (get_size_key size) formats g)

-- What a read may queue with: the setting of the call, and the dispatcher or why there is none.
pub record Queueing : Type 0 where
  pub enqueue_missing : Option Bool
  pub dispatcher : Option (List MissingPreview → Reply ReadOutcome)
  pub queue_failure : Bool

abbrev is_off : Option Bool → Bool
is_off (some false) = true
is_off o = false

abbrev pub has_original : Option Original → Bool
has_original none = false
has_original (some o) = not (is_null o.storage_ref)

abbrev pub sent_outcome : Reply ReadOutcome → ReadResult
sent_outcome (done o) = dispatched o
sent_outcome (threw e) = dispatched failed

abbrev pub by_dispatcher :
    Option (List MissingPreview → Reply ReadOutcome) → Bool → List MissingPreview → ReadResult
by_dispatcher (some send) failure vs = sent_outcome (send vs)
by_dispatcher none true vs = dispatched failed
by_dispatcher none false vs = eager_only

-- `#queueMissing`
unfoldable pub queue_missing : Queueing → Option Original → List MissingPreview → ReadResult
queue_missing q original [] = dispatched suppressed
queue_missing q original (v ∷ vs) =
    if is_off q.enqueue_missing
    then dispatched suppressed
    else if not (has_original original)
    then no_original
    else by_dispatcher q.dispatcher q.queue_failure (v ∷ vs)

module _ (encode : String → String) (le : String → String → Bool) (stringify : Json → String)
    (preview_origin : Json → Dimensions → String) (encode_sig : String → String → Bool → String)
    (scope : PreviewScope) (url_of : Option Json → Option String) (encoders : List String)
    (before_enqueue : List MissingPreview → List MissingPreview) where
  -- `catalog.storedPreviews`: the last row of each identity.
  last_rows : List (String × List Preview) → List (String × Preview)
  last_rows [] = []
  last_rows ((k, rows) ∷ m) = elim (last rows) [
    | none ↦ last_rows m
    | some row ↦ (k, row) ∷ last_rows m
  ]

  unfoldable pub stored_previews : MediaLike → List (String × Preview)
  unfolding last_rows stored_preview_rows
  stored_previews media =
      last_rows
        (stored_preview_rows encode (filter_sig le stringify) preview_origin encode_sig media scope)

  -- The rows that a read serves; an unknown pipeline serves every row as fresh.
  unfoldable pub served : Bool → MediaLike → Split
  unfolding stored_previews split_stored
  served true media =
      split_stored encode (filter_sig le stringify) preview_origin encode_sig media scope none
  served false media = record { fresh = stored_previews media; stale = [] }

  unfoldable pub grid_of : Bool → MediaLike → List SizeInput → List String → Grid
  unfolding resolve_sizes served configured_formats
  grid_of known media sizes formats =
      resolve_sizes encode le stringify scope url_of known (served known media) sizes
        (configured_formats encoders formats).formats empty_grid

  abbrev is_stale_variant : Grid → MissingPreview → Bool
  is_stale_variant g v =
      any (str_eq (identity_of encode le stringify preview_origin encode_sig scope v))
        g.stale_identities

  -- `splitConfigured`, and `splitStale`, of what the tap answers. The list that the tap was given is not
  -- read after it, so what the tap leaves in it plays no part.
  unfoldable pub queued_variants : Bool → Grid → List MissingPreview
  unfolding is_configured_format
  queued_variants false g = []
  queued_variants true g =
      filter (λ v. is_configured_format encoders v.format) (before_enqueue g.to_queue)

  unfoldable pub decision_of : Bool → Grid → ReadDecision
  unfolding queued_variants
  decision_of known g = record {
    ready = g.ready;
    missing = filter (λ v. not (is_stale_variant g v)) (queued_variants known g);
    stale = filter (is_stale_variant g) (queued_variants known g);
  }

  unfoldable pub read_result : Bool → Queueing → Option Original → Grid → ReadResult
  unfolding queue_missing queued_variants
  read_result false q original g = unknown_pipeline
  read_result true q original g =
      if length g.to_queue == 0
      then all_ready
      else queue_missing q original (queued_variants true g)

  -- `resolve`, of the sizes that the tap `resolveSizes` returned.
  unfoldable pub resolve :
      Bool → Queueing → MediaLike → List SizeInput → List String → ReadDecision × ReadResult
  unfolding grid_of decision_of read_result
  resolve known q media sizes formats =
      let g = grid_of known media sizes formats in
      (decision_of known g, read_result known q media.original g)
