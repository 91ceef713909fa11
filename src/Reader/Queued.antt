-- ===== src/Reader/Queued.antt =====
-- reader.ts: what a read queues, against the stored rows and the requested cells.
use mathlib.Core.List.{map-append}
use framework_module_resizer.Prelude.{
  String, Bool, true, false, not, ◌&&◌, ◌||◌, Option, none, some, List, [], ◌∷◌, map, length,
  filter, keep_if, any, any-map, any_agree, is_some, ◌==◌, str_eq, if◌then◌else◌, ◌≡◌, refl, sym,
  ap, ◌∙◌, arith,
}
use framework_module_resizer.Prelude.Once.{
  added_all, added_all-distinct, added_all-any, added_all-any_of, all_distinct,
}
use framework_module_resizer.Types.{
  Json, PreviewScope, Preview, Dimensions, MediaLike, Original, MissingPreview,
}
use framework_module_resizer.Database.{Reply, done, threw}
use framework_module_resizer.Dispatcher.{ReadOutcome, suppressed}
use framework_module_resizer.Catalog.{Split}
use framework_module_resizer.Catalog.Groups.{lookup}
use framework_module_resizer.Catalog.Formats.{configured_formats, is_configured_format}
use framework_module_resizer.Sizes.{SizeInput, get_size_key, to_missing_preview}
use framework_module_resizer.Sizes.Requests.{
  cell_identity, identity_of, asked, payload_identity, asks_for, any-asked,
}
use framework_module_resizer.Reader.{
  dispatched, no_original, sent_outcome, by_dispatcher, Grid, empty_grid, queue_once, serve,
  by_rows, resolve_cell, resolve_formats, resolve_size, resolve_sizes, grid_of, served, Queueing,
  ReadResult, all_ready, read_result, resolve, queue_missing,
}
use framework_module_resizer.Reader.Joining.{needs, any-filter, resolve_sizes-queued}

module _ (encode : String → String) (le : String → String → Bool) (stringify : Json → String)
    (preview_origin : Json → Dimensions → String) (encode_sig : String → String → Bool → String)
    (scope : PreviewScope) (url_of : Option Json → Option String) where
  abbrev id_of : MissingPreview → String
  id_of = identity_of encode le stringify preview_origin encode_sig scope

  -- The Set of the loop names the variants to queue.
  Matches : Grid → Type 0
  Matches g = map id_of g.to_queue ≡ g.queued_identities

  module _ (known : Bool) (split : Split) where
    queue_once-Matches :
        (seen stale : Bool) (size : SizeInput) (key f : String) (g : Grid)
        → Matches g
        → Matches (
            queue_once seen stale
              (cell_identity encode le stringify scope size key f)
              (to_missing_preview size key f)
              g)
    unfolding Matches
    queue_once-Matches true stale size key f g h = h
    queue_once-Matches false stale size key f g h =
        map-append id_of g.to_queue _
        ∙ (let same =
              payload_identity encode le stringify preview_origin encode_sig scope size key f in
            cc (h, same))

    serve-Matches :
        (url : Option String) (size : SizeInput) (key f : String) (stale : Bool) (row : Preview)
        (g : Grid)
        → Matches g
        → Matches (serve url size key f stale row g)
    unfolding Matches
    serve-Matches none size key f stale row g h = h
    serve-Matches (some url) size key f stale row g h = h

    by_rows-Matches :
        (fresh old : Option Preview) (size : SizeInput) (key f : String) (g : Grid)
        → Matches g
        → Matches (by_rows encode le stringify scope url_of known split fresh old size key f g)
    by_rows-Matches (some row) old size key f g h =
        serve-Matches (url_of row.storage_ref) size key f false row g h
    by_rows-Matches none (some row) size key f g h =
        serve-Matches (url_of row.storage_ref) size key f true row _
          (queue_once-Matches _ true size key f g h)
    by_rows-Matches none none size key f g h = by_known known
      where
        by_known :
            (k : Bool)
            → Matches (
                if k
                then queue_once
                    (any
                      (str_eq (cell_identity encode le stringify scope size key f))
                      g.queued_identities)
                    false
                    (cell_identity encode le stringify scope size key f)
                    (to_missing_preview size key f)
                    g
                else g)
        by_known true = queue_once-Matches _ false size key f g h
        by_known false = h

    resolve_formats-Matches :
        (size : SizeInput) (key : String) (fs : List String) (g : Grid)
        → Matches g
        → Matches (resolve_formats encode le stringify scope url_of known split size key fs g)
    unfolding resolve_formats resolve_cell
    resolve_formats-Matches size key [] g h = h
    resolve_formats-Matches size key (f ∷ fs) g h =
        resolve_formats-Matches size key fs _ (by_rows-Matches _ _ size key f g h)

    resolve_size-Matches :
        (size : SizeInput) (k : Option String) (fs : List String) (g : Grid)
        → Matches g
        → Matches (resolve_size encode le stringify scope url_of known split size k fs g)
    resolve_size-Matches size none fs g h = h
    resolve_size-Matches size (some key) fs g h = resolve_formats-Matches size key fs g h

    resolve_sizes-Matches :
        (sizes : List SizeInput) (fs : List String) (g : Grid)
        → Matches g
        → Matches (resolve_sizes encode le stringify scope url_of known split sizes fs g)
    unfolding resolve_sizes
    resolve_sizes-Matches [] fs g h = h
    resolve_sizes-Matches (size ∷ sizes) fs g h =
        resolve_sizes-Matches sizes fs _ (resolve_size-Matches size (get_size_key size) fs g h)

    -- The identities of the variants to queue.
    to_queue_lem :
        (sizes : List SizeInput) (fs : List String)
        → map id_of
            (resolve_sizes encode le stringify scope url_of known split sizes fs
              empty_grid).to_queue
          ≡ added_all
              (filter
                (needs encode le stringify scope url_of known split)
                (asked encode le stringify scope sizes fs))
              []
    unfolding Matches
    to_queue_lem sizes fs =
        resolve_sizes-Matches sizes fs empty_grid refl
        ∙ resolve_sizes-queued encode le stringify scope url_of known split sizes fs empty_grid

  module _ (encoders : List String)
      (before_enqueue : List MissingPreview → List MissingPreview) where
    abbrev grid : Bool → MediaLike → List SizeInput → List String → Grid
    grid =
        grid_of encode le stringify preview_origin encode_sig scope url_of encoders before_enqueue

    abbrev pub split_of : Bool → MediaLike → Split
    split_of =
        served encode le stringify preview_origin encode_sig scope url_of encoders before_enqueue

    -- A read asks for no identity twice, and for exactly the identities of the requested cells, in a
    -- configured format, that need a preview: those without a fresh row, when the pipeline is known.
    pub grid-queues :
        (known : Bool) (media : MediaLike) (sizes : List SizeInput) (formats : List String)
        (x : String)
        → (all_distinct (map id_of (grid known media sizes formats).to_queue) ≡ true)
          × (any (λ v. str_eq x (id_of v)) (grid known media sizes formats).to_queue
              ≡ needs encode le stringify scope url_of known (split_of known media) x
                && any
                    (λ size.
                      asks_for encode le stringify scope x
                        (configured_formats encoders formats).formats
                        size
                        (get_size_key size))
                    sizes)
    unfolding grid_of
    grid-queues known media sizes formats x =
        let fs = (configured_formats encoders formats).formats in
        let ids = asked encode le stringify scope sizes fs in
        let p = needs encode le stringify scope url_of known (split_of known media) in
        let named = to_queue_lem known (split_of known media) sizes fs in
        (
          ap all_distinct named ∙ added_all-distinct (filter p ids) [] refl,
          sym (any-map (str_eq x) id_of (grid known media sizes formats).to_queue)
              ∙ ap (any (str_eq x)) named
              ∙ added_all-any x (filter p ids) []
              ∙ any-filter p x ids
              ∙ ap (λ b. p x && b) (any-asked encode le stringify scope x sizes fs),
        )

    abbrev pub is_all_ready : ReadResult → Bool
    is_all_ready all_ready = true
    is_all_ready r = false

    queue_missing-is_all_ready :
        (q : Queueing) (o : Option Original) (vs : List MissingPreview)
        → is_all_ready (queue_missing q o vs) ≡ false
    unfolding queue_missing
    queue_missing-is_all_ready q o [] = refl
    queue_missing-is_all_ready q o (v ∷ vs) = by_tests _ _ _ (by_parts q.dispatcher q.queue_failure)
      where
        by_tests :
            (a b : Bool) (r : ReadResult)
            → is_all_ready r ≡ false
            → is_all_ready (if a then dispatched suppressed else if b then no_original else r)
              ≡ false
        by_tests true b r h = refl
        by_tests false true r h = refl
        by_tests false false r h = h

        by_reply : (r : Reply ReadOutcome) → is_all_ready (sent_outcome r) ≡ false
        by_reply (done o) = refl
        by_reply (threw e) = refl

        by_parts :
            (d : Option (List MissingPreview → Reply ReadOutcome)) (failure : Bool)
            → is_all_ready (by_dispatcher d failure (v ∷ vs)) ≡ false
        by_parts (some send) failure = by_reply (send (v ∷ vs))
        by_parts none true = refl
        by_parts none false = refl

    any-true : {A : Type 0} (xs : List A) → (length xs == 0) ≡ not (any (λ x. true) xs)
    any-true [] = refl
    any-true (x ∷ xs) = ground arith

    any-filter_all :
        (p : String → Bool) (xs : List String) → any (λ x. true) (filter p xs) ≡ any p xs
    any-filter_all p [] = refl
    any-filter_all p (x ∷ xs) = by_test (p x) (any-filter_all p xs)
      where
        by_test :
            (b : Bool)
            → any (λ x. true) (filter p xs) ≡ any p xs
            → any (λ x. true) (keep_if b x (filter p xs)) ≡ b || any p xs
        by_test true ih = refl
        by_test false ih = ih

    -- A read of a known pipeline counts as ready exactly when every identity asked for, by a size that
    -- has a key and in a format with encoder settings, has a fresh row, whatever the tap makes of the
    -- list and whatever the queue would answer. What is asked in another format, or by a size without
    -- a key, plays no part: it neither has to be served nor keeps the read from being ready.
    pub resolve-is_all_ready :
        (q : Queueing) (media : MediaLike) (sizes : List SizeInput) (formats : List String)
        → is_all_ready
            (resolve encode le stringify preview_origin encode_sig scope url_of encoders
              before_enqueue true q media sizes formats).1
          ≡ not (
              any
                (λ x. not (is_some (lookup x (split_of true media).fresh)))
                (asked encode le stringify scope sizes
                  (configured_formats encoders formats).formats))
    unfolding resolve read_result grid_of
    resolve-is_all_ready q media sizes formats =
        let fs = (configured_formats encoders formats).formats in
        let ids = asked encode le stringify scope sizes fs in
        let p = needs encode le stringify scope url_of true (split_of true media) in
        let vs = (grid true media sizes formats).to_queue in
        by_test (length vs == 0)
        ∙ any-true vs
        ∙ ap not (
            sym (any-map (λ x. true) id_of vs)
            ∙ ap (any (λ x. true)) (to_queue_lem true (split_of true media) sizes fs)
            ∙ added_all-any_of (λ x. true) (filter p ids) []
            ∙ any-filter_all p ids
            ∙ any_agree p (λ x. not (is_some (lookup x (split_of true media).fresh))) ids
                (λ x. ground arith))
      where
        by_test :
            (b : Bool)
            → is_all_ready (
                if b
                then all_ready
                else queue_missing q media.original (
                    filter
                      (λ v. is_configured_format encoders v.format)
                      (before_enqueue (grid true media sizes formats).to_queue)))
              ≡ b
        by_test true = refl
        by_test false = queue_missing-is_all_ready q media.original _
