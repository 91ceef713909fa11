-- ===== src/Reader/Tests.antt =====
-- A read of a media with a fresh row, a stale one, and a size without a row.
use framework_module_resizer.Prelude.{
  ℕ, length, String, Bool, true, false, not, ◌&&◌, Option, none, some, List, [], ◌∷◌, map, any,
  is_some, str_eq, ◌≡◌, refl,
}
use framework_module_resizer.Prelude.Text.{str_le}
use framework_module_resizer.Prelude.Decimal.{digits}
use framework_module_resizer.Prelude.Once.{all_distinct}
use framework_module_resizer.Types.{
  Json, str, PreviewScope, Preview, Dimensions, MediaLike, MissingPreview,
}
use framework_module_resizer.Keys.{preview_identity}
use framework_module_resizer.Filters.{filter_sig}
use framework_module_resizer.Catalog
use framework_module_resizer.Catalog.Groups.{lookup}
use framework_module_resizer.Catalog.Formats.{configured_formats}
use framework_module_resizer.Database.{done, threw, other}
use framework_module_resizer.Dispatcher.{enqueued}
use framework_module_resizer.Sizes.{SizeInput, dyadic, get_size_key}
use framework_module_resizer.Sizes.Requests.{asks_for, asked, identity_of}
use framework_module_resizer.Reader.{
  Queueing, ReadDecision, ReadResult, dispatched, grid_of, resolve,
}
use framework_module_resizer.Reader.Prewarm.{
  PrewarmResult, PrewarmQueue, queueing, no_task_queue, named,
}
use framework_module_resizer.Reader.Accounts.{is_honest}
use framework_module_resizer.Reader.Catalogued.{
  prewarm_media, prewarm_media-named, prewarm_media-is_honest,
}
use framework_module_resizer.Reader.Joining.{needs}
use framework_module_resizer.Reader.Queued.{
  split_of, is_all_ready, grid-queues, resolve-is_all_ready,
}

abbrev encode : String → String
encode s = s

abbrev stringify : Json → String
stringify v = "?"

abbrev origin_of : Json → Dimensions → String
origin_of ref d = "origin"

abbrev sig_of : String → String → Bool → String
sig_of pipeline format fit = "sig"

abbrev url_of : Option Json → Option String
url_of (some (str s)) = some s
url_of o = none

abbrev tap : List MissingPreview → List MissingPreview
tap vs = vs

abbrev scope : PreviewScope
scope = record { resizer = "default"; pipeline = "default" }

abbrev wide : ℕ → SizeInput
wide w = record { width = some (dyadic w 0); height = none; fit = none; filters = none }

abbrev row : String → Option String → Preview
row key sig = record {
  storage_ref = some (str key);
  resizer = none;
  pipeline = none;
  size_key = key;
  filters = none;
  format = "webp";
  content_type = "image/webp";
  fit = some false;
  origin = some "origin";
  encode_sig = sig;
}

abbrev media : MediaLike
media = record {
  original = some record { storage_ref = some (str "o"); width = some 640; height = some 480 };
  previews = row "100w" (some "sig") ∷ row "200w" (some "old") ∷ [];
}

abbrev sizes : List SizeInput
sizes = wide 100 ∷ wide 200 ∷ wide 300 ∷ wide 300 ∷ []

abbrev with_queue : Queueing
with_queue = record {
  enqueue_missing = none;
  dispatcher = some (λ vs. done enqueued);
  queue_failure = false;
}

abbrev read : Bool → List SizeInput → ReadDecision × ReadResult
read known sizes =
    resolve encode str_le stringify origin_of sig_of scope url_of ("webp" ∷ []) tap known with_queue
      media sizes ("webp" ∷ [])

resolve_runs :
    (map (λ e. e.url) (read true sizes).0.ready ≡ "100w" ∷ "200w" ∷ [])
    × (map (λ v. v.size_key) (read true sizes).0.missing ≡ "300w" ∷ [])
    × (map (λ v. v.size_key) (read true sizes).0.stale ≡ "200w" ∷ [])
    × ((read true sizes).1 ≡ dispatched enqueued)
    × ((read false sizes).0.missing ≡ [])
unfolding resolve digits preview_identity filter_sig get_size_key Catalog.identity
resolve_runs = (refl, refl, refl, refl, refl)

grid-queues_example :
    (all_distinct (
        map
          (identity_of encode str_le stringify origin_of sig_of scope)
          (grid_of encode str_le stringify origin_of sig_of scope url_of
            ("webp" ∷ [])
            tap
            true
            media
            sizes
            ("webp" ∷ [])).to_queue)
      ≡ true)
    × (any
          (λ v.
            str_eq "default:default:300w:webp:none"
              (identity_of encode str_le stringify origin_of sig_of scope v))
          (grid_of encode str_le stringify origin_of sig_of scope url_of
            ("webp" ∷ [])
            tap
            true
            media
            sizes
            ("webp" ∷ [])).to_queue
        ≡ needs encode str_le stringify scope url_of true
            (split_of encode str_le stringify origin_of sig_of scope url_of
              ("webp" ∷ [])
              tap
              true
              media)
            "default:default:300w:webp:none"
          && any
              (λ size.
                asks_for encode str_le stringify scope "default:default:300w:webp:none"
                  (configured_formats ("webp" ∷ []) ("webp" ∷ [])).formats
                  size
                  (get_size_key size))
              sizes)
grid-queues_example =
    grid-queues encode str_le stringify origin_of sig_of scope url_of ("webp" ∷ []) tap true media
      sizes ("webp" ∷ []) "default:default:300w:webp:none"

resolve-is_all_ready_example :
    is_all_ready encode str_le stringify origin_of sig_of scope url_of
      ("webp" ∷ [])
      tap
      (read true (wide 100 ∷ [])).1
    ≡ not (
        any
          (λ x. not (
            is_some (
              lookup x
                (split_of encode str_le stringify origin_of sig_of scope url_of
                  ("webp" ∷ [])
                  tap
                  true
                  media).fresh)))
          (asked encode str_le stringify scope
            (wide 100 ∷ [])
            (configured_formats ("webp" ∷ []) ("webp" ∷ [])).formats))
resolve-is_all_ready_example =
    resolve-is_all_ready encode str_le stringify origin_of sig_of scope url_of ("webp" ∷ []) tap
      with_queue media (wide 100 ∷ []) ("webp" ∷ [])

-- A prewarm of four sizes: one has a fresh row, one is given twice, and the tap drops one.
abbrev first_only : List MissingPreview → List MissingPreview × List MissingPreview
first_only [] = ([], [])
first_only (v ∷ vs) = (v ∷ [], v ∷ vs)

-- A tap that empties the list that it is given.
abbrev emptying : List MissingPreview → List MissingPreview × List MissingPreview
emptying vs = ([], [])

first_only-left : (vs : List MissingPreview) → (first_only vs).1 ≡ vs
first_only-left [] = refl
first_only-left (v ∷ vs) = refl

abbrev variant_text : MissingPreview → String
variant_text v = v.size_key

abbrev failing : PrewarmQueue
failing = queueing (λ vs. threw (other "down"))

abbrev warmed : PrewarmQueue → PrewarmResult
warmed q =
    prewarm_media encode str_le stringify origin_of sig_of variant_text scope (λ e. false) false
      ("webp" ∷ []) first_only true q media sizes ("webp" ∷ "jpg" ∷ [])

prewarm_runs :
    (map variant_text (warmed no_task_queue).ready ≡ "100w" ∷ [])
    × (map variant_text (warmed no_task_queue).not_required ≡ "300w" ∷ [])
    × (map variant_text (warmed no_task_queue).unconfirmed_previews
        ≡ "200w" ∷ "100w" ∷ "200w" ∷ "300w" ∷ [])
    × (length (warmed failing).unconfirmed_previews ≡ 6)
unfolding prewarm_media digits preview_identity filter_sig get_size_key Catalog.identity
prewarm_runs = (refl, refl, refl, refl)

prewarm_media-is_honest_example : is_honest (warmed no_task_queue) ≡ true
prewarm_media-is_honest_example =
    prewarm_media-is_honest encode str_le stringify origin_of sig_of variant_text scope (λ e. false)
      false ("webp" ∷ []) first_only true no_task_queue media sizes ("webp" ∷ "jpg" ∷ [])

prewarm_media-named_example :
    named
      (identity_of encode str_le stringify origin_of sig_of scope)
      "default:default:300w:webp:none"
      (warmed failing).requested
    ≡ true
unfolding digits preview_identity filter_sig get_size_key configured_formats
prewarm_media-named_example =
    prewarm_media-named encode str_le stringify origin_of sig_of variant_text scope (λ e. false)
      false ("webp" ∷ []) first_only true failing media sizes ("webp" ∷ "jpg" ∷ [])
      "default:default:300w:webp:none" (λ vs h. rw (first_only-left vs) h) refl

-- What that tap took out of the list is in no part of the result.
emptied_runs :
    map variant_text
      (prewarm_media encode str_le stringify origin_of sig_of variant_text scope
        (λ e. false)
        false
        ("webp" ∷ [])
        emptying
        true
        no_task_queue
        media
        sizes
        ("webp" ∷ [])).requested
    ≡ "100w" ∷ []
unfolding prewarm_media digits preview_identity filter_sig get_size_key Catalog.identity
emptied_runs = refl
