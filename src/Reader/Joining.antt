-- ===== src/Reader/Joining.antt =====
-- reader.ts: the Set of identities that the loop of a read fills.
use framework_module_resizer.Prelude.{
  String, Bool, true, false, not, ◌&&◌, ◌||◌, Option, none, some, List, [], ◌∷◌, ◌++◌, map, filter,
  keep_if, any, is_some, str_eq, eq_iff, if◌then◌else◌, ◌≡◌, refl, sym, ap, ◌∙◌, arith,
}
use framework_module_resizer.Prelude.Once.{added_once, added_all, added_all-append}
use framework_module_resizer.Types.{Json, PreviewScope, Preview, MissingPreview}
use framework_module_resizer.Catalog.{Split}
use framework_module_resizer.Catalog.Groups.{lookup}
use framework_module_resizer.Sizes.{SizeInput, get_size_key, to_missing_preview}
use framework_module_resizer.Sizes.Requests.{cell_identity, asked, asked_of}
use framework_module_resizer.Reader.{
  Grid, queue_once, serve, by_rows, resolve_cell, resolve_formats, resolve_size, resolve_sizes,
}

filter-append :
    {A : Type 0} (p : A → Bool) (xs ys : List A) → filter p (xs ++ ys) ≡ filter p xs ++ filter p ys
filter-append p [] ys = refl
filter-append {A} p (x ∷ xs) ys = by_test (p x) (filter-append p xs ys)
  where
    by_test :
        (b : Bool)
        → filter p (xs ++ ys) ≡ filter p xs ++ filter p ys
        → keep_if b x (filter p (xs ++ ys)) ≡ keep_if b x (filter p xs) ++ filter p ys
    by_test true ih = ap (λ l. x ∷ l) ih
    by_test false ih = ih

pub any-filter :
    (p : String → Bool) (x : String) (xs : List String)
    → any (str_eq x) (filter p xs) ≡ p x && any (str_eq x) xs
any-filter p x [] = ground arith
any-filter p x (y ∷ ys) = by_test (p y) refl (str_eq x y) refl (any-filter p x ys)
  where
    by_test :
        (b : Bool)
        → p y ≡ b
        → (c : Bool) → str_eq x y ≡ c
        → any (str_eq x) (filter p ys) ≡ p x && any (str_eq x) ys
        → any (str_eq x) (keep_if b y (filter p ys)) ≡ p x && (c || any (str_eq x) ys)
    by_test true e true n ih =
        let same : p x ≡ true = ap p ((eq_iff x y).0 n) ∙ e in ground (arith, n, same)
    by_test true e false n ih = ground (arith, n, ih)
    by_test false e true n ih =
        let same : p x ≡ false = ap p ((eq_iff x y).0 n) ∙ e in ground (arith, same, ih)
    by_test false e false n ih = ground (arith, ih)

module _ (encode : String → String) (le : String → String → Bool) (stringify : Json → String)
    (scope : PreviewScope) (url_of : Option Json → Option String) (known : Bool)
    (split : Split) where
  -- No fresh row has the identity, and either a stale one has, or the pipeline is known.
  abbrev pub needs : String → Bool
  needs x = not (is_some (lookup x split.fresh)) && (is_some (lookup x split.stale) || known)

  serve-queued :
      (url : Option String) (size : SizeInput) (key f : String) (stale : Bool) (row : Preview)
      (g : Grid)
      → ((serve url size key f stale row g).queued_identities ≡ g.queued_identities)
        × ((serve url size key f stale row g).to_queue ≡ g.to_queue)
  serve-queued none size key f stale row g = (refl, refl)
  serve-queued (some url) size key f stale row g = (refl, refl)

  queue_once-queued :
      (seen stale : Bool) (id : String) (v : MissingPreview) (g : Grid)
      → (queue_once seen stale id v g).queued_identities
        ≡ (if seen then g.queued_identities else g.queued_identities ++ id ∷ [])
  queue_once-queued true stale id v g = refl
  queue_once-queued false stale id v g = refl

  by_rows-queued :
      (fresh old : Option Preview) (size : SizeInput) (key f : String) (g : Grid)
      → (by_rows encode le stringify scope url_of known split fresh old size key f
          g).queued_identities
        ≡ (if not (is_some fresh) && (is_some old || known)
            then added_once (cell_identity encode le stringify scope size key f) g.queued_identities
            else g.queued_identities)
  by_rows-queued (some row) old size key f g =
      (serve-queued (url_of row.storage_ref) size key f false row g).0
  by_rows-queued none (some row) size key f g =
      (serve-queued (url_of row.storage_ref) size key f true row _).0
      ∙ queue_once-queued
          (any (str_eq (cell_identity encode le stringify scope size key f)) g.queued_identities)
          true (cell_identity encode le stringify scope size key f) (to_missing_preview size key f)
          g
  by_rows-queued none none size key f g = by_known known
    where
      by_known :
          (k : Bool)
          → (if k
              then queue_once
                  (any
                    (str_eq (cell_identity encode le stringify scope size key f))
                    g.queued_identities)
                  false
                  (cell_identity encode le stringify scope size key f)
                  (to_missing_preview size key f)
                  g
              else g).queued_identities
            ≡ (if k
                then added_once
                    (cell_identity encode le stringify scope size key f)
                    g.queued_identities
                else g.queued_identities)
      by_known true = queue_once-queued _ false _ _ g
      by_known false = refl

  resolve_cell-queued :
      (size : SizeInput) (key f : String) (g : Grid)
      → (resolve_cell encode le stringify scope url_of known split size key f g).queued_identities
        ≡ added_all
            (filter needs (cell_identity encode le stringify scope size key f ∷ []))
            g.queued_identities
  unfolding resolve_cell added_all
  resolve_cell-queued size key f g =
      by_rows-queued (lookup (cell_identity encode le stringify scope size key f) split.fresh)
        (lookup (cell_identity encode le stringify scope size key f) split.stale) size key f g
      ∙ by_test (needs (cell_identity encode le stringify scope size key f))
    where
      by_test :
          (b : Bool)
          → (if b
              then added_once
                  (cell_identity encode le stringify scope size key f)
                  g.queued_identities
              else g.queued_identities)
            ≡ added_all
                (keep_if b (cell_identity encode le stringify scope size key f) [])
                g.queued_identities
      by_test true = refl
      by_test false = refl

  -- The identities that join the queue, behind those that have.
  abbrev joining : List String → List String → List String
  joining ids set = added_all (filter needs ids) set

  joining-append : (xs ys set : List String) → joining ys (joining xs set) ≡ joining (xs ++ ys) set
  joining-append xs ys set = sym (
      ap (λ l. added_all l set) (filter-append needs xs ys)
      ∙ added_all-append (filter needs xs) (filter needs ys) set)

  resolve_formats-queued :
      (size : SizeInput) (key : String) (fs : List String) (g : Grid)
      → (resolve_formats encode le stringify scope url_of known split size key fs
          g).queued_identities
        ≡ joining (map (cell_identity encode le stringify scope size key) fs) g.queued_identities
  unfolding resolve_formats added_all
  resolve_formats-queued size key [] g = refl
  resolve_formats-queued size key (f ∷ fs) g =
      resolve_formats-queued size key fs _
      ∙ ap (joining (map (cell_identity encode le stringify scope size key) fs))
          (resolve_cell-queued size key f g)
      ∙ joining-append (cell_identity encode le stringify scope size key f ∷ [])
          (map (cell_identity encode le stringify scope size key) fs) g.queued_identities

  resolve_size-queued :
      (size : SizeInput) (k : Option String) (fs : List String) (g : Grid)
      → (resolve_size encode le stringify scope url_of known split size k fs g).queued_identities
        ≡ joining (asked_of encode le stringify scope size fs k) g.queued_identities
  unfolding added_all
  resolve_size-queued size none fs g = refl
  resolve_size-queued size (some key) fs g = resolve_formats-queued size key fs g

  pub resolve_sizes-queued :
      (sizes : List SizeInput) (fs : List String) (g : Grid)
      → (resolve_sizes encode le stringify scope url_of known split sizes fs g).queued_identities
        ≡ joining (asked encode le stringify scope sizes fs) g.queued_identities
  unfolding resolve_sizes added_all
  resolve_sizes-queued [] fs g = refl
  resolve_sizes-queued (size ∷ sizes) fs g =
      resolve_sizes-queued sizes fs _
      ∙ ap (joining (asked encode le stringify scope sizes fs))
          (resolve_size-queued size (get_size_key size) fs g)
      ∙ joining-append (asked_of encode le stringify scope size fs (get_size_key size))
          (asked encode le stringify scope sizes fs) g.queued_identities
