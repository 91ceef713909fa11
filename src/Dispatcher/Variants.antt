-- ===== src/Dispatcher/Variants.antt =====
-- dispatcher.ts: the variants of a request by identity, and which of them an active task holds.
use framework_module_resizer.Prelude.{
  String, Bool, true, not, Option, none, some, List, [], ◌∷◌, ◌++◌, map, filter, str_eq,
  if◌then◌else◌, is_some,
}
use framework_module_resizer.Types.{MissingPreview, EnqueueReceipt}
use framework_module_resizer.Catalog.Groups.{lookup, group}

-- `VariantGroups`
pub record VariantGroups : Type 0 where
  pub unique : List (String × MissingPreview)
  pub conflicts : List (String × List MissingPreview)

-- A group of one variant, or of several.
abbrev pub sorted_out : String → List MissingPreview → VariantGroups → VariantGroups
sorted_out k (v ∷ []) g = record g { unique = (k, v) ∷ g.unique }
sorted_out k vs g = record g { conflicts = (k, vs) ∷ g.conflicts }

unfoldable pub sort_out : List (String × List MissingPreview) → VariantGroups
sort_out [] = record { unique = []; conflicts = [] }
sort_out ((k, vs) ∷ m) = sorted_out k vs (sort_out m)

-- `map.values()`
abbrev pub values : {A : Type 0} → List (String × A) → List A
values m = map (λ e. e.1) m

-- `map.has(k)`
abbrev pub has : {A : Type 0} → String → List (String × A) → Bool
has k m = is_some (lookup k m)

-- `map.delete(k)`
abbrev pub without : {A : Type 0} → String → List (String × A) → List (String × A)
without k m = filter (λ e. not (str_eq e.0 k)) m

abbrev pub flat : {A : Type 0} → List (List A) → List A
flat [] = []
flat (xs ∷ m) = xs ++ flat m

-- The Maps of `#confirmActive` and what it has found so far; `by_payload` gives the entry of
-- `unresolved` that has a payload.
pub record Confirming : Type 0 where
  pub unresolved : List (String × MissingPreview)
  pub by_payload : List (String × (String × MissingPreview))
  pub receipts : List EnqueueReceipt
  pub receipt_conflicts : List (String × MissingPreview)

-- One variant of a task: the request's variant of the same payload is covered.
abbrev pub cover_match :
    String
    → Option (String × MissingPreview)
    → Confirming × List MissingPreview
    → Confirming × List MissingPreview
cover_match key none s = s
cover_match key (some (id, v)) (c, covered) = (
  record c { unresolved = without id c.unresolved; by_payload = without key c.by_payload },
  covered ++ v ∷ [],
)

-- An identity of which a task holds several payloads.
abbrev pub conflict_match : String → Option MissingPreview → Confirming → Confirming
conflict_match id none c = c
conflict_match id (some v) c =
    if has id c.receipt_conflicts
    then c
    else record c { receipt_conflicts = c.receipt_conflicts ++ (id, v) ∷ [] }

unfoldable pub note_conflicts : List (String × List MissingPreview) → Confirming → Confirming
note_conflicts [] c = c
note_conflicts ((id, vs) ∷ m) c = note_conflicts m (conflict_match id (lookup id c.unresolved) c)

abbrev pub with_receipt : String → Confirming × List MissingPreview → Confirming
with_receipt task_id (c, []) = c
with_receipt task_id (c, v ∷ covered) = record c {
  receipts = c.receipts ++ record { task_id = task_id; previews = v ∷ covered } ∷ [];
}

-- `receipt.taskId.trim().length === 0`
abbrev pub is_named : (String → String) → EnqueueReceipt → Bool
is_named trim r = not (str_eq (trim r.task_id) "")

module _ (canonical : List MissingPreview → List MissingPreview)
    (identity payload : MissingPreview → String) where
  -- `groupVariants`
  unfoldable pub group_variants : List MissingPreview → VariantGroups
  unfolding sort_out group
  group_variants variants = sort_out (group (λ v. true) identity (canonical variants) [])

  -- `firstPerIdentity`: the first of each identity.
  unfoldable pub first_per_identity : List MissingPreview → List (String × MissingPreview)
  first_per_identity [] = []
  first_per_identity (v ∷ vs) =
      let rest = first_per_identity vs in (identity v, v) ∷ without (identity v) rest

  unfoldable pub cover :
      List MissingPreview → Confirming × List MissingPreview → Confirming × List MissingPreview
  cover [] s = s
  cover (w ∷ ws) s = cover ws (cover_match (payload w) (lookup (payload w) s.0.by_payload) s)

  module _ (trim : String → String) where
    unfoldable pub take_receipt : EnqueueReceipt → Confirming → Confirming
    unfolding cover note_conflicts group_variants
    take_receipt r c =
        if is_named trim r
        then with_receipt r.task_id (
            cover (values (group_variants r.previews).unique)
              (note_conflicts (group_variants r.previews).conflicts c, []))
        else c

    -- The loop over the active tasks.
    unfoldable pub take_receipts : List EnqueueReceipt → Confirming → Confirming
    unfolding take_receipt
    take_receipts [] c = c
    take_receipts (r ∷ rs) c = take_receipts rs (take_receipt r c)

  -- `unresolved` and `unresolvedByPayload` before the loop. The requested variants have distinct
  -- identities, and so distinct payloads.
  unfoldable pub unresolved_of : List MissingPreview → Confirming
  unresolved_of requested = record {
    unresolved = map (λ v. (identity v, v)) requested;
    by_payload = map (λ v. (payload v, (identity v, v))) requested;
    receipts = [];
    receipt_conflicts = [];
  }
