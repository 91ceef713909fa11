-- ===== src/Dispatcher/Partition.antt =====
-- dispatcher.ts: enqueueConfirmed reports every variant once, as accepted or as unconfirmed.
use mathlib.Core.List.{Permᴰ}
use mathlib.Core.List.Permᴰ
use framework_module_resizer.Prelude.{
  String, Bool, true, not, Option, none, some, List, [], ◌∷◌, ◌++◌, map, filter, ◌≡◌, refl, sym, ap,
  append_assoc,
}
use framework_module_resizer.Types.{MissingPreview, EnqueueReceipt, added, in_flight}
use framework_module_resizer.Database.{Failure, Reply, done, threw}
use framework_module_resizer.Dispatcher.{DispatchOutcome, tried, result}
use framework_module_resizer.Dispatcher.Variants.{
  Confirming, group_variants, values, has, flat, unresolved_of,
}
use framework_module_resizer.Dispatcher.Confirm.{
  EnqueueIssue, ConfirmedEnqueueResult, confirmed, confirm_active, confirmed_outcome,
  confirm_requested, confirm_variants, failed_with,
}
use framework_module_resizer.Dispatcher.Regroup.{group_variants-Permᴰ}
use framework_module_resizer.Dispatcher.Kept.{Kept, take_receipts-Kept, kept-Permᴰ}

module _ (canonical : List MissingPreview → List MissingPreview)
    (identity payload : MissingPreview → String) (trim : String → String)
    (said : Failure → Option (String × Bool)) where
  -- Each of the requested and of the conflicting variants is reported once.
  Reports : (requested conflicts : List MissingPreview) → ConfirmedEnqueueResult → Type 0
  Reports requested conflicts r =
      Permᴰ (r.accepted ++ r.unconfirmed_previews) (requested ++ conflicts)

  confirmed-Reports :
      (requested conflicts : List MissingPreview) (issues : List EnqueueIssue) (c : Confirming)
      → Kept canonical identity payload requested c
      → Reports requested conflicts (confirmed identity requested conflicts issues c)
  unfolding confirmed Reports Kept
  confirmed-Reports requested conflicts issues c (g, e) =
      rw
        (sym (
          append_assoc (filter (λ v. not (has (identity v) c.unresolved)) requested)
            (values c.unresolved) conflicts))
        (Permᴰ.append_right conflicts (kept-Permᴰ identity g requested c.unresolved e))

  all-Kept :
      (requested : List MissingPreview)
      → Kept canonical identity payload requested
          (unresolved_of canonical identity payload requested)
  unfolding Kept unresolved_of
  all-Kept requested = ((λ k. true), filter_all (map (λ v. (identity v, v)) requested))
    where
      filter_all : {A : Type 0} (xs : List A) → xs ≡ filter (λ x. true) xs
      filter_all [] = refl
      filter_all (x ∷ xs) = ap (λ l. x ∷ l) (filter_all xs)

  confirm_active-Reports :
      (active : Option (Reply (List EnqueueReceipt))) (requested conflicts : List MissingPreview)
      (issues : List EnqueueIssue)
      → Reports requested conflicts
          (confirm_active canonical identity payload trim said active requested conflicts issues)
  unfolding confirm_active failed_with Reports
  confirm_active-Reports none requested conflicts issues =
      confirmed-Reports requested conflicts issues _ (all-Kept requested)
  confirm_active-Reports (some (threw e)) requested conflicts issues = Permᴰ.refl _
  confirm_active-Reports (some (done active)) requested conflicts issues =
      confirmed-Reports requested conflicts issues _
        (take_receipts-Kept canonical identity payload requested trim active _ (all-Kept requested))

  confirmed_outcome-Reports :
      (active : Option (Reply (List EnqueueReceipt))) (requested conflicts : List MissingPreview)
      (issues : List EnqueueIssue) (o : DispatchOutcome)
      → Reports requested conflicts (
          confirmed_outcome canonical identity payload trim said active requested conflicts issues
            o)
  unfolding confirmed_outcome failed_with Reports
  confirmed_outcome-Reports active requested conflicts issues (tried (result (added id))) =
      Permᴰ.refl _
  confirmed_outcome-Reports active requested conflicts issues (tried (result (in_flight id))) =
      confirm_active-Reports active requested conflicts issues
  confirmed_outcome-Reports active requested conflicts issues _ = Permᴰ.refl _

  confirm_requested-Reports :
      (active : Option (Reply (List EnqueueReceipt))) (requested conflicts : List MissingPreview)
      (o : DispatchOutcome)
      → Reports requested conflicts
          (confirm_requested canonical identity payload trim said o active requested conflicts)
  unfolding Reports
  confirm_requested-Reports active [] conflicts o = Permᴰ.refl _
  confirm_requested-Reports active (v ∷ requested) conflicts o =
      confirmed_outcome-Reports active (v ∷ requested) conflicts _ o

  -- Whatever the dispatch did and whatever the active tasks are, every variant of the canonical
  -- payload is reported exactly once, as accepted or as unconfirmed.
  pub confirm_variants-Permᴰ :
      (sent : List MissingPreview → DispatchOutcome × Option (Reply (List EnqueueReceipt)))
      (previews : List MissingPreview)
      → Permᴰ
          ((confirm_variants canonical identity payload trim said sent previews).accepted
            ++ (confirm_variants canonical identity payload trim said sent
                previews).unconfirmed_previews)
          (canonical previews)
  unfolding confirm_variants Reports
  confirm_variants-Permᴰ sent previews =
      let requested = values (group_variants canonical identity payload previews).unique in
      Permᴰ.trans
        (confirm_requested-Reports (sent requested).1 requested
          (flat (values (group_variants canonical identity payload previews).conflicts))
          (sent requested).0)
        (group_variants-Permᴰ canonical identity payload previews)
