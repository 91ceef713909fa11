-- ===== src/Dispatcher/Accepted.antt =====
-- dispatcher.ts: what enqueueConfirmed accepts is in a task: the one added, or one that is active.
use framework_module_resizer.Prelude.{
  String, Bool, true, false, ◌&&◌, ◌||◌, Option, none, some, List, [], ◌∷◌, map, All, All-map, any,
  all, str_eq, eq_refl, ◌≡◌, refl, inl, arith,
}
use framework_module_resizer.Types.{MissingPreview, EnqueueReceipt, added, in_flight}
use framework_module_resizer.Database.{Failure, Reply, done, threw}
use framework_module_resizer.Dispatcher.{DispatchOutcome, tried, result}
use framework_module_resizer.Dispatcher.Variants.{
  group_variants, values, flat, take_receipts, unresolved_of,
}
use framework_module_resizer.Dispatcher.Confirm.{
  EnqueueIssue, ConfirmedEnqueueResult, confirm_active, confirmed_outcome, confirm_requested,
  confirm_variants, failed_with,
}
use framework_module_resizer.Dispatcher.Held.{
  or_right, holds, held_by, Entry, Fair, take_receipts-Fair, confirmed-held,
}

-- The dispatch added a task with an id.
abbrev pub was_added : DispatchOutcome → Bool
was_added (tried (result (added id))) = true
was_added o = false

module _ (canonical : List MissingPreview → List MissingPreview)
    (identity payload : MissingPreview → String) (trim : String → String) where
  -- Every variant has its entry.
  own :
      (vs : List MissingPreview)
      → All
          (λ v.
            any (λ u. str_eq (identity u) (identity v) && str_eq (payload u) (payload v)) vs ≡ true)
          vs
  own [] = tt
  own (v ∷ vs) = (
    ground (arith, eq_refl (identity v), eq_refl (payload v)),
    All-map
        (λ w.
          any (λ u. str_eq (identity u) (identity w) && str_eq (payload u) (payload w)) vs ≡ true)
        (λ w.
          any (λ u. str_eq (identity u) (identity w) && str_eq (payload u) (payload w)) (v ∷ vs)
          ≡ true)
        (λ w h. or_right _ _ h) vs (own vs),
  )

  entries-Entry :
      (requested : List MissingPreview) (H : String → Bool) (vs : List MissingPreview)
      → All
          (λ v.
            any (λ u. str_eq (identity u) (identity v) && str_eq (payload u) (payload v)) requested
            ≡ true)
          vs
      → All
          (Entry canonical identity payload trim requested H)
          (map (λ v. (payload v, (identity v, v))) vs)
  entries-Entry requested H [] h = tt
  entries-Entry requested H (v ∷ vs) (h, hs) = (h, entries-Entry requested H vs hs)

  unresolved_of-Fair :
      (requested : List MissingPreview) (H : String → Bool)
      → Fair canonical identity payload trim requested H
          (unresolved_of canonical identity payload requested)
  unfolding Fair unresolved_of
  unresolved_of-Fair requested H =
      (λ x h. inl h, entries-Entry requested H requested (own requested))

  all-true :
      (p : MissingPreview → Bool) (vs : List MissingPreview) → all (λ v. true || p v) vs ≡ true
  all-true p [] = refl
  all-true p (v ∷ vs) = all-true p vs

  module _ (said : Failure → Option (String × Bool)) where
    Holds :
        DispatchOutcome
        → Option (Reply (List EnqueueReceipt))
        → List MissingPreview
        → ConfirmedEnqueueResult
        → Type 0
    Holds o active requested r =
        all
          (λ v.
            was_added o || held_by canonical identity payload trim active requested (identity v))
          r.accepted
        ≡ true

    confirm_active-Holds :
        (id : Option String) (active : Option (Reply (List EnqueueReceipt)))
        (requested conflicts : List MissingPreview) (issues : List EnqueueIssue)
        → Holds
            (tried (result (in_flight id)))
            active
            requested
            (confirm_active canonical identity payload trim said active requested conflicts issues)
    unfolding confirm_active failed_with Holds
    confirm_active-Holds id none requested conflicts issues =
        confirmed-held canonical identity payload trim requested (λ x. false) conflicts issues
          (unresolved_of canonical identity payload requested)
          (unresolved_of-Fair requested (λ x. false))
    confirm_active-Holds id (some (threw e)) requested conflicts issues = refl
    confirm_active-Holds id (some (done active)) requested conflicts issues =
        let H : String → Bool =
          λ x. any (holds canonical identity payload trim requested x) active in
        confirmed-held canonical identity payload trim requested H conflicts issues
          (take_receipts canonical identity payload trim active
            (unresolved_of canonical identity payload requested))
          (take_receipts-Fair canonical identity payload trim requested H active
            (unresolved_of canonical identity payload requested) (λ x h. h)
            (unresolved_of-Fair requested H))

    confirmed_outcome-Holds :
        (o : DispatchOutcome) (active : Option (Reply (List EnqueueReceipt)))
        (requested conflicts : List MissingPreview) (issues : List EnqueueIssue)
        → Holds o active requested (
            confirmed_outcome canonical identity payload trim said active requested conflicts issues
              o)
    unfolding confirmed_outcome failed_with Holds
    confirmed_outcome-Holds (tried (result (added id))) active requested conflicts issues =
        all-true (λ v. held_by canonical identity payload trim active requested (identity v))
          requested
    confirmed_outcome-Holds (tried (result (in_flight id))) active requested conflicts issues =
        confirm_active-Holds id active requested conflicts issues
    confirmed_outcome-Holds _ active requested conflicts issues = refl

    -- A variant is accepted only when the dispatch added a task, or when an active task with an id
    -- holds, as the only payload of its identity, the payload of the requested variant of that
    -- identity.
    pub confirm_variants-held :
        (sent : List MissingPreview → DispatchOutcome × Option (Reply (List EnqueueReceipt)))
        (previews requested : List MissingPreview)
        → requested ≡ values (group_variants canonical identity payload previews).unique
        → all
            (λ v.
              was_added (sent requested).0
              || held_by canonical identity payload trim (sent requested).1 requested (identity v))
            (confirm_variants canonical identity payload trim said sent previews).accepted
          ≡ true
    unfolding confirm_variants Holds
    confirm_variants-held sent previews requested e =
        rw e (by_list (values (group_variants canonical identity payload previews).unique))
      where
        by_list :
            (vs : List MissingPreview)
            → all
                (λ v.
                  was_added (sent vs).0
                  || held_by canonical identity payload trim (sent vs).1 vs (identity v))
                (confirm_requested canonical identity payload trim said (sent vs).0 (sent vs).1 vs (
                  flat (
                    values
                      (group_variants canonical identity payload previews).conflicts))).accepted
              ≡ true
        by_list [] = refl
        by_list (v ∷ vs) = confirmed_outcome-Holds (sent (v ∷ vs)).0 (sent (v ∷ vs)).1 (v ∷ vs) _ _
