-- ===== src/Dispatcher/Enqueue.antt =====
-- dispatcher.ts: enqueueConfirmed with the identities, the payloads and the canonical form of images.ts.
-- The encoding of names, `JSON.stringify`, the order of texts, `trim` and what an error says of itself
-- are parameters.
use mathlib.Core.List.{Permᴰ}
use framework_module_resizer.Prelude.{
  ℕ, suc, ◌∷◌, [], length, arith, ◌∙◌, ◌==◌, ltb, if◌then◌else◌, String, Bool, true, false, Option,
  none, some, List, ◌++◌, all, ◌||◌, ◌≡◌, refl,
}
use framework_module_resizer.Types.{
  added, in_flight, unconfirmed, Json, MissingPreview, EnqueueReceipt,
}
use framework_module_resizer.Database.{Failure, Reply}
use framework_module_resizer.Keys.{preview_identity}
use framework_module_resizer.Filters.{filter_sig}
use framework_module_resizer.Payloads.{canonicalize_variants, normalize_variant}
use framework_module_resizer.Dispatcher.{
  tried, result, add_failed, invalid, not_served, timing_invalid, locks_missing, gate_held,
  route_failed, gate_failed, ReadOutcome, suppressed, enqueued, read_outcome, DispatchOutcome,
  Carrier, DispatchRequest, DispatcherDeps, State, dispatch,
}
use framework_module_resizer.Dispatcher.Variants.{group_variants, values, first_per_identity}
use framework_module_resizer.Dispatcher.Confirm.{ConfirmedEnqueueResult, confirm_variants}
use framework_module_resizer.Dispatcher.Partition.{confirm_variants-Permᴰ}
use framework_module_resizer.Dispatcher.Held.{held_by}
use framework_module_resizer.Dispatcher.Accepted.{was_added, confirm_variants-held}

abbrev pub is_suppressed : ReadOutcome → Bool
is_suppressed suppressed = true
is_suppressed o = false

abbrev pub is_enqueued : ReadOutcome → Bool
is_enqueued enqueued = true
is_enqueued o = false

outcome-read :
    (o : DispatchOutcome) (n : ℕ)
    → (is_suppressed (read_outcome o) ≡ false)
      × (is_enqueued (read_outcome o) ≡ ltb 0 (if was_added o then suc n else 0))
unfolding read_outcome
outcome-read (tried (result (added id))) n = (refl, ground arith)
outcome-read (tried (result (in_flight id))) n = (refl, refl)
outcome-read (tried (result unconfirmed)) n = (refl, refl)
outcome-read (tried (add_failed e)) n = (refl, refl)
outcome-read (tried (invalid stored)) n = (refl, refl)
outcome-read not_served n = (refl, refl)
outcome-read timing_invalid n = (refl, refl)
outcome-read locks_missing n = (refl, refl)
outcome-read gate_held n = (refl, refl)
outcome-read (route_failed e) n = (refl, refl)
outcome-read (gate_failed e) n = (refl, refl)

-- The platform's functions on texts, and `JSON.stringify` on values and on variants.
pub record Platform : Type 0 where
  pub encode : String → String
  pub le : String → String → Bool
  pub value_text : Json → String
  pub variant_text : MissingPreview → String
  pub trim : String → String
  pub said : Failure → Option (String × Bool)

module _ (p : Platform) where
  unfoldable pub canonical : List MissingPreview → List MissingPreview
  unfolding canonicalize_variants
  canonical variants = canonicalize_variants p.le p.variant_text variants

  -- `variantPayloadKey`
  unfoldable pub variant_payload_key : MissingPreview → String
  unfolding normalize_variant
  variant_payload_key v = p.variant_text (normalize_variant p.le v)

  module _ {Q L : Type 0} (deps : DispatcherDeps L) (req : DispatchRequest) (owner : String)
      (clock : ℕ → ℕ) (carrier : Reply (Option (Carrier Q))) (lease_ms : Option ℕ)
      (find_active : Option (Q → Reply (List EnqueueReceipt))) where
    -- `identityOf`, in the request's scope.
    unfoldable pub identity_of : MissingPreview → String
    unfolding preview_identity filter_sig
    identity_of v =
        preview_identity p.encode deps.name req.pipeline v.size_key v.format
          (filter_sig p.le p.value_text v.filters)

    abbrev pub asked :
        Option (Q → Reply (List EnqueueReceipt)) → Q → Option (Reply (List EnqueueReceipt))
    asked none q = none
    asked (some find) q = some (find q)

    -- The dispatch of the requested variants, and the active tasks after it.
    unfoldable pub sent :
        State Q L → List MissingPreview → DispatchOutcome × Option (Reply (List EnqueueReceipt))
    unfolding dispatch canonical
    sent s requested =
        let (o, s') =
          dispatch p.encode canonical deps req requested owner clock carrier lease_ms s in
        (o, asked find_active s'.queue)

    -- The variants of distinct payload that a task may hold.
    unfoldable pub requested_variants : List MissingPreview
    unfolding group_variants canonical identity_of variant_payload_key
    requested_variants =
        values (group_variants canonical identity_of variant_payload_key req.previews).unique

    -- `enqueueConfirmed`
    unfoldable pub enqueue_confirmed : State Q L → ConfirmedEnqueueResult
    unfolding confirm_variants sent
    enqueue_confirmed s =
        confirm_variants canonical identity_of variant_payload_key p.trim p.said (sent s)
          req.previews

    -- Whatever the queue and the lock store do, every variant of the request's canonical payload is
    -- reported exactly once: as accepted, or as unconfirmed.
    pub enqueue_confirmed-Permᴰ :
        (s : State Q L)
        → Permᴰ
            ((enqueue_confirmed s).accepted ++ (enqueue_confirmed s).unconfirmed_previews)
            (canonicalize_variants p.le p.variant_text req.previews)
    unfolding enqueue_confirmed canonical
    enqueue_confirmed-Permᴰ s =
        confirm_variants-Permᴰ canonical identity_of variant_payload_key p.trim p.said (sent s)
          req.previews

    -- A variant is accepted only when the dispatch added a task for the request, or when an active
    -- task that findActive reported, with an id, holds the payload of the requested variant of that
    -- identity, and holds no other payload of the identity.
    pub enqueue_confirmed-held :
        (s : State Q L)
        → all
            (λ v.
              was_added (sent s requested_variants).0
              || held_by canonical identity_of variant_payload_key p.trim
                  (sent s requested_variants).1
                  requested_variants
                  (identity_of v))
            (enqueue_confirmed s).accepted
          ≡ true
    unfolding enqueue_confirmed requested_variants
    enqueue_confirmed-held s =
        confirm_variants-held canonical identity_of variant_payload_key p.trim p.said (sent s)
          req.previews requested_variants refl

    -- `enqueueWithOutcome`, of the variants that are the first of their identities.
    abbrev pub by_first : State Q L → List MissingPreview → ℕ × ReadOutcome
    by_first s [] = (0, suppressed)
    by_first s (v ∷ vs) =
        let o = (dispatch p.encode canonical deps req (v ∷ vs) owner clock carrier lease_ms s).0 in
        (if was_added o then length (v ∷ vs) else 0, read_outcome o)

    unfoldable pub enqueue_with_outcome : State Q L → ℕ × ReadOutcome
    unfolding first_per_identity dispatch read_outcome
    enqueue_with_outcome s = by_first s (
        values
          (first_per_identity canonical identity_of variant_payload_key (canonical req.previews)))

    by_first-read :
        (s : State Q L) (ws : List MissingPreview)
        → (is_suppressed (by_first s ws).1 ≡ (length ws == 0))
          × (is_enqueued (by_first s ws).1 ≡ ltb 0 (by_first s ws).0)
    by_first-read s [] = (refl, refl)
    by_first-read s (v ∷ vs) =
        let (a, b) =
          outcome-read
            (dispatch p.encode canonical deps req (v ∷ vs) owner clock carrier lease_ms s).0
            (length vs) in
        (a ∙ ground arith, b)

    first_per_identity-length :
        (vs : List MissingPreview)
        → (length (values (first_per_identity canonical identity_of variant_payload_key vs)) == 0)
          ≡ (length vs == 0)
    unfolding first_per_identity
    first_per_identity-length [] = refl
    first_per_identity-length (v ∷ vs) = ground arith

    -- A read counts as suppressed exactly when its request has no variant; the number of variants in
    -- the task is positive when it counts as enqueued, and 0 otherwise.
    pub enqueue_with_outcome_lem :
        (s : State Q L)
        → (is_suppressed (enqueue_with_outcome s).1
            ≡ (length (canonicalize_variants p.le p.variant_text req.previews) == 0))
          × (is_enqueued (enqueue_with_outcome s).1 ≡ ltb 0 (enqueue_with_outcome s).0)
    unfolding enqueue_with_outcome canonical
    enqueue_with_outcome_lem s =
        let vs = canonicalize_variants p.le p.variant_text req.previews in
        let ws = values (first_per_identity canonical identity_of variant_payload_key vs) in
        let (a, b) = by_first-read s ws in (a ∙ first_per_identity-length vs, b)
