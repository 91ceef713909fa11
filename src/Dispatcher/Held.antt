-- ===== src/Dispatcher/Held.antt =====
-- dispatcher.ts: what the loop of confirmActive resolves is held by an active task.
use mathlib.Core.Option.{some-injective}
use framework_module_resizer.Prelude.{
  String, Bool, true, false, not, ◌&&◌, ◌||◌, Option, none, some, List, [], ◌∷◌, filter, keep_if,
  All, any, all, str_eq, eq_iff, ◌≡◌, refl, sym, subst, ◌⊎◌, inl, inr, if◌then◌else◌, arith,
}
use framework_module_resizer.Types.{MissingPreview, EnqueueReceipt}
use framework_module_resizer.Database.{Reply, done}
use framework_module_resizer.Catalog.Groups.{lookup}
use framework_module_resizer.Dispatcher.Variants.{
  Confirming, group_variants, values, has, without, cover, cover_match, note_conflicts,
  with_receipt, take_receipt, take_receipts, is_named,
}
use framework_module_resizer.Dispatcher.Confirm.{EnqueueIssue, confirmed}
use framework_module_resizer.Dispatcher.Kept.{
  has-filter, entries, all_have, note_conflicts-same, with_receipt-same,
}

or_left : (a b : Bool) → a ≡ true → a || b ≡ true
or_left a b h = ground (arith, h)

pub or_right : (a b : Bool) → b ≡ true → a || b ≡ true
or_right a b h = ground (arith, h)

module _ (canonical : List MissingPreview → List MissingPreview)
    (identity payload : MissingPreview → String) (trim : String → String) where
  -- A task with an id holds, once for its identity, the payload of a requested variant of `x`.
  abbrev pub holds : List MissingPreview → String → EnqueueReceipt → Bool
  holds requested x r =
      is_named trim r
      && any (λ w. any (λ v. str_eq (identity v) x && str_eq (payload v) (payload w)) requested)
          (values (group_variants canonical identity payload r.previews).unique)

  abbrev pub held_by : Option (Reply (List EnqueueReceipt)) → List MissingPreview → String → Bool
  held_by (some (done active)) requested x = any (holds requested x) active
  held_by active requested x = false

  module _ (requested : List MissingPreview) (H : String → Bool) where
    -- An entry of the Map by payload.
    abbrev pub Entry : String × (String × MissingPreview) → Type 0
    Entry e = any (λ v. str_eq (identity v) e.1.0 && str_eq (payload v) e.0) requested ≡ true

    -- What is resolved is held.
    unfoldable pub Fair : Confirming → Type 0
    Fair c =
        ((x : String)
          → has x (entries identity requested) ≡ true
          → (has x c.unresolved ≡ true) ⊎ (H x ≡ true))
        × All Entry c.by_payload

    lookup-Entry :
        (k : String) (m : List (String × (String × MissingPreview))) (e : String × MissingPreview)
        → All Entry m
        → lookup k m ≡ some e
        → any (λ v. str_eq (identity v) e.0 && str_eq (payload v) k) requested ≡ true
    lookup-Entry k [] e h q = cc
    lookup-Entry k (f ∷ m) e (h, hs) q =
        by_test (str_eq f.0 k) refl q (λ r. lookup-Entry k m e hs r)
      where
        by_test :
            (b : Bool)
            → str_eq f.0 k ≡ b
            → (if b then some f.1 else lookup k m) ≡ some e
            → (lookup k m ≡ some e
                → any (λ v. str_eq (identity v) e.0 && str_eq (payload v) k) requested ≡ true)
            → any (λ v. str_eq (identity v) e.0 && str_eq (payload v) k) requested ≡ true
        by_test false n r ih = ih r
        by_test true n r ih =
            subst (λ e. any (λ v. str_eq (identity v) e.0 && str_eq (payload v) k) requested ≡ true)
              (some-injective _ _ r)
              (subst
                (λ j. any (λ v. str_eq (identity v) f.1.0 && str_eq (payload v) j) requested ≡ true)
                ((eq_iff f.0 k).0 n) h)

    All-without :
        (k : String) (m : List (String × (String × MissingPreview)))
        → All Entry m
        → All Entry (without k m)
    All-without k [] h = tt
    All-without k (e ∷ m) (h, hs) = by_test (not (str_eq e.0 k)) (All-without k m hs)
      where
        by_test : (b : Bool) → All Entry (without k m) → All Entry (keep_if b e (without k m))
        by_test true hs = (h, hs)
        by_test false hs = hs

    -- One variant of a task that makes its matches held.
    cover_match-Fair :
        (w : MissingPreview) (o : Option (String × MissingPreview)) (c : Confirming)
        (vs : List MissingPreview)
        → ((x : String)
            → any (λ v. str_eq (identity v) x && str_eq (payload v) (payload w)) requested ≡ true
            → H x ≡ true)
        → lookup (payload w) c.by_payload ≡ o
        → Fair c
        → Fair (cover_match (payload w) o (c, vs)).0
    unfolding Fair
    cover_match-Fair w none c vs hw q f = f
    cover_match-Fair w (some (id, v)) c vs hw q (f, es) =
        (resolved, All-without (payload w) c.by_payload es)
      where
        by_name :
            (x : String) (b : Bool)
            → str_eq x id ≡ b
            → (has x c.unresolved ≡ true) ⊎ (H x ≡ true)
            → (not b && has x c.unresolved ≡ true) ⊎ (H x ≡ true)
        by_name x false n h = h
        by_name x true n h = inr (
            subst (λ y. H y ≡ true) (sym ((eq_iff x id).0 n))
              (hw id (lookup-Entry (payload w) c.by_payload (id, v) es q)))

        resolved :
            (x : String)
            → has x (entries identity requested) ≡ true
            → (has x (without id c.unresolved) ≡ true) ⊎ (H x ≡ true)
        resolved x h =
            subst (λ b. (b ≡ true) ⊎ (H x ≡ true))
              (sym (has-filter (λ k. not (str_eq k id)) x c.unresolved))
              (by_name x (str_eq x id) refl (f x h))

    cover-Fair :
        (ws : List MissingPreview) (s : Confirming × List MissingPreview)
        → ((x : String)
            → any
                (λ w. any (λ v. str_eq (identity v) x && str_eq (payload v) (payload w)) requested)
                ws
              ≡ true
            → H x ≡ true)
        → Fair s.0
        → Fair (cover canonical identity payload ws s).0
    unfolding cover
    cover-Fair [] s hw f = f
    cover-Fair (w ∷ ws) (c, vs) hw f =
        cover-Fair ws (cover_match (payload w) (lookup (payload w) c.by_payload) (c, vs))
          (λ x h. hw x (or_right _ _ h))
          (cover_match-Fair w (lookup (payload w) c.by_payload) c vs (λ x h. hw x (or_left _ _ h))
            refl f)

    pub take_receipts-Fair :
        (rs : List EnqueueReceipt) (c : Confirming)
        → ((x : String) → any (holds requested x) rs ≡ true → H x ≡ true)
        → Fair c
        → Fair (take_receipts canonical identity payload trim rs c)
    unfolding take_receipts Fair
    take_receipts-Fair [] c hr f = f
    take_receipts-Fair (r ∷ rs) c hr f =
        take_receipts-Fair rs (take_receipt canonical identity payload trim r c)
          (λ x h. hr x (or_right _ _ h)) (by_name (is_named trim r) refl)
      where
        noted-Fair :
            Fair (note_conflicts (group_variants canonical identity payload r.previews).conflicts c)
        noted-Fair =
            let (same, same') =
              note_conflicts-same canonical identity payload requested
                (group_variants canonical identity payload r.previews).conflicts c in
            (
              λ x h. subst (λ m. (has x m ≡ true) ⊎ (H x ≡ true)) (sym same) (f.0 x h),
              subst (All Entry) (sym same') f.1,
            )

        by_name :
            (b : Bool)
            → is_named trim r ≡ b
            → Fair (
                if b
                then with_receipt r.task_id (
                    cover canonical identity payload
                      (values (group_variants canonical identity payload r.previews).unique)
                      (
                        note_conflicts
                            (group_variants canonical identity payload r.previews).conflicts
                            c,
                        [],
                      ))
                else c)
        by_name false n = f
        by_name true n =
            let ws = values (group_variants canonical identity payload r.previews).unique in
            let (g, es) =
              cover-Fair ws
                (
                  note_conflicts (group_variants canonical identity payload r.previews).conflicts c,
                  [],
                )
                (λ x h. hr x (
                  or_left (holds requested x r) (any (holds requested x) rs)
                    (ground (arith, n, h))))
                noted-Fair in
            let (same, same') =
              with_receipt-same canonical identity payload requested r.task_id _ in
            (
              λ x h. subst (λ m. (has x m ≡ true) ⊎ (H x ≡ true)) (sym same) (g x h),
              subst (All Entry) (sym same') es,
            )

    -- An accepted variant is held.
    pub confirmed-held :
        (conflicts : List MissingPreview) (issues : List EnqueueIssue) (c : Confirming)
        → Fair c
        → all (λ v. H (identity v)) (confirmed identity requested conflicts issues c).accepted
          ≡ true
    unfolding confirmed Fair
    confirmed-held conflicts issues c (f, es) = held requested (all_have identity requested)
      where
        first :
            (v : MissingPreview) (rest : List MissingPreview) (b : Bool)
            → has (identity v) c.unresolved ≡ b
            → (b ≡ true) ⊎ (H (identity v) ≡ true)
            → all (λ v. H (identity v)) rest ≡ true
            → all (λ v. H (identity v)) (keep_if (not b) v rest) ≡ true
        first v rest true n h ih = ih
        first v rest false n (inl h) ih = cc
        first v rest false n (inr h) ih = ground (arith, h, ih)

        held :
            (vs : List MissingPreview)
            → All (λ v. has (identity v) (entries identity requested) ≡ true) vs
            → all (λ v. H (identity v)) (filter (λ v. not (has (identity v) c.unresolved)) vs)
              ≡ true
        held [] h = refl
        held (v ∷ vs) (h, hs) =
            first v _ (has (identity v) c.unresolved) refl (f (identity v) h) (held vs hs)
