-- ===== src/Dispatcher/Kept.antt =====
-- dispatcher.ts: what the loop of confirmActive leaves unresolved is the request without some
-- identities.
use mathlib.Core.List.{Permᴰ}
use framework_module_resizer.Prelude.{
  String, Bool, true, false, not, ◌&&◌, Option, none, some, List, [], ◌∷◌, ◌++◌, map, filter,
  keep_if, All, All-map, str_eq, eq_iff, eq_refl, ◌≡◌, refl, sym, ap, ◌∙◌, if◌then◌else◌, is_some,
  arith,
}
use framework_module_resizer.Types.{MissingPreview, EnqueueReceipt}
use framework_module_resizer.Catalog.Groups.{lookup}
use framework_module_resizer.Dispatcher.Variants.{
  Confirming, group_variants, values, has, without, cover, cover_match, note_conflicts,
  conflict_match, with_receipt, take_receipt, take_receipts, is_named,
}
use framework_module_resizer.Dispatcher.Regroup.{filter-Permᴰ}

-- Looking an identity up in what is kept.
pub has-filter :
    {A : Type 0} (g : String → Bool) (k : String) (m : List (String × A))
    → has k (filter (λ e. g e.0) m) ≡ g k && has k m
has-filter g k [] = ground arith
has-filter {A} g k (e ∷ m) = by_test (str_eq e.0 k) refl (has-filter g k m)
  where
    by_pass :
        (c : Bool)
        → str_eq e.0 k ≡ false
        → has k (filter (λ e. g e.0) m) ≡ g k && has k m
        → has k (keep_if c e (filter (λ e. g e.0) m)) ≡ g k && has k m
    by_pass true n ih = rw n ih
    by_pass false n ih = ih

    here :
        (c : Bool)
        → str_eq e.0 k ≡ true
        → g e.0 ≡ c
        → has k (filter (λ e. g e.0) m) ≡ g k && has k m
        → has k (keep_if c e (filter (λ e. g e.0) m)) ≡ g k && true
    here true n p ih =
        let same : g k ≡ true = sym (ap g ((eq_iff e.0 k).0 n)) ∙ p in rw (n, same) refl
    here false n p ih =
        let same : g k ≡ false = sym (ap g ((eq_iff e.0 k).0 n)) ∙ p in ih ∙ ground (arith, same)

    by_test :
        (b : Bool)
        → str_eq e.0 k ≡ b
        → has k (filter (λ e. g e.0) m) ≡ g k && has k m
        → has k (filter (λ e. g e.0) (e ∷ m)) ≡ g k && is_some (if b then some e.1 else lookup k m)
    by_test false n ih = by_pass (g e.0) n ih
    by_test true n ih = here (g e.0) n refl ih

module _ (identity : MissingPreview → String) where
  abbrev pub entries : List MissingPreview → List (String × MissingPreview)
  entries vs = map (λ v. (identity v, v)) vs

  -- Every variant has its entry.
  pub all_have : (vs : List MissingPreview) → All (λ v. has (identity v) (entries vs) ≡ true) vs
  all_have [] = tt
  all_have (v ∷ vs) = (
    rw (eq_refl (identity v)) refl,
    All-map (λ w. has (identity w) (entries vs) ≡ true)
        (λ w. has (identity w) (entries (v ∷ vs)) ≡ true)
        (λ w h. more w (str_eq (identity v) (identity w)) h) vs (all_have vs),
  )
    where
      more :
          (w : MissingPreview) (b : Bool)
          → has (identity w) (entries vs) ≡ true
          → is_some (if b then some v else lookup (identity w) (entries vs)) ≡ true
      more w true h = refl
      more w false h = h

module _ (identity : MissingPreview → String) (g : String → Bool) where
  values-kept :
      (vs : List MissingPreview)
      → values (filter (λ e. g e.0) (map (λ v. (identity v, v)) vs))
        ≡ filter (λ v. g (identity v)) vs
  values-kept [] = refl
  values-kept (v ∷ vs) = by_test (g (identity v)) (values-kept vs)
    where
      by_test :
          (b : Bool)
          → values (filter (λ e. g e.0) (map (λ v. (identity v, v)) vs))
            ≡ filter (λ v. g (identity v)) vs
          → values (keep_if b (identity v, v) (filter (λ e. g e.0) (map (λ v. (identity v, v)) vs)))
            ≡ keep_if b v (filter (λ v. g (identity v)) vs)
      by_test true ih = ap (λ l. v ∷ l) ih
      by_test false ih = ih

  resolved_of :
      (m : List (String × MissingPreview)) (vs : List MissingPreview)
      → All (λ v. has (identity v) m ≡ true) vs
      → filter (λ v. not (has (identity v) (filter (λ e. g e.0) m))) vs
        ≡ filter (λ v. not (g (identity v))) vs
  resolved_of m [] h = refl
  resolved_of m (v ∷ vs) (h, hs) =
      let ih = resolved_of m vs hs in
      let same : has (identity v) (filter (λ e. g e.0) m) ≡ g (identity v) =
        has-filter g (identity v) m ∙ ground (arith, h) in
      rw (same, ih) refl

  -- Of a request, what is accepted and what is still unresolved make up the request.
  pub kept-Permᴰ :
      (vs : List MissingPreview) (m : List (String × MissingPreview))
      → m ≡ filter (λ e. g e.0) (entries identity vs)
      → Permᴰ (filter (λ v. not (has (identity v) m)) vs ++ values m) vs
  kept-Permᴰ vs m e =
      rw (e, resolved_of (entries identity vs) vs (all_have identity vs), values-kept vs)
        (filter-Permᴰ (λ v. g (identity v)) vs)

module _ (canonical : List MissingPreview → List MissingPreview)
    (identity payload : MissingPreview → String) where
  module _ (requested : List MissingPreview) where
    abbrev initial : List (String × MissingPreview)
    initial = map (λ v. (identity v, v)) requested

    -- What is unresolved is the request without some identities.
    unfoldable pub Kept : Confirming → Type 0
    Kept c = (g : String → Bool) × (c.unresolved ≡ filter (λ e. g e.0) initial)

    without-Kept :
        (id : String) (g : String → Bool) (m : List (String × MissingPreview))
        → without id (filter (λ e. g e.0) m) ≡ filter (λ e. g e.0 && not (str_eq e.0 id)) m
    without-Kept id g [] = refl
    without-Kept id g (e ∷ m) = by_tests (g e.0) (without-Kept id g m)
      where
        by_tests :
            (b : Bool)
            → without id (filter (λ e. g e.0) m) ≡ filter (λ e. g e.0 && not (str_eq e.0 id)) m
            → without id (keep_if b e (filter (λ e. g e.0) m))
              ≡ keep_if (b && not (str_eq e.0 id)) e (filter (λ e. g e.0 && not (str_eq e.0 id)) m)
        by_tests true ih = ap (λ l. keep_if (not (str_eq e.0 id)) e l) ih
        by_tests false ih = ih

    cover-Kept :
        (ws : List MissingPreview) (s : Confirming × List MissingPreview)
        → Kept s.0
        → Kept (cover canonical identity payload ws s).0
    unfolding cover Kept
    cover-Kept [] s h = h
    cover-Kept (w ∷ ws) (c, vs) (g, e) = cover-Kept ws _ (matched (lookup (payload w) c.by_payload))
      where
        matched :
            (o : Option (String × MissingPreview)) → Kept (cover_match (payload w) o (c, vs)).0
        matched none = (g, e)
        matched (some (id, v)) =
            ((λ k. g k && not (str_eq k id)), ap (without id) e ∙ without-Kept id g initial)

    pub note_conflicts-same :
        (m : List (String × List MissingPreview)) (c : Confirming)
        → ((note_conflicts m c).unresolved ≡ c.unresolved)
          × ((note_conflicts m c).by_payload ≡ c.by_payload)
    unfolding note_conflicts
    note_conflicts-same [] c = (refl, refl)
    note_conflicts-same ((id, vs) ∷ m) c =
        let (u, p) = note_conflicts-same m (conflict_match id (lookup id c.unresolved) c) in
        let (u', p') = matched (lookup id c.unresolved) in (u ∙ u', p ∙ p')
      where
        by_test :
            (b : Bool) (v : MissingPreview)
            → ((if b then c else record c {
              receipt_conflicts = c.receipt_conflicts ++ (id, v) ∷ [];
            }).unresolved
                ≡ c.unresolved)
              × ((if b then c else record c {
                receipt_conflicts = c.receipt_conflicts ++ (id, v) ∷ [];
              }).by_payload
                  ≡ c.by_payload)
        by_test true v = (refl, refl)
        by_test false v = (refl, refl)

        matched :
            (o : Option MissingPreview)
            → ((conflict_match id o c).unresolved ≡ c.unresolved)
              × ((conflict_match id o c).by_payload ≡ c.by_payload)
        matched none = (refl, refl)
        matched (some v) = by_test (has id c.receipt_conflicts) v

    pub with_receipt-same :
        (id : String) (s : Confirming × List MissingPreview)
        → ((with_receipt id s).unresolved ≡ s.0.unresolved)
          × ((with_receipt id s).by_payload ≡ s.0.by_payload)
    with_receipt-same id (c, []) = (refl, refl)
    with_receipt-same id (c, v ∷ vs) = (refl, refl)

    pub take_receipts-Kept :
        (trim : String → String) (rs : List EnqueueReceipt) (c : Confirming)
        → Kept c
        → Kept (take_receipts canonical identity payload trim rs c)
    unfolding take_receipts Kept
    take_receipts-Kept trim [] c h = h
    take_receipts-Kept trim (r ∷ rs) c h =
        take_receipts-Kept trim rs (take_receipt canonical identity payload trim r c)
          (by_name (is_named trim r))
      where
        by_name :
            (b : Bool)
            → Kept (
                if b
                then with_receipt r.task_id (
                    cover canonical identity payload
                      (values (group_variants canonical identity payload r.previews).unique)
                      (
                        note_conflicts
                            (group_variants canonical identity payload r.previews).conflicts
                            c,
                        [],
                      ))
                else c)
        by_name false = h
        by_name true =
            let (same, _) =
              note_conflicts-same (group_variants canonical identity payload r.previews).conflicts
                c in
            let (g, e) =
              cover-Kept (values (group_variants canonical identity payload r.previews).unique)
                (
                  note_conflicts (group_variants canonical identity payload r.previews).conflicts c,
                  [],
                )
                (h.0, same ∙ h.1) in
            (g, (with_receipt-same r.task_id _).0 ∙ e)
