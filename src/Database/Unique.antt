-- ===== src/Database/Unique.antt =====
-- What a unique index guarantees of the rows of a collection, and which writes keep it.
use framework_module_resizer.Prelude.{
  Bool, false, List, [], ◌∷◌, ◌++◌, ◌≡◌, All, All-append, All-remove,
}

module _ {Doc : Type 0} (clash : Doc → Doc → Bool) where
  -- No two rows clash.
  abbrev pub NoClash : List Doc → Type 0
  NoClash [] = Unit
  NoClash (d ∷ ds) = All (λ e. clash d e ≡ false) ds × NoClash ds

  pub NoClash-append :
      (ds : List Doc) (x : Doc)
      → NoClash ds
      → All (λ d. clash d x ≡ false) ds
      → NoClash (ds ++ x ∷ [])
  NoClash-append [] x h k = (tt, tt)
  NoClash-append (d ∷ ds) x (here, h) (k, ks) =
      (All-append (λ e. clash d e ≡ false) ds (x ∷ []) here (k, tt), NoClash-append ds x h ks)

  module _ (row row' : Doc) (left : (e : Doc) → clash row e ≡ false → clash row' e ≡ false)
      (right : (e : Doc) → clash e row ≡ false → clash e row' ≡ false) where
    clear-row' :
        (ds : List Doc) → All (λ e. clash row e ≡ false) ds → All (λ e. clash row' e ≡ false) ds
    clear-row' [] h = tt
    clear-row' (d ∷ ds) (h, hs) = (left d h, clear-row' ds hs)

    clear_one :
        (d : Doc) (before after : List Doc)
        → All (λ e. clash d e ≡ false) (before ++ (row ∷ after))
        → All (λ e. clash d e ≡ false) (before ++ (row' ∷ after))
    clear_one d [] after (h, hs) = (right d h, hs)
    clear_one d (b ∷ before) after (h, hs) = (h, clear_one d before after hs)

    -- A row may be replaced by one that clashes with no more.
    pub NoClash-replace :
        (before after : List Doc)
        → NoClash (before ++ (row ∷ after))
        → NoClash (before ++ (row' ∷ after))
    NoClash-replace [] after (h, hs) = (clear-row' after h, hs)
    NoClash-replace (b ∷ before) after (h, hs) =
        (clear_one b before after h, NoClash-replace before after hs)

  pub NoClash-remove :
      (before after : List Doc) (x : Doc)
      → NoClash (before ++ (x ∷ after))
      → NoClash (before ++ after)
  NoClash-remove [] after x (h, hs) = hs
  NoClash-remove (b ∷ before) after x (h, hs) =
      (All-remove (λ e. clash b e ≡ false) before after x h, NoClash-remove before after x hs)
