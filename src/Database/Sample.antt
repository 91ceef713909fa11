-- ===== src/Database/Sample.antt =====
-- A collection in memory that behaves as documented, for the tests: its state is its rows.
use framework_module_resizer.Prelude.{
  ℕ, ◌≤◌, String, Bool, true, false, ◌&&◌, Option, none, some, List, [], ◌∷◌, ◌++◌, ◌≡◌, refl, ap,
  any, Memᴰ-middle, All, arith, leb,
}
use framework_module_resizer.Database.{
  duplicate_key, Reply, done, threw, Collection, FoundAndUpdated, Found, Created, IsCollection,
}

-- The matching row with the least key, with the rows before and after it.
record Pick (Doc : Type 0) : Type 0 where
  before : List Doc
  row : Doc
  after : List Doc

module _ {Doc : Type 0} where
  better : Bool → Doc → List Doc → Pick Doc → Pick Doc
  better true d ds p = record { before = []; row = d; after = ds }
  better false d ds p = record { before = d ∷ p.before; row = p.row; after = p.after }

  first_of_two : Bool → (Pick Doc → Bool) → Doc → List Doc → Option (Pick Doc) → Option (Pick Doc)
  unfolding better
  first_of_two true wins d ds none = some (record { before = []; row = d; after = ds })
  first_of_two false wins d ds none = none
  first_of_two fits wins d ds (some p) = some (better (fits && wins p) d ds p)

  module _ (filter : Doc → Bool) (sort : Doc → ℕ) where
    pick : List Doc → Option (Pick Doc)
    unfolding first_of_two
    pick [] = none
    pick (d ∷ ds) = first_of_two (filter d) (λ p. leb (sort d) (sort p.row)) d ds (pick ds)

    data Picked (ds : List Doc) (o : Option (Pick Doc)) : Type 0 where
      nothing : All (λ d. filter d ≡ false) ds → o ≡ none → Picked ds o
      one :
          (p : Pick Doc)
          → ds ≡ p.before ++ (p.row ∷ p.after)
          → filter p.row ≡ true
          → All (λ d. filter d ≡ true → sort p.row ≤ sort d) ds
          → o ≡ some p
          → Picked ds o

    weaken :
        (n : ℕ) (m : ℕ) (ds : List Doc)
        → n ≤ m
        → All (λ d. filter d ≡ true → m ≤ sort d) ds
        → All (λ d. filter d ≡ true → n ≤ sort d) ds
    weaken n m [] le h = tt
    weaken n m (d ∷ ds) le (h, hs) =
        (λ e. let k : m ≤ sort d = h e in omega arith, weaken n m ds le hs)

    vacuous :
        (n : ℕ) (ds : List Doc)
        → All (λ d. filter d ≡ false) ds
        → All (λ d. filter d ≡ true → n ≤ sort d) ds
    vacuous n [] h = tt
    vacuous n (d ∷ ds) (h, hs) = (λ e. cc, vacuous n ds hs)

    pick-cons :
        (d : Doc) (ds : List Doc) (fits : Bool)
        → filter d ≡ fits
        → (o : Option (Pick Doc)) → Picked ds o
        → Picked (d ∷ ds) (first_of_two fits (λ p. leb (sort d) (sort p.row)) d ds o)
    unfolding first_of_two
    pick-cons d ds true e o (nothing h q) =
        rw q (one _ refl e ((λ _. omega arith, vacuous (sort d) ds h)) refl)
    pick-cons d ds false e o (nothing h q) = rw q (nothing (e, h) refl)
    pick-cons d ds fits e o (one p was fit least q) =
        rw q (decide (fits && leb (sort d) (sort p.row)) refl)
      where
        decide :
            (b : Bool)
            → fits && leb (sort d) (sort p.row) ≡ b
            → Picked (d ∷ ds) (some (better b d ds p))
        decide true w =
            one _ refl (ground arith)
              (λ _. omega arith, weaken (sort d) (sort p.row) ds (ground arith) least) refl
        decide false w = one _ (ap (λ t. d ∷ t) was) fit (λ g. ground arith, least) refl

    pick-Picked : (ds : List Doc) → Picked ds (pick ds)
    unfolding pick
    pick-Picked [] = nothing tt refl
    pick-Picked (d ∷ ds) = pick-cons d ds (filter d) refl (pick ds) (pick-Picked ds)

module _ {Doc : Type 0} where
  written : (Doc → Doc) → List Doc → Option (Pick Doc) → Reply (Option Doc) × List Doc
  written update ds none = (done none, ds)
  written update ds (some p) = (done (some (update p.row)), p.before ++ (update p.row ∷ p.after))

  row_of : Option (Pick Doc) → Option Doc
  row_of none = none
  row_of (some p) = some p.row

  inserted : Bool → List String → Doc → List Doc → Reply Doc × List Doc
  inserted true keys d ds = (threw (duplicate_key (some keys)), ds)
  inserted false keys d ds = (done d, ds ++ d ∷ [])

  -- `keys` is the key pattern of the index that `clash` stands for, and `fresh` makes the ids.
  unfoldable pub sample :
      (Doc → Doc → Bool) → List String → (List Doc → String) → Collection Doc (List Doc)
  unfolding written row_of inserted pick
  sample clash keys fresh = record {
    create = λ f ds. inserted (any (λ d. clash d (f (fresh ds))) ds) keys (f (fresh ds)) ds;
    find_one = λ filter ds. done (row_of (pick filter (λ _. 0) ds));
    find_one_and_update = λ filter update sort ds. written update ds (pick filter sort ds);
  }

  none_of_any : (p : Doc → Bool) (ds : List Doc) → any p ds ≡ false → All (λ d. p d ≡ false) ds
  none_of_any p [] h = tt
  none_of_any p (d ∷ ds) h = (ground arith, none_of_any p ds (ground arith))

  module _ (clash : Doc → Doc → Bool) (keys : List String) (fresh : List Doc → String) where
    sample-creates :
        (f : String → Doc) (ds : List Doc)
        → Created clash f ds
            ((sample clash keys fresh).create f ds).1
            ((sample clash keys fresh).create f ds).0
    unfolding sample
    sample-creates f ds = by_test (any (λ d. clash d (f (fresh ds))) ds) refl
      where
        by_test :
            (b : Bool)
            → any (λ d. clash d (f (fresh ds))) ds ≡ b
            → Created clash f ds
                (inserted b keys (f (fresh ds)) ds).1
                (inserted b keys (f (fresh ds)) ds).0
        by_test true e = Created.failed (duplicate_key (some keys)) refl refl
        by_test false e = Created.stored (fresh ds) (none_of_any _ ds e) refl refl

    sample-finds :
        (filter : Doc → Bool) (ds : List Doc)
        → Found filter ds ((sample clash keys fresh).find_one filter ds)
    unfolding sample
    sample-finds filter ds = by_pick (pick filter (λ _. 0) ds) (pick-Picked filter (λ _. 0) ds)
      where
        by_pick :
            (o : Option (Pick Doc))
            → Picked filter (λ _. 0) ds o
            → Found filter ds (done (row_of o))
        by_pick o (nothing h e) = rw e (Found.absent h refl)
        by_pick o (one p was fit least e) =
            rw e (Found.found p.row (rw was (Memᴰ-middle p.before p.row p.after)) fit refl)

    sample-updates :
        (filter : Doc → Bool) (update : Doc → Doc) (sort : Doc → ℕ) (ds : List Doc)
        → FoundAndUpdated filter update sort ds
            ((sample clash keys fresh).find_one_and_update filter update sort ds).1
            ((sample clash keys fresh).find_one_and_update filter update sort ds).0
    unfolding sample
    sample-updates filter update sort ds =
        by_pick (pick filter sort ds) (pick-Picked filter sort ds)
      where
        by_pick :
            (o : Option (Pick Doc))
            → Picked filter sort ds o
            → FoundAndUpdated filter update sort ds (written update ds o).1 (written update ds o).0
        by_pick o (nothing h e) = rw e (FoundAndUpdated.unmatched h refl refl)
        by_pick o (one p was fit least e) = rw e (
            FoundAndUpdated.matched p.row
              (record {
                before = p.before;
                after = p.after;
                was = was;
                becomes = refl;
                fits = fit;
                first = least;
              })
              refl)

    -- The collection in memory behaves as a collection must.
    pub sample-IsCollection : IsCollection (sample clash keys fresh) (λ ds. ds) clash
    sample-IsCollection = record {
      creates = sample-creates;
      finds = sample-finds;
      updates = sample-updates;
    }
