-- ===== src/Database.antt =====
-- The document database that the drivers call through Mongoose. Its code is not part of the
-- repository, so a collection is a parameter: the operations that the drivers call, over a state
-- that they do not look into, with the documented behaviour of each as a law. Every operation is
-- atomic, and may reject with its write done or not.
pub mod Unique
pub mod Sample
use framework_module_resizer.Prelude.{
  ℕ, ◌≤◌, String, Bool, true, false, Option, none, some, List, [], ◌∷◌, ◌++◌, ◌≡◌, All, Memᴰ,
}

-- Why a database call rejected: a duplicate key, with the key pattern of its index when the error
-- names one, or anything else.
pub data Failure : Type 0 where
  duplicate_key : Option (List String) → Failure
  other : String → Failure

pub data Reply {ℓ} (A : Type ℓ) : Type ℓ where
  done : A → Reply A
  threw : Failure → Reply A

-- An asynchronous call: what it resolves or rejects with, and the state that it leaves.
abbrev pub Call : Type 0 → Type 0 → Type 0
Call Db A = Db → Reply A × Db

abbrev continue : {Db A B : Type 0} → Reply A → (A → Call Db B) → Call Db B
continue (done a) f db = f a db
continue (threw e) f db = (threw e, db)

infixl 5 ◌>>=◌ ◌>>◌
abbrev pub ◌>>=◌ : {Db A B : Type 0} → Call Db A → (A → Call Db B) → Call Db B
◌>>=◌ m f db = let (r, db') = m db in continue r f db'

abbrev pub ◌>>◌ : {Db A B : Type 0} → Call Db A → Call Db B → Call Db B
m >> k = m >>= λ _. k

abbrev pub pure : {Db A : Type 0} → A → Call Db A
pure a db = (done a, db)

-- What the drivers call on a Mongoose model. A filter is the test that it stands for, an update
-- the change that it makes, and `sort` the key whose least value chooses one of several matches.
pub record Collection (Doc Db : Type 0) : Type 0 where
  -- `create`: the document is complete once the database has given it an id.
  pub create : (String → Doc) → Call Db Doc
  pub find_one : (Doc → Bool) → Db → Reply (Option Doc)
  -- `findOneAndUpdate` with `returnDocument: 'after'`.
  pub find_one_and_update : (Doc → Bool) → (Doc → Doc) → (Doc → ℕ) → Call Db (Option Doc)

-- A read leaves the state as it is.
abbrev pub reading : {Db A : Type 0} → (Db → Reply A) → Call Db A
reading q db = (q db, db)

module _ {Doc : Type 0} where
  -- One row that fits the filter was changed, the first of them in the sort order.
  pub record Changed (filter : Doc → Bool) (update : Doc → Doc) (sort : Doc → ℕ) (ds ds' : List Doc)
      (row : Doc) : Type 0 where
    pub before : List Doc
    pub after : List Doc
    pub was : ds ≡ before ++ (row ∷ after)
    pub becomes : ds' ≡ before ++ (update row ∷ after)
    pub fits : filter row ≡ true
    pub first : All (λ d. filter d ≡ true → sort row ≤ sort d) ds

  pub data FoundAndUpdated (filter : Doc → Bool) (update : Doc → Doc) (sort : Doc → ℕ)
      (ds ds' : List Doc) (r : Reply (Option Doc)) : Type 0 where
    matched :
        (row : Doc)
        → Changed filter update sort ds ds' row
        → r ≡ done (some (update row))
        → FoundAndUpdated filter update sort ds ds' r
    unmatched :
        All (λ d. filter d ≡ false) ds
        → ds' ≡ ds
        → r ≡ done none
        → FoundAndUpdated filter update sort ds ds' r
    -- The write was made and its answer lost.
    lost :
        (row : Doc) (e : Failure)
        → Changed filter update sort ds ds' row
        → r ≡ threw e
        → FoundAndUpdated filter update sort ds ds' r
    failed : (e : Failure) → ds' ≡ ds → r ≡ threw e → FoundAndUpdated filter update sort ds ds' r

  pub data Found (filter : Doc → Bool) (ds : List Doc) (r : Reply (Option Doc)) : Type 0 where
    found : (row : Doc) → Memᴰ row ds → filter row ≡ true → r ≡ done (some row) → Found filter ds r
    absent : All (λ d. filter d ≡ false) ds → r ≡ done none → Found filter ds r
    failed : (e : Failure) → r ≡ threw e → Found filter ds r

  -- `clash` says which two documents a unique index does not allow side by side.
  pub data Created (clash : Doc → Doc → Bool) (f : String → Doc) (ds ds' : List Doc) (r : Reply Doc)
      : Type 0 where
    stored :
        (id : String)
        → All (λ d. clash d (f id) ≡ false) ds
        → ds' ≡ ds ++ f id ∷ []
        → r ≡ done (f id)
        → Created clash f ds ds' r
    lost :
        (id : String) (e : Failure)
        → All (λ d. clash d (f id) ≡ false) ds
        → ds' ≡ ds ++ f id ∷ []
        → r ≡ threw e
        → Created clash f ds ds' r
    failed : (e : Failure) → ds' ≡ ds → r ≡ threw e → Created clash f ds ds' r

-- The documented behaviour of a collection with a unique index.
pub record IsCollection {Doc Db : Type 0} (c : Collection Doc Db) (docs : Db → List Doc)
    (clash : Doc → Doc → Bool) : Type 0 where
  pub creates :
      (f : String → Doc) (db : Db)
      → Created clash f (docs db) (docs (c.create f db).1) (c.create f db).0
  pub finds : (filter : Doc → Bool) (db : Db) → Found filter (docs db) (c.find_one filter db)
  pub updates :
      (filter : Doc → Bool) (update : Doc → Doc) (sort : Doc → ℕ) (db : Db)
      → FoundAndUpdated filter update sort
          (docs db)
          (docs (c.find_one_and_update filter update sort db).1)
          (c.find_one_and_update filter update sort db).0
