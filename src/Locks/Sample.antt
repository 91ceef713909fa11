-- ===== src/Locks/Sample.antt =====
-- A lock model in memory, for the tests: its state gives the document of each key.
use framework_module_resizer.Prelude.{String, Bool, true, false, Option, none, ◌≡◌, refl}
use framework_module_resizer.Database.{duplicate_key, Reply, done, threw}
use framework_module_resizer.Locks.{Lock, put}
use framework_module_resizer.Locks.Mongo.{
  LockModel, IsLockModel, passes, changed, upserted, can_upsert, UpsertSpec, MatchSpec,
}

abbrev Docs : Type 0
Docs = String → Option Lock

upsert : Bool → String → (Lock → Lock) → Docs → Reply (Unit {0}) × Docs
upsert true key f db = (done tt, put key (upserted f (db key)) db)
upsert false key f db = (threw (duplicate_key none), db)

write : Bool → String → Option Lock → Docs → Reply Bool × Docs
write true key new db = (done true, put key new db)
write false key new db = (done false, db)

unfoldable pub sample : LockModel (String → Option Lock)
unfolding upsert write
sample = record {
  find_one_and_update = λ key test f db. upsert (can_upsert test (db key)) key f db;
  update_one = λ key test f db. write (passes test (db key)) key (changed f (db key)) db;
  delete_one = λ key test db. write (passes test (db key)) key none db;
}

upsert_lem :
    (b : Bool) (key : String) (test : Lock → Bool) (f : Lock → Lock) (db : Docs)
    → can_upsert test (db key) ≡ b
    → UpsertSpec key test f db (upsert b key f db).1 (upsert b key f db).0
unfolding upsert
upsert_lem true key test f db e = (e, λ k. refl)
upsert_lem false key test f db e = (e, λ k. refl)

write_lem :
    (b : Bool) (key : String) (test : Lock → Bool) (new : Option Lock) (db : Docs)
    → passes test (db key) ≡ b
    → MatchSpec key test new db (write b key new db).1 (write b key new db).0
unfolding write
write_lem true key test new db e = (e, λ k. refl)
write_lem false key test new db e = (e, λ k. refl)

pub sample-IsLockModel : IsLockModel sample (λ db. db)
unfolding sample
sample-IsLockModel = record {
  upserts = λ key test f db. upsert_lem (can_upsert test (db key)) key test f db refl;
  updates = λ key test f db. write_lem (passes test (db key)) key test _ db refl;
  deletes = λ key test db. write_lem (passes test (db key)) key test none db refl;
}
