-- ===== src/Locks/Tests.antt =====
-- Runs of MongoLockStore on a lock model in memory, and the theorems at those runs.
use framework_module_resizer.Prelude.{
  String, true, false, Option, none, some, List, [], ◌∷◌, ◌≡◌, ◌≢◌, refl, arith,
}
use framework_module_resizer.Database.{done}
use framework_module_resizer.Locks.{Lock, lock_for, put, IsLockStore}
use framework_module_resizer.Locks.Mongo.{mongo_lock_store, acquire, extend, release}
use framework_module_resizer.Locks.Contract.{mongo-IsLockStore}
use framework_module_resizer.Locks.Exclusion.{LockCall, acquiring, extending, releasing, run}
use framework_module_resizer.Locks.Held.{acquire-excludes}
use framework_module_resizer.Locks.Sample.{sample, sample-IsLockModel}

abbrev docs : (String → Option Lock) → String → Option Lock
docs db = db

abbrev empty : String → Option Lock
empty k = none

abbrev taken : String → Option Lock
taken = put "g" (some (lock_for "ann" 160)) empty

lock_runs :
    ((acquire sample "g" "ann" 60 100 empty).0 ≡ done true)
    × ((acquire sample "g" "bob" 60 159 taken).0 ≡ done false)
    × ((acquire sample "g" "bob" 60 160 taken).0 ≡ done true)
    × ((extend sample "g" "bob" 60 120 taken).0 ≡ done false)
    × ((extend sample "g" "ann" 60 160 taken).0 ≡ done false)
    × ((release sample "g" "ann" taken).0 ≡ done true)
unfolding acquire extend release sample
lock_runs = (refl, refl, refl, refl, refl, refl)

mongo-IsLockStore_example : IsLockStore (mongo_lock_store sample) docs
mongo-IsLockStore_example = mongo-IsLockStore sample docs sample-IsLockModel

abbrev others : List LockCall
others = acquiring "g" "bob" 60 120 ∷ releasing "g" "bob" ∷ extending "g" "bob" 900 130 ∷ []

acquire-excludes_example :
    (run (mongo_lock_store sample) others (acquire sample "g" "ann" 60 100 empty).1 "g"
      ≡ some (lock_for "ann" 160))
    × ((acquire sample "g" "bob" 60 140
          (run (mongo_lock_store sample) others (acquire sample "g" "ann" 60 100 empty).1)).0
        ≢ done true)
acquire-excludes_example =
    acquire-excludes sample docs sample-IsLockModel "g" "ann" 60 100 empty others "bob" 60 140
      lock_runs.0 (refl, (refl, (refl, tt))) (omega arith)
