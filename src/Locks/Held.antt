-- ===== src/Locks/Held.antt =====
-- What a lock that MongoLockStore granted excludes, on the documents of its model.
use framework_module_resizer.Prelude.{
  ℕ, ◌+◌, ◌<◌, String, Bool, true, false, Option, some, List, ◌≡◌, ◌≢◌, All, arith, eq_refl,
}
use framework_module_resizer.Database.{Reply, done, threw}
use framework_module_resizer.Locks.{Lock, lock_for, AcquireSpec}
use framework_module_resizer.Locks.Mongo.{LockModel, IsLockModel, acquire, mongo_lock_store}
use framework_module_resizer.Locks.Contract.{mongo-IsLockStore}
use framework_module_resizer.Locks.Exclusion.{LockCall, is_foreign, run, run-keeps_lock}

granted :
    (key owner : String) (ttl now : ℕ) (before after : String → Option Lock) (r : Reply Bool)
    → r ≡ done true
    → AcquireSpec key owner ttl now before after r
    → after key ≡ some (lock_for owner (now + ttl))
granted key owner ttl now before after (done true) e (free, same) =
    ground (arith, same key, eq_refl key)
granted key owner ttl now before after (done false) e spec = cc
granted key owner ttl now before after (threw x) e spec = cc

-- Once `acquire` of MongoLockStore has granted a key for `ttl`, the key's document names the owner
-- and that end, through whatever calls of `acquire`, `extend` and `release` follow, answered or
-- failed, as long as each `acquire`, of any owner, comes before that end and each `extend` and
-- `release` is another owner's; and before that end no `acquire` is granted the key again, not even
-- to the same owner. The model's upserts and conditional writes behave as documented.
pub acquire-excludes :
    {Db : Type 0} (m : LockModel Db) (docs : Db → String → Option Lock)
    → IsLockModel m docs
    → (key holder : String) (ttl start : ℕ) (db : Db) (cs : List LockCall) (owner : String)
      (more now : ℕ)
    → (acquire m key holder ttl start db).0 ≡ done true
    → All (λ c. is_foreign holder (start + ttl) c ≡ true) cs
    → now < start + ttl
    → (docs (run (mongo_lock_store m) cs (acquire m key holder ttl start db).1) key
        ≡ some (lock_for holder (start + ttl)))
      × ((acquire m key owner more now
            (run (mongo_lock_store m) cs (acquire m key holder ttl start db).1)).0
          ≢ done true)
acquire-excludes m docs law key holder ttl start db cs owner more now got foreign early =
    let store = mongo-IsLockStore m docs law in
    run-keeps_lock (mongo_lock_store m) docs store key holder (start + ttl) cs
      (acquire m key holder ttl start db).1 owner more now foreign
      (granted key holder ttl start (docs db) (docs (acquire m key holder ttl start db).1)
        (acquire m key holder ttl start db).0 got (store.acquires key holder ttl start db))
      early
