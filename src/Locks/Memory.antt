-- ===== src/Locks/Memory.antt =====
-- A lock store in memory, for the tests: its state gives the lock of each key.
use framework_module_resizer.Prelude.{
  ℕ, ◌+◌, String, Bool, true, false, not, ◌&&◌, Option, none, some, ◌≡◌, refl,
}
use framework_module_resizer.Database.{Reply, done}
use framework_module_resizer.Locks.Reliable.{is_done, IsReliable}
use framework_module_resizer.Locks.{
  Lock, LockStore, live, owned, lock_for, put, AcquireSpec, ExtendSpec, ReleaseSpec, IsLockStore,
}

abbrev Docs : Type 0
Docs = String → Option Lock

unfoldable pub attempt : Bool → String → Option Lock → Docs → Reply Bool × Docs
attempt true key new db = (done true, put key new db)
attempt false key new db = (done false, db)

unfoldable pub memory : LockStore (String → Option Lock)
unfolding attempt
memory = record {
  acquire = λ key owner ttl now db.
      attempt (not (live now (db key))) key (some (lock_for owner (now + ttl))) db;
  extend = λ key owner ttl now db.
      attempt (live now (db key) && owned owner (db key)) key (some (lock_for owner (now + ttl)))
        db;
  release = λ key owner db. attempt (owned owner (db key)) key none db;
}

acquire-AcquireSpec :
    (key owner : String) (ttl now : ℕ) (db : Docs) (b : Bool)
    → live now (db key) ≡ b
    → AcquireSpec key owner ttl now db
        (attempt (not b) key (some (lock_for owner (now + ttl))) db).1
        (attempt (not b) key (some (lock_for owner (now + ttl))) db).0
unfolding attempt
acquire-AcquireSpec key owner ttl now db true e = (e, λ k. refl)
acquire-AcquireSpec key owner ttl now db false e = (e, λ k. refl)

extend-ExtendSpec :
    (key owner : String) (ttl now : ℕ) (db : Docs) (b : Bool)
    → live now (db key) && owned owner (db key) ≡ b
    → ExtendSpec key owner ttl now db
        (attempt b key (some (lock_for owner (now + ttl))) db).1
        (attempt b key (some (lock_for owner (now + ttl))) db).0
unfolding attempt
extend-ExtendSpec key owner ttl now db true e = (e, λ k. refl)
extend-ExtendSpec key owner ttl now db false e = (e, λ k. refl)

release-ReleaseSpec :
    (key owner : String) (db : Docs) (b : Bool)
    → owned owner (db key) ≡ b
    → ReleaseSpec key owner db (attempt b key none db).1 (attempt b key none db).0
unfolding attempt
release-ReleaseSpec key owner db true e = (e, λ k. refl)
release-ReleaseSpec key owner db false e = (e, λ k. refl)

pub memory-IsLockStore : IsLockStore memory (λ db. db)
unfolding memory
memory-IsLockStore = record {
  acquires = λ key owner ttl now db. acquire-AcquireSpec key owner ttl now db _ refl;
  extends = λ key owner ttl now db. extend-ExtendSpec key owner ttl now db _ refl;
  releases = λ key owner db. release-ReleaseSpec key owner db _ refl;
}

attempt-is_done :
    (b : Bool) (key : String) (new : Option Lock) (db : Docs)
    → is_done (attempt b key new db).0 ≡ true
unfolding attempt
attempt-is_done true key new db = refl
attempt-is_done false key new db = refl

pub memory-IsReliable : IsReliable memory
unfolding memory
memory-IsReliable = record {
  acquires = λ key owner ttl now l. attempt-is_done _ key _ l;
  extends = λ key owner ttl now l. attempt-is_done _ key _ l;
  releases = λ key owner l. attempt-is_done _ key _ l;
}
