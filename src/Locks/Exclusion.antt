-- ===== src/Locks/Exclusion.antt =====
-- What a lock of contracts/locks.ts excludes, in any store that keeps the contract.
use framework_module_resizer.Prelude.{
  ℕ, ◌<◌, String, Bool, true, false, Option, some, ◌≡◌, ◌≢◌, ltb, str_eq, not, arith, eq_iff, inl,
  inr, List, [], ◌∷◌, ◌∙◌, All, ltb→lt, lt→ltb,
}
use framework_module_resizer.Database.{Reply, done, threw, Call}
use framework_module_resizer.Locks.{
  Lock, LockStore, live, lock_for, AcquireSpec, ExtendSpec, ReleaseSpec, IsLockStore,
}

module _ {Db : Type 0} (s : LockStore Db) (locks : Db → String → Option Lock)
    (law : IsLockStore s locks) where
  -- While a lock is live, no call of `acquire` gets its key, not even for the same owner.
  pub held-acquire :
      (key owner : String) (ttl now : ℕ) (db : Db)
      → live now (locks db key) ≡ true
      → (s.acquire key owner ttl now db).0 ≢ done true
  held-acquire key owner ttl now db h e =
      by_answer ((s.acquire key owner ttl now db).0) e (law.acquires key owner ttl now db)
    where
      by_answer :
          (r : Reply Bool)
          → r ≡ done true
          → AcquireSpec key owner ttl now (locks db) (locks (s.acquire key owner ttl now db).1) r
          → ⊥
      by_answer (done true) q spec = cc (spec.0)
      by_answer (done false) q spec = cc
      by_answer (threw x) q spec = cc

-- A call that somebody makes on a lock store, with its time.
pub data LockCall : Type 0 where
  acquiring extending : (key owner : String) (ttl now : ℕ) → LockCall
  releasing : (key owner : String) → LockCall

-- A call of another owner, or a try to acquire, before the lock of `holder` ends.
abbrev pub is_foreign : (holder : String) (until : ℕ) → LockCall → Bool
is_foreign holder until (acquiring key owner ttl now) = ltb now until
is_foreign holder until (extending key owner ttl now) = not (str_eq holder owner)
is_foreign holder until (releasing key owner) = not (str_eq holder owner)

module _ {Db : Type 0} (s : LockStore Db) where
  abbrev pub made : LockCall → Call Db Bool
  made (acquiring key owner ttl now) = s.acquire key owner ttl now
  made (extending key owner ttl now) = s.extend key owner ttl now
  made (releasing key owner) = s.release key owner

  unfoldable pub run : List LockCall → Db → Db
  run [] db = db
  run (c ∷ cs) db = run cs (made c db).1

  module _ (locks : Db → String → Option Lock) (law : IsLockStore s locks) (key holder : String)
      (until : ℕ) where
    acquire-keeps :
        (k owner : String) (ttl now : ℕ) (before after : String → Option Lock) (r : Reply Bool)
        → now < until
        → before key ≡ some (lock_for holder until)
        → AcquireSpec k owner ttl now before after r
        → after key ≡ some (lock_for holder until)
    acquire-keeps k owner ttl now before after (done true) lt h (free, same) =
        ground (arith, same key, eq_iff key k)
    acquire-keeps k owner ttl now before after (done false) lt h (busy, same) = same key ∙ h
    acquire-keeps k owner ttl now before after (threw e) lt h (inl same) = same key ∙ h
    acquire-keeps k owner ttl now before after (threw e) lt h (inr (free, same)) =
        ground (arith, same key, eq_iff key k)

    extend-keeps :
        (k owner : String) (ttl now : ℕ) (before after : String → Option Lock) (r : Reply Bool)
        → str_eq holder owner ≡ false
        → before key ≡ some (lock_for holder until)
        → ExtendSpec k owner ttl now before after r
        → after key ≡ some (lock_for holder until)
    extend-keeps k owner ttl now before after (done true) other h (mine, same) =
        ground (arith, same key, eq_iff key k)
    extend-keeps k owner ttl now before after (done false) other h (mine, same) = same key ∙ h
    extend-keeps k owner ttl now before after (threw e) other h (inl same) = same key ∙ h
    extend-keeps k owner ttl now before after (threw e) other h (inr (mine, same)) =
        ground (arith, same key, eq_iff key k)

    release-keeps :
        (k owner : String) (before after : String → Option Lock) (r : Reply Bool)
        → str_eq holder owner ≡ false
        → before key ≡ some (lock_for holder until)
        → ReleaseSpec k owner before after r
        → after key ≡ some (lock_for holder until)
    release-keeps k owner before after (done true) other h (mine, same) =
        ground (arith, same key, eq_iff key k)
    release-keeps k owner before after (done false) other h (mine, same) = same key ∙ h
    release-keeps k owner before after (threw e) other h (inl same) = same key ∙ h
    release-keeps k owner before after (threw e) other h (inr (mine, same)) =
        ground (arith, same key, eq_iff key k)

    pub made-keeps :
        (c : LockCall) (db : Db)
        → is_foreign holder until c ≡ true
        → locks db key ≡ some (lock_for holder until)
        → locks (made c db).1 key ≡ some (lock_for holder until)
    made-keeps (acquiring k owner ttl now) db e h =
        acquire-keeps k owner ttl now (locks db) (locks (s.acquire k owner ttl now db).1) _
          (ltb→lt now until e) h (law.acquires k owner ttl now db)
    made-keeps (extending k owner ttl now) db e h =
        extend-keeps k owner ttl now (locks db) (locks (s.extend k owner ttl now db).1) _
          (ground arith) h (law.extends k owner ttl now db)
    made-keeps (releasing k owner) db e h =
        release-keeps k owner (locks db) (locks (s.release k owner db).1) _ (ground arith) h
          (law.releases k owner db)

    -- In any store that keeps the contract, a lock outlives whatever other owners do before its
    -- time is up: they neither move it nor release it, and no `acquire` gets its key, not even for
    -- the same owner.
    pub run-keeps_lock :
        (cs : List LockCall) (db : Db) (owner : String) (ttl now : ℕ)
        → All (λ c. is_foreign holder until c ≡ true) cs
        → locks db key ≡ some (lock_for holder until)
        → now < until
        → (locks (run cs db) key ≡ some (lock_for holder until))
          × ((s.acquire key owner ttl now (run cs db)).0 ≢ done true)
    unfolding run
    run-keeps_lock [] db owner ttl now _ h lt =
        (h, held-acquire s locks law key owner ttl now db (rw h (lt→ltb now until lt)))
    run-keeps_lock (c ∷ cs) db owner ttl now (f, fs) h lt =
        run-keeps_lock cs (made c db).1 owner ttl now fs (made-keeps c db f h) lt
