-- ===== src/Locks/Contract.antt =====
-- MongoLockStore keeps the contract of contracts/locks.ts.
use framework_module_resizer.Prelude.{
  ℕ, ◌+◌, String, Bool, true, false, not, ◌&&◌, Option, none, some, ◌≡◌, refl, arith, inl, inr, ap,
  sym, ◌∙◌, eq_iff,
}
use framework_module_resizer.Database.{duplicate_key, other, Reply, done, threw}
use framework_module_resizer.Locks.{
  Lock, is_after, live, same_owner, owned, lock_for, AcquireSpec, ExtendSpec, ReleaseSpec,
  IsLockStore,
}
use framework_module_resizer.Locks.Mongo.{
  LockModel, IsLockModel, passes, changed, upserted, can_upsert, UpsertSpec, MatchSpec, is_expired,
  acquired, acquire, extend, release, mongo_lock_store,
}

is_expired-live : (now : ℕ) (t : Option ℕ) → is_expired now t ≡ not (is_after now t)
is_expired-live now none = refl
is_expired-live now (some t) = ground arith

same_owner-eq-some :
    (owner : String) (o : Option String) → same_owner owner o ≡ true → o ≡ some owner
same_owner-eq-some owner none h = cc
same_owner-eq-some owner (some o) h = ap some ((eq_iff o owner).0 h)

module _ {Db : Type 0} (m : LockModel Db) (docs : Db → String → Option Lock)
    (law : IsLockModel m docs) where
  acquire-AcquireSpec :
      (key owner : String) (ttl now : ℕ) (db : Db)
      → AcquireSpec key owner ttl now
          (docs db)
          (docs (acquire m key owner ttl now db).1)
          (acquire m key owner ttl now db).0
  unfolding acquire
  acquire-AcquireSpec key owner ttl now db = answer _ (law.upserts key expired taken db)
    where
      expired : Lock → Bool
      expired d = is_expired now d.until

      taken : Lock → Lock
      taken d = record d { owner = some owner; until = some (now + ttl) }

      free : (o : Option Lock) → can_upsert expired o ≡ not (live now o)
      free none = refl
      free (some l) = is_expired-live now l.until

      new : (o : Option Lock) → upserted taken o ≡ some (lock_for owner (now + ttl))
      new none = refl
      new (some l) = refl

      answer :
          (r : Reply (Unit {0}) × Db)
          → UpsertSpec key expired taken (docs db) (docs r.1) r.0
          → AcquireSpec key owner ttl now (docs db) (docs (acquired m r).1) (acquired m r).0
      answer (done u, db') (e, same) =
          (ground (arith, free (docs db key)), rw (new (docs db key)) at same)
      answer (threw (duplicate_key names), db') (e, same) =
          (ground (arith, free (docs db key)), same)
      answer (threw (other code), db') (inl same) = inl same
      answer (threw (other code), db') (inr (e, same)) =
          inr (ground (arith, free (docs db key)), rw (new (docs db key)) at same)

  extend-ExtendSpec :
      (key owner : String) (ttl now : ℕ) (db : Db)
      → ExtendSpec key owner ttl now
          (docs db)
          (docs (extend m key owner ttl now db).1)
          (extend m key owner ttl now db).0
  unfolding extend
  extend-ExtendSpec key owner ttl now db = answer _ (law.updates key mine moved db)
    where
      mine : Lock → Bool
      mine d = same_owner owner d.owner && is_after now d.until

      moved : Lock → Lock
      moved d = record d { until = some (now + ttl) }

      agree : (o : Option Lock) → passes mine o ≡ live now o && owned owner o
      agree none = refl
      agree (some l) = ground arith

      new :
          (o : Option Lock)
          → passes mine o ≡ true
          → changed moved o ≡ some (lock_for owner (now + ttl))
      new none e = cc
      new (some l) e = ground (arith, same_owner-eq-some owner l.owner)

      answer :
          (r : Reply Bool × Db)
          → MatchSpec key mine (changed moved (docs db key)) (docs db) (docs r.1) r.0
          → ExtendSpec key owner ttl now (docs db) (docs r.1) r.0
      answer (done true, db') (e, same) =
          (sym (agree (docs db key)) ∙ e, rw (new (docs db key) e) at same)
      answer (done false, db') (e, same) = (sym (agree (docs db key)) ∙ e, same)
      answer (threw x, db') (inl same) = inl same
      answer (threw x, db') (inr (e, same)) =
          inr (sym (agree (docs db key)) ∙ e, rw (new (docs db key) e) at same)

  release-ReleaseSpec :
      (key owner : String) (db : Db)
      → ReleaseSpec key owner (docs db) (docs (release m key owner db).1) (release m key owner db).0
  unfolding release
  release-ReleaseSpec key owner db = answer _ (law.deletes key (λ d. same_owner owner d.owner) db)
    where
      agree : (o : Option Lock) → passes (λ d. same_owner owner d.owner) o ≡ owned owner o
      agree none = refl
      agree (some l) = refl

      answer :
          (r : Reply Bool × Db)
          → MatchSpec key (λ d. same_owner owner d.owner) none (docs db) (docs r.1) r.0
          → ReleaseSpec key owner (docs db) (docs r.1) r.0
      answer (done true, db') (e, same) = (sym (agree (docs db key)) ∙ e, same)
      answer (done false, db') (e, same) = (sym (agree (docs db key)) ∙ e, same)
      answer (threw x, db') (inl same) = inl same
      answer (threw x, db') (inr (e, same)) = inr (sym (agree (docs db key)) ∙ e, same)

  -- MongoLockStore keeps the lock store's contract over any model with upserts and conditional
  -- writes: `acquire` takes a key that is free or whose lock has ended and no other, `extend` moves
  -- the owner's live lock only, `release` deletes the owner's lock only, and no other key changes.
  pub mongo-IsLockStore : IsLockStore (mongo_lock_store m) docs
  mongo-IsLockStore = record {
    acquires = acquire-AcquireSpec;
    extends = extend-ExtendSpec;
    releases = release-ReleaseSpec;
  }
