-- ===== src/Locks/Mongo.antt =====
-- drivers/mongo/locks.ts: MongoLockStore, locks as documents of a ResizeLock model, keyed by `_id`.
-- The model's three methods are parameters, with their documented behaviour as laws.
use framework_module_resizer.Prelude.{
  ℕ, ◌+◌, String, Bool, true, false, not, ◌&&◌, Option, none, some, ◌≡◌, ◌⊎◌, leb, if◌then◌else◌,
}
use framework_module_resizer.Database.{Failure, duplicate_key, other, Reply, done, threw, Call}
use framework_module_resizer.Locks.{Lock, LockStore, is_after, same_owner, put, Same}

-- What MongoLockStore calls: `findOneAndUpdate` with `upsert`, `updateOne` (its matched count is 1
-- or 0) and `deleteOne`, each on the document of one key that passes a test.
pub record LockModel (Db : Type 0) : Type 0 where
  pub find_one_and_update : String → (Lock → Bool) → (Lock → Lock) → Call Db (Unit {0})
  pub update_one : String → (Lock → Bool) → (Lock → Lock) → Call Db Bool
  pub delete_one : String → (Lock → Bool) → Call Db Bool

abbrev pub passes : (Lock → Bool) → Option Lock → Bool
passes test none = false
passes test (some l) = test l

abbrev pub changed : (Lock → Lock) → Option Lock → Option Lock
changed f none = none
changed f (some l) = some (f l)

-- An upsert makes a document with no fields but its key when there is none.
abbrev pub blank : Lock
blank = record { owner = none; until = none }

abbrev pub upserted : (Lock → Lock) → Option Lock → Option Lock
upserted f none = some (f blank)
upserted f (some l) = some (f l)

abbrev pub can_upsert : (Lock → Bool) → Option Lock → Bool
can_upsert test none = true
can_upsert test (some l) = test l

abbrev pub UpsertSpec :
    (key : String) (test : Lock → Bool) (f : Lock → Lock) (before after : String → Option Lock)
    → Reply (Unit {0})
    → Type 0
UpsertSpec key test f before after (done u) =
    (can_upsert test (before key) ≡ true) × Same (put key (upserted f (before key)) before) after
-- A document that fails the test makes the upsert insert its key again.
UpsertSpec key test f before after (threw (duplicate_key names)) =
    (can_upsert test (before key) ≡ false) × Same before after
UpsertSpec key test f before after (threw (other code)) =
    Same before after
    ⊎ ((can_upsert test (before key) ≡ true)
        × Same (put key (upserted f (before key)) before) after)

abbrev pub MatchSpec :
    (key : String) (test : Lock → Bool) (new : Option Lock) (before after : String → Option Lock)
    → Reply Bool
    → Type 0
MatchSpec key test new before after (done true) =
    (passes test (before key) ≡ true) × Same (put key new before) after
MatchSpec key test new before after (done false) =
    (passes test (before key) ≡ false) × Same before after
MatchSpec key test new before after (threw e) =
    Same before after ⊎ ((passes test (before key) ≡ true) × Same (put key new before) after)

pub record IsLockModel {Db : Type 0} (m : LockModel Db) (docs : Db → String → Option Lock)
    : Type 0 where
  pub upserts :
      (key : String) (test : Lock → Bool) (f : Lock → Lock) (db : Db)
      → UpsertSpec key test f
          (docs db)
          (docs (m.find_one_and_update key test f db).1)
          (m.find_one_and_update key test f db).0
  pub updates :
      (key : String) (test : Lock → Bool) (f : Lock → Lock) (db : Db)
      → MatchSpec key test
          (changed f (docs db key))
          (docs db)
          (docs (m.update_one key test f db).1)
          (m.update_one key test f db).0
  pub deletes :
      (key : String) (test : Lock → Bool) (db : Db)
      → MatchSpec key test none
          (docs db)
          (docs (m.delete_one key test db).1)
          (m.delete_one key test db).0

-- `{ $or: [{ expiredAt: { $lte: now } }, { expiredAt: null }] }`
abbrev pub is_expired : ℕ → Option ℕ → Bool
is_expired now none = true
is_expired now (some t) = leb t now

-- `verify`: a strict schema must declare `owner`. The arguments are `schema.path('owner')`, when the
-- model exposes its schema, and `schema.options.strict !== false`.
unfoldable pub verify : Option Bool → Bool → Option Failure
verify none strict = none
verify (some has_owner) strict =
    if strict && not has_owner then some (other "RESIZE_MONGO_LOCK_MODEL_OUTDATED") else none

module _ {Db : Type 0} (m : LockModel Db) where
  abbrev pub acquired : Reply (Unit {0}) × Db → Reply Bool × Db
  acquired (done u, db) = (done true, db)
  acquired (threw (duplicate_key names), db) = (done false, db)
  acquired (threw (other code), db) = (threw (other code), db)

  unfoldable pub acquire : (key owner : String) (ttl now : ℕ) → Call Db Bool
  acquire key owner ttl now db = acquired (
      m.find_one_and_update key (λ d. is_expired now d.until)
        (λ d. record d { owner = some owner; until = some (now + ttl) }) db)

  unfoldable pub extend : (key owner : String) (ttl now : ℕ) → Call Db Bool
  extend key owner ttl now =
      m.update_one key (λ d. same_owner owner d.owner && is_after now d.until)
        (λ d. record d { until = some (now + ttl) })

  unfoldable pub release : (key owner : String) → Call Db Bool
  release key owner = m.delete_one key (λ d. same_owner owner d.owner)

  abbrev pub mongo_lock_store : LockStore Db
  mongo_lock_store = record { acquire = acquire; extend = extend; release = release }
