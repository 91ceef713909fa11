-- ===== src/Locks.antt =====
-- contracts/locks.ts: the lock store as its callers see it, and what each call promises. A lock
-- whose time has come is no longer live, whether or not it has been removed.
pub mod Mongo
pub mod Contract
pub mod Exclusion
pub mod Held
pub mod Sample
pub mod Memory
pub mod Reliable
mod Tests
use framework_module_resizer.Prelude.{
  ℕ, ◌+◌, ◌<◌, String, Bool, true, false, ◌&&◌, Option, none, some, ◌≡◌, ◌≢◌, ◌⊎◌, ltb, str_eq,
  if◌then◌else◌, not, arith, eq_iff, inl, inr, List, [], ◌∷◌, ◌∙◌, All, ltb→lt, lt→ltb,
}
use framework_module_resizer.Database.{Reply, done, threw, Call, Failure}

pub record Lock : Type 0 where
  pub owner : Option String
  pub until : Option ℕ

-- `LockStore`: key, owner and time to live, with the clock as the last argument.
pub record LockStore (Db : Type 0) : Type 0 where
  pub acquire : String → String → ℕ → ℕ → Call Db Bool
  pub extend : String → String → ℕ → ℕ → Call Db Bool
  pub release : String → String → Call Db Bool

abbrev pub is_after : ℕ → Option ℕ → Bool
is_after now none = false
is_after now (some t) = ltb now t

abbrev pub live : ℕ → Option Lock → Bool
live now none = false
live now (some l) = is_after now l.until

abbrev pub same_owner : String → Option String → Bool
same_owner owner none = false
same_owner owner (some o) = str_eq o owner

abbrev pub owned : String → Option Lock → Bool
owned owner none = false
owned owner (some l) = same_owner owner l.owner

abbrev pub lock_for : String → ℕ → Lock
lock_for owner until = record { owner = some owner; until = some until }

-- The locks of a store, by key, with one of them changed.
abbrev pub put : String → Option Lock → (String → Option Lock) → String → Option Lock
put key l locks k = if str_eq k key then l else locks k

-- All the locks `after` are the locks `before`.
abbrev pub Same : (before after : String → Option Lock) → Type 0
Same before after = (k : String) → after k ≡ before k

-- What `acquire` did, by its answer.
abbrev pub AcquireSpec :
    (key owner : String) (ttl now : ℕ) (before after : String → Option Lock) → Reply Bool → Type 0
AcquireSpec key owner ttl now before after (done true) =
    (live now (before key) ≡ false)
    × Same (put key (some (lock_for owner (now + ttl))) before) after
AcquireSpec key owner ttl now before after (done false) =
    (live now (before key) ≡ true) × Same before after
AcquireSpec key owner ttl now before after (threw e) =
    Same before after
    ⊎ ((live now (before key) ≡ false)
        × Same (put key (some (lock_for owner (now + ttl))) before) after)

-- What `extend` did.
abbrev pub ExtendSpec :
    (key owner : String) (ttl now : ℕ) (before after : String → Option Lock) → Reply Bool → Type 0
ExtendSpec key owner ttl now before after (done true) =
    (live now (before key) && owned owner (before key) ≡ true)
    × Same (put key (some (lock_for owner (now + ttl))) before) after
ExtendSpec key owner ttl now before after (done false) =
    (live now (before key) && owned owner (before key) ≡ false) × Same before after
ExtendSpec key owner ttl now before after (threw e) =
    Same before after
    ⊎ ((live now (before key) && owned owner (before key) ≡ true)
        × Same (put key (some (lock_for owner (now + ttl))) before) after)

-- What `release` did.
abbrev pub ReleaseSpec :
    (key owner : String) (before after : String → Option Lock) → Reply Bool → Type 0
ReleaseSpec key owner before after (done true) =
    (owned owner (before key) ≡ true) × Same (put key none before) after
ReleaseSpec key owner before after (done false) =
    (owned owner (before key) ≡ false) × Same before after
ReleaseSpec key owner before after (threw e) =
    Same before after ⊎ ((owned owner (before key) ≡ true) × Same (put key none before) after)

-- The contract: `locks` reads a store's locks off its state.
pub record IsLockStore {Db : Type 0} (s : LockStore Db) (locks : Db → String → Option Lock)
    : Type 0 where
  pub acquires :
      (key owner : String) (ttl now : ℕ) (db : Db)
      → AcquireSpec key owner ttl now
          (locks db)
          (locks (s.acquire key owner ttl now db).1)
          (s.acquire key owner ttl now db).0
  pub extends :
      (key owner : String) (ttl now : ℕ) (db : Db)
      → ExtendSpec key owner ttl now
          (locks db)
          (locks (s.extend key owner ttl now db).1)
          (s.extend key owner ttl now db).0
  pub releases :
      (key owner : String) (db : Db)
      → ReleaseSpec key owner
          (locks db)
          (locks (s.release key owner db).1)
          (s.release key owner db).0
