-- ===== src/Locks/Reliable.antt =====
-- Lock stores whose calls of contracts/locks.ts all answer.
use framework_module_resizer.Prelude.{ℕ, String, Bool, true, false, ◌≡◌}
use framework_module_resizer.Database.{Reply, done, threw}
use framework_module_resizer.Locks.{LockStore}

-- A reply that is an answer.
abbrev pub is_done : {A : Type 0} → Reply A → Bool
is_done (done a) = true
is_done (threw e) = false

-- A lock store whose calls all answer in time.
pub record IsReliable {L : Type 0} (s : LockStore L) : Type 0 where
  pub acquires :
      (key owner : String) (ttl now : ℕ) (l : L) → is_done (s.acquire key owner ttl now l).0 ≡ true
  pub extends :
      (key owner : String) (ttl now : ℕ) (l : L) → is_done (s.extend key owner ttl now l).0 ≡ true
  pub releases : (key owner : String) (l : L) → is_done (s.release key owner l).0 ≡ true
