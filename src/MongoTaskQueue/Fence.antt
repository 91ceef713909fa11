-- ===== src/MongoTaskQueue/Fence.antt =====
-- The lease token of taskQueue.ts: what a worker that lost its lease can still do, and what a
-- completion does to the gate.
use framework_module_resizer.Prelude.{
  ℕ, String, Bool, true, false, not, ◌||◌, Option, none, some, List, [], ◌∷◌, ◌≡◌, ◌≢◌, refl,
  is_some, All, All-map, All-middle, subst, sym, ◌∙◌, arith, str_eq,
}
use mathlib.Core.Bool.{false≢true}
use framework_module_resizer.Types.{ClaimedTask}
use framework_module_resizer.Database.{
  Reply, done, threw, Call, ◌>>=◌, pure, Changed, FoundAndUpdated,
}
use framework_module_resizer.MongoTaskQueue.{
  TaskDoc, TaskModel, is_held, holds, is_processing, missing_paths, when_complete, renew, complete,
  fail_dead, fail_retry, release, fenced,
}
use framework_module_resizer.MongoTaskQueue.Refines.{Behaves}

-- What a fenced call with the given update can do to the rows `ds`.
data Answered (task : ClaimedTask) (update : TaskDoc → TaskDoc) (ds ds' : List TaskDoc)
    (r : Reply Bool) : Type 0 where
  written :
      (row : TaskDoc)
      → Changed (is_held task) update (λ _. 0) ds ds' row
      → r ≢ done false
      → Answered task update ds ds' r
  refused : ds' ≡ ds → r ≢ done true → Answered task update ds ds' r

module _ {Db : Type 0} (docs : Db → List TaskDoc) where
  fenced-Answered :
      (model : Option (TaskModel Db)) (task : ClaimedTask) (update : TaskDoc → TaskDoc) (db : Db)
      → Behaves docs model
      → Answered task update
          (docs db)
          (docs (fenced model task update db).1)
          (fenced model task update db).0
  unfolding fenced
  fenced-Answered none task update db law = refused refl (λ e. cc)
  fenced-Answered (some m) task update db law = by_paths (missing_paths m.path)
    where
      answer :
          (r : Reply (Option TaskDoc) × Db)
          → FoundAndUpdated (is_held task) update (λ _. 0) (docs db) (docs r.1) r.0
          → Answered task update
              (docs db)
              (docs (((λ (_ : Db). r) >>= λ doc. pure (is_some doc)) db).1)
              (((λ (_ : Db). r) >>= λ doc. pure (is_some doc)) db).0
      answer (done o, db') (FoundAndUpdated.matched row ch e) = written row ch (λ q. ground arith)
      answer (done o, db') (FoundAndUpdated.unmatched h same e) = refused same (λ q. ground arith)
      answer (done o, db') (FoundAndUpdated.lost row f ch e) = cc
      answer (done o, db') (FoundAndUpdated.failed f same e) = cc
      answer (threw x, db') (FoundAndUpdated.matched row ch e) = cc
      answer (threw x, db') (FoundAndUpdated.unmatched h same e) = cc
      answer (threw x, db') (FoundAndUpdated.lost row f ch e) = written row ch (λ q. cc)
      answer (threw x, db') (FoundAndUpdated.failed f same e) = refused same (λ q. cc)

      by_paths :
          (missing : List String)
          → Answered task update
              (docs db)
              (docs
                (when_complete missing
                  (do
                    doc ← m.collection.find_one_and_update (is_held task) update (λ _. 0)
                    pure (is_some doc))
                  db).1)
              (when_complete missing
                (do
                  doc ← m.collection.find_one_and_update (is_held task) update (λ _. 0)
                  pure (is_some doc))
                db).0
      by_paths [] = answer _ (law.updates (is_held task) update (λ _. 0) db)
      by_paths (p ∷ ps) = refused refl (λ e. cc)

  -- No row runs the claimed task under the claim's token any more.
  abbrev pub IsStale : ClaimedTask → Db → Type 0
  IsStale task db =
      All
        (λ d.
          not (str_eq d.id task.task_id)
            || not (holds d.lease_token task.token)
            || not (is_processing d.status)
          ≡ true)
        (docs db)

  -- The call left the rows alone and did not answer that the lease is held.
  pub record IsRefused (call : Call Db Bool) (db : Db) : Type 0 where
    pub unchanged : docs (call db).1 ≡ docs db
    pub not_held : (call db).0 ≢ done true

  stale-not_held :
      (task : ClaimedTask) (ds : List TaskDoc)
      → All
          (λ d.
            not (str_eq d.id task.task_id)
              || not (holds d.lease_token task.token)
              || not (is_processing d.status)
            ≡ true)
          ds
      → All (λ d. is_held task d ≡ false) ds
  unfolding is_held
  stale-not_held task = All-map _ (λ d. is_held task d ≡ false) (λ d h. ground arith)

  fenced-IsRefused :
      (model : Option (TaskModel Db)) (task : ClaimedTask) (update : TaskDoc → TaskDoc) (db : Db)
      → Behaves docs model
      → IsStale task db
      → IsRefused (fenced model task update) db
  fenced-IsRefused model task update db law stale =
      by_answer (fenced-Answered model task update db law) (stale-not_held task (docs db) stale)
    where
      by_answer :
          Answered task update
            (docs db)
            (docs (fenced model task update db).1)
            (fenced model task update db).0
          → All (λ d. is_held task d ≡ false) (docs db)
          → IsRefused (fenced model task update) db
      by_answer (written row ch _) stale' = absurd (
          false≢true (
            sym (
              All-middle (λ d. is_held task d ≡ false) ch.before ch.after row
                (subst (All (λ d. is_held task d ≡ false)) ch.was stale'))
            ∙ ch.fits))
      by_answer (refused same denied) stale' = record { unchanged = same; not_held = denied }

-- A worker whose claimed task no row runs under the claim's token any more (another worker claimed it
-- again, or it ended) changes no row by `renew`, `complete`, `fail` or `release`, and none of them tells
-- it that it still holds the task.
pub stale-IsRefused :
    {Db : Type 0} (docs : Db → List TaskDoc) (model : Option (TaskModel Db)) (task : ClaimedTask)
    (db : Db) (ms now at : ℕ) (error : String) (cooldown_ms : Option ℕ)
    → Behaves docs model
    → IsStale docs task db
    → IsRefused docs (renew model task ms now) db
      × IsRefused docs (complete model task now) db
      × IsRefused docs (fail_dead model task error cooldown_ms now) db
      × IsRefused docs (fail_retry model task at error) db
      × IsRefused docs (release model task now) db
unfolding renew complete fail_dead fail_retry release
stale-IsRefused docs model task db ms now at error cooldown_ms law stale = (
  fenced-IsRefused docs model task _ db law stale,
  fenced-IsRefused docs model task _ db law stale,
  fenced-IsRefused docs model task _ db law stale,
  fenced-IsRefused docs model task _ db law stale,
  fenced-IsRefused docs model task _ db law stale,
)
