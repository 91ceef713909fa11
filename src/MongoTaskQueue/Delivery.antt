-- ===== src/MongoTaskQueue/Delivery.antt =====
-- When a row of taskQueue.ts may be claimed, and when `add` may take a dead one over.
use framework_module_resizer.Prelude.{
  ℕ, ◌+◌, ◌≤◌, ◌<◌, String, Bool, true, false, ◌&&◌, Option, none, some, List, [], ◌≡◌, ◌↔◌, refl,
  All, arith,
}
use framework_module_resizer.Types.{ClaimedTask}
use framework_module_resizer.Database.{
  Reply, done, threw, ◌>>=◌, pure, Changed, FoundAndUpdated, IsCollection,
}
use framework_module_resizer.MongoTaskQueue.{
  TaskDoc, named, serves, is_claimable, lease, due_order, buried, retried, released, can_take_over,
  take_over_rule, to_claimed_task, TaskModel, gate_clash, missing_paths, when_complete, with_model,
  claimed, claim,
}

-- Whom the row is for: the claim names its queue, and serves its Resizer.
abbrev pub is_for : String → Option (List String) → TaskDoc → Bool
is_for queue served d = named queue d.queue && serves served d.resizer

-- After a lease.
pub lease-claimable_iff :
    (d : TaskDoc) (holder token queue : String) (served : Option (List String)) (now ms later : ℕ)
    → is_for queue served d ≡ true
    → (is_claimable queue served later (lease holder token now ms d) ≡ true) ↔ (now + ms < later)
unfolding is_claimable lease
lease-claimable_iff d holder token queue served now ms later h = (ground arith, ground arith)

-- After a retry or a release.
waiting-claimable_iff :
    (d : TaskDoc) (holder token queue error : String) (served : Option (List String))
    (now ms at later : ℕ)
    → is_for queue served d ≡ true
    → ((is_claimable queue served later (retried at error (lease holder token now ms d)) ≡ true)
        ↔ (at ≤ later))
      × ((is_claimable queue served later (released at (lease holder token now ms d)) ≡ true)
          ↔ (at ≤ later))
      × ((retried at error (lease holder token now ms d)).attempts ≡ d.attempts + 1)
      × ((released at (lease holder token now ms d)).attempts ≡ d.attempts)
unfolding is_claimable lease retried released
waiting-claimable_iff d holder token queue error served now ms at later h =
    ((ground arith, ground arith), (ground arith, ground arith), refl, omega arith)

-- When a row of a queue can be claimed: one just leased at `now` for `ms`, by whichever worker,
-- exactly when that lease has ended; a task that failed exactly from its retry time, and one given
-- back exactly from the time of the release. The release takes the claim's attempt back, a retry
-- does not.
pub claimable_iff :
    (d : TaskDoc) (holder token queue error : String) (served : Option (List String))
    (now ms at later : ℕ)
    → is_for queue served d ≡ true
    → ((is_claimable queue served later (lease holder token now ms d) ≡ true) ↔ (now + ms < later))
      × ((is_claimable queue served later (retried at error (lease holder token now ms d)) ≡ true)
          ↔ (at ≤ later))
      × ((is_claimable queue served later (released at (lease holder token now ms d)) ≡ true)
          ↔ (at ≤ later))
      × ((retried at error (lease holder token now ms d)).attempts ≡ d.attempts + 1)
      × ((released at (lease holder token now ms d)).attempts ≡ d.attempts)
claimable_iff d holder token queue error served now ms at later h =
    let (a, b, c, e) = waiting-claimable_iff d holder token queue error served now ms at later h in
    (lease-claimable_iff d holder token queue served now ms later h, a, b, c, e)

-- `canTakeOver`, on the row that `add` has read, decides as `takeOverRule`, the filter of the update
-- that retires it. A dead task keeps its gate exactly until its cooldown has passed, and is never
-- claimed.
pub take_over_agree :
    (d : TaskDoc) (error queue : String) (served : Option (List String)) (now cooldown later : ℕ)
    → (can_take_over d later ≡ take_over_rule later d)
      × ((can_take_over (buried now cooldown error d) later ≡ true) ↔ (now + cooldown ≤ later))
      × ((buried now cooldown error d).active ≡ d.active)
      × (is_claimable queue served later (buried now cooldown error d) ≡ false)
unfolding can_take_over take_over_rule buried is_claimable
take_over_agree d error queue served now cooldown later =
    (ground arith, (ground arith, ground arith), refl, ground arith)

-- What an answer of `claim` says of the rows before and after it.
abbrev pub ClaimSpec :
    (holder token queue : String) (ms now : ℕ)
    → Option (List String)
    → (ds ds' : List TaskDoc) → Reply (Option ClaimedTask)
    → Type 0
ClaimSpec holder token queue ms now served ds ds' (done (some t)) =
    (row : TaskDoc) × Changed (is_claimable queue served now) (lease holder token now ms) due_order
      ds ds' row
    × (t ≡ to_claimed_task (lease holder token now ms row))
    × (t.token ≡ token)
    × (t.attempts ≡ row.attempts + 1)
ClaimSpec holder token queue ms now served ds ds' (done none) =
    All (λ d. is_claimable queue served now d ≡ false) ds × (ds' ≡ ds)
ClaimSpec holder token queue ms now served ds ds' (threw e) = Unit

-- On a model with a complete schema, a task that `claim` answers is the earliest due row of its
-- queue and Resizers, leased to this token with one more attempt and nothing else changed; with no
-- task answered no row was due, and none is changed.
pub claim-ClaimSpec :
    {Db : Type 0} (docs : Db → List TaskDoc) (m : TaskModel Db) (holder token queue : String)
    (ms now : ℕ) (served : Option (List String)) (db : Db)
    → IsCollection m.collection docs gate_clash
    → missing_paths m.path ≡ []
    → ClaimSpec holder token queue ms now served
        (docs db)
        (docs (claim (some m) holder token queue ms now served db).1)
        (claim (some m) holder token queue ms now served db).0
unfolding claim with_model to_claimed_task lease
claim-ClaimSpec {Db} docs m holder token queue ms now served db law full =
    rw (full, when_complete)
      (answer _
        (law.updates (is_claimable queue served now) (lease holder token now ms) due_order db))
  where
    answer :
        (r : Reply (Option TaskDoc) × Db)
        → FoundAndUpdated
            (is_claimable queue served now)
            (lease holder token now ms)
            due_order
            (docs db)
            (docs r.1)
            r.0
        → ClaimSpec holder token queue ms now served
            (docs db)
            (docs (((λ (_ : Db). r) >>= λ doc. pure (claimed doc)) db).1)
            (((λ (_ : Db). r) >>= λ doc. pure (claimed doc)) db).0
    answer (done none, db') (FoundAndUpdated.unmatched h same e) = (h, same)
    answer (done (some d), db') (FoundAndUpdated.matched row ch e) =
        let is_row : d ≡ lease holder token now ms row = ground arith in
        (row, ch, ground arith, ground arith, ground arith)
    answer (done none, db') (FoundAndUpdated.matched row ch e) = absurd (ground arith)
    answer (done (some d), db') (FoundAndUpdated.unmatched h same e) = absurd (ground arith)
    answer (done o, db') (FoundAndUpdated.lost row f ch e) = cc
    answer (done o, db') (FoundAndUpdated.failed f same e) = cc
    answer (threw x, db') _ = tt
