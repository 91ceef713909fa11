-- ===== src/MongoTaskQueue/Refines.antt =====
-- The methods of MongoTaskQueue make no other writes than the steps of Steps.antt.
use framework_module_resizer.Prelude.{
  ℕ, zero, suc, ◌+◌, String, Bool, true, false, Option, none, some, List, [], ◌∷◌, ◌≡◌, refl, subst,
  ◌&&◌, if◌then◌else◌,
}
use framework_module_resizer.Types.{NewTask, ClaimedTask, TaskAddResult}
use framework_module_resizer.Database.{
  Reply, done, threw, Call, ◌>>=◌, ◌>>◌, pure, reading, Collection, FoundAndUpdated, Created,
  IsCollection,
}
use framework_module_resizer.MongoTaskQueue.{
  TaskDoc, Gate, is_live, TaskModel, gate_clash, new_row, is_gate, gate_of, can_take_over,
  missing_paths, when_complete, with_model, is_held, caught, insert_active, meanwhile, retire,
  on_conflict, after_insert, add_rounds, add_round_limit, rescue, add, claimed, claim, fenced,
  renew, complete, fail_dead, fail_retry, release, receipts, find_active,
}
use framework_module_resizer.MongoTaskQueue.Steps.{
  Write, leases, renews, completes, buries, retries, releases, retires, filter_of, update_of,
  sort_of, inserts, writes, Reach, here, next, Reach-trans,
}

-- A model over a collection that behaves as documented; a missing one has no collection.
abbrev pub Behaves : {Db : Type 0} → (Db → List TaskDoc) → Option (TaskModel Db) → Type 0
Behaves docs none = Unit
Behaves docs (some m) = IsCollection m.collection docs gate_clash

module _ {Db : Type 0} (docs : Db → List TaskDoc) where
  -- Whatever the call answers, what it does to the rows is a sequence of steps.
  pub record IsSteps {A : Type 0} (call : Call Db A) : Type 0 where
    pub at : (db : Db) → Reach (docs db) (docs (call db).1)

module _ {Db : Type 0} {docs : Db → List TaskDoc} where
  IsSteps-pure : {A : Type 0} (a : A) → IsSteps docs (pure a)
  IsSteps-pure a = record { at = λ db. here }

  IsSteps-reading : {A : Type 0} (q : Db → Reply A) → IsSteps docs (reading q)
  IsSteps-reading q = record { at = λ db. here }

  IsSteps-bind :
      {A B : Type 0} (m : Call Db A) (f : A → Call Db B)
      → IsSteps docs m
      → ((a : A) → IsSteps docs (f a))
      → IsSteps docs (m >>= f)
  IsSteps-bind {A} {B} m f hm hf = record { at = λ db. go (m db).0 (m db).1 (hm.at db) }
    where
      go :
          {ds : List TaskDoc} (r : Reply A) (db' : Db)
          → Reach ds (docs db')
          → Reach ds (docs (((λ (_ : Db). (r, db')) >>= f) db').1)
      go (done a) db' h = Reach-trans h ((hf a).at db')
      go (threw e) db' h = h

  module _ (c : Collection TaskDoc Db) (law : IsCollection c docs gate_clash) where
    IsSteps-write :
        (w : Write) → IsSteps docs (c.find_one_and_update (filter_of w) (update_of w) (sort_of w))
    IsSteps-write w = record {
      at = λ db. by_answer (law.updates (filter_of w) (update_of w) (sort_of w) db);
    }
      where
        by_answer :
            {ds ds' : List TaskDoc} {r : Reply (Option TaskDoc)}
            → FoundAndUpdated (filter_of w) (update_of w) (sort_of w) ds ds' r
            → Reach ds ds'
        by_answer (FoundAndUpdated.matched row ch _) = next here (writes w row ch)
        by_answer (FoundAndUpdated.unmatched _ e _) = rw e here
        by_answer (FoundAndUpdated.lost row _ ch _) = next here (writes w row ch)
        by_answer (FoundAndUpdated.failed _ e _) = rw e here

    IsSteps-insert : (task : NewTask) (now : ℕ) → IsSteps docs (insert_active c task now)
    unfolding insert_active
    IsSteps-insert task now = record {
      at = λ db.
          caught_at (c.create (new_row task now) db)
            (by_answer (law.creates (new_row task now) db));
    }
      where
        by_answer :
            {ds ds' : List TaskDoc} {r : Reply TaskDoc}
            → Created gate_clash (new_row task now) ds ds' r
            → Reach ds ds'
        by_answer (Created.stored id clear e _) = next here (inserts task now id clear e)
        by_answer (Created.lost id _ clear e _) = next here (inserts task now id clear e)
        by_answer (Created.failed _ e _) = rw e here

        caught_at :
            {ds : List TaskDoc} (r : Reply TaskDoc × Db)
            → Reach ds (docs r.1)
            → Reach ds (docs (caught r).1)
        caught_at (done d, db) h = h
        caught_at (threw e, db) h = h

  IsSteps-when_complete :
      {A : Type 0} (missing : List String) (call : Call Db A)
      → IsSteps docs call
      → IsSteps docs (when_complete missing call)
  IsSteps-when_complete [] call h = record { at = λ db. h.at db }
  IsSteps-when_complete (p ∷ ps) call h = record { at = λ db. here }

  IsSteps-with_model :
      {A : Type 0} (model : Option (TaskModel Db)) (a : A) (f : Collection TaskDoc Db → Call Db A)
      → Behaves docs model
      → ((c : Collection TaskDoc Db) → IsCollection c docs gate_clash → IsSteps docs (f c))
      → IsSteps docs (with_model model a f)
  unfolding with_model
  IsSteps-with_model none a f law h = IsSteps-pure a
  IsSteps-with_model (some m) a f law h =
      IsSteps-when_complete (missing_paths m.path) (f m.collection) (h m.collection law)

  module _ (model : Option (TaskModel Db)) (law : Behaves docs model) where
    pub claim-IsSteps :
        (holder token queue : String) (lease_ms now : ℕ) (served : Option (List String))
        → IsSteps docs (claim model holder token queue lease_ms now served)
    unfolding claim
    claim-IsSteps holder token queue lease_ms now served =
        IsSteps-with_model model none _ law λ c l.
          IsSteps-bind _ _ (IsSteps-write c l (leases queue served holder token now lease_ms))
            (λ doc. IsSteps-pure (claimed doc))

    fenced-IsSteps :
        (task : ClaimedTask) (update : TaskDoc → TaskDoc) (w : Write)
        → filter_of w ≡ is_held task
        → update_of w ≡ update
        → sort_of w ≡ (λ _. 0)
        → IsSteps docs (fenced model task update)
    unfolding fenced
    fenced-IsSteps task update w p q r = IsSteps-with_model model false _ law λ c l.
        IsSteps-bind _ _
          (subst (λ g. IsSteps docs (c.find_one_and_update g update (λ _. 0))) p
            (subst (λ u. IsSteps docs (c.find_one_and_update (filter_of w) u (λ _. 0))) q
              (subst (λ s. IsSteps docs (c.find_one_and_update (filter_of w) (update_of w) s)) r
                (IsSteps-write c l w))))
          (λ doc. IsSteps-pure _)

    pub renew-IsSteps : (task : ClaimedTask) (ms now : ℕ) → IsSteps docs (renew model task ms now)
    unfolding renew
    renew-IsSteps task ms now = fenced-IsSteps task _ (renews task now ms) refl refl refl

    pub complete-IsSteps : (task : ClaimedTask) (now : ℕ) → IsSteps docs (complete model task now)
    unfolding complete
    complete-IsSteps task now = fenced-IsSteps task _ (completes task now) refl refl refl

    pub fail_dead-IsSteps :
        (task : ClaimedTask) (error : String) (cooldown_ms : Option ℕ) (now : ℕ)
        → IsSteps docs (fail_dead model task error cooldown_ms now)
    unfolding fail_dead
    fail_dead-IsSteps task error cooldown_ms now =
        fenced-IsSteps task _ (buries task now _ error) refl refl refl

    pub fail_retry-IsSteps :
        (task : ClaimedTask) (at : ℕ) (error : String)
        → IsSteps docs (fail_retry model task at error)
    unfolding fail_retry
    fail_retry-IsSteps task at error = fenced-IsSteps task _ (retries task at error) refl refl refl

    pub release-IsSteps : (task : ClaimedTask) (now : ℕ) → IsSteps docs (release model task now)
    unfolding release
    release-IsSteps task now = fenced-IsSteps task _ (releases task now) refl refl refl

  module _ (task : NewTask) (others : ℕ → Db → Db) (clock : ℕ → ℕ)
      (fair : (i : ℕ) (db : Db) → Reach (docs db) (docs (others i db))) where
    IsSteps-meanwhile : (i : ℕ) → IsSteps docs (meanwhile (others i))
    IsSteps-meanwhile i = record { at = fair i }

    module _ (c : Collection TaskDoc Db) (law : IsCollection c docs gate_clash) where
      IsSteps-on_conflict :
          (i : ℕ) (rest : Call Db TaskAddResult) (o : Option TaskDoc)
          → IsSteps docs rest
          → IsSteps docs (on_conflict c task others clock i rest o)
      unfolding on_conflict
      IsSteps-on_conflict i rest none h = h
      IsSteps-on_conflict i rest (some row) h = by_test (can_take_over row (clock (i + 1)))
        where
          by_test :
              (b : Bool)
              → IsSteps docs (
                  if b
                  then (do
                    meanwhile (others (i + 2))
                    retire c task others clock row (clock (i + 1))
                    rest)
                  else pure (TaskAddResult.in_flight (some row.id)))
          by_test true =
              IsSteps-bind _ _ (IsSteps-meanwhile (i + 2)) λ _.
                IsSteps-bind _ _ (IsSteps-write c law (retires row.id (clock (i + 1)))) (λ _. h)
          by_test false = IsSteps-pure _

      IsSteps-after_insert :
          (i : ℕ) (rest : Call Db TaskAddResult) (o : Option String)
          → IsSteps docs rest
          → IsSteps docs (after_insert c task others clock i rest o)
      unfolding after_insert
      IsSteps-after_insert i rest (some id) h = IsSteps-pure _
      IsSteps-after_insert i rest none h = IsSteps-bind _ _ (IsSteps-meanwhile (i + 1)) λ _.
          IsSteps-bind _ _ (IsSteps-reading (c.find_one (is_gate (gate_of task))))
            λ o. IsSteps-on_conflict i rest o h

      IsSteps-add_rounds : (rounds i : ℕ) → IsSteps docs (add_rounds c task others clock rounds i)
      unfolding add_rounds
      IsSteps-add_rounds zero i = IsSteps-pure _
      IsSteps-add_rounds (suc rounds) i = IsSteps-bind _ _ (IsSteps-meanwhile i) λ _.
          IsSteps-bind _ _ (IsSteps-insert c law task (clock i))
            (λ o. IsSteps-after_insert i _ o (IsSteps-add_rounds rounds (i + 3)))

    pub add-Reach :
        (model : Option (TaskModel Db)) (db : Db)
        → Behaves docs model
        → Reach (docs db) (docs (add model task others clock db).1)
    unfolding add
    add-Reach model db law =
        rescued _ (
          (IsSteps-with_model model _ _ law (λ c l. IsSteps-add_rounds c l add_round_limit 0)).at
            db)
      where
        rescued :
            (r : Reply TaskAddResult × Db)
            → Reach (docs db) (docs r.1)
            → Reach (docs db) (docs (rescue TaskAddResult.unconfirmed r).1)
        rescued (done a, db') h = h
        rescued (threw e, db') h = h

-- Every method of the queue, on any model over a collection that behaves as documented, answers or
-- rejects after a sequence of the queue's writes, and leaves the rows as that sequence leaves them:
-- `claim`, `renew`, `complete`, `fail`, `release`, `findActive`, and `add` with the steps that other
-- callers make while it waits.
pub methods-IsSteps :
    {Db : Type 0} (docs : Db → List TaskDoc) (model : Option (TaskModel Db))
    (holder token queue error : String) (served : Option (List String)) (task : ClaimedTask)
    (cooldown_ms : Option ℕ) (ms now at : ℕ) (gate : Gate) (new : NewTask) (others : ℕ → Db → Db)
    (clock : ℕ → ℕ)
    → Behaves docs model
    → ((i : ℕ) (db : Db) → Reach (docs db) (docs (others i db)))
    → IsSteps docs (claim model holder token queue ms now served)
      × IsSteps docs (renew model task ms now)
      × IsSteps docs (complete model task now)
      × IsSteps docs (fail_dead model task error cooldown_ms now)
      × IsSteps docs (fail_retry model task at error)
      × IsSteps docs (release model task now)
      × IsSteps docs (find_active model gate)
      × ((db : Db) → Reach (docs db) (docs (add model new others clock db).1))
unfolding find_active
methods-IsSteps docs model holder token queue error served task cooldown_ms ms now at gate new
      others clock law fair =
    (
      claim-IsSteps model law holder token queue ms now served,
      renew-IsSteps model law task ms now,
      complete-IsSteps model law task now,
      fail_dead-IsSteps model law task error cooldown_ms now,
      fail_retry-IsSteps model law task at error,
      release-IsSteps model law task now,
      IsSteps-with_model model [] _ law (λ c l.
          IsSteps-bind _ _ (IsSteps-reading (c.find_one (λ d. is_gate gate d && is_live d.status)))
            (λ doc. IsSteps-pure (receipts doc))),
      λ db. add-Reach new others clock fair model db law,
    )
