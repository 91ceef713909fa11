-- ===== src/MongoTaskQueue/Redelivery.antt =====
-- taskQueue.ts: a task whose worker was lost is claimed again.
use framework_module_resizer.Prelude.{
  ℕ, suc, ◌+◌, ◌≤◌, ◌<◌, String, true, false, Option, none, some, List, [], ◌∷◌, ◌++◌, ◌≡◌, ◌⊎◌,
  inl, inr, refl, subst, sym, All-lookup, Memᴰ, length, arith, if◌then◌else◌, ap, ◌∙◌,
}
use framework_module_resizer.Types.{ClaimedTask}
use framework_module_resizer.Database.{Reply, done, threw, IsCollection}
use framework_module_resizer.Locks.Reliable.{is_done}
use framework_module_resizer.MongoTaskQueue.{
  TaskDoc, not_after, is_claimable, lease, due_order, to_claimed_task, TaskModel, gate_clash,
  missing_paths, claim,
}
use framework_module_resizer.MongoTaskQueue.Delivery.{
  is_for, ClaimSpec, claim-ClaimSpec, lease-claimable_iff,
}

-- A call of `claim`: by whom, under which token, for how long, and when.
pub record ClaimCall : Type 0 where
  pub holder : String
  pub token : String
  pub lease_ms : ℕ
  pub at : ℕ

-- How many rows, of any queue and status, are available at a time.
unfoldable pub available_by : ℕ → List TaskDoc → ℕ
available_by t [] = 0
available_by t (d ∷ ds) = (if not_after t d.available_at then 1 else 0) + available_by t ds

available_by-append :
    (t : ℕ) (ds es : List TaskDoc)
    → available_by t (ds ++ es) ≡ available_by t ds + available_by t es
unfolding available_by
available_by-append t [] es = omega arith
available_by-append t (d ∷ ds) es = let ih = available_by-append t ds es in omega (arith, ih)

available_by-positive :
    (t : ℕ) (d : TaskDoc) (ds : List TaskDoc)
    → Memᴰ d ds
    → not_after t d.available_at ≡ true
    → 1 ≤ available_by t ds
unfolding available_by
available_by-positive t d [] m h = elim m [ ]
available_by-positive t d (e ∷ ds) (Memᴰ.head same) h =
    let first : not_after t e.available_at ≡ true = cc in ground (arith, first)
available_by-positive t d (e ∷ ds) (Memᴰ.tail here) h =
    let ih = available_by-positive t d ds here h in ground (arith, ih)

-- A row in the middle is the one in question, or that one is among the others.
Memᴰ-around :
    (d row new : TaskDoc) (before after : List TaskDoc)
    → Memᴰ d (before ++ (row ∷ after))
    → (d ≡ row) ⊎ Memᴰ d (before ++ (new ∷ after))
Memᴰ-around d row new [] after (Memᴰ.head same) = inl same
Memᴰ-around d row new [] after (Memᴰ.tail here) = inr (Memᴰ.tail here)
Memᴰ-around d row new (b ∷ before) after (Memᴰ.head same) = inr (Memᴰ.head same)
Memᴰ-around d row new (b ∷ before) after (Memᴰ.tail here) =
    by_rest (Memᴰ-around d row new before after here)
  where
    by_rest :
        (d ≡ row) ⊎ Memᴰ d (before ++ (new ∷ after))
        → (d ≡ row) ⊎ Memᴰ d (b ∷ (before ++ (new ∷ after)))
    by_rest (inl same) = inl same
    by_rest (inr m) = inr (Memᴰ.tail m)

-- The row moves behind the time.
available_by-moved :
    (t : ℕ) (row new : TaskDoc) (before after : List TaskDoc)
    → not_after t row.available_at ≡ true
    → not_after t new.available_at ≡ false
    → available_by t (before ++ (row ∷ after)) ≡ available_by t (before ++ (new ∷ after)) + 1
unfolding available_by
available_by-moved t row new before after h h' =
    let a = available_by-append t before (row ∷ after) in
    let b = available_by-append t before (new ∷ after) in ground (arith, a, b)

-- A row that comes no later than one available at `t` is available at `t`.
not_after-by_order :
    (t : ℕ) (row d : TaskDoc)
    → d.available_at ≡ some t
    → due_order row ≤ due_order d
    → not_after t row.available_at ≡ true
not_after-by_order t row d e h = by_time row.available_at (rw e at h)
  where
    by_time : (o : Option ℕ) → (elim o [ none ↦ 0 | some n ↦ suc n ]) ≤ suc t → not_after t o ≡ true
    by_time none le = refl
    by_time (some n) le = ground arith

leased_at :
    (holder token : String) (now ms : ℕ) (d : TaskDoc)
    → (lease holder token now ms d).available_at ≡ some (now + ms)
unfolding lease
leased_at holder token now ms d = refl

module _ (queue : String) (served : Option (List String)) (d : TaskDoc) (lost lost_token : String)
    (now ms : ℕ) where
  -- The row of the lost worker.
  abbrev pub lost_row : TaskDoc
  lost_row = lease lost lost_token now ms d

  -- One claim takes the lost row, or a row that was available before it, which moves behind it.
  taken :
      (c : ClaimCall) (ds ds' : List TaskDoc) (r : Reply (Option ClaimedTask))
      → Memᴰ lost_row ds
      → is_claimable queue served c.at lost_row ≡ true
      → now + ms < c.at
      → is_done r ≡ true
      → ClaimSpec c.holder c.token queue c.lease_ms c.at served ds ds' r
      → (r ≡ done (some (to_claimed_task (lease c.holder c.token c.at c.lease_ms lost_row))))
        ⊎ (Memᴰ lost_row ds' × (available_by (now + ms) ds ≡ available_by (now + ms) ds' + 1))
  taken c ds ds' (done none) here due past answered (none_due, same) =
      let not_due = All-lookup (λ e. is_claimable queue served c.at e ≡ false) ds none_due here in
      cc
  taken c ds ds' (threw e) here due past answered spec = cc
  taken c ds ds' (done (some t)) here due past answered (row, ch, is_row, own_token, more) =
      by_place (
        Memᴰ-around lost_row row (lease c.holder c.token c.at c.lease_ms row) ch.before ch.after
          (subst (Memᴰ lost_row) ch.was here))
    where
      new : TaskDoc
      new = lease c.holder c.token c.at c.lease_ms row

      by_place :
          (lost_row ≡ row) ⊎ Memᴰ lost_row (ch.before ++ (new ∷ ch.after))
          → (done (some t)
              ≡ done (some (to_claimed_task (lease c.holder c.token c.at c.lease_ms lost_row))))
            ⊎ (Memᴰ lost_row ds' × (available_by (now + ms) ds ≡ available_by (now + ms) ds' + 1))
      by_place (inl same) = inl (rw same (ap (λ x. done (some x)) is_row))
      by_place (inr m) =
          let early =
            All-lookup (λ e. is_claimable queue served c.at e ≡ true → due_order row ≤ due_order e)
              ds ch.first here due in
          let late = leased_at c.holder c.token c.at c.lease_ms row in
          let moved =
            available_by-moved (now + ms) row new ch.before ch.after
              (not_after-by_order (now + ms) row lost_row (leased_at lost lost_token now ms d)
                early)
              (rw late (ground arith)) in
          inr (
            subst (Memᴰ lost_row) (sym ch.becomes) m,
            ap (available_by (now + ms)) ch.was
                ∙ moved
                ∙ ap (λ es. available_by (now + ms) es + 1) (sym ch.becomes),
          )

  module _ {Db : Type 0} (docs : Db → List TaskDoc) (m : TaskModel Db) where
    -- Every claim gets an answer, and comes after the end of the lost lease.
    abbrev pub AllAnswered : List ClaimCall → Db → Type 0
    AllAnswered [] db = Unit
    AllAnswered (c ∷ cs) db =
        (now + ms < c.at)
        × (is_done (claim (some m) c.holder c.token queue c.lease_ms c.at served db).0 ≡ true)
        × AllAnswered cs (claim (some m) c.holder c.token queue c.lease_ms c.at served db).1

    -- One of the claims answers the lost task, under its own token.
    abbrev pub IsReclaimed : List ClaimCall → Db → Type 0
    IsReclaimed [] db = ⊥
    IsReclaimed (c ∷ cs) db =
        ((claim (some m) c.holder c.token queue c.lease_ms c.at served db).0
          ≡ done (some (to_claimed_task (lease c.holder c.token c.at c.lease_ms lost_row))))
        ⊎ IsReclaimed cs (claim (some m) c.holder c.token queue c.lease_ms c.at served db).1

    -- A task whose worker was lost is delivered again: from rows that hold it as it was leased at
    -- `now` for `ms`, in a series of claims for its queue and Resizer, by whichever workers, each made
    -- after that lease ended and answered by a database that behaves as documented, one answers this
    -- very task, under its own token, as soon as the series has as many claims as there are rows
    -- available at `now + ms`, the task's own among them. Nothing else is written between the claims.
    pub lost_row-IsReclaimed :
        (cs : List ClaimCall) (db : Db)
        → IsCollection m.collection docs gate_clash
        → missing_paths m.path ≡ []
        → is_for queue served d ≡ true
        → Memᴰ lost_row (docs db)
        → AllAnswered cs db
        → available_by (now + ms) (docs db) ≤ length cs
        → IsReclaimed cs db
    lost_row-IsReclaimed [] db law full own here answered enough =
        let one =
          available_by-positive (now + ms) lost_row (docs db) here
            (rw (leased_at lost lost_token now ms d) (ground arith)) in
        absurd (omega (arith, one, enough))
    lost_row-IsReclaimed (c ∷ cs) db law full own here (past, answered, more) enough =
        by_step
          (taken c (docs db)
            (docs (claim (some m) c.holder c.token queue c.lease_ms c.at served db).1)
            (claim (some m) c.holder c.token queue c.lease_ms c.at served db).0 here
            ((lease-claimable_iff d lost lost_token queue served now ms c.at own).1 past) past
            answered
            (claim-ClaimSpec docs m c.holder c.token queue c.lease_ms c.at served db law full))
          (lost_row-IsReclaimed cs
            (claim (some m) c.holder c.token queue c.lease_ms c.at served db).1 law full own)
      where
        db' : Db
        db' = (claim (some m) c.holder c.token queue c.lease_ms c.at served db).1

        by_step :
            ((claim (some m) c.holder c.token queue c.lease_ms c.at served db).0
                ≡ done (some (to_claimed_task (lease c.holder c.token c.at c.lease_ms lost_row))))
              ⊎ (Memᴰ lost_row (docs db')
                  × (available_by (now + ms) (docs db) ≡ available_by (now + ms) (docs db') + 1))
            → (Memᴰ lost_row (docs db')
                → AllAnswered cs db'
                → available_by (now + ms) (docs db') ≤ length cs
                → IsReclaimed cs db')
            → IsReclaimed (c ∷ cs) db
        by_step (inl now_claimed) ih = inl now_claimed
        by_step (inr (still, fewer)) ih = inr (ih still more (omega (arith, fewer, enough)))
