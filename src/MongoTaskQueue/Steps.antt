-- ===== src/MongoTaskQueue/Steps.antt =====
-- The writes that the queue makes on the ResizeTask rows, one at a time and in any order, by any
-- number of processes, with the removal of finished rows by the collection's TTL indexes.
use framework_module_resizer.Prelude.{
  ℕ, ◌<◌, String, Bool, true, false, ◌&&◌, Option, List, [], ◌∷◌, ◌++◌, ◌≡◌, refl, subst, str_eq,
  All, All-append, All-replace, All-remove, arith,
}
use framework_module_resizer.Types.{NewTask, ClaimedTask}
use framework_module_resizer.Database.{Changed}
use framework_module_resizer.Database.Unique.{
  NoClash, NoClash-append, NoClash-replace, NoClash-remove,
}
use framework_module_resizer.MongoTaskQueue.{
  TaskDoc, is_live, is_processing, gate_clash, is_claimable, lease, due_order, take_over_rule,
  is_held, renewed, finished, buried, retried, released, retired, new_row,
}

-- Each update that the queue sends.
pub data Write : Type 0 where
  leases :
      (queue : String) (served : Option (List String)) (holder token : String) (now ms : ℕ) → Write
  renews : (task : ClaimedTask) (now ms : ℕ) → Write
  completes : (task : ClaimedTask) (now : ℕ) → Write
  buries : (task : ClaimedTask) (now ms : ℕ) (error : String) → Write
  retries : (task : ClaimedTask) (at : ℕ) (error : String) → Write
  releases : (task : ClaimedTask) (now : ℕ) → Write
  retires : (id : String) (now : ℕ) → Write

abbrev pub filter_of : Write → TaskDoc → Bool
filter_of (leases queue served holder token now ms) = is_claimable queue served now
filter_of (renews task now ms) = is_held task
filter_of (completes task now) = is_held task
filter_of (buries task now ms error) = is_held task
filter_of (retries task at error) = is_held task
filter_of (releases task now) = is_held task
filter_of (retires id now) = λ d. str_eq d.id id && d.active && take_over_rule now d

abbrev pub update_of : Write → TaskDoc → TaskDoc
update_of (leases queue served holder token now ms) = lease holder token now ms
update_of (renews task now ms) = renewed now ms
update_of (completes task now) = finished now
update_of (buries task now ms error) = buried now ms error
update_of (retries task at error) = retried at error
update_of (releases task now) = released now
update_of (retires id now) = retired

abbrev pub sort_of : Write → TaskDoc → ℕ
sort_of (leases queue served holder token now ms) = due_order
sort_of _ = λ _. 0

pub data Step (ds ds' : List TaskDoc) : Type 0 where
  inserts :
      (task : NewTask) (now : ℕ) (id : String)
      → All (λ d. gate_clash d (new_row task now id) ≡ false) ds
      → ds' ≡ ds ++ new_row task now id ∷ []
      → Step ds ds'
  writes :
      (w : Write) (row : TaskDoc)
      → Changed (filter_of w) (update_of w) (sort_of w) ds ds' row
      → Step ds ds'
  expires :
      (before after : List TaskDoc) (row : TaskDoc)
      → ds ≡ before ++ (row ∷ after)
      → ds' ≡ before ++ after
      → is_live row.status ≡ false
      → Step ds ds'

pub data Reach (ds : List TaskDoc) : List TaskDoc → Type 0 where
  here : Reach ds ds
  next : {es fs : List TaskDoc} → Reach ds es → Step es fs → Reach ds fs

pub Reach-trans : {ds es fs : List TaskDoc} → Reach ds es → Reach es fs → Reach ds fs
Reach-trans r here = r
Reach-trans r (next s st) = next (Reach-trans r s) st

-- A waiting or running task holds its gate, and a running one has been delivered.
pub record IsSound (d : TaskDoc) : Type 0 where
  pub gated : is_live d.status ≡ true → d.active ≡ true
  pub delivered : is_processing d.status ≡ true → 0 < d.attempts

pub record IsValid (ds : List TaskDoc) : Type 0 where
  pub rows : All IsSound ds
  pub gates : NoClash gate_clash ds

update-IsSound :
    (w : Write) (d : TaskDoc) → filter_of w d ≡ true → IsSound d → IsSound (update_of w d)
unfolding is_claimable lease renewed finished buried retried released retired is_held take_over_rule
update-IsSound (leases queue served holder token now ms) d e v = ground arith
update-IsSound (renews task now ms) d e v = ground arith
update-IsSound (completes task now) d e v = ground arith
update-IsSound (buries task now ms error) d e v = ground arith
update-IsSound (retries task at error) d e v = ground arith
update-IsSound (releases task now) d e v = ground arith
update-IsSound (retires id now) d e v = ground arith

update-clash_left :
    (w : Write) (d e : TaskDoc) → gate_clash d e ≡ false → gate_clash (update_of w d) e ≡ false
unfolding gate_clash lease renewed finished buried retried released retired
update-clash_left (leases queue served holder token now ms) d e h = h
update-clash_left (completes task now) d e h = refl
update-clash_left (retires id now) d e h = refl
update-clash_left _ d e h = h

update-clash_right :
    (w : Write) (d e : TaskDoc) → gate_clash e d ≡ false → gate_clash e (update_of w d) ≡ false
unfolding gate_clash lease renewed finished buried retried released retired
update-clash_right (leases queue served holder token now ms) d e h = h
update-clash_right (completes task now) d e h = ground arith
update-clash_right (retires id now) d e h = ground arith
update-clash_right _ d e h = h

new_row-IsSound : (task : NewTask) (now : ℕ) (id : String) → IsSound (new_row task now id)
unfolding new_row
new_row-IsSound task now id = record { gated = λ _. refl; delivered = λ h. cc }

pub Step-IsValid : {ds ds' : List TaskDoc} → Step ds ds' → IsValid ds → IsValid ds'
Step-IsValid {ds} (inserts task now id clear e) v = rw e (record {
  rows = All-append IsSound ds _ v.rows (new_row-IsSound task now id, tt);
  gates = NoClash-append gate_clash ds (new_row task now id) v.gates clear;
})
Step-IsValid (writes w row c) v = rw c.becomes (record {
  rows =
      All-replace IsSound c.before c.after row (update_of w row) (update-IsSound w row c.fits)
        (subst (All IsSound) c.was v.rows);
  gates =
      NoClash-replace gate_clash row (update_of w row) (update-clash_left w row)
        (update-clash_right w row) c.before c.after (subst (NoClash gate_clash) c.was v.gates);
})
Step-IsValid (expires before after row was e _) v = rw e (record {
  rows = All-remove IsSound before after row (subst (All IsSound) was v.rows);
  gates = NoClash-remove gate_clash before after row (subst (NoClash gate_clash) was v.gates);
})

pub Reach-IsValid : {ds es : List TaskDoc} → Reach ds es → IsValid ds → IsValid es
Reach-IsValid here v = v
Reach-IsValid (next r st) v = Step-IsValid st (Reach-IsValid r v)
