-- ===== src/Consumer/Gate.antt =====
-- consumer.ts: for how long the gate lock of a task is held once the task has ended.
use framework_module_resizer.Prelude.{
  ℕ, ◌+◌, ◌-◌, ◌≤◌, String, Bool, true, false, not, ◌&&◌, Option, none, some, ◌≡◌, ◌≢◌, ◌⊎◌, inl,
  inr, refl, ltb, if◌then◌else◌, arith, eq_refl, Bool-cases,
}
use framework_module_resizer.Types.{ClaimedTask}
use framework_module_resizer.Database.{Reply, done, threw}
use framework_module_resizer.Locks.{
  Lock, is_after, live, owned, lock_for, put, Same, AcquireSpec, ExtendSpec, ReleaseSpec,
  IsLockStore,
}
use framework_module_resizer.Locks.Reliable.{is_done, IsReliable}
use framework_module_resizer.Consumer.{
  GateLock, TaskCoordination, TaskQueue, QueueTiming, Texts, TaskError, World, TaskEvent,
  cooldown_of, backoff_ms, taken_back, hold_gate, hold_until, release_gate, settled, gate,
  is_dead_end, bury, retry, finish, give_back, end_task, resolved,
}

-- Somebody else holds the lock.
abbrev pub is_taken : ℕ → String → Option Lock → Bool
is_taken now owner l = live now l && not (owned owner l)

-- The lock is the owner's, until `at_least` or later.
abbrev pub HeldFor : {L : Type 0} → (L → String → Option Lock) → GateLock L → ℕ → L → Type 0
HeldFor locks g at_least l =
    (until : ℕ) × (locks l g.key ≡ some (lock_for g.owner until)) × (at_least ≤ until)

lapsed_time :
    (now later : ℕ) (u : Option ℕ) → now ≤ later → is_after now u ≡ false → is_after later u ≡ false
lapsed_time now later none le h = refl
lapsed_time now later (some t) le h = ground arith

lapsed :
    (now later : ℕ) (owner : String) (l : Option Lock)
    → now ≤ later
    → is_taken now owner l ≡ false
    → live now l && owned owner l ≡ false
    → live later l ≡ false
lapsed now later owner none le free none_mine = refl
lapsed now later owner (some l) le free h = lapsed_time now later (l.until) le (ground arith)

module _ {L : Type 0} (locks : L → String → Option Lock) (g : GateLock L)
    (law : IsLockStore g.locks locks) where
  put_here :
      (new : Option Lock) (before after : String → Option Lock)
      → Same (put g.key new before) after
      → after g.key ≡ new
  put_here new before after same = ground (arith, same g.key, eq_refl g.key)

  hold_gate-HeldFor :
      (ttl now later : ℕ) (l : L)
      → IsReliable g.locks
      → now ≤ later
      → is_taken now g.owner (locks l g.key) ≡ false
      → HeldFor locks g (now + ttl) (hold_gate (some g) ttl true now later l)
  unfolding hold_gate
  hold_gate-HeldFor ttl now later l sure le free =
      extended (g.locks.extend g.key g.owner ttl now l) (law.extends g.key g.owner ttl now l)
        (sure.extends g.key g.owner ttl now l)
    where
      acquired :
          (before : String → Option Lock) (x : Reply Bool × L)
          → live later (before g.key) ≡ false
          → AcquireSpec g.key g.owner ttl later before (locks x.1) x.0
          → is_done x.0 ≡ true
          → HeldFor locks g (now + ttl) x.1
      acquired before (done true, l') dead (_, same) answers =
          (later + ttl, put_here _ before (locks l') same, omega arith)
      acquired before (done false, l') dead (busy, same) answers = absurd (ground arith)
      acquired before (threw e, l') dead spec answers = absurd (ground arith)

      extended :
          (x : Reply Bool × L)
          → ExtendSpec g.key g.owner ttl now (locks l) (locks x.1) x.0
          → is_done x.0 ≡ true
          → HeldFor locks g (now + ttl) (taken_back g ttl true later x)
      extended (done true, l') (mine, same) answers =
          (now + ttl, put_here _ (locks l) (locks l') same, omega arith)
      extended (done false, l') (none_mine, same) answers =
          acquired (locks l') (g.locks.acquire g.key g.owner ttl later l')
            (rw (same g.key) (lapsed now later g.owner (locks l g.key) le free none_mine))
            (law.acquires g.key g.owner ttl later l') (sure.acquires g.key g.owner ttl later l')
      extended (threw e, l') spec answers = absurd (ground arith)

  -- A final hold, unless its end has passed.
  hold_until-HeldFor :
      (clock : ℕ → ℕ) (i until : ℕ) (l : L)
      → IsReliable g.locks
      → ((j k : ℕ) → j ≤ k → clock j ≤ clock k)
      → is_taken (clock (i + 1)) g.owner (locks l g.key) ≡ false
      → (until ≤ clock i) ⊎ HeldFor locks g until (hold_until clock i (some g) until true l)
  unfolding hold_until
  hold_until-HeldFor clock i until l sure mono free = by_time (Bool-cases (ltb (clock i) until))
    where
      by_time :
          (ltb (clock i) until ≡ true) ⊎ (ltb (clock i) until ≡ false)
          → (until ≤ clock i)
            ⊎ HeldFor locks g until (
                if ltb (clock i) until
                then hold_gate (some g) (until - clock i) true (clock (i + 1)) (clock (i + 2)) l
                else l)
      by_time (inr late) = inl (ground arith)
      by_time (inl early) =
          let (t, held, le) =
            hold_gate-HeldFor (until - clock i) (clock (i + 1)) (clock (i + 2)) l sure
              (mono (i + 1) (i + 2) (omega arith)) free in
          let soon : clock i ≤ clock (i + 1) = mono i (i + 1) (omega arith) in
          inr (rw early (t, held, omega arith))

  release_gate-frees :
      (l : L) → IsReliable g.locks → owned g.owner (locks (release_gate (some g) l) g.key) ≡ false
  unfolding release_gate
  release_gate-frees l sure =
      released (g.locks.release g.key g.owner l) (law.releases g.key g.owner l)
        (sure.releases g.key g.owner l)
    where
      released :
          (x : Reply Bool × L)
          → ReleaseSpec g.key g.owner (locks l) (locks x.1) x.0
          → is_done x.0 ≡ true
          → owned g.owner (locks x.1 g.key) ≡ false
      released (done true, l') (mine, same) answers =
          rw (put_here none (locks l) (locks l') same) refl
      released (done false, l') (none_mine, same) answers = rw (same g.key) none_mine
      released (threw e, l') spec answers = absurd (ground arith)

  hold_until-only_extends :
      (clock : ℕ → ℕ) (i until : ℕ) (l : L)
      → live (clock (i + 1)) (locks l g.key) && owned g.owner (locks l g.key) ≡ false
      → Same (locks l) (locks (hold_until clock i (some g) until false l))
  unfolding hold_until hold_gate
  hold_until-only_extends clock i until l free = by_time (ltb (clock i) until)
    where
      extended :
          (x : Reply Bool × L)
          → ExtendSpec g.key g.owner (until - clock i) (clock (i + 1)) (locks l) (locks x.1) x.0
          → Same (locks l) (locks (taken_back g (until - clock i) false (clock (i + 2)) x))
      extended (done true, l') (mine, same) = absurd (ground arith)
      extended (done false, l') (none_mine, same) = same
      extended (threw e, l') (inl same) = same
      extended (threw e, l') (inr (mine, same)) = absurd (ground arith)

      by_time :
          (b : Bool)
          → Same (locks l) (
              locks (
                if b
                then hold_gate (some g) (until - clock i) false (clock (i + 1)) (clock (i + 2)) l
                else l))
      by_time true =
          extended (g.locks.extend g.key g.owner (until - clock i) (clock (i + 1)) l)
            (law.extends g.key g.owner (until - clock i) (clock (i + 1)) l)
      by_time false = λ k. refl

  weaker :
      (a b now : ℕ) {l : L}
      → b ≤ a
      → (a ≤ now) ⊎ HeldFor locks g a l
      → (b ≤ now) ⊎ HeldFor locks g b l
  weaker a b now le (inl late) = inl (omega arith)
  weaker a b now le (inr (t, held, h)) = inr (t, held, omega arith)

module _ {Q L : Type 0} where
  -- An event tells that the queue took the task's terminal call, so the locks are those of `act`.
  settled-locks :
      (event : TaskEvent) (task : ClaimedTask) (act : L → L) (w : World Q L) (x : Reply Bool × Q)
      → (settled event task act w x).events ≢ w.events
      → (settled event task act w x).locks ≡ act w.locks
  settled-locks event task act w (done true, q) told = refl
  settled-locks event task act w (done false, q) told = absurd (told refl)
  settled-locks event task act w (threw e, q) told = absurd (told refl)

module _ {Q L : Type 0} (locks : L → String → Option Lock) (encode : String → String)
    (tasks : TaskQueue Q) (timing : QueueTiming) (texts : Texts) (clock : ℕ → ℕ)
    (task : ClaimedTask) (coordination : Option (TaskCoordination L)) (g : GateLock L) where
  -- When a failed task may be queued again: after its cooldown when it is dead, and one lease after
  -- its retry is due otherwise.
  abbrev pub hold_end : ℕ → Bool → TaskError → ℕ
  hold_end i force_dead e =
      if is_dead_end encode tasks timing texts clock task coordination force_dead e
      then clock (i + 1) + cooldown_of coordination
      else clock i + backoff_ms task.attempts timing + timing.lease_ms

  -- Once a failure is recorded (its event tells it), the task's gate lock is the task's own, to the
  -- end of the cooldown of a dead task, and to one lease after the due time of a retry, or that
  -- time has passed already. The lock store answers in time, the clock does not step back, and
  -- nobody else held the lock when the hold was made: a lapsed one is taken back.
  pub finish-holds_gate :
      (i : ℕ) (force_dead : Bool) (e : TaskError) (w : World Q L)
      → IsLockStore g.locks locks
      → IsReliable g.locks
      → ((j k : ℕ) → j ≤ k → clock j ≤ clock k)
      → gate encode tasks.gates_by_task task coordination ≡ some g
      → is_taken (clock (i + 2 + 1)) g.owner (locks w.locks g.key) ≡ false
      → (finish encode tasks timing texts clock task coordination i force_dead e w).events
        ≢ w.events
      → (hold_end i force_dead e ≤ clock (i + 2))
        ⊎ HeldFor locks g
            (hold_end i force_dead e)
            (finish encode tasks timing texts clock task coordination i force_dead e w).locks
  unfolding finish bury retry
  finish-holds_gate i force_dead e w law sure mono is_gate free told = by_end _ refl told
    where
      by_end :
          (b : Bool)
          → is_dead_end encode tasks timing texts clock task coordination force_dead e ≡ b
          → (if b
              then bury encode tasks timing texts clock task coordination i e w
              else retry encode tasks timing texts clock task coordination i e w).events
            ≢ w.events
          → (hold_end i force_dead e ≤ clock (i + 2))
            ⊎ HeldFor locks g
                (hold_end i force_dead e)
                (if b
                  then bury encode tasks timing texts clock task coordination i e w
                  else retry encode tasks timing texts clock task coordination i e w).locks
      by_end true dead told =
          rw (dead, settled-locks _ task _ w _ told, is_gate)
            (hold_until-HeldFor locks g law clock (i + 2) _ w.locks sure mono free)
      by_end false alive told =
          rw (alive, settled-locks _ task _ w _ told, is_gate)
            (weaker locks g law _ _ _ (omega arith)
              (hold_until-HeldFor locks g law clock (i + 2) _ w.locks sure mono free))

  -- A task that was completed (its event tells it) no longer owns its gate lock, over a lock store
  -- that answers in time.
  pub end_task-frees_gate :
      (i : ℕ) (aborted : Bool) (w : World Q L)
      → IsLockStore g.locks locks
      → IsReliable g.locks
      → gate encode tasks.gates_by_task task coordination ≡ some g
      → (end_task encode tasks timing texts clock task coordination i aborted resolved w).events
        ≢ w.events
      → owned g.owner (
          locks
            (end_task encode tasks timing texts clock task coordination i aborted resolved w).locks
            g.key)
        ≡ false
  unfolding end_task
  end_task-frees_gate i aborted w law sure is_gate told =
      rw (settled-locks _ task _ w _ told, is_gate) (release_gate-frees locks g law w.locks sure)

  -- Giving a task back never creates or takes back its gate lock: when the lock had lapsed, or was
  -- another's, no lock changes, even if a call of the store fails.
  pub give_back-only_extends :
      (i : ℕ) (reason : String) (w : World Q L)
      → IsLockStore g.locks locks
      → gate encode tasks.gates_by_task task coordination ≡ some g
      → live (clock (i + 1 + 1)) (locks w.locks g.key) && owned g.owner (locks w.locks g.key)
        ≡ false
      → Same
          (locks w.locks)
          (locks (give_back encode tasks timing texts clock task coordination i reason w).locks)
  unfolding give_back
  give_back-only_extends i reason w law is_gate free =
      rw is_gate (hold_until-only_extends locks g law clock (i + 1) _ w.locks free)
