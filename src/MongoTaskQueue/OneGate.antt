-- ===== src/MongoTaskQueue/OneGate.antt =====
-- The gate of taskQueue.ts: what the rows show to a caller that counts the tasks of one gate.
use framework_module_resizer.Prelude.{
  ◌≤◌, Bool, true, false, not, ◌&&◌, ◌||◌, List, [], ◌∷◌, ◌≡◌, refl, ap, String, Option, none, some,
  length, filter, All, All-map, arith, eq_iff, eq_refl, Bool-cases, inl, inr,
}
use framework_module_resizer.Database.Unique.{NoClash}
use framework_module_resizer.MongoTaskQueue.{TaskDoc, Gate, is_gate, holds, is_live, gate_clash}
use framework_module_resizer.MongoTaskQueue.Steps.{IsSound, IsValid, Reach, Reach-IsValid}

holds-eq-some : (o : Option String) (s : String) → holds o s ≡ true → o ≡ some s
holds-eq-some none s h = cc
holds-eq-some (some t) s h = ap some ((eq_iff t s).0 h)

-- The rows that the filter of `add` matches are the active rows with the gate's key.
pub record HasGate (g : Gate) (d : TaskDoc) : Type 0 where
  pub resizer : d.resizer ≡ some g.resizer
  pub file_id : d.file_id ≡ g.file_id
  pub pipeline : d.pipeline ≡ g.pipeline
  pub queue : d.queue ≡ some g.queue
  pub active : d.active ≡ true

pub is_gate-HasGate : (g : Gate) (d : TaskDoc) → is_gate g d ≡ true → HasGate g d
unfolding is_gate
is_gate-HasGate g d h = ground (
  arith,
  holds-eq-some d.resizer g.resizer,
  holds-eq-some d.queue g.queue,
  eq_iff d.file_id g.file_id,
  eq_iff d.pipeline g.pipeline,
)

pub HasGate-clash : (g : Gate) (d e : TaskDoc) → HasGate g d → HasGate g e → gate_clash d e ≡ true
unfolding gate_clash
HasGate-clash g d e v w =
    rw
      (
        v.active, w.active, v.resizer, w.resizer, v.file_id, w.file_id, v.pipeline, w.pipeline,
        v.queue, w.queue,
      )
      (simp eq_refl)

-- A waiting or running task of the gate, whether or not its row is marked active.
unfoldable pub is_task_of : Gate → TaskDoc → Bool
is_task_of g d = is_gate g (record d { active = true }) && is_live d.status

is_task_of-HasGate : (g : Gate) (d : TaskDoc) → IsSound d → is_task_of g d ≡ true → HasGate g d
unfolding is_task_of
is_task_of-HasGate g d v h =
    let key = is_gate-HasGate g (record d { active = true }) (ground arith) in
    record {
      resizer = key.resizer;
      file_id = key.file_id;
      pipeline = key.pipeline;
      queue = key.queue;
      active = v.gated (ground arith);
    }

-- Beside a task of the gate there is no second one.
no_second :
    (g : Gate) (d : TaskDoc) (ds : List TaskDoc)
    → IsSound d
    → is_task_of g d ≡ true
    → All IsSound ds
    → All (λ e. gate_clash d e ≡ false) ds
    → filter (is_task_of g) ds ≡ []
no_second g d [] v h vs cs = refl
no_second g d (e ∷ ds) v h (w, vs) (c, cs) = elim (Bool-cases (is_task_of g e)) [
  | inl k ↦ cc (HasGate-clash g d e (is_task_of-HasGate g d v h) (is_task_of-HasGate g e w k))
  | inr k ↦ rw k (no_second g d ds v h vs cs)
]

pub one_task :
    (g : Gate) (ds : List TaskDoc)
    → All IsSound ds
    → NoClash gate_clash ds
    → length (filter (is_task_of g) ds) ≤ 1
one_task g [] vs cs = omega arith
one_task g (d ∷ ds) (v, vs) (c, cs) = elim (Bool-cases (is_task_of g d)) [
  | inl h ↦ rw (h, no_second g d ds v h vs c) (omega arith)
  | inr h ↦ rw h (one_task g ds vs cs)
]

IsSound-gated : (d : TaskDoc) → IsSound d → not (is_live d.status) || d.active ≡ true
IsSound-gated d u = ground arith

-- However many processes add, claim, renew, complete, fail, release and retire tasks, and in
-- whatever order their writes land, from rows where every waiting or running task holds its gate
-- and the gate index is respected, at most one task of a Resizer, media, pipeline and queue is
-- waiting or running, and every waiting or running row is marked active.
pub Reach-one_task :
    (g : Gate) (ds es : List TaskDoc)
    → IsValid ds
    → Reach ds es
    → (length (filter (is_task_of g) es) ≤ 1)
      × All (λ d. not (is_live d.status) || d.active ≡ true) es
Reach-one_task g ds es v r =
    let w = Reach-IsValid r v in
    (one_task g es w.rows w.gates, All-map IsSound _ (λ d u. IsSound-gated d u) es w.rows)
