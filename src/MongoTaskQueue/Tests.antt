-- ===== src/MongoTaskQueue/Tests.antt =====
-- Runs of the queue on a collection in memory, and the theorems at those runs.
use framework_module_resizer.Prelude.{
  ℕ, ◌+◌, ◌≤◌, ◌<◌, String, true, false, not, ◌||◌, Option, none, some, List, [], ◌∷◌, ◌≡◌, refl,
  length, filter, All, Memᴰ, arith, ◌↔◌,
}
use framework_module_resizer.Types.{NewTask, ClaimedTask, added, in_flight}
use framework_module_resizer.Database.{IsCollection}
use framework_module_resizer.Database.Sample.{sample, sample-IsCollection}
use framework_module_resizer.MongoTaskQueue.{
  TaskDoc, gate_of, is_live, is_held, is_gate, TaskModel, gate_keys, gate_clash, new_row, lease,
  retried, released, buried, missing_paths, is_claimable, named, to_claimed_task, can_take_over,
  take_over_rule, add, claim, renew, complete, fail_dead, fail_retry, release, find_active,
}
use framework_module_resizer.MongoTaskQueue.Steps.{Reach, here, next, inserts}
use framework_module_resizer.MongoTaskQueue.OneGate.{is_task_of, Reach-one_task}
use framework_module_resizer.MongoTaskQueue.Refines.{IsSteps, methods-IsSteps}
use framework_module_resizer.MongoTaskQueue.Fence.{IsRefused, stale-IsRefused}
use framework_module_resizer.MongoTaskQueue.Delivery.{
  ClaimSpec, claimable_iff, take_over_agree, claim-ClaimSpec,
}
use framework_module_resizer.MongoTaskQueue.Redelivery.{
  ClaimCall, available_by, IsReclaimed, lost_row-IsReclaimed,
}

-- The document ids: "a", "aa", and so on.
next_id : List TaskDoc → String
next_id [] = "a"
next_id (d ∷ ds) = String.◌∷◌ "a" (next_id ds)

abbrev model : Option (TaskModel (List TaskDoc))
model = some (record { collection = sample gate_clash gate_keys next_id; path = none })

abbrev photo : NewTask
photo = record {
  resizer = "default";
  queue = "bulk";
  media_id = "m1";
  pipeline = "default";
  previews = [];
  gate_owner = none;
}

abbrev quiet : ℕ → List TaskDoc → List TaskDoc
quiet i ds = ds

abbrev clock : ℕ → ℕ
clock i = 100

-- One waiting task of the gate.
abbrev queued : List TaskDoc
queued = new_row photo 100 "a" ∷ []

abbrev leased : List TaskDoc
leased = lease "pod" "tok" 200 60 (new_row photo 100 "a") ∷ []

abbrev held : ClaimedTask
held = record {
  task_id = "a";
  resizer = "default";
  queue = "bulk";
  media_id = "m1";
  pipeline = "default";
  previews = [];
  attempts = 1;
  token = "tok";
  gate_owner = none;
}

everything : Unit {0}
unfolding add claim renew complete fail_dead fail_retry release find_active sample next_id
everything = tt

add_twice :
    (add model photo quiet clock [] ≡ (added "a", queued))
    × (add model photo quiet clock queued ≡ (in_flight (some "a"), queued))
unfolding everything new_row is_gate gate_clash can_take_over
add_twice = (refl, refl)

abbrev rows : List TaskDoc → List TaskDoc
rows ds = ds

sample_law : IsCollection (sample gate_clash gate_keys next_id) rows gate_clash
sample_law = sample-IsCollection gate_clash gate_keys next_id

Reach-one_task_example :
    (length (filter (is_task_of (gate_of photo)) queued) ≤ 1)
    × All (λ d. not (is_live d.status) || d.active ≡ true) queued
Reach-one_task_example =
    Reach-one_task (gate_of photo) [] queued (record { rows = tt; gates = tt })
      (next here (inserts photo 100 "a" tt refl))

methods-IsSteps_example :
    IsSteps rows (claim model "pod" "tok" "bulk" 60 200 none)
    × IsSteps rows (renew model held 60 200)
    × IsSteps rows (complete model held 200)
    × IsSteps rows (fail_dead model held "boom" none 200)
    × IsSteps rows (fail_retry model held 300 "boom")
    × IsSteps rows (release model held 200)
    × IsSteps rows (find_active model (gate_of photo))
    × ((db : List TaskDoc) → Reach db (add model photo quiet clock db).1)
methods-IsSteps_example =
    methods-IsSteps rows model "pod" "tok" "bulk" "boom" none held none 60 200 300 (gate_of photo)
      photo quiet clock sample_law (λ i db. here)

abbrev lost_lease : ClaimedTask
lost_lease = record held { token = "old" }

stale-IsRefused_example :
    IsRefused rows (renew model lost_lease 60 200) leased
    × IsRefused rows (complete model lost_lease 200) leased
    × IsRefused rows (fail_dead model lost_lease "boom" none 200) leased
    × IsRefused rows (fail_retry model lost_lease 300 "boom") leased
    × IsRefused rows (release model lost_lease 200) leased
unfolding is_held lease new_row
stale-IsRefused_example =
    stale-IsRefused rows model lost_lease leased 60 200 300 "boom" none sample_law (refl, tt)

claimable_iff_example :
    ((is_claimable "bulk" none 500 (lease "pod" "tok" 200 60 (new_row photo 100 "a")) ≡ true)
      ↔ (260 < 500))
    × ((is_claimable "bulk" none 500
            (retried 400 "boom" (lease "pod" "tok" 200 60 (new_row photo 100 "a")))
          ≡ true)
        ↔ (400 ≤ 500))
    × ((is_claimable "bulk" none 500
            (released 400 (lease "pod" "tok" 200 60 (new_row photo 100 "a")))
          ≡ true)
        ↔ (400 ≤ 500))
    × ((retried 400 "boom" (lease "pod" "tok" 200 60 (new_row photo 100 "a"))).attempts
        ≡ (new_row photo 100 "a").attempts + 1)
    × ((released 400 (lease "pod" "tok" 200 60 (new_row photo 100 "a"))).attempts
        ≡ (new_row photo 100 "a").attempts)
unfolding named new_row
claimable_iff_example =
    claimable_iff (new_row photo 100 "a") "pod" "tok" "bulk" "boom" none 200 60 400 500 refl

-- A lost task, and one that has waited for longer.
abbrev waiting_first : List TaskDoc
waiting_first =
    lease "pod" "tok" 200 60 (new_row photo 100 "a")
    ∷ new_row (record photo { media_id = "m2" }) 210 "b"
    ∷ []

abbrev two_claims : List ClaimCall
two_claims =
    record { holder = "pod2"; token = "tok2"; lease_ms = 60; at = 261 }
    ∷ record { holder = "pod3"; token = "tok3"; lease_ms = 60; at = 262 }
    ∷ []

lost_row-IsReclaimed_example :
    IsReclaimed "bulk" none
      (new_row photo 100 "a")
      "pod"
      "tok"
      200
      60
      rows
      (record { collection = sample gate_clash gate_keys next_id; path = none })
      two_claims
      waiting_first
unfolding everything missing_paths named new_row is_claimable lease available_by to_claimed_task
lost_row-IsReclaimed_example =
    lost_row-IsReclaimed "bulk" none (new_row photo 100 "a") "pod" "tok" 200 60 rows
      (record { collection = sample gate_clash gate_keys next_id; path = none }) two_claims
      waiting_first sample_law refl refl (Memᴰ.head refl)
      (omega arith, refl, (omega arith, refl, tt)) (omega arith)

take_over_agree_example :
    (can_take_over (new_row photo 100 "a") 900 ≡ take_over_rule 900 (new_row photo 100 "a"))
    × ((can_take_over (buried 300 600 "boom" (new_row photo 100 "a")) 900 ≡ true) ↔ (900 ≤ 900))
    × ((buried 300 600 "boom" (new_row photo 100 "a")).active ≡ (new_row photo 100 "a").active)
    × (is_claimable "bulk" none 900 (buried 300 600 "boom" (new_row photo 100 "a")) ≡ false)
take_over_agree_example = take_over_agree (new_row photo 100 "a") "boom" "bulk" none 300 600 900

claim-ClaimSpec_example :
    ClaimSpec "pod" "tok" "bulk" 60 200 none queued
      (claim model "pod" "tok" "bulk" 60 200 none queued).1
      (claim model "pod" "tok" "bulk" 60 200 none queued).0
unfolding missing_paths
claim-ClaimSpec_example =
    claim-ClaimSpec rows (record { collection = sample gate_clash gate_keys next_id; path = none })
      "pod" "tok" "bulk" 60 200 none queued sample_law refl
