-- ===== src/Tests/Tasks.antt =====
-- A task of src/durable.rs on a ledger that is a list: two checkpoints, and a resumption from the second.
use trunnion.Prelude.{
  ℕ, ◌+◌, Text, codes, str_eq, none, some, List, [], ◌∷◌, ◌++◌, ◌≡◌, refl, ap, arith,
}
use trunnion.Fault.{Result, ok, err, no_checkpoint}
use trunnion.Durable.{
  checkpoint_subject, Restored, Durable, checkpoint_step, resume, step_result, is_checkpoint,
}
use trunnion.Durable.Resumed.{IsReadBack, resume_restores}
use trunnion.Tests.Sample.{
  Tree, nothing, array, items, cons_item, event_of, toy, sample_json, sample_json-IsLawful,
}
use trunnion.Tests.Bundles.{toy_keys}
use trunnion.Tests.Documents.{policy}
use trunnion.Tests.Runs.{list_book, still_clock, fresh_core}

items-array : (ts : List Tree) → items (array ts) ≡ some ts
items-array [] = refl
items-array (t ∷ ts) = ap (cons_item t) (items-array ts)

sample_json-IsReadBack : IsReadBack sample_json
sample_json-IsReadBack = record { as_u64-number = λ n h. refl; as_array-array = items-array }

abbrev Task : Type 0
Task = Durable sample_json toy toy_keys list_book still_clock

abbrev fresh_task : Task
fresh_task = record {
  core = fresh_core;
  task_id = codes "audit";
  results = [];
  last_checkpoint = none;
}

abbrev take_step : ℕ → Text → Task → Task × Result (Unit {0})
take_step n label = checkpoint_step sample_json toy toy_keys list_book still_clock n label nothing

abbrev one_step : Task
one_step = (take_step 0 (codes "read") fresh_task).0

abbrev two_steps : Task
two_steps = (take_step 1 (codes "write") one_step).0

-- The second checkpoint as the ledger shows it.
abbrev checkpoint : Tree
checkpoint =
    event_of (codes "state.checkpoint") (
      checkpoint_subject sample_json toy toy_keys list_book still_clock one_step 1
        two_steps.results)

-- What the kill leaves, with an event more.
abbrev more_events : List Tree
more_events = event_of (codes "run.open") nothing ∷ []

abbrev left : List Tree
left = two_steps.core.ledger ++ more_events

abbrev resumption : List Tree × Result (Task × Restored Tree)
resumption =
    resume sample_json toy toy_keys list_book still_clock policy (codes "audit") (codes "run-8")
      (ok nothing) left

abbrev or_task : Result (Task × Restored Tree) → Task × Restored Tree
or_task (err fault) = (fresh_task, record { checkpoint_id = []; next_step = 0; results = [] })
or_task (ok pair) = pair

-- Tests.
second_step : take_step 1 (codes "write") one_step ≡ (two_steps, ok tt)
unfolding checkpoint_step
second_step = refl

no_task :
    (resume sample_json toy toy_keys list_book still_clock policy
      (codes "other")
      (codes "run-8")
      (ok nothing)
      left).1
    ≡ err (no_checkpoint (codes "other"))
unfolding resume checkpoint_step str_eq
no_task = refl

resumes : resumption ≡ (resumption.0, ok (or_task resumption.1))
unfolding resume checkpoint_step str_eq
resumes = refl

resume_restores_example :
    ((or_task resumption.1).0.task_id ≡ codes "audit")
    × ((or_task resumption.1).0.results ≡ two_steps.results)
    × (two_steps.results
        ≡ one_step.results
          ++ step_result sample_json toy toy_keys list_book still_clock 1 (codes "write") nothing
            ∷ [])
    × ((or_task resumption.1).0.last_checkpoint ≡ two_steps.last_checkpoint)
    × ((or_task resumption.1).1.next_step ≡ 1 + 1)
unfolding is_checkpoint checkpoint_step str_eq
resume_restores_example =
    resume_restores sample_json sample_json-IsLawful sample_json-IsReadBack toy toy_keys list_book
      still_clock 1 (codes "write") nothing one_step two_steps one_step.core.ledger checkpoint
      more_events left resumption.0 policy (codes "run-8") (ok nothing) (or_task resumption.1).0
      (or_task resumption.1).1 (omega arith) second_step
      (record { kind_eq = refl; subject_eq = refl }) refl (refl, tt) resumes
