-- ===== src/Durable.antt =====
-- src/durable.rs: tasks whose steps are checkpointed on the ledger, and their resumption from the last
-- checkpoint. The authority that the pinning of src/gateway.rs gives comes in as its outcome.
pub mod Resumed
use trunnion.Prelude.{
  ℕ, ◌+◌, Bool, true, false, ◌&&◌, length, foldl, Text, codes, decimal, Option, none, some, List,
  [], ◌∷◌, ◌++◌,
}
use trunnion.Fault.{Fault, Result, ok, err, ◌>>=◌, no_checkpoint}
use trunnion.Trial.{Trial}
use trunnion.Json.{Json, Digest}
use trunnion.Keys.{Keys}
use trunnion.Event.{text_or_null}
use trunnion.Ledger.{SignedHead, or_fault}
use trunnion.Ledger.Actors.{or_empty}
use trunnion.Policy.Rules.{Policy}
use trunnion.Trust.{subject_of}
use trunnion.Runlog.{Book, Core, open_core, append, seal}

pub record DurableRun (Core V : Type 0) : Type 0 where
  pub core : Core
  pub task_id : Text
  pub results : List V
  pub last_checkpoint : Option Text

pub record Restored (V : Type 0) : Type 0 where
  pub checkpoint_id : Text
  pub next_step : ℕ
  pub results : List V

abbrev or_zero : Option ℕ → ℕ
or_zero none = 0
or_zero (some n) = n

abbrev or_nil : {A : Type 0} → Option (List A) → List A
or_nil none = []
or_nil (some items) = items

module _ (j : Json) where
  unfoldable pub is_checkpoint : Text → j.Value → Bool
  is_checkpoint task_id ev =
      j.equal (j.field ev (codes "kind")) (j.str (codes "state.checkpoint"))
      && j.equal (j.field (subject_of j ev) (codes "task")) (j.str task_id)

  unfoldable pub restore_point : j.Value → Restored j.Value
  restore_point subj = record {
    checkpoint_id = or_empty (j.as_str (j.field subj (codes "checkpoint_id")));
    next_step = or_zero (j.as_u64 (j.field subj (codes "next_step")));
    results = or_nil (j.as_array (j.field subj (codes "results")));
  }

  -- One round of the scan, and the scan.
  unfoldable pub scan_event : Text → Option (Restored j.Value) → j.Value → Option (Restored j.Value)
  unfolding is_checkpoint restore_point
  scan_event task_id found ev = elim (is_checkpoint task_id ev) [
    | true ↦ some (restore_point (subject_of j ev))
    | false ↦ found
  ]

  unfoldable pub last_in : Text → List j.Value → Option (Restored j.Value)
  unfolding scan_event
  last_in task_id events = foldl (scan_event task_id) none events

  durable_actor : j.Value
  durable_actor = j.object (
      (codes "type", j.str (codes "system"))
      ∷ (codes "id", j.str (codes "system:durable-runner"))
      ∷ (codes "identity_source", j.str (codes "local"))
      ∷ (codes "rung", j.null)
      ∷ [])

abbrev pub id_of : {V : Type 0} → Option (Restored V) → Option Text
id_of none = none
id_of (some r) = some r.checkpoint_id

abbrev pub results_of : {V : Type 0} → Option (Restored V) → List V
results_of none = []
results_of (some r) = r.results

module _ (j : Json) (d : Digest) (keys : Keys) (book : Book j) (clock : ℕ → Text) where
  abbrev pub Durable : Type 0
  Durable = DurableRun (Core j d keys book clock) j.Value

  open_subject : Policy j.Value → Text → j.Value → Option (Restored j.Value) → j.Value
  open_subject policy task_id authority restored = j.object (
      (codes "profile", j.str policy.profile)
      ∷ (codes "workload", j.str task_id)
      ∷ (codes "instruction_pack", j.field authority (codes "instruction_version"))
      ∷ (codes "settings_hash", j.field authority (codes "settings_hash"))
      ∷ (codes "restored_checkpoint", text_or_null j d (id_of restored))
      ∷ [])

  unfoldable pub opened :
      Text
      → Option (Restored j.Value)
      → Core j d keys book clock × Result Text
      → book.Store × Result Durable
  opened task_id restored (core, err fault) = (core.ledger, err fault)
  opened task_id restored (core, ok id) = (
    core.ledger,
    ok (record {
      core = core;
      task_id = task_id;
      results = results_of restored;
      last_checkpoint = id_of restored;
    }),
  )

  -- `DurableRun::open_inner`, which `open` calls with nothing restored.
  unfoldable pub open_inner :
      Policy j.Value
      → Text
      → Text
      → Result j.Value
      → Option (Restored j.Value)
      → Trial book.Store Durable
  unfolding opened open_subject durable_actor append
  open_inner policy task_id run_id (err fault) restored store = (store, err fault)
  open_inner policy task_id run_id (ok authority) restored store = opened task_id restored (
      append j d keys book clock (codes "run.open") (open_subject policy task_id authority restored)
        (open_core j d keys book clock run_id store (durable_actor j) authority))

  unfoldable pub last_checkpoint : Text → book.Store → Result (Option (Restored j.Value))
  unfolding last_in
  last_checkpoint task_id store = do events ← book.history store; ok (last_in j task_id events)

  unfoldable pub restore : Text → book.Store → Result (Restored j.Value)
  unfolding last_checkpoint
  restore task_id store = do
    found ← last_checkpoint task_id store
    or_fault found (no_checkpoint task_id)

  with_restored :
      Restored j.Value
      → book.Store × Result Durable
      → book.Store × Result (Durable × Restored j.Value)
  with_restored restored (store, err fault) = (store, err fault)
  with_restored restored (store, ok run) = (store, ok (run, restored))

  unfoldable pub resume_from :
      Policy j.Value
      → Text
      → Text
      → Result j.Value
      → Result (Restored j.Value)
      → Trial book.Store (Durable × Restored j.Value)
  unfolding with_restored open_inner
  resume_from policy task_id run_id authority (err fault) store = (store, err fault)
  resume_from policy task_id run_id authority (ok restored) store =
      with_restored restored (open_inner policy task_id run_id authority (some restored) store)

  -- `DurableRun::resume`.
  unfoldable pub resume :
      Policy j.Value → Text → Text → Result j.Value → Trial book.Store (Durable × Restored j.Value)
  unfolding restore resume_from
  resume policy task_id run_id authority store =
      resume_from policy task_id run_id authority (restore task_id store) store

  unfoldable pub step_result : ℕ → Text → j.Value → j.Value
  step_result step_index label result = j.object (
      (codes "step", j.number step_index)
      ∷ (codes "label", j.str label)
      ∷ (codes "result", result)
      ∷ [])

  unfoldable pub checkpoint_id : Text → ℕ → Text
  unfolding decimal
  checkpoint_id run_id step_index = run_id ++ (codes "-ckpt-" ++ decimal step_index)

  unfoldable pub checkpoint_subject : Durable → ℕ → List j.Value → j.Value
  unfolding checkpoint_id decimal
  checkpoint_subject run step_index results = j.object (
      (codes "checkpoint_id", j.str (checkpoint_id run.core.run_id step_index))
      ∷ (codes "task", j.str run.task_id)
      ∷ (codes "covers", j.str (codes "steps 0..=" ++ decimal step_index))
      ∷ (codes "next_step", j.number (step_index + 1))
      ∷ (codes "restores", j.str (codes "resume at step " ++ decimal (step_index + 1)))
      ∷ (codes "results", j.array results)
      ∷ [])

  unfoldable pub checkpointed :
      Durable → Text → Core j d keys book clock × Result Text → Durable × Result (Unit {0})
  checkpointed run id (core, err fault) = (record run { core = core }, err fault)
  checkpointed run id (core, ok _) = (record run { core = core; last_checkpoint = some id }, ok tt)

  -- `DurableRun::checkpoint_step`: the result is kept also where the append fails.
  unfoldable pub checkpoint_step : ℕ → Text → j.Value → Trial Durable (Unit {0})
  unfolding step_result checkpoint_subject checkpointed append
  checkpoint_step step_index label result run =
      let results = run.results ++ step_result step_index label result ∷ [] in
      checkpointed (record run { results = results }) (checkpoint_id run.core.run_id step_index)
        (append j d keys book clock (codes "state.checkpoint")
          (checkpoint_subject run step_index results) run.core)

  unfoldable pub seal_task : Text → Durable → Core j d keys book clock × Result SignedHead
  unfolding seal
  seal_task outcome run =
      seal j d keys book clock
        (j.object (
          (codes "task", j.str run.task_id)
          ∷ (codes "steps_completed", j.number (length run.results))
          ∷ (codes "restored_from", text_or_null j d run.last_checkpoint)
          ∷ []))
        outcome run.core
