-- ===== src/Durable/Resumed.antt =====
-- src/durable.rs: what a resumption restores.
use trunnion.Prelude.{
  ℕ, ◌+◌, ◌<◌, ◌^◌, true, false, ◌&&◌, All, foldl, Text, codes, str_eq, Option, none, some, List,
  [], ◌∷◌, ◌++◌, ◌≡◌, refl, sym, ap, ap₂, ◌∙◌,
}
use mathlib.Core.List.{foldl-append}
use trunnion.Fault.{Result, ok, err, >>=-eq-ok, no_checkpoint}
use trunnion.Json.{Json, Digest, IsLawful}
use trunnion.Keys.{Keys}
use trunnion.Ledger.{or_fault}
use trunnion.Ledger.Actors.{or_empty}
use trunnion.Policy.Rules.{Policy}
use trunnion.Trust.{subject_of}
use trunnion.Trust.Log.{IsEvent}
use trunnion.Runlog.{Book, Core, open_core, append}
use trunnion.Durable.{
  Restored, Durable, or_zero, or_nil, is_checkpoint, restore_point, scan_event, last_in, opened,
  open_subject, durable_actor, open_inner, last_checkpoint, restore, with_restored, resume_from,
  resume, step_result, checkpoint_id, checkpoint_subject, checkpointed, checkpoint_step,
}

-- A number of 64 bits and an array are read back as they were written.
pub record IsReadBack (j : Json) : Type 0 where
  pub as_u64-number : (n : ℕ) → n < 2 ^ 64 → j.as_u64 (j.number n) ≡ some n
  pub as_array-array : (items : List j.Value) → j.as_array (j.array items) ≡ some items

restored_eq :
    {V : Type 0} {id id2 : Text} {next next2 : ℕ} {results results2 : List V}
    → id ≡ id2
    → next ≡ next2
    → results ≡ results2
    → ◌≡◌ {A = Restored V}
        (record { checkpoint_id = id; next_step = next; results = results })
        (record { checkpoint_id = id2; next_step = next2; results = results2 })
restored_eq one two three = cc

module _ (j : Json) (lawful : IsLawful j) (readable : IsReadBack j) where
  -- Events that are no checkpoints of the task change nothing.
  scan-others :
      (task_id : Text) (found : Option (Restored j.Value)) (events : List j.Value)
      → All (λ e. is_checkpoint j task_id e ≡ false) events
      → foldl (scan_event j task_id) found events ≡ found
  unfolding scan_event
  scan-others task_id found [] h = refl
  scan-others task_id found (e ∷ events) (other, rest) =
      ap (λ f. foldl (scan_event j task_id) f events) (rw (other, scan_event) refl)
      ∙ scan-others task_id found events rest

  last_in-checkpoint :
      (task_id : Text) (before : List j.Value) (event : j.Value) (more : List j.Value)
      → is_checkpoint j task_id event ≡ true
      → All (λ e. is_checkpoint j task_id e ≡ false) more
      → last_in j task_id (before ++ event ∷ more) ≡ some (restore_point j (subject_of j event))
  unfolding last_in scan_event
  last_in-checkpoint task_id before event more here others =
      foldl-append (scan_event j task_id) none before (event ∷ more)
      ∙ ap (λ f. foldl (scan_event j task_id) f more) (rw (here, scan_event) refl)
      ∙ scan-others task_id _ more others

  module _ (d : Digest) (keys : Keys) (book : Book j) (clock : ℕ → Text) where
    checkpoint_subject-restore_point :
        (run : Durable j d keys book clock) (step_index : ℕ) (results : List j.Value)
        → step_index + 1 < 2 ^ 64
        → restore_point j (checkpoint_subject j d keys book clock run step_index results) ≡ record {
          checkpoint_id = checkpoint_id j d keys book clock run.core.run_id step_index;
          next_step = step_index + 1;
          results = results;
        }
    unfolding restore_point checkpoint_subject str_eq
    checkpoint_subject-restore_point run step_index results fits =
        restored_eq
          (ap (λ v. or_empty (j.as_str v)) (lawful.field-object (codes "checkpoint_id") _)
            ∙ ap or_empty (lawful.as_str-str _))
          (ap (λ v. or_zero (j.as_u64 v)) (lawful.field-object (codes "next_step") _)
            ∙ ap or_zero (readable.as_u64-number _ fits))
          (ap (λ v. or_nil (j.as_array v)) (lawful.field-object (codes "results") _)
            ∙ ap or_nil (readable.as_array-array _))

    checkpoint_subject-is_checkpoint :
        (run : Durable j d keys book clock) (step_index : ℕ) (results : List j.Value)
        (event : j.Value)
        → IsEvent j
            (codes "state.checkpoint")
            (checkpoint_subject j d keys book clock run step_index results)
            event
        → is_checkpoint j run.task_id event ≡ true
    unfolding is_checkpoint checkpoint_subject str_eq
    checkpoint_subject-is_checkpoint run step_index results event shown =
        ap₂ (λ a b. a && b) ((lawful.equal_iff _ _).1 shown.kind_eq)
          ((lawful.equal_iff _ _).1 (
            ap (λ s. j.field s (codes "task")) shown.subject_eq
            ∙ lawful.field-object (codes "task") _))

    -- What a checkpoint that ends well leaves.
    record IsTaken (run after : Durable j d keys book clock) (step_index : ℕ) (label : Text)
        (result : j.Value) : Type 0 where
      pub results_eq :
          after.results
          ≡ run.results ++ step_result j d keys book clock step_index label result ∷ []
      pub id_eq :
          after.last_checkpoint
          ≡ some (checkpoint_id j d keys book clock run.core.run_id step_index)
      pub id : Text
      pub written :
          append j d keys book clock
            (codes "state.checkpoint")
            (checkpoint_subject j d keys book clock run step_index after.results)
            run.core
          ≡ (after.core, ok id)

    checkpoint_step-IsTaken :
        (step_index : ℕ) (label : Text) (result : j.Value) (run after : Durable j d keys book clock)
        → checkpoint_step j d keys book clock step_index label result run ≡ (after, ok tt)
        → IsTaken run after step_index label result
    unfolding checkpoint_step checkpointed
    checkpoint_step-IsTaken step_index label result run after h =
        by_append
          (append j d keys book clock (codes "state.checkpoint")
            (checkpoint_subject j d keys book clock run step_index results) run.core)
          refl h
      where
        results : List j.Value
        results = run.results ++ step_result j d keys book clock step_index label result ∷ []

        by_append :
            (r : Core j d keys book clock × Result Text)
            → append j d keys book clock
                (codes "state.checkpoint")
                (checkpoint_subject j d keys book clock run step_index results)
                run.core
              ≡ r
            → checkpointed j d keys book clock
                (record run { results = results })
                (checkpoint_id j d keys book clock run.core.run_id step_index)
                r
              ≡ (after, ok tt)
            → IsTaken run after step_index label result
        by_append (core, err fault) e h = cc
        by_append (core, ok id) e h =
            let same : record run {
              core = core;
              results = results;
              last_checkpoint = some (checkpoint_id j d keys book clock run.core.run_id step_index);
            }
                ≡ after =
              cc in
            rw (← same) (record { results_eq = refl; id_eq = refl; id = id; written = e })

    restore-last_in :
        (task_id : Text) (store : book.Store) (events : List j.Value)
        (point restored : Restored j.Value)
        → book.history store ≡ ok events
        → last_in j task_id events ≡ some point
        → restore j d keys book clock task_id store ≡ ok restored
        → restored ≡ point
    unfolding restore last_checkpoint
    restore-last_in task_id store events point restored seen found h =
        let (o, scanned, given) =
          >>=-eq-ok (last_checkpoint j d keys book clock task_id store) _ h in
        let (read, read_eq, taken) = >>=-eq-ok (book.history store) _ scanned in
        by_point o given (read_point read o read_eq taken)
      where
        read_point :
            (read : List j.Value) (o : Option (Restored j.Value))
            → book.history store ≡ ok read
            → ◌≡◌ {A = Result (Option (Restored j.Value))} (ok (last_in j task_id read)) (ok o)
            → o ≡ some point
        read_point read o e taken =
            let same : read ≡ events = cc in
            let scanned : last_in j task_id read ≡ o = cc in
            sym scanned ∙ ap (last_in j task_id) same ∙ found

        by_point :
            (o : Option (Restored j.Value))
            → or_fault o (no_checkpoint task_id) ≡ ok restored
            → o ≡ some point
            → restored ≡ point
        by_point none h e = cc
        by_point (some r) h e = cc

    -- What a resumption takes over.
    record IsTakenOver (task_id : Text) (store : book.Store) (run : Durable j d keys book clock)
        (restored : Restored j.Value) : Type 0 where
      pub found : restore j d keys book clock task_id store ≡ ok restored
      pub results_eq : run.results ≡ restored.results
      pub id_eq : run.last_checkpoint ≡ some restored.checkpoint_id
      pub task_eq : run.task_id ≡ task_id

    resume-IsTakenOver :
        (policy : Policy j.Value) (task_id run_id : Text) (authority : Result j.Value)
        (store later : book.Store) (run : Durable j d keys book clock) (restored : Restored j.Value)
        → resume j d keys book clock policy task_id run_id authority store
          ≡ (later, ok (run, restored))
        → IsTakenOver task_id store run restored
    unfolding resume resume_from open_inner opened
    resume-IsTakenOver policy task_id run_id authority store later run restored h =
        by_found (restore j d keys book clock task_id store) refl h
      where
        by_opened :
            (r : Restored j.Value) (out : Core j d keys book clock × Result Text)
            → restore j d keys book clock task_id store ≡ ok r
            → with_restored j d keys book clock r (opened j d keys book clock task_id (some r) out)
              ≡ (later, ok (run, restored))
            → IsTakenOver task_id store run restored
        by_opened r (core, err fault) e h = cc
        by_opened r (core, ok id) e h =
            let same : record {
              core = core;
              task_id = task_id;
              results = r.results;
              last_checkpoint = some r.checkpoint_id;
            }
                ≡ run =
              cc in
            let same_point : r ≡ restored = cc in
            rw (← same, ← same_point)
              (record { found = e; results_eq = refl; id_eq = refl; task_eq = refl })

        by_authority :
            (r : Restored j.Value) (a : Result j.Value)
            → restore j d keys book clock task_id store ≡ ok r
            → with_restored j d keys book clock r
                (open_inner j d keys book clock policy task_id run_id a (some r) store)
              ≡ (later, ok (run, restored))
            → IsTakenOver task_id store run restored
        by_authority r (err fault) e h = cc
        by_authority r (ok a) e h =
            by_opened r
              (append j d keys book clock (codes "run.open")
                (open_subject j d keys book clock policy task_id a (some r))
                (open_core j d keys book clock run_id store (durable_actor j) a))
              e h

        by_found :
            (r : Result (Restored j.Value))
            → restore j d keys book clock task_id store ≡ r
            → resume_from j d keys book clock policy task_id run_id authority r store
              ≡ (later, ok (run, restored))
            → IsTakenOver task_id store run restored
        by_found (err fault) e h = cc
        by_found (ok r) e h = by_authority r authority e h

    -- A resumption restores what the last checkpoint kept: where a checkpoint ended well, and a history of the
    -- ledger shows it, with its payload, as the last checkpoint of the task, a resumption that ends well has
    -- the task, the results, the new one last, and the checkpoint's id of the run as it was after the
    -- checkpoint, and goes on at the next step.
    pub resume_restores :
        (step_index : ℕ) (label : Text) (result : j.Value) (run after : Durable j d keys book clock)
        (before : List j.Value) (event : j.Value) (more : List j.Value) (store later : book.Store)
        (policy : Policy j.Value) (run_id : Text) (authority : Result j.Value)
        (resumed : Durable j d keys book clock) (restored : Restored j.Value)
        → step_index + 1 < 2 ^ 64
        → checkpoint_step j d keys book clock step_index label result run ≡ (after, ok tt)
        → IsEvent j
            (codes "state.checkpoint")
            (checkpoint_subject j d keys book clock run step_index after.results)
            event
        → book.history store ≡ ok (before ++ event ∷ more)
        → All (λ e. is_checkpoint j run.task_id e ≡ false) more
        → resume j d keys book clock policy run.task_id run_id authority store
          ≡ (later, ok (resumed, restored))
        → (resumed.task_id ≡ run.task_id)
          × (resumed.results ≡ after.results)
          × (after.results
              ≡ run.results ++ step_result j d keys book clock step_index label result ∷ [])
          × (resumed.last_checkpoint ≡ after.last_checkpoint)
          × (restored.next_step ≡ step_index + 1)
    resume_restores step_index label result run after before event more store later policy run_id
          authority resumed restored fits taken shown history others h =
        let t = checkpoint_step-IsTaken step_index label result run after taken in
        let over =
          resume-IsTakenOver policy run.task_id run_id authority store later resumed restored h in
        let point : last_in j run.task_id (before ++ event ∷ more) ≡ some _ =
          last_in-checkpoint run.task_id before event more
            (checkpoint_subject-is_checkpoint run step_index after.results event shown) others
          ∙ ap (λ s. some (restore_point j s)) shown.subject_eq
          ∙ ap some (checkpoint_subject-restore_point run step_index after.results fits) in
        let same =
          restore-last_in run.task_id store (before ++ event ∷ more) _ restored history point
            over.found in
        (
          over.task_eq,
          over.results_eq ∙ ap (λ (r : Restored j.Value). r.results) same,
          t.results_eq,
          over.id_eq ∙ ap (λ (r : Restored j.Value). some r.checkpoint_id) same ∙ sym t.id_eq,
          ap (λ (r : Restored j.Value). r.next_step) same,
        )
