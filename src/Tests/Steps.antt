-- ===== src/Tests/Steps.antt =====
-- Runs of src/trust.rs on a log that is a list, and uses of its theorems there.
use trunnion.Prelude.{
  inr, str_eq, false, ◌+◌, true, Text, codes, Option, none, some, List, [], ◌∷◌, ◌++◌, ◌≡◌, ◌⊎◌,
  refl,
}
use trunnion.Fault.{Result, ok, err, approver_missing, approver_not_permitted}
use trunnion.Policy.Ladder.{assisted, autonomous}
use trunnion.Trust.{TrustBudget, TrustState, any_identity, named, from_policy, replay}
use trunnion.Trust.Orchestrator.{
  pass, fail, Judgement, StepOutcome, promotion, start_rung, step, run_subject, approval_subject,
  change_subject, earned_trigger,
}
use trunnion.Trust.Orchestrator.Derived.{Shows, Follows, step_lem}
use trunnion.Trust.Orchestrator.Promotion.{IsPromotion, step_promotes}
use trunnion.Tests.Sample.{
  Tree, nothing, event_of, list_log, list_log-IsAppendOnly, sample_json-ReadsBack, toy, sample_json,
  sample_json-IsLawful,
}
use trunnion.Trust.Orchestrator.Climb.{credit, Reaches, at_rest, elsewhere, one_more, Steps-bounds}
use trunnion.Merkle.Collision.{Collision}
use trunnion.Tests.Documents.{policy}

abbrev budget : TrustBudget
budget = record {
  runs_at_rung = 1;
  approver = named (codes "ana" ∷ []);
  demotion_triggers = codes "sensor.fail" ∷ [];
}

abbrev fresh : TrustState
fresh = record { rung = assisted; clean_since_rung = 0 }

abbrev passing : Result (Judgement Tree)
passing = ok (record { verdict = pass; subject = nothing })

abbrev failing : Result (Judgement Tree)
failing = ok (record { verdict = fail; subject = nothing })

abbrev run_step : Result (Judgement Tree) → Option Text → List Tree → List Tree × Result StepOutcome
run_step inspection approver =
    step sample_json list_log policy budget (codes "notes") (codes "lint") inspection approver

abbrev ran_clean : List Tree
ran_clean =
    event_of (codes "sensor.verdict") nothing
    ∷ event_of (codes "capability.run")
        (run_subject sample_json (codes "notes") assisted true (codes "lint"))
    ∷ []

abbrev promoted : List Tree
promoted =
    ran_clean
    ++ event_of (codes "approval")
        (approval_subject sample_json (codes "notes") assisted autonomous (some (codes "ana")))
      ∷ event_of (codes "rung.change") (
          change_subject sample_json (codes "notes") assisted autonomous earned_trigger
            (some (codes "ana")))
      ∷ []

abbrev promotion_outcome : StepOutcome
promotion_outcome = record {
  rung_before = assisted;
  rung_after = autonomous;
  verdict = pass;
  change = some promotion;
}

-- Tests.
default_budget : from_policy sample_json nothing ≡ record {
  runs_at_rung = 20;
  approver = any_identity;
  demotion_triggers = codes "sensor.fail" ∷ codes "policy.deny" ∷ [];
}
unfolding from_policy
default_budget = refl

start_of_notes : start_rung sample_json list_log policy budget (codes "notes") ≡ ok assisted
unfolding start_rung
start_of_notes = refl

nobody_named : run_step passing none [] ≡ (ran_clean, err (approver_missing (codes "notes")))
unfolding step
nobody_named = refl

wrong_name :
    (run_step passing (some (codes "bob")) []).1 ≡ err (approver_not_permitted (codes "bob"))
unfolding step
wrong_name = refl

promotes : run_step passing (some (codes "ana")) [] ≡ (promoted, ok promotion_outcome)
unfolding step approval_subject change_subject
promotes = refl

fresh_shown :
    Shows sample_json sample_json-IsLawful toy list_log
      (λ _. Unit)
      list_log-IsAppendOnly
      policy
      budget
      (codes "notes")
      assisted
      []
      fresh
unfolding replay
fresh_shown = ([], tt, refl, refl)

step_lem_example :
    Follows sample_json sample_json-IsLawful toy list_log
      (λ _. Unit)
      list_log-IsAppendOnly
      policy
      budget
      (codes "notes")
      assisted
      promoted
      fresh
      promotion_outcome
    ⊎ Collision toy
step_lem_example =
    step_lem sample_json sample_json-IsLawful toy list_log (λ _. Unit) list_log-IsAppendOnly policy
      budget (codes "notes") assisted (codes "lint") passing (some (codes "ana")) [] promoted fresh
      promotion_outcome (λ judgement e. sample_json-ReadsBack judgement.subject)
      (λ before clean. sample_json-ReadsBack _)
      (λ from to approver.
        (sample_json-ReadsBack _, sample_json-ReadsBack _, sample_json-ReadsBack _))
      start_of_notes fresh_shown promotes

step_promotes_example :
    (pass ≡ pass)
    × ((inspected : List Tree) × (recorded : List Tree) × (list_log.append
            (codes "capability.run")
            (run_subject sample_json (codes "notes") assisted true (codes "lint"))
            inspected
          ≡ (recorded, ok tt))
        × IsPromotion sample_json list_log policy budget
            (codes "notes")
            assisted
            assisted
            autonomous
            (some (codes "ana"))
            recorded
            promoted)
step_promotes_example =
    step_promotes sample_json list_log policy budget (codes "notes") assisted [] (codes "lint")
      passing (some (codes "ana")) [] promoted promotion_outcome start_of_notes refl promotes refl

-- A run of another capability, then the step, from the empty log.
abbrev foreign : Tree
foreign = run_subject sample_json (codes "deploy") assisted false (codes "lint")

abbrev seen_before : List Tree
seen_before = event_of (codes "capability.run") foreign ∷ []

abbrev promoted_after : List Tree
promoted_after = (run_step passing (some (codes "ana")) seen_before).0

promotes_after :
    run_step passing (some (codes "ana")) seen_before ≡ (promoted_after, ok promotion_outcome)
unfolding step approval_subject change_subject run_subject
promotes_after = refl

Steps-bounds_example :
    Reaches sample_json sample_json-IsLawful toy list_log
      (λ _. Unit)
      list_log-IsAppendOnly
      policy
      budget
      (codes "notes")
      assisted
      promoted_after
      (credit budget fresh + 1)
    ⊎ Collision toy
unfolding run_subject str_eq
Steps-bounds_example =
    Steps-bounds sample_json sample_json-IsLawful toy list_log (λ _. Unit) list_log-IsAppendOnly
      policy budget (codes "notes") assisted
      (λ from to approver.
        (sample_json-ReadsBack _, sample_json-ReadsBack _, sample_json-ReadsBack _))
      start_of_notes fresh_shown
      (one_more seen_before promoted_after (codes "lint") passing (some (codes "ana"))
        promotion_outcome
        (elsewhere [] seen_before (codes "capability.run") foreign at_rest (inr (λ e. cc))
          (sample_json-ReadsBack foreign) refl)
        (λ judgement e. sample_json-ReadsBack judgement.subject)
        (λ before clean. sample_json-ReadsBack _) promotes_after)
