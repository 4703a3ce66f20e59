-- ===== src/Trust/Orchestrator.antt =====
-- src/trust.rs: `Orchestrator::step`, on the store of a run (Trust/Log). Making the sandbox, reading the
-- artifact and evaluating the sensor come in as their outcome, `inspection`.
pub mod Derived
pub mod Promotion
pub mod Climb
use trunnion.Prelude.{
  Bool, true, false, ◌&&◌, not, Text, codes, str_eq, any, find, Option, none, some, List, [], ◌∷◌,
  ◌++◌, if◌then◌else◌,
}
use trunnion.Fault.{
  Result, ok, err, capability_not_declared, approver_missing, approver_not_permitted,
  no_higher_rung,
}
use trunnion.Json.{Json}
use trunnion.Policy.Ladder.{Rung, up, down, rung_name}
use trunnion.Policy.Rules.{Capability, Policy}
use trunnion.Trust.{TrustBudget, approver_ok, promotion_earned, replay}
use trunnion.Trust.Log.{Log}
use trunnion.Trial.{Trial, give, ◌>>=◌, ◌>>◌}

pub data Verdict : Type 0 where
  pass fail broken : Verdict

-- Of `SensorVerdict`, the verdict and the whole as the subject of its event.
pub record Judgement (V : Type 0) : Type 0 where
  pub verdict : Verdict
  pub subject : V

pub record StepOutcome : Type 0 where
  pub rung_before : Rung
  pub rung_after : Rung
  pub verdict : Verdict
  pub change : Option Text

abbrev pub is_pass : Verdict → Bool
is_pass pass = true
is_pass _ = false

abbrev pub run_outcome : Bool → Text
run_outcome clean = if clean then codes "clean" else codes "sensor.fail"

abbrev pub earned_trigger : Text
earned_trigger = codes "earned"

abbrev pub demotion : Text
demotion = codes "demotion"

abbrev pub promotion : Text
promotion = codes "promotion"

unfoldable pub demotes_on_failure : TrustBudget → Bool
unfolding str_eq
demotes_on_failure budget = any (λ t. str_eq t (codes "sensor.fail")) budget.demotion_triggers

module _ (j : Json) where
  abbrev or_null : Option Text → j.Value
  or_null none = j.null
  or_null (some t) = j.str t

  unfoldable pub run_subject : Text → Rung → Bool → Text → j.Value
  unfolding rung_name
  run_subject capability before clean sensor = j.object (
      (codes "capability", j.str capability)
      ∷ (codes "rung", j.str (rung_name before))
      ∷ (codes "outcome", j.str (run_outcome clean))
      ∷ (codes "sensor", j.str sensor)
      ∷ [])

  unfoldable pub approval_subject : Text → Rung → Rung → Option Text → j.Value
  unfolding rung_name
  approval_subject capability from to approver = j.object (
      (
        codes "approver",
        j.object ((codes "id", or_null approver) ∷ (codes "source", j.str (codes "local")) ∷ []),
      )
      ∷ (codes "verdict", j.str (codes "approve"))
      ∷ (
        codes "decided",
        j.str (
            codes "promote "
            ++ (capability
                ++ (codes " from " ++ (rung_name from ++ (codes " to " ++ rung_name to))))),
      )
      ∷ (codes "required_by", j.str (codes "trust_budget.promotion"))
      ∷ [])

  unfoldable pub change_subject : Text → Rung → Rung → Text → Option Text → j.Value
  unfolding rung_name
  change_subject capability from to trigger approver = j.object (
      (codes "capability", j.str capability)
      ∷ (codes "from", j.str (rung_name from))
      ∷ (codes "to", j.str (rung_name to))
      ∷ (codes "trigger", j.str trigger)
      ∷ (codes "approver", or_null approver)
      ∷ [])

module _ (j : Json) (log : Log j) (policy : Policy j.Value) (budget : TrustBudget) where
  unfoldable pub start_rung : Text → Result Rung
  unfolding str_eq
  start_rung capability =
      elim (find (λ (c : Capability). str_eq c.id capability) policy.capabilities) [
        | none ↦ err (capability_not_declared capability)
        | some c ↦ ok c.rung
      ]

  emit_rung_change : Text → Rung → Rung → Text → Option Text → Trial log.Store (Unit {0})
  unfolding str_eq approval_subject change_subject
  emit_rung_change capability from to trigger approver = do
    if str_eq trigger earned_trigger
        then log.append (codes "approval") (approval_subject j capability from to approver)
        else give (ok tt)
    log.append (codes "rung.change") (change_subject j capability from to trigger approver)

  run_sensor : Result (Judgement j.Value) → Trial log.Store Verdict
  run_sensor inspection = do
    judgement ← give inspection
    log.append (codes "sensor.verdict") judgement.subject
    give (ok judgement.verdict)

  -- The new rung and the change of each branch.
  demote : Text → Rung → Option Rung → Trial log.Store (Rung × Option Text)
  unfolding emit_rung_change
  demote capability before none = give (ok (before, none))
  demote capability before (some lower) = do
    emit_rung_change capability before lower demotion none
    give (ok (lower, some demotion))

  raise : Text → Rung → Text → Option Rung → Trial log.Store (Rung × Option Text)
  unfolding emit_rung_change
  raise capability before promoter none = give (err no_higher_rung)
  raise capability before promoter (some higher) = do
    emit_rung_change capability before higher earned_trigger (some promoter)
    give (ok (higher, some promotion))

  promote : Text → Rung → Option Text → Trial log.Store (Rung × Option Text)
  unfolding up approver_ok raise
  promote capability before none = give (err (approver_missing capability))
  promote capability before (some promoter) =
      if not (approver_ok budget promoter)
      then give (err (approver_not_permitted promoter))
      else raise capability before promoter (up before)

  weigh : Text → Rung → Rung → Option Text → List j.Value → Trial log.Store (Rung × Option Text)
  unfolding replay promotion_earned promote
  weigh capability start before approver events =
      if promotion_earned (replay j events capability start) budget
      then promote capability before approver
      else give (ok (before, none))

  consider : Text → Rung → Rung → Option Text → Trial log.Store (Rung × Option Text)
  unfolding weigh
  consider capability start before approver =
      (λ store. (store, log.history store)) >>= weigh capability start before approver

  settle : Text → Rung → Rung → Bool → Option Text → Trial log.Store (Rung × Option Text)
  unfolding demotes_on_failure down demote consider
  settle capability start before clean approver =
      if not clean && demotes_on_failure budget
      then demote capability before (down before)
      else if clean
      then consider capability start before approver
      else give (ok (before, none))

  -- The last three stages of a step: the outcome, the move, and the run's own event.
  abbrev conclude : Rung → Verdict → Rung × Option Text → Trial log.Store StepOutcome
  conclude before verdict (after, change) =
      give (
        ok
          (record { rung_before = before; rung_after = after; verdict = verdict; change = change }))

  move : Text → Rung → Rung → Option Text → Verdict → Trial log.Store StepOutcome
  unfolding settle
  move capability start before approver verdict =
      settle capability start before (is_pass verdict) approver >>= conclude before verdict

  record_run : Text → Text → Rung → Rung → Option Text → Verdict → Trial log.Store StepOutcome
  unfolding run_subject move
  record_run capability sensor start before approver verdict =
      log.append (codes "capability.run") (run_subject j capability before (is_pass verdict) sensor)
      >>= (λ _. move capability start before approver verdict)

  unfoldable pub step :
      Text → Text → Result (Judgement j.Value) → Option Text → Trial log.Store StepOutcome
  unfolding start_rung replay run_sensor record_run
  step capability sensor inspection approver = do
    start ← give (start_rung capability)
    events ← λ store. (store, log.history store)
    let before = (replay j events capability start).rung
    run_sensor inspection >>= record_run capability sensor start before approver
