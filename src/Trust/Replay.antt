-- ===== src/Trust/Replay.antt =====
-- src/trust.rs: what one event does to the replayed state of a capability.
use trunnion.Prelude.{
  ◌+◌, Bool, true, false, Text, codes, str_eq, Option, some, List, [], ◌∷◌, ◌++◌, ◌≡◌, refl, arith,
  ◌∙◌,
}
use mathlib.Core.List.{foldl-append}
use trunnion.Json.{Json, IsLawful}
use trunnion.Policy.Ladder.{Rung, led, assisted, autonomous, rung_name, parse_rung}
use trunnion.Trust.{TrustState, concerns, change_rung, count_run, apply_kind, apply_event, replay}
use trunnion.Trust.Log.{IsEvent}
use trunnion.Trust.Orchestrator.{run_subject, change_subject, run_outcome}

pub parse_rung-rung_name : (rung : Rung) → parse_rung (rung_name rung) ≡ some rung
unfolding parse_rung rung_name
parse_rung-rung_name led = refl
parse_rung-rung_name assisted = refl
parse_rung-rung_name autonomous = refl

-- The next state after a clean run, and after any other.
abbrev pub after_run : TrustState → Bool → TrustState
after_run state true = record state { clean_since_rung = state.clean_since_rung + 1 }
after_run state false = record state { clean_since_rung = 0 }

module _ (j : Json) (lawful : IsLawful j) (capability : Text) where
  pub replay-snoc :
      (events : List j.Value) (event : j.Value) (start : Rung)
      → replay j (events ++ event ∷ []) capability start
        ≡ apply_event j capability (replay j events capability start) event
  unfolding replay
  replay-snoc events event start = foldl-append (apply_event j capability) _ events (event ∷ [])

  -- An event of a kind that the replay does not know changes nothing.
  pub apply_event-other :
      (kind : Text) (subject event : j.Value) (state : TrustState)
      → str_eq kind (codes "rung.change") ≡ false
      → str_eq kind (codes "capability.run") ≡ false
      → IsEvent j kind subject event
      → apply_event j capability state event ≡ state
  unfolding apply_event apply_kind
  apply_event-other kind subject event state no_change no_run e =
      ground (arith, e.kind_eq, lawful.as_str-str kind)

  -- An event about the capability is applied by its kind.
  apply_event-kind :
      (kind : Text) (subject event : j.Value) (state : TrustState)
      → j.field subject (codes "capability") ≡ j.str capability
      → IsEvent j kind subject event
      → apply_event j capability state event ≡ apply_kind j state (some kind) subject
  unfolding apply_event
  apply_event-kind kind subject event state about e =
      rw (same, apply_event, e.kind_eq, lawful.as_str-str kind, e.subject_eq)
    where
      same : concerns j capability event ≡ true
      same = unfold concerns in rw (concerns, e.subject_eq, about) ((lawful.equal_iff _ _).1 refl)

  pub apply_event-run :
      (before : Rung) (clean : Bool) (sensor : Text) (event : j.Value) (state : TrustState)
      → IsEvent j (codes "capability.run") (run_subject j capability before clean sensor) event
      → apply_event j capability state event ≡ after_run state clean
  unfolding run_subject
  apply_event-run before clean sensor event state e =
      apply_event-kind (codes "capability.run") _ event state about e ∙ counted clean
    where
      about :
          j.field (run_subject j capability before clean sensor) (codes "capability")
          ≡ j.str capability
      about = unfold str_eq in lawful.field-object _ _

      outcome :
          (b : Bool)
          → j.as_str (j.field (run_subject j capability before b sensor) (codes "outcome"))
            ≡ some (run_outcome b)
      outcome b =
          unfold str_eq in rw (lawful.field-object (codes "outcome") _) (lawful.as_str-str _)

      counted :
          (b : Bool)
          → apply_kind j state
              (some (codes "capability.run"))
              (run_subject j capability before b sensor)
            ≡ after_run state b
      counted true = unfold apply_kind count_run str_eq in rw (outcome true)
      counted false = unfold apply_kind count_run str_eq in rw (outcome false)

  pub apply_event-change :
      (from to : Rung) (trigger : Text) (approver : Option Text) (event : j.Value)
      (state : TrustState)
      → IsEvent j (codes "rung.change") (change_subject j capability from to trigger approver) event
      → apply_event j capability state event ≡ record { rung = to; clean_since_rung = 0 }
  unfolding change_subject
  apply_event-change from to trigger approver event state e =
      apply_event-kind (codes "rung.change") _ event state about e ∙ moved
    where
      subject : j.Value
      subject = change_subject j capability from to trigger approver

      about : j.field subject (codes "capability") ≡ j.str capability
      about = unfold str_eq in lawful.field-object _ _

      target : j.as_str (j.field subject (codes "to")) ≡ some (rung_name to)
      target = unfold str_eq in rw (lawful.field-object (codes "to") _) (lawful.as_str-str _)

      moved :
          apply_kind j state (some (codes "rung.change")) subject
          ≡ record { rung = to; clean_since_rung = 0 }
      moved =
          unfold apply_kind change_rung str_eq in rw (target, change_rung, parse_rung-rung_name to)
