-- ===== src/Trust/Orchestrator/Climb.antt =====
-- src/trust.rs: how fast a capability can climb, over any sequence of steps with other events
-- between them.
use trunnion.Prelude.{
  ℕ, suc, ◌+◌, ◌*◌, ◌≤◌, Bool, true, false, Bool-cases, Text, codes, str_eq, Option, [], ◌∷◌, ◌++◌,
  ◌≡◌, ◌≢◌, refl, ◌∙◌, ◌⊎◌, inl, inr, arith,
}
use trunnion.Fault.{Result, ok}
use trunnion.Json.{Json, Digest, IsLawful, ReadsBack}
use trunnion.Merkle.Collision.{Collision}
use trunnion.Policy.Ladder.{Rung, led, assisted, autonomous, up, down}
use trunnion.Policy.Rules.{Policy}
use trunnion.Trust.{TrustBudget, TrustState, promotion_earned, concerns, apply_event}
use trunnion.Trust.Log.{Log, IsEvent, IsAppendOnly}
use trunnion.Trust.Orchestrator.{
  Judgement, StepOutcome, is_pass, demotes_on_failure, run_subject, start_rung, step,
}
use trunnion.Trust.Orchestrator.Derived.{next, onward, Shows, ChangesReadBack, step_lem}
use trunnion.Trust.Replay.{replay-snoc, apply_event-other}

-- Rungs above `led`.
abbrev pub height : Rung → ℕ
height led = 0
height assisted = 1
height autonomous = 2

-- The clean runs that a state stands for: a threshold for each rung, and the count at this one.
abbrev pub credit : TrustBudget → TrustState → ℕ
credit budget state = height state.rung * budget.runs_at_rung + state.clean_since_rung

credit-next :
    (budget : TrustBudget) (clean : Bool) (rung : Rung) (count : ℕ)
    → credit budget (next budget (record { rung = rung; clean_since_rung = count }) clean)
      ≤ suc (credit budget (record { rung = rung; clean_since_rung = count }))
unfolding promotion_earned demotes_on_failure up down
credit-next budget true led count = ground arith
credit-next budget true assisted count = ground arith
credit-next budget true autonomous count = ground arith
credit-next budget false led count = ground arith
credit-next budget false assisted count = ground arith
credit-next budget false autonomous count = ground arith

module _ (j : Json) (lawful : IsLawful j) (capability : Text) where
  -- An event of another kind than those that the replay counts, or about another capability.
  abbrev pub Elsewhere : Text → j.Value → Type 0
  Elsewhere kind subject =
      ((str_eq kind (codes "rung.change") ≡ false) × (str_eq kind (codes "capability.run") ≡ false))
      ⊎ (j.field subject (codes "capability") ≢ j.str capability)

  apply_event-Elsewhere :
      (kind : Text) (subject event : j.Value) (state : TrustState)
      → Elsewhere kind subject
      → IsEvent j kind subject event
      → apply_event j capability state event ≡ state
  unfolding apply_event
  apply_event-Elsewhere kind subject event state (inl (no_change, no_run)) e =
      apply_event-other j lawful capability kind subject event state no_change no_run e
  apply_event-Elsewhere kind subject event state (inr other) e = rw (unconcerned, apply_event) refl
    where
      unconcerned : concerns j capability event ≡ false
      unconcerned =
          unfold concerns in
          elim (Bool-cases (j.equal (j.field subject (codes "capability")) (j.str capability))) [
            | inl equal ↦ absurd (other ((lawful.equal_iff _ _).0 equal))
            | inr differs ↦ rw (concerns, e.subject_eq) differs
          ]

module _ (j : Json) (lawful : IsLawful j) (d : Digest) (log : Log j) (whole : log.Store → Type 0)
    (append_only : IsAppendOnly j d log whole) (policy : Policy j.Value) (budget : TrustBudget)
    (capability : Text) (start : Rung) where
  -- The stores that `n` steps of the capability reach, whatever the sensors say and whoever approves, with
  -- any events elsewhere between them; serde reads back what they append.
  pub data Steps (store : log.Store) : ℕ → log.Store → Type 0 where
    at_rest : Steps store 0 store
    elsewhere :
        {n : ℕ} (middle after : log.Store) (kind : Text) (subject : j.Value)
        → Steps store n middle
        → Elsewhere j lawful capability kind subject
        → ReadsBack j subject
        → log.append kind subject middle ≡ (after, ok tt)
        → Steps store n after
    one_more :
        {n : ℕ} (middle after : log.Store) (sensor : Text) (inspection : Result (Judgement j.Value))
        (approver : Option Text) (outcome : StepOutcome)
        → Steps store n middle
        → ((judgement : Judgement j.Value)
            → inspection ≡ ok judgement
            → ReadsBack j judgement.subject)
        → ((before : Rung) (clean : Bool)
            → ReadsBack j (run_subject j capability before clean sensor))
        → step j log policy budget capability sensor inspection approver middle
          ≡ (after, ok outcome)
        → Steps store (suc n) after

  -- The record of a store shows a state with at most this credit.
  abbrev pub Reaches : log.Store → ℕ → Type 0
  Reaches after most =
      (reached : TrustState) × Shows j lawful d log whole append_only policy budget capability start
        after reached
      × (credit budget reached ≤ most)

  -- On a log that is append-only on whole stores, and over any steps of a capability that end well, with any
  -- events of other kinds or about other capabilities between them, the credit that the record shows grows by
  -- at most one a step: a rung takes the threshold's number of clean runs at the rung below; or there is a
  -- collision of SHA-256.
  pub Steps-bounds :
      {store : log.Store} {n : ℕ} {after : log.Store} {state : TrustState}
      → ChangesReadBack j lawful d log whole append_only policy budget capability start
      → start_rung j log policy budget capability ≡ ok start
      → Shows j lawful d log whole append_only policy budget capability start store state
      → Steps store n after
      → Reaches after (credit budget state + n) ⊎ Collision d
  Steps-bounds {state = state} changes declared shown at_rest = inl (state, shown, omega arith)
  Steps-bounds {state = state} changes declared shown
        (elsewhere {n = n} middle after kind subject steps other reads done) =
      onward (Steps-bounds changes declared shown steps)
        (λ (reached, (events, kept, seen, derived), bound).
          onward (append_only.appended kind subject middle after events kept reads done seen)
            (λ (kept_after, (event, e, grown)). inl (
              reached,
              (
                events ++ event ∷ [],
                kept_after,
                grown,
                replay-snoc j lawful capability events event start
                    ∙ apply_event-Elsewhere j lawful capability kind subject event _ other e
                    ∙ derived,
              ),
              bound,
            )))
  Steps-bounds {state = state} changes declared shown
        (one_more {n = n} middle after sensor inspection approver outcome steps verdicts runs h) =
      onward (Steps-bounds changes declared shown steps) (λ (reached, shows, bound).
        onward
          (step_lem j lawful d log whole append_only policy budget capability start sensor
            inspection approver middle after reached outcome verdicts runs changes declared shows h)
          (λ (follows, _, _). inl (
            next budget reached (is_pass outcome.verdict),
            follows,
            omega (
              arith,
              bound,
              credit-next budget (is_pass outcome.verdict) reached.rung reached.clean_since_rung,
            ),
          )))
