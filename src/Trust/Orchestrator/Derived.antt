-- ===== src/Trust/Orchestrator/Derived.antt =====
-- src/trust.rs: the rung that `Orchestrator::step` reports against the one that the record gives.
use trunnion.Prelude.{
  Bool, true, false, Text, codes, str_eq, Option, none, some, List, [], ◌∷◌, ◌++◌, ◌≡◌, refl, ap,
  ◌∙◌, if◌then◌else◌, Bool-cases, ◌⊎◌, inl, inr,
}
use trunnion.Fault.{Result, ok, err}
use trunnion.Json.{Json, Digest, IsLawful, ReadsBack}
use trunnion.Merkle.Collision.{Collision}
use trunnion.Policy.Ladder.{Rung, up, down}
use trunnion.Policy.Rules.{Policy}
use trunnion.Trust.{TrustBudget, TrustState, approver_ok, promotion_earned, replay}
use trunnion.Trust.Log.{Log, IsAppendOnly}
use trunnion.Trial.{give, chain-eq-ok}
use trunnion.Trust.Replay.{
  after_run, replay-snoc, apply_event-other, apply_event-run, apply_event-change,
}
use trunnion.Trust.Orchestrator.{
  Verdict, Judgement, StepOutcome, is_pass, earned_trigger, demotion, promotion, demotes_on_failure,
  run_subject, approval_subject, change_subject, start_rung, emit_rung_change, run_sensor, demote,
  raise, promote, weigh, consider, settle, conclude, move, record_run, step,
}

-- The rungs of a capability as a machine of its own: a clean run counts, and one that earns a
-- promotion moves up; any other run resets the count, and moves down where failures demote.
abbrev enter : TrustState → Option Rung → TrustState
enter state none = state
enter state (some to) = record { rung = to; clean_since_rung = 0 }

abbrev raised : TrustBudget → TrustState → TrustState
raised budget state = if promotion_earned state budget then enter state (up state.rung) else state

abbrev lowered : TrustBudget → TrustState → TrustState
lowered budget state = if demotes_on_failure budget then enter state (down state.rung) else state

abbrev pub next : TrustBudget → TrustState → Bool → TrustState
next budget state true = raised budget (after_run state true)
next budget state false = lowered budget (after_run state false)

pub onward : {A B C : Type 0} → A ⊎ C → (A → B ⊎ C) → B ⊎ C
onward (inl a) rest = rest a
onward (inr c) rest = inr c

module _ (j : Json) (lawful : IsLawful j) (d : Digest) (log : Log j) (whole : log.Store → Type 0)
    (append_only : IsAppendOnly j d log whole) (policy : Policy j.Value) (budget : TrustBudget)
    (capability : Text) (start : Rung) where
  -- The store is whole, and the record shows the capability in this state.
  abbrev pub Shows : log.Store → TrustState → Type 0
  Shows store state =
      (events : List j.Value) × whole store
      × (log.history store ≡ ok events)
      × (replay j events capability start ≡ state)

  append_other :
      (kind : Text) (subject : j.Value) (store after : log.Store) (state : TrustState)
      → str_eq kind (codes "rung.change") ≡ false
      → str_eq kind (codes "capability.run") ≡ false
      → ReadsBack j subject
      → log.append kind subject store ≡ (after, ok tt)
      → Shows store state
      → Shows after state ⊎ Collision d
  append_other kind subject store after state a b reads done (events, kept, seen, derived) =
      onward (append_only.appended kind subject store after events kept reads done seen)
        (λ (kept_after, (event, e, grown)). inl (
          events ++ event ∷ [],
          kept_after,
          grown,
          replay-snoc j lawful capability events event start
              ∙ apply_event-other j lawful capability kind subject event _ a b e
              ∙ derived,
        ))

  append_run :
      (before : Rung) (clean : Bool) (sensor : Text) (store after : log.Store) (state : TrustState)
      → log.append (codes "capability.run") (run_subject j capability before clean sensor) store
        ≡ (after, ok tt)
      → ReadsBack j (run_subject j capability before clean sensor)
      → Shows store state
      → Shows after (after_run state clean) ⊎ Collision d
  append_run before clean sensor store after state done reads (events, kept, seen, derived) =
      onward (append_only.appended _ _ store after events kept reads done seen)
        (λ (kept_after, (event, e, grown)). inl (
          events ++ event ∷ [],
          kept_after,
          grown,
          replay-snoc j lawful capability events event start
              ∙ apply_event-run j lawful capability before clean sensor event _ e
              ∙ ap (λ (st : TrustState). after_run st clean) derived,
        ))

  -- serde reads back the payloads of a promotion or a demotion between two rungs.
  abbrev pub ChangesReadBack : Type 0
  ChangesReadBack =
      (from to : Rung) (approver : Option Text)
      → ReadsBack j (approval_subject j capability from to approver)
        × ReadsBack j (change_subject j capability from to earned_trigger approver)
        × ReadsBack j (change_subject j capability from to demotion none)

  append_change :
      (from to : Rung) (trigger : Text) (approver : Option Text) (store after : log.Store)
      (state : TrustState)
      → log.append
          (codes "rung.change")
          (change_subject j capability from to trigger approver)
          store
        ≡ (after, ok tt)
      → ReadsBack j (change_subject j capability from to trigger approver)
      → Shows store state
      → Shows after (enter state (some to)) ⊎ Collision d
  append_change from to trigger approver store after state done reads
        (events, kept, seen, derived) =
      onward (append_only.appended _ _ store after events kept reads done seen)
        (λ (kept_after, (event, e, grown)). inl (
          events ++ event ∷ [],
          kept_after,
          grown,
          replay-snoc j lawful capability events event start
              ∙ apply_event-change j lawful capability from to trigger approver event _ e,
        ))

  emit_rung_change-Shows :
      (from to : Rung) (trigger : Text) (approver : Option Text) (store after : log.Store)
      (state : TrustState)
      → emit_rung_change j log policy budget capability from to trigger approver store
        ≡ (after, ok tt)
      → ReadsBack j (approval_subject j capability from to approver)
      → ReadsBack j (change_subject j capability from to trigger approver)
      → Shows store state
      → Shows after (enter state (some to)) ⊎ Collision d
  unfolding emit_rung_change
  emit_rung_change-Shows from to trigger approver store after state h approval change shown =
      let (between, _, first, second) = chain-eq-ok _ _ after tt h in
      onward (approved (str_eq trigger earned_trigger) between first)
        (append_change from to trigger approver between after state second change)
    where
      approved :
          (earned : Bool) (between : log.Store)
          → (if earned
                then log.append (codes "approval") (approval_subject j capability from to approver)
                else give (ok tt))
              store
            ≡ (between, ok tt)
          → Shows between state ⊎ Collision d
      approved true between first =
          append_other (codes "approval") _ store between state (unfold str_eq in refl)
            (unfold str_eq in refl) approval first shown
      approved false between first =
          inl (rw (← ap (λ (p : log.Store × Result (Unit {0})). p.0) first) shown)

  -- A step's outcome: the rung that it gives is the rung of the state that the record then shows.
  abbrev Settles : log.Store → TrustState → Rung → Type 0
  Settles after state reported = Shows after state × (reported ≡ state.rung)

  unchanged :
      (store after : log.Store) (state : TrustState) (reported : Rung) (change : Option Text)
      → ◌≡◌ {A = log.Store × Result (Rung × Option Text)}
          (store, ok (state.rung, none))
          (after, ok (reported, change))
      → Shows store state
      → Settles after state reported
  unchanged store after state reported change h shown =
      (rw (← ap (λ (p : log.Store × Result (Rung × Option Text)). p.0) h) shown, cc)

  module _ (changes : ChangesReadBack) where
    settled :
        (store between after : log.Store) (state : TrustState) (to reported : Rung)
        (change given : Option Text)
        → Shows between (enter state (some to)) ⊎ Collision d
        → ◌≡◌ {A = log.Store × Result (Rung × Option Text)}
            (between, ok (to, given))
            (after, ok (reported, change))
        → Settles after (enter state (some to)) reported ⊎ Collision d
    settled store between after state to reported change given (inr collision) e = inr collision
    settled store between after state to reported change given (inl shown) e =
        inl (rw (← ap (λ (p : log.Store × Result (Rung × Option Text)). p.0) e) shown, cc)

    demote-Settles :
        (lower : Option Rung) (store after : log.Store) (state : TrustState) (reported : Rung)
        (change : Option Text)
        → demote j log policy budget capability state.rung lower store
          ≡ (after, ok (reported, change))
        → Shows store state
        → Settles after (enter state lower) reported ⊎ Collision d
    unfolding demote
    demote-Settles none store after state reported change h shown =
        inl (unchanged store after state reported change h shown)
    demote-Settles (some lower) store after state reported change h shown =
        let (between, _, first, second) = chain-eq-ok _ _ after (reported, change) h in
        let (approval, _, demoted) = changes state.rung lower none in
        settled store between after state lower reported change (some demotion)
          (emit_rung_change-Shows state.rung lower demotion none store between state first approval
            demoted shown)
          second

    raise-Settles :
        (higher : Option Rung) (promoter : Text) (store after : log.Store) (state : TrustState)
        (reported : Rung) (change : Option Text)
        → raise j log policy budget capability state.rung promoter higher store
          ≡ (after, ok (reported, change))
        → Shows store state
        → Settles after (enter state higher) reported ⊎ Collision d
    unfolding raise
    raise-Settles none promoter store after state reported change h shown = cc
    raise-Settles (some higher) promoter store after state reported change h shown =
        let (between, _, first, second) = chain-eq-ok _ _ after (reported, change) h in
        let (approval, earned, _) = changes state.rung higher (some promoter) in
        settled store between after state higher reported change (some promotion)
          (emit_rung_change-Shows state.rung higher earned_trigger (some promoter) store between
            state first approval earned shown)
          second

    promote-Settles :
        (store after : log.Store) (state : TrustState) (approver : Option Text) (reported : Rung)
        (change : Option Text)
        → promote j log policy budget capability state.rung approver store
          ≡ (after, ok (reported, change))
        → Shows store state
        → Settles after (enter state (up state.rung)) reported ⊎ Collision d
    unfolding promote
    promote-Settles store after state none reported change h shown = cc
    promote-Settles store after state (some promoter) reported change h shown =
        elim (Bool-cases (approver_ok budget promoter)) [
          | inr refused ↦ absurd (cc (rw (refused, promote) at h))
          | inl permitted ↦
              raise-Settles (up state.rung) promoter store after state reported change
                (rw (permitted, promote) at h) shown
        ]

    consider-Settles :
        (store after : log.Store) (state : TrustState) (approver : Option Text) (reported : Rung)
        (change : Option Text)
        → consider j log policy budget capability start state.rung approver store
          ≡ (after, ok (reported, change))
        → Shows store state
        → Settles after (raised budget state) reported ⊎ Collision d
    unfolding consider weigh
    consider-Settles store after state approver reported change h (events, kept, seen, derived) =
        elim (Bool-cases (promotion_earned state budget)) [
          | inl earned ↦ rw earned (
              promote-Settles store after state approver reported change
                (rw (seen, weigh, derived, earned) at h) (events, kept, seen, derived))
          | inr early ↦ rw early (
              inl (
                unchanged store after state reported change (rw (seen, weigh, derived, early) at h)
                  (events, kept, seen, derived)))
        ]

    -- `settle` moves the state that the run's own event has left.
    settle-Settles :
        (clean : Bool) (store after : log.Store) (state : TrustState) (approver : Option Text)
        (reported : Rung) (change : Option Text)
        → settle j log policy budget capability start state.rung clean approver store
          ≡ (after, ok (reported, change))
        → Shows store (after_run state clean)
        → Settles after (next budget state clean) reported ⊎ Collision d
    unfolding settle
    settle-Settles true store after state approver reported change h shown =
        consider-Settles store after (after_run state true) approver reported change h shown
    settle-Settles false store after state approver reported change h shown =
        elim (Bool-cases (demotes_on_failure budget)) [
          | inl sharp ↦ rw sharp (
              demote-Settles (down state.rung) store after (after_run state false) reported change
                (rw (sharp, settle) at h) shown)
          | inr blunt ↦ rw blunt (
              inl (
                unchanged store after (after_run state false) reported change
                  (rw (blunt, settle) at h) shown))
        ]

  run_sensor-Shows :
      (inspection : Result (Judgement j.Value)) (store after : log.Store) (verdict : Verdict)
      (state : TrustState)
      → ((judgement : Judgement j.Value)
          → inspection ≡ ok judgement
          → ReadsBack j judgement.subject)
      → run_sensor j log policy budget inspection store ≡ (after, ok verdict)
      → Shows store state
      → Shows after state ⊎ Collision d
  unfolding run_sensor
  run_sensor-Shows (err fault) store after verdict state reads h shown = cc
  run_sensor-Shows (ok judgement) store after verdict state reads h shown =
      let (between, _, first, second) = chain-eq-ok _ _ after verdict h in
      rw (← ap (λ (p : log.Store × Result Verdict). p.0) second) (
        append_other (codes "sensor.verdict") judgement.subject store between state
          (unfold str_eq in refl) (unfold str_eq in refl) (reads judgement refl) first shown)

  -- What a step has to end with, from the state that the record showed before it.
  abbrev pub Follows : log.Store → TrustState → StepOutcome → Type 0
  Follows after state outcome =
      Shows after (next budget state (is_pass outcome.verdict))
      × (outcome.rung_before ≡ state.rung)
      × (outcome.rung_after ≡ (next budget state (is_pass outcome.verdict)).rung)

  concluded :
      (store after : log.Store) (before reported : Rung) (verdict : Verdict) (change : Option Text)
      (outcome : StepOutcome)
      → conclude j log policy budget before verdict (reported, change) store ≡ (after, ok outcome)
      → (store ≡ after)
        × (record {
          rung_before = before;
          rung_after = reported;
          verdict = verdict;
          change = change;
        }
            ≡ outcome)
  concluded store after before reported verdict change outcome h = (cc, cc)

  move-Follows :
      (verdict : Verdict) (store after : log.Store) (state : TrustState) (approver : Option Text)
      (outcome : StepOutcome)
      → ChangesReadBack
      → move j log policy budget capability start state.rung approver verdict store
        ≡ (after, ok outcome)
      → Shows store (after_run state (is_pass verdict))
      → Follows after state outcome ⊎ Collision d
  unfolding move
  move-Follows verdict store after state approver outcome changes h shown =
      let (mid, (reported, change), first, last) =
        chain-eq-ok
          (settle j log policy budget capability start state.rung (is_pass verdict) approver store)
          (conclude j log policy budget state.rung verdict) after outcome h in
      let (same, reads) = concluded mid after state.rung reported verdict change outcome last in
      rw (← same, ← reads)
        (onward
          (settle-Settles changes (is_pass verdict) store mid state approver reported change first
            shown)
          (λ (shows, agrees). inl (shows, refl, agrees)))

  -- On a log that is append-only on whole stores, as the program's own is while no payload is gone
  -- (Runlog/Recorded), with payloads that serde reads back, a step that ends well moves the state that a
  -- replay of the record gives exactly as the machine `next` does on the sensor's verdict, and reports the
  -- rungs of the record before and after it, or there is a collision of SHA-256.
  pub step_lem :
      (sensor : Text) (inspection : Result (Judgement j.Value)) (approver : Option Text)
      (store after : log.Store) (state : TrustState) (outcome : StepOutcome)
      → ((judgement : Judgement j.Value)
          → inspection ≡ ok judgement
          → ReadsBack j judgement.subject)
      → ((before : Rung) (clean : Bool)
          → ReadsBack j (run_subject j capability before clean sensor))
      → ChangesReadBack
      → start_rung j log policy budget capability ≡ ok start
      → Shows store state
      → step j log policy budget capability sensor inspection approver store ≡ (after, ok outcome)
      → Follows after state outcome ⊎ Collision d
  unfolding step
  step_lem sensor inspection approver store after state outcome reads_verdict reads_run changes
        declared (events, kept, seen, derived) h =
      let (inspected, verdict, first, rest) =
        chain-eq-ok (run_sensor j log policy budget inspection store)
          (record_run j log policy budget capability sensor start state.rung approver) after outcome
          (rw (declared, step, seen, derived) at h) in
      let (counted, _, second, last) =
        chain-eq-ok
          (log.append (codes "capability.run")
            (run_subject j capability state.rung (is_pass verdict) sensor) inspected)
          (λ _. move j log policy budget capability start state.rung approver verdict) after outcome
          (unfold record_run in rest) in
      onward
        (run_sensor-Shows inspection store inspected verdict state reads_verdict first
          (events, kept, seen, derived))
        (λ shown.
          onward
            (append_run state.rung (is_pass verdict) sensor inspected counted state second
              (reads_run state.rung (is_pass verdict)) shown)
            (move-Follows verdict counted after state approver outcome changes last))
