-- ===== src/Trust/Orchestrator/Promotion.antt =====
-- src/trust.rs: what a promotion rests on.
use trunnion.Prelude.{
  Bool, true, false, Text, codes, str_eq, Option, none, some, List, ◌≡◌, ◌≢◌, refl, ap, ◌∙◌,
  Bool-cases, Option-cases, inl, inr,
}
use trunnion.Fault.{Result, ok}
use trunnion.Json.{Json}
use trunnion.Policy.Ladder.{Rung, up, down}
use trunnion.Policy.Rules.{Policy}
use trunnion.Trust.{TrustBudget, approver_ok, promotion_earned, replay}
use trunnion.Trust.Log.{Log}
use trunnion.Trial.{give, chain-eq-ok}
use trunnion.Trust.Orchestrator.{
  Verdict, pass, fail, broken, Judgement, StepOutcome, is_pass, earned_trigger, demotion, promotion,
  demotes_on_failure, run_subject, approval_subject, change_subject, start_rung, emit_rung_change,
  run_sensor, demote, raise, promote, weigh, consider, settle, conclude, move, record_run, step,
}

module _ (j : Json) (log : Log j) (policy : Policy j.Value) (budget : TrustBudget)
    (capability : Text) where
  -- A promotion from a rung to another, by an approver if any was named, from a store to another: the
  -- promoter is named and permitted, the history that the first store shows earns the promotion, and the
  -- only events between the two are the promoter's approval and the change of rung.
  pub record IsPromotion (start before to : Rung) (approver : Option Text)
      (recorded after : log.Store) : Type 0 where
    pub promoter : Text
    pub events : List j.Value
    pub approved : log.Store
    pub named : approver ≡ some promoter
    pub permitted : approver_ok budget promoter ≡ true
    pub higher : up before ≡ some to
    pub seen : log.history recorded ≡ ok events
    pub earned : promotion_earned (replay j events capability start) budget ≡ true
    pub approval_first :
        log.append
          (codes "approval")
          (approval_subject j capability before to (some promoter))
          recorded
        ≡ (approved, ok tt)
    pub change_last :
        log.append
          (codes "rung.change")
          (change_subject j capability before to earned_trigger (some promoter))
          approved
        ≡ (after, ok tt)

  demote_other :
      (before reported : Rung) (lower : Option Rung) (store after : log.Store)
      → demote j log policy budget capability before lower store
        ≢ (after, ok (reported, some promotion))
  unfolding demote
  demote_other before reported none store after h = cc
  demote_other before reported (some lower) store after h =
      let (between, _, first, second) =
        chain-eq-ok
          (emit_rung_change j log policy budget capability before lower demotion none store)
          (λ _. give (ok (lower, some demotion))) after (reported, some promotion) h in
      cc

  emit_earned :
      (before to : Rung) (promoter : Text) (store after : log.Store)
      → emit_rung_change j log policy budget capability before to earned_trigger
          (some promoter)
          store
        ≡ (after, ok tt)
      → (approved : log.Store) × (log.append
            (codes "approval")
            (approval_subject j capability before to (some promoter))
            store
          ≡ (approved, ok tt))
        × (log.append
              (codes "rung.change")
              (change_subject j capability before to earned_trigger (some promoter))
              approved
            ≡ (after, ok tt))
  unfolding emit_rung_change str_eq
  emit_earned before to promoter store after h =
      let (approved, _, approval, change) =
        chain-eq-ok
          (log.append (codes "approval") (approval_subject j capability before to (some promoter))
            store)
          (λ _.
            log.append (codes "rung.change")
              (change_subject j capability before to earned_trigger (some promoter)))
          after tt h in
      (approved, approval, change)

  raise_promotes :
      (start before reported : Rung) (promoter : Text) (events : List j.Value)
      (store after : log.Store)
      → approver_ok budget promoter ≡ true
      → log.history store ≡ ok events
      → promotion_earned (replay j events capability start) budget ≡ true
      → raise j log policy budget capability before promoter (up before) store
        ≡ (after, ok (reported, some promotion))
      → IsPromotion start before reported (some promoter) store after
  unfolding raise
  raise_promotes start before reported promoter events store after permitted seen earned h =
      elim (Option-cases (up before)) [
        | inl ceiling ↦ absurd (cc (rw (ceiling, raise) at h))
        | inr (to, e) ↦
            let (between, _, first, second) =
              chain-eq-ok
                (emit_rung_change j log policy budget capability before to earned_trigger
                  (some promoter) store)
                (λ _. give (ok (to, some promotion))) after (reported, some promotion)
                (rw (e, raise) at h) in
            let same : between ≡ after =
              ap (λ (p : log.Store × Result (Rung × Option Text)). p.0) second in
            let goal : to ≡ reported = cc in
            let (approved, approval, change) = emit_earned before to promoter store between first in
            record {
              promoter = promoter;
              events = events;
              approved = approved;
              named = refl;
              permitted = permitted;
              higher = rw (← goal) e;
              seen = seen;
              earned = earned;
              approval_first = rw (← goal) approval;
              change_last = rw (← goal, ← same) change;
            }
      ]

  promote_promotes :
      (start before reported : Rung) (approver : Option Text) (events : List j.Value)
      (store after : log.Store)
      → log.history store ≡ ok events
      → promotion_earned (replay j events capability start) budget ≡ true
      → promote j log policy budget capability before approver store
        ≡ (after, ok (reported, some promotion))
      → IsPromotion start before reported approver store after
  unfolding promote
  promote_promotes start before reported none events store after seen earned h = cc
  promote_promotes start before reported (some promoter) events store after seen earned h =
      elim (Bool-cases (approver_ok budget promoter)) [
        | inr refused ↦ absurd (cc (rw (refused, promote) at h))
        | inl permitted ↦
            raise_promotes start before reported promoter events store after permitted seen earned
              (rw (permitted, promote) at h)
      ]

  weigh_promotes :
      (start before reported : Rung) (approver : Option Text) (events : List j.Value)
      (store after : log.Store)
      → log.history store ≡ ok events
      → weigh j log policy budget capability start before approver events store
        ≡ (after, ok (reported, some promotion))
      → IsPromotion start before reported approver store after
  unfolding weigh
  weigh_promotes start before reported approver events store after seen h =
      elim (Bool-cases (promotion_earned (replay j events capability start) budget)) [
        | inl earned ↦
            promote_promotes start before reported approver events store after seen earned
              (rw (earned, weigh) at h)
        | inr early ↦ absurd (cc (rw (early, weigh) at h))
      ]

  settle_promotes :
      (start before reported : Rung) (clean : Bool) (approver : Option Text)
      (store after : log.Store)
      → settle j log policy budget capability start before clean approver store
        ≡ (after, ok (reported, some promotion))
      → (clean ≡ true) × IsPromotion start before reported approver store after
  unfolding settle consider
  settle_promotes start before reported true approver store after h =
      let (between, events, first, second) =
        chain-eq-ok (store, log.history store)
          (weigh j log policy budget capability start before approver) after
          (reported, some promotion) h in
      let same : store ≡ between = ap (λ (p : log.Store × Result (List j.Value)). p.0) first in
      let seen : log.history store ≡ ok events =
        ap (λ (p : log.Store × Result (List j.Value)). p.1) first in
      (refl, weigh_promotes start before reported approver events store after seen (rw same second))
  settle_promotes start before reported false approver store after h =
      elim (Bool-cases (demotes_on_failure budget)) [
        | inl sharp ↦
            absurd
              (demote_other before reported (down before) store after (rw (sharp, settle) at h))
        | inr blunt ↦ absurd (cc (rw (blunt, settle) at h))
      ]

  passed : (verdict : Verdict) → is_pass verdict ≡ true → verdict ≡ pass
  passed pass h = refl
  passed fail h = cc
  passed broken h = cc

  -- What a step that moved has moved by.
  record Moved (start before : Rung) (verdict : Verdict) (approver : Option Text)
      (store after : log.Store) (outcome : StepOutcome) : Type 0 where
    clean : is_pass verdict ≡ true
    passes : outcome.verdict ≡ pass
    same_before : before ≡ outcome.rung_before
    promoted : IsPromotion start outcome.rung_before outcome.rung_after approver store after

  move_promotes :
      (start before : Rung) (verdict : Verdict) (approver : Option Text) (store after : log.Store)
      (outcome : StepOutcome)
      → move j log policy budget capability start before approver verdict store
        ≡ (after, ok outcome)
      → outcome.change ≡ some promotion
      → Moved start before verdict approver store after outcome
  unfolding move
  move_promotes start before verdict approver store after outcome h promoted =
      let (settled, (reported, change), first, last) =
        chain-eq-ok
          (settle j log policy budget capability start before (is_pass verdict) approver store)
          (conclude j log policy budget before verdict) after outcome h in
      let (same, reads) = concluded settled after before reported verdict change outcome last in
      let changed : change ≡ some promotion = ap (λ (o : StepOutcome). o.change) reads ∙ promoted in
      let (clean, is_promotion) =
        settle_promotes start before reported (is_pass verdict) approver store settled
          (first ∙ ap (λ (c : Option Text). (settled, ok (reported, c))) changed) in
      rw (← same, ← reads)
        (record {
          clean = clean;
          passes = passed verdict clean;
          same_before = refl;
          promoted = is_promotion;
        })
    where
      concluded :
          (store after : log.Store) (before reported : Rung) (verdict : Verdict)
          (change : Option Text) (outcome : StepOutcome)
          → conclude j log policy budget before verdict (reported, change) store
            ≡ (after, ok outcome)
          → (store ≡ after)
            × (record {
              rung_before = before;
              rung_after = reported;
              verdict = verdict;
              change = change;
            }
                ≡ outcome)
      concluded store after before reported verdict change outcome h = (cc, cc)

  clean_run :
      {before reported : Rung} {clean : Bool} (sensor : Text) (inspected recorded : log.Store)
      → before ≡ reported
      → clean ≡ true
      → log.append (codes "capability.run") (run_subject j capability before clean sensor) inspected
        ≡ (recorded, ok tt)
      → log.append
          (codes "capability.run")
          (run_subject j capability reported true sensor)
          inspected
        ≡ (recorded, ok tt)
  clean_run sensor inspected recorded same is_clean h = rw (← same, ← is_clean) h

  -- A step that reports a promotion had a passing sensor, appended its clean run, and then was a promotion
  -- in every respect: a named and permitted promoter, the history right after the run, which earned it, the
  -- approval on the record before the change, and the change last.
  pub step_promotes :
      (start : Rung) (events : List j.Value) (sensor : Text)
      (inspection : Result (Judgement j.Value)) (approver : Option Text) (store after : log.Store)
      (outcome : StepOutcome)
      → start_rung j log policy budget capability ≡ ok start
      → log.history store ≡ ok events
      → step j log policy budget capability sensor inspection approver store ≡ (after, ok outcome)
      → outcome.change ≡ some promotion
      → (outcome.verdict ≡ pass)
        × ((inspected : log.Store) × (recorded : log.Store) × (log.append
                (codes "capability.run")
                (run_subject j capability outcome.rung_before true sensor)
                inspected
              ≡ (recorded, ok tt))
            × IsPromotion start outcome.rung_before outcome.rung_after approver recorded after)
  unfolding step record_run
  step_promotes start events sensor inspection approver store after outcome declared seen h
        promoted =
      let before : Rung = (replay j events capability start).rung in
      let (inspected, verdict, _, rest) =
        chain-eq-ok (run_sensor j log policy budget inspection store)
          (record_run j log policy budget capability sensor start before approver) after outcome
          (rw (declared, step, seen) at h) in
      let (counted, _, run, last) =
        chain-eq-ok
          (log.append (codes "capability.run")
            (run_subject j capability before (is_pass verdict) sensor) inspected)
          (λ _. move j log policy budget capability start before approver verdict) after outcome
          rest in
      let moved = move_promotes start before verdict approver counted after outcome last promoted in
      (
        moved.passes,
        (
          inspected,
          counted,
          clean_run sensor inspected counted moved.same_before moved.clean run,
          moved.promoted,
        ),
      )
