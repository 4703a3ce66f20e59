-- ===== src/Policy/Decide/Verdict.antt =====
-- src/policy.rs: what a decision says, on every branch.
use trunnion.Prelude.{
  false, Text, is_blank, find, All, Option, none, some, List, ◌≡◌, ◌≢◌, ◌↔◌, refl, arith, inl, inr,
  Option-cases, All-find,
}
use trunnion.Fault.{done}
use trunnion.Policy.Ladder.{
  Effect, irreversible, Rung, led, Action, allow, deny, hold, Gate, pre, post, open_gate, gate,
}
use trunnion.Policy.Rules.{Capability, Rule, Policy, validate}
use trunnion.Policy.Rules.Sound.{IsSound, IsSpoken, validate_iff}
use trunnion.Policy.Decide.{
  Decision, or_else, rule_applies, declares, review, approval, effective_gate, verdict_of,
  obligation_of, message_of, decide_on, default_rule, fallback_message, pre_gate_message,
  is_catch_all,
}

allowed_parts :
    (rung : Rung) (cap : Capability) (action : Action)
    → verdict_of action (effective_gate rung cap) ≡ allow
    → (action ≡ allow)
      × (cap.effect ≢ irreversible)
      × (rung ≢ led)
      × (effective_gate rung cap ≡ post → cap.rollback ≢ none)
unfolding verdict_of effective_gate gate
allowed_parts rung cap action h = ground arith

-- An approval goes with a held call, and a review with a call that is allowed with a gate after it.
abbrev pub IsObliged : Action → Option Gate → Option Text → Type 0
IsObliged verdict gate obligation =
    ((obligation ≡ some approval) ↔ (verdict ≡ hold))
    × ((obligation ≡ some review) ↔ ((verdict ≡ allow) × (gate ≡ some post)))

refused : IsObliged deny none none
refused = (((λ h. cc), λ h. cc), ((λ h. cc), λ h. cc))

obligation_parts :
    (action : Action) (g : Gate)
    → IsObliged (verdict_of action g) (some g) (obligation_of (verdict_of action g) g)
unfolding verdict_of obligation_of
obligation_parts allow pre = (((λ _. refl), λ _. refl), ((λ h. cc), λ h. cc))
obligation_parts allow post = (((λ h. cc), λ h. cc), ((λ h. (refl, refl)), λ h. refl))
obligation_parts allow open_gate = (((λ h. cc), λ h. cc), ((λ h. cc), λ h. cc))
obligation_parts deny g = (((λ h. cc), λ h. cc), ((λ h. cc), λ h. cc))
obligation_parts hold g = (((λ _. refl), λ _. refl), ((λ h. cc), λ h. cc))

-- The message is there and is not blank.
abbrev pub IsLoud : Option Text → Type 0
IsLoud message = (m : Text) × (message ≡ some m) × (is_blank m ≡ false)

-- A message that is there is not blank.
abbrev pub IsNotMute : Rule → Type 0
IsNotMute r = (m : Text) → r.message ≡ some m → is_blank m ≡ false

or_else-IsLoud :
    (message : Option Text) (d : Text)
    → ((m : Text) → message ≡ some m → is_blank m ≡ false)
    → is_blank d ≡ false
    → is_blank (or_else message d) ≡ false
or_else-IsLoud none d h k = k
or_else-IsLoud (some m) d h k = h m refl

default_rule-IsLoud :
    (rules : List Rule) → All IsNotMute rules → is_blank (default_rule rules).1 ≡ false
unfolding default_rule is_blank
default_rule-IsLoud rules loud = elim (Option-cases (find is_catch_all rules)) [
  | inl e ↦ rw (e, default_rule)
  | inr (r, e) ↦
      rw (e, default_rule)
        (or_else-IsLoud r.message fallback_message (All-find _ is_catch_all rules r loud e) refl)
]

message_of-IsLoud :
    (a : Action) (g : Gate) (message : Option Text) (rung : Rung) (effect : Effect)
    → (a ≢ allow → IsLoud message)
    → ((m : Text) → message ≡ some m → is_blank m ≡ false)
    → verdict_of a g ≢ allow
    → IsLoud (message_of (verdict_of a g) message rung effect)
unfolding verdict_of message_of is_blank
message_of-IsLoud deny g message rung effect s l n = s (λ q. cc)
message_of-IsLoud hold g message rung effect s l n =
    (or_else message (pre_gate_message rung effect), refl, or_else-IsLoud message _ l refl)
message_of-IsLoud allow pre message rung effect s l n =
    (or_else message (pre_gate_message rung effect), refl, or_else-IsLoud message _ l refl)
message_of-IsLoud allow _ message rung effect s l n = absurd (n refl)

module _ {V : Type 0} (policy : Policy V) (identity : V) (tool target : Text) (request : V)
    (earned : Text → Rung → Rung) where
  abbrev decision : Decision V
  decision = decide_on policy identity tool target request earned

  -- An allowed call is by a declared capability whose effect is not irreversible, at an earned rung above
  -- `led`, and by a rule that allows; a gate after the call comes with a rollback handle.
  pub decide_on-allow :
      decision.verdict ≡ allow
      → (cap : Capability) × (rule : Rule) × (find (declares tool target) policy.capabilities
          ≡ some cap)
        × (find (rule_applies policy.profile cap.id target) policy.rules ≡ some rule)
        × (rule.action ≡ allow)
        × (cap.effect ≢ irreversible)
        × (earned cap.id cap.rung ≢ led)
        × (decision.gate ≡ some post → cap.rollback ≢ none)
  unfolding decide_on
  decide_on-allow h = elim (Option-cases (find (declares tool target) policy.capabilities)) [
    | inl e ↦ ground arith
    | inr (c, e) ↦
        elim (Option-cases (find (rule_applies policy.profile c.id target) policy.rules)) [
          | inl e' ↦ ground arith
          | inr (rule, e') ↦
              let parts = allowed_parts (earned c.id c.rung) c rule.action (ground arith) in
              (c, rule, e, e', parts.0, parts.1, parts.2, λ p. parts.3 (ground arith))
        ]
  ]

  -- A held call asks for an approval and no other does; a call allowed with a gate after it asks for a
  -- review and no other does.
  pub decide_on-obligation : IsObliged decision.verdict decision.gate decision.obligation
  unfolding decide_on
  decide_on-obligation = elim (Option-cases (find (declares tool target) policy.capabilities)) [
    | inl e ↦ rw (e, decide_on) refused
    | inr (c, e) ↦
        elim (Option-cases (find (rule_applies policy.profile c.id target) policy.rules)) [
          | inl e' ↦ rw (e, decide_on, e') refused
          | inr (rule, e') ↦
              rw (e, decide_on, e')
                (obligation_parts rule.action (effective_gate (earned c.id c.rung) c))
        ]
  ]

  -- Under a policy that loads, whose allowing rules have no blank message either, a call that is not
  -- allowed is answered with a message that is not blank.
  pub decide_on-explained :
      validate policy ≡ done
      → All IsNotMute policy.rules
      → decision.verdict ≢ allow
      → IsLoud decision.message
  unfolding decide_on
  decide_on-explained valid loud h =
      elim (Option-cases (find (declares tool target) policy.capabilities)) [
        | inl e ↦ rw (e, decide_on) (default_message, refl, default_rule-IsLoud policy.rules loud)
        | inr (c, e) ↦
            elim (Option-cases (find (rule_applies policy.profile c.id target) policy.rules)) [
              | inl e' ↦
                  rw (e, decide_on, e')
                    (default_message, refl, default_rule-IsLoud policy.rules loud)
              | inr (r, e') ↦
                  rw (e, decide_on, e')
                    (message_of-IsLoud r.action (effective_gate (earned c.id c.rung) c) r.message
                      (earned c.id c.rung) c.effect
                      (All-find IsSpoken _ policy.rules r sound.spoken e')
                      (All-find IsNotMute _ policy.rules r loud e') (rw (e, decide_on, e') at h))
            ]
      ]
    where
      default_message : Text
      default_message = (default_rule policy.rules).1

      sound : IsSound policy
      sound = (validate_iff policy).0 valid
