-- ===== src/Broker/Call/Delegated.antt =====
-- src/broker.rs: a run under a delegated grant.
use trunnion.Prelude.{
  Bool, true, ◌&&◌, not, if◌then◌else◌, Bool-cases, Option-cases, find, Text, Option, none, some,
  List, ◌≡◌, ◌≢◌, refl, sym, ap, ◌∙◌, subst, inl, inr,
}
use trunnion.Fault.{Result, ok, err, >>=-eq-ok}
use trunnion.Json.{Json, Digest}
use trunnion.Keys.{Keys}
use trunnion.Policy.Ladder.{Action, allow, deny, hold, Rung}
use trunnion.Policy.Rules.{Policy}
use trunnion.Policy.Decide.{
  CallRequest, Decision, declares, rule_applies, decide_on, request_of, decide_with_earned,
}
use trunnion.Secrets.{contains}
use trunnion.Trust.{replay}
use trunnion.Broker.{Site, Run}
use trunnion.Broker.Steps.{if-step}
use trunnion.Broker.Call.{
  builtin_args, is_deny, delegation_denial, narrowed_to, narrowed, decide_call,
}

is_deny-eq : (verdict : Action) → is_deny verdict ≡ true → verdict ≡ deny
is_deny-eq deny h = refl
is_deny-eq allow h = cc
is_deny-eq hold h = cc

module _ {V : Type 0} where
  narrowed_to-capability :
      (granted : List Text) (o : Option Text) (decision : Decision V)
      → (narrowed_to granted o decision).capability ≡ decision.capability
  unfolding narrowed_to
  narrowed_to-capability granted none decision = refl
  narrowed_to-capability granted (some c) decision =
      if-step (λ (e : Decision V). e.capability ≡ decision.capability)
        (not (is_deny decision.verdict) && not (contains granted c)) refl refl

  narrowed_to-contains :
      (granted : List Text) (c : Text) (decision : Decision V)
      → (narrowed_to granted (some c) decision).verdict ≢ deny
      → contains granted c ≡ true
  unfolding narrowed_to
  narrowed_to-contains granted c decision kept = elim (Bool-cases (contains granted c)) [
    | inl inside ↦ inside
    | inr outside ↦ elim (Bool-cases (is_deny decision.verdict)) [
      | inl denied ↦
          absurd (kept (rw (outside, denied, narrowed_to) (is_deny-eq decision.verdict denied)))
      | inr live ↦ absurd (kept (rw (outside, live, narrowed_to) refl))
    ]
  ]

  narrowed_to-live :
      (granted : List Text) (o : Option Text) (decision : Decision V)
      → (narrowed_to granted o decision).verdict ≢ deny
      → decision.verdict ≢ deny
  unfolding narrowed_to
  narrowed_to-live granted none decision kept denied = kept denied
  narrowed_to-live granted (some c) decision kept denied = kept (denied_too (contains granted c))
    where
      denied_too :
          (inside : Bool)
          → (if not (is_deny decision.verdict) && not inside
              then delegation_denial c decision
              else decision).verdict
            ≡ deny
      denied_too inside = rw (ap is_deny denied) denied

  -- The decision of a call that is not denied names a capability.
  IsNamed : Decision V → Type 0
  IsNamed decision = (cap : Text) × (decision.capability ≡ some cap)

  decide_on-IsNamed :
      (policy : Policy V) (identity : V) (tool target : Text) (request : V)
      (earned : Text → Rung → Rung)
      → (decide_on policy identity tool target request earned).verdict ≢ deny
      → IsNamed (decide_on policy identity tool target request earned)
  unfolding decide_on IsNamed
  decide_on-IsNamed policy identity tool target request earned kept =
      elim (Option-cases (find (declares tool target) policy.capabilities)) [
        | inl undeclared_tool ↦ absurd (kept (rw (undeclared_tool, decide_on) refl))
        | inr (c, e) ↦
            elim (Option-cases (find (rule_applies policy.profile c.id target) policy.rules)) [
              | inl e' ↦ absurd (kept (rw (e, decide_on, e') refl))
              | inr (rule, e') ↦ (c.id, rw (e, decide_on, e') refl)
            ]
      ]

  narrowed-contains :
      (granted : List Text) (before after : Decision V)
      → narrowed (some granted) before ≡ after
      → after.verdict ≢ deny
      → (before.verdict ≢ deny → IsNamed before)
      → (cap : Text) × (after.capability ≡ some cap) × (contains granted cap ≡ true)
  unfolding narrowed IsNamed
  narrowed-contains granted before after h kept named =
      let still : (narrowed_to granted before.capability before).verdict ≢ deny =
        λ denied. kept (sym (ap (λ (x : Decision V). x.verdict) h) ∙ denied) in
      let (cap, e) = named (narrowed_to-live granted before.capability before still) in
      (
        cap,
        sym (ap (λ (x : Decision V). x.capability) h)
            ∙ (narrowed_to-capability granted before.capability before ∙ e),
        narrowed_to-contains granted cap before
            (λ denied. still (ap (λ x. (narrowed_to granted x before).verdict) e ∙ denied)),
      )

module _ (j : Json) (d : Digest) where
  decide_with_earned-IsNamed :
      (policy : Policy j.Value) (identity : j.Value) (call : CallRequest j.Value)
      (earned : Text → Rung → Rung) (decision : Decision j.Value)
      → decide_with_earned j d policy identity call earned ≡ ok decision
      → decision.verdict ≢ deny
      → IsNamed decision
  unfolding decide_with_earned
  decide_with_earned-IsNamed policy identity call earned decision h kept =
      let (request, _, e) = >>=-eq-ok (request_of j d call) _ h in
      let same : decide_on policy identity call.tool call.target request earned ≡ decision = cc in
      subst IsNamed same (
        decide_on-IsNamed policy identity call.tool call.target request earned
          (λ denied. kept (ap (λ (x : Decision j.Value). x.verdict) (sym same) ∙ denied)))

-- Under a delegated grant, a call that is not denied is of a capability, and the grant has it.
pub decide_call-contains :
    (j : Json) (d : Digest) (keys : Keys) (site : Site j) (run : Run j d keys site)
    (history : List j.Value) (tool target : Text) (granted : List Text)
    (decision : Decision j.Value)
    → run.grant ≡ some granted
    → decide_call j d keys site run history tool target ≡ ok decision
    → decision.verdict ≢ deny
    → (cap : Text) × (decision.capability ≡ some cap) × (contains granted cap ≡ true)
unfolding decide_call
decide_call-contains j d keys site run history tool target granted decision delegated h kept =
    by_result (decide_with_earned j d run.policy run.identity request earned) refl h
  where
    request : CallRequest j.Value
    request = record { tool = tool; target = target; args = builtin_args j d keys site tool target }

    earned : Text → Rung → Rung
    earned cap_id declared = (replay j history cap_id declared).rung

    by_result :
        (r : Result (Decision j.Value))
        → decide_with_earned j d run.policy run.identity request earned ≡ r
        → ◌≡◌ {A = Result (Decision j.Value)}
            (elim r [ err f ↦ err f | ok before ↦ ok (narrowed run.grant before) ])
            (ok decision)
        → (cap : Text) × (decision.capability ≡ some cap) × (contains granted cap ≡ true)
    by_result (err fault) e e' = cc
    by_result (ok before) e e' =
        let same : narrowed run.grant before ≡ decision = cc in
        narrowed-contains granted before decision
          (ap (λ g. narrowed g before) (sym delegated) ∙ same) kept
          (decide_with_earned-IsNamed j d run.policy run.identity request earned before e)
