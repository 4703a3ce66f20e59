-- ===== src/Policy/Decide.antt =====
-- src/policy.rs: `Policy::decide` and `Policy::decide_with_earned`, one decision for each call, and
-- `Policy::host_parity`, which replays the host's deny list through it.
pub mod Shadow
pub mod Verdict
use trunnion.Prelude.{
  Bool, true, ◌&&◌, Text, codes, str_eq, any, find, Option, none, some, List, [], ◌∷◌, ◌++◌,
  if◌then◌else◌,
}
use trunnion.Fault.{Result, ok, ◌>>=◌}
use trunnion.Json.{Json, Digest}
use trunnion.Event.{subject_hash}
use trunnion.Policy.Ladder.{
  Effect, Rung, Action, allow, deny, hold, Gate, pre, post, gate, rung_name, effect_name,
}
use trunnion.Policy.Glob.{glob_matches, tool_pattern_matches}
use trunnion.Policy.Rules.{Capability, Rule, Policy, is_none, is_post}

pub record CallRequest (V : Type 0) : Type 0 where
  pub tool : Text
  pub target : Text
  pub args : V

pub record Decision (V : Type 0) : Type 0 where
  pub verdict : Action
  pub capability : Option Text
  pub rule : Text
  pub rung : Option Rung
  pub effect : Option Effect
  pub gate : Option Gate
  pub obligation : Option Text
  pub request : V
  pub identity : V
  pub message : Option Text

-- `Option::is_none_or`.
abbrev pub is_none_or {ℓ} : {A : Type ℓ} → Option A → (A → Bool) → Bool
is_none_or none p = true
is_none_or (some a) p = p a

abbrev pub or_else {ℓ} : {A : Type ℓ} → Option A → A → A
or_else none d = d
or_else (some a) d = a

-- The tests of the two searches: a capability by its tool patterns, a rule by its three conditions.
unfoldable pub declares : Text → Text → Capability → Bool
unfolding tool_pattern_matches
declares tool target c = any (λ p. tool_pattern_matches p tool target) c.tools

unfoldable pub rule_applies : Text → Text → Text → Rule → Bool
unfolding glob_matches str_eq
rule_applies profile cap_id target r =
    is_none_or r.matcher.capability (λ c. str_eq c cap_id)
    && is_none_or r.matcher.target_in (any (λ p. glob_matches p target))
    && is_none_or r.when (λ w. str_eq w.profile profile)

fallback_message : Text
fallback_message =
    codes
      "No capability declares this tool. Add it to a capability in config/policy.json with an effect class and a rung, then re-run."

abbrev is_catch_all : Rule → Bool
is_catch_all r = is_none r.matcher.capability && is_none r.matcher.target_in

unfoldable pub default_rule : List Rule → Text × Text
unfolding fallback_message
default_rule rules = elim (find is_catch_all rules) [
  | some r ↦ (r.id, or_else r.message fallback_message)
  | none ↦ (codes "r-default", fallback_message)
]

-- Post-hoc review with no rollback handle degrades to a gate before the call.
unfoldable pub effective_gate : Rung → Capability → Gate
unfolding gate
effective_gate rung cap =
    let g = gate rung cap.effect in if is_post g && is_none cap.rollback then pre else g

unfoldable pub verdict_of : Action → Gate → Action
verdict_of deny g = deny
verdict_of hold g = hold
verdict_of allow pre = hold
verdict_of allow _ = allow

abbrev pub review : Text
review = codes "review"

abbrev pub approval : Text
approval = codes "approval"

unfoldable pub obligation_of : Action → Gate → Option Text
obligation_of allow post = some review
obligation_of hold _ = some approval
obligation_of _ _ = none

pre_gate_message : Rung → Effect → Text
unfolding rung_name effect_name
pre_gate_message rung effect =
    codes "This call gates pre at rung "
    ++ rung_name rung
    ++ codes " for effect "
    ++ effect_name effect
    ++ codes
        " and needs an approval event before it can proceed. Ask a human approver, or lower the ambition of the call to a capability with a lower gate."

unfoldable pub message_of : Action → Option Text → Rung → Effect → Option Text
unfolding pre_gate_message
message_of deny message rung effect = message
message_of hold message rung effect = some (or_else message (pre_gate_message rung effect))
message_of allow message rung effect = none

module _ {V : Type 0} (policy : Policy V) (identity : V) where
  -- The two early returns: no capability declares the tool, and no rule applies.
  undeclared : V → Decision V
  unfolding default_rule
  undeclared request = record {
    verdict = deny;
    capability = none;
    rule = (default_rule policy.rules).0;
    rung = none;
    effect = none;
    gate = none;
    obligation = none;
    request = request;
    identity = identity;
    message = some (default_rule policy.rules).1;
  }

  no_rule : Capability → V → Decision V
  unfolding default_rule
  no_rule cap request = record {
    verdict = deny;
    capability = some cap.id;
    rule = (default_rule policy.rules).0;
    rung = some cap.rung;
    effect = some cap.effect;
    gate = none;
    obligation = none;
    request = request;
    identity = identity;
    message = some (default_rule policy.rules).1;
  }

  by_rule : Capability → Rule → Rung → V → Decision V
  unfolding effective_gate verdict_of obligation_of message_of
  by_rule cap rule rung request =
      let g = effective_gate rung cap in
      let verdict = verdict_of rule.action g in
      record {
        verdict = verdict;
        capability = some cap.id;
        rule = rule.id;
        rung = some rung;
        effect = some cap.effect;
        gate = some g;
        obligation = obligation_of verdict g;
        request = request;
        identity = identity;
        message = message_of verdict rule.message rung cap.effect;
      }

  -- The decision on a call whose request is already formed.
  unfoldable pub decide_on : Text → Text → V → (Text → Rung → Rung) → Decision V
  unfolding declares rule_applies undeclared no_rule by_rule
  decide_on tool target request earned = elim (find (declares tool target) policy.capabilities) [
    | none ↦ undeclared request
    | some cap ↦ elim (find (rule_applies policy.profile cap.id target) policy.rules) [
      | none ↦ no_rule cap request
      | some rule ↦ by_rule cap rule (earned cap.id cap.rung) request
    ]
  ]

module _ (j : Json) (d : Digest) where
  unfoldable pub request_of : CallRequest j.Value → Result j.Value
  unfolding subject_hash
  request_of call = do
    args_hash ← subject_hash j d call.args
    ok (
        j.object (
          (codes "tool", j.str call.tool)
          ∷ (codes "args_hash", j.str args_hash)
          ∷ (codes "target", j.str call.target)
          ∷ []))

  unfoldable pub decide_with_earned :
      Policy j.Value
      → j.Value
      → CallRequest j.Value
      → (Text → Rung → Rung)
      → Result (Decision j.Value)
  unfolding request_of decide_on
  decide_with_earned policy identity call earned = do
    request ← request_of call
    ok (decide_on policy identity call.tool call.target request earned)

  unfoldable pub decide : Policy j.Value → j.Value → CallRequest j.Value → Result (Decision j.Value)
  unfolding decide_with_earned
  decide policy identity call = decide_with_earned policy identity call (λ _ declared. declared)
