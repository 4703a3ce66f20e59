-- ===== src/Trust.antt =====
-- src/trust.rs: the trust budget that a policy declares (`TrustBudget`), and the rung of a capability
-- as a replay of the events on the ledger (`TrustState`).
pub mod Replay
pub mod Log
pub mod Orchestrator
use trunnion.Prelude.{
  ℕ, ◌+◌, Bool, true, false, ◌&&◌, not, ◌||◌, leb, Text, codes, str_eq, any, foldl, Option, none,
  some, List, [], ◌∷◌, if◌then◌else◌,
}
use trunnion.Json.{Json}
use trunnion.Policy.Ladder.{Rung, up, parse_rung}
use trunnion.Policy.Rules.{is_none}

pub data Approver : Type 0 where
  any_identity : Approver
  named : List Text → Approver

pub record TrustBudget : Type 0 where
  pub runs_at_rung : ℕ
  pub approver : Approver
  pub demotion_triggers : List Text

pub record TrustState : Type 0 where
  pub rung : Rung
  pub clean_since_rung : ℕ

abbrev keep_text : Option Text → List Text → List Text
keep_text none rest = rest
keep_text (some t) rest = t ∷ rest

unfoldable pub approver_ok : TrustBudget → Text → Bool
unfolding str_eq
approver_ok budget identity = elim budget.approver [
  | any_identity ↦ true
  | named names ↦ any (λ n. str_eq n identity) names
]

-- Promotion is earned when clean runs reach the threshold and there is a higher rung.
unfoldable pub promotion_earned : TrustState → TrustBudget → Bool
unfolding up
promotion_earned state budget =
    leb budget.runs_at_rung state.clean_since_rung && not (is_none (up state.rung))

module _ (j : Json) where
  -- `a.iter().filter_map(|v| v.as_str().map(String::from)).collect()`.
  texts_of : List j.Value → List Text
  texts_of [] = []
  texts_of (v ∷ vs) = keep_text (j.as_str v) (texts_of vs)

  unfoldable pub named_approvers : Option (List j.Value) → List Text
  unfolding texts_of
  named_approvers none = []
  named_approvers (some names) = texts_of names

  triggers_of : Option (List j.Value) → List Text
  unfolding texts_of
  triggers_of none = codes "sensor.fail" ∷ codes "policy.deny" ∷ []
  triggers_of (some triggers) = texts_of triggers

  or_twenty : Option ℕ → ℕ
  or_twenty none = 20
  or_twenty (some n) = n

  approver_of : j.Value → Approver
  unfolding str_eq named_approvers
  approver_of promotion = elim (j.as_str (j.field promotion (codes "approver"))) [
    | none ↦ any_identity
    | some mode ↦
        if str_eq mode (codes "named")
        then named (named_approvers (j.as_array (j.field promotion (codes "named_approvers"))))
        else any_identity
  ]

  -- `TrustBudget::from_policy`, on `policy.trust_budget`.
  unfoldable pub from_policy : j.Value → TrustBudget
  unfolding or_twenty approver_of triggers_of
  from_policy tb = record {
    runs_at_rung =
        or_twenty (j.as_u64 (j.field (j.field tb (codes "promotion")) (codes "runs_at_rung")));
    approver = approver_of (j.field tb (codes "promotion"));
    demotion_triggers =
        triggers_of (j.as_array (j.field (j.field tb (codes "demotion")) (codes "triggers")));
  }

  abbrev pub subject_of : j.Value → j.Value
  subject_of ev = j.field ev (codes "_subject")

  unfoldable pub concerns : Text → j.Value → Bool
  concerns capability ev = j.equal (j.field (subject_of ev) (codes "capability")) (j.str capability)

  -- What a `rung.change` and a `capability.run` do.
  change_rung : TrustState → Option Text → TrustState
  unfolding parse_rung
  change_rung state none = state
  change_rung state (some name) = elim (parse_rung name) [
    | none ↦ state
    | some to ↦ record { rung = to; clean_since_rung = 0 }
  ]

  count_run : TrustState → Option Text → TrustState
  unfolding str_eq
  count_run state none = record state { clean_since_rung = 0 }
  count_run state (some outcome) =
      if str_eq outcome (codes "clean")
      then record state { clean_since_rung = state.clean_since_rung + 1 }
      else record state { clean_since_rung = 0 }

  apply_kind : TrustState → Option Text → j.Value → TrustState
  unfolding str_eq change_rung count_run
  apply_kind state none subj = state
  apply_kind state (some kind) subj =
      if str_eq kind (codes "rung.change")
      then change_rung state (j.as_str (j.field subj (codes "to")))
      else if str_eq kind (codes "capability.run")
      then count_run state (j.as_str (j.field subj (codes "outcome")))
      else state

  -- One round of the loop of `TrustState::replay`.
  unfoldable pub apply_event : Text → TrustState → j.Value → TrustState
  unfolding concerns apply_kind
  apply_event capability state ev =
      if concerns capability ev
      then apply_kind state (j.as_str (j.field ev (codes "kind"))) (subject_of ev)
      else state

  unfoldable pub replay : List j.Value → Text → Rung → TrustState
  unfolding apply_event
  replay events capability start_rung =
      foldl (apply_event capability) (record { rung = start_rung; clean_since_rung = 0 }) events
