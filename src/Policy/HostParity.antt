-- ===== src/Policy/HostParity.antt =====
-- src/policy.rs: `Policy::host_parity`, which replays the host's deny list through the policy, and
-- `sample_target`, the target that it tries for an entry.
pub mod Replay
use trunnion.Prelude.{
  ℕ, Bool, true, false, ◌&&◌, ◌||◌, ◌==◌, Text, codes, Option, none, some, List, [], ◌∷◌, ◌++◌,
  if◌then◌else◌,
}
use trunnion.Fault.{Fault, Result, ok, err, ◌>>=◌, settings_not_json, host_entry_allowed}
use trunnion.Json.{Json, Digest}
use trunnion.Policy.Ladder.{Action, allow, deny, hold}
use trunnion.Policy.Glob.{command_prefix, parse_tool_pattern}
use trunnion.Policy.Rules.{Policy}
use trunnion.Policy.Decide.{CallRequest, Decision, decide}

-- `s.replace("**", "x")`.
replace_pairs : Text → Text
replace_pairs [] = []
replace_pairs (a ∷ []) = a ∷ []
replace_pairs (a ∷ b ∷ s) = elim (a == b'*' && b == b'*') [
  | true ↦ b'x' ∷ replace_pairs s
  | false ↦ a ∷ replace_pairs (b ∷ s)
]

-- `s.replace(['*', '?'], "x")`.
replace_wild : Text → Text
replace_wild [] = []
replace_wild (a ∷ s) = (if a == b'*' || a == b'?' then b'x' else a) ∷ replace_wild s

unfoldable pub sample_target : Text → Text
unfolding command_prefix replace_pairs replace_wild
sample_target inner = elim (command_prefix inner) [
  | some prefix ↦ prefix ++ codes " x"
  | none ↦ replace_wild (replace_pairs inner)
]

module _ (j : Json) (d : Digest) (policy : Policy j.Value) where
  unfoldable pub host_identity : j.Value
  host_identity = j.object (
      (codes "id", j.str (codes "system:policy-check"))
      ∷ (codes "source", j.str (codes "local"))
      ∷ [])

  unfoldable pub sample_call : Text → Text → CallRequest j.Value
  unfolding sample_target
  sample_call tool inner = record { tool = tool; target = sample_target inner; args = j.object [] }

  fault_of : Text → Text → Decision j.Value → List Fault
  fault_of entry target decision = elim decision.verdict [
    | allow ↦ host_entry_allowed entry target decision.rule ∷ []
    | _ ↦ []
  ]

  -- One entry of the deny list: the faults that it adds.
  check_entry : j.Value → Result (List Fault)
  unfolding parse_tool_pattern host_identity sample_call fault_of decide
  check_entry entry = elim (j.as_str entry) [
    | none ↦ ok []
    | some text ↦ elim (parse_tool_pattern text) [
      | none ↦ ok []
      | some (tool, inner) ↦ do
        decision ← decide j d policy host_identity (sample_call tool inner)
        ok (fault_of text (sample_target inner) decision)
    ]
  ]

  check_entries : List j.Value → Result (List Fault)
  unfolding check_entry
  check_entries [] = ok []
  check_entries (entry ∷ entries) = do
    faults ← check_entry entry
    rest ← check_entries entries
    ok (faults ++ rest)

  unfoldable pub deny_list : j.Value → List j.Value
  deny_list settings =
      elim (j.as_array (j.field (j.field settings (codes "permissions")) (codes "deny"))) [
        | some entries ↦ entries
        | none ↦ []
      ]

  unfoldable pub host_parity : Text → Result (List Fault)
  unfolding check_entries deny_list
  host_parity settings_json = elim (j.from_str settings_json) [
    | none ↦ err settings_not_json
    | some settings ↦ check_entries (deny_list settings)
  ]
