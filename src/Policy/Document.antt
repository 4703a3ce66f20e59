-- ===== src/Policy/Document.antt =====
-- src/policy.rs: the policy as serde writes it, its version, which is the hash of its content, and
-- `Policy::load`. Reading the file and parsing its text come in as functions.
pub mod Loaded
use trunnion.Prelude.{
  ℕ, Bool, true, false, not, Text, codes, str_eq, map, Option, none, some, List, [], ◌∷◌, ◌++◌,
  if◌then◌else◌,
}
use trunnion.Fault.{
  Result, ok, err, done, ◌>>=◌, ◌>>◌, policy_unreadable, policy_malformed, version_mismatch,
}
use trunnion.Json.{Json, Digest}
use trunnion.Event.{subject_hash}
use trunnion.Policy.Ladder.{Action, allow, deny, hold, rung_name, effect_name}
use trunnion.Policy.Rules.{Capability, RuleMatch, RuleWhen, Rule, Policy, validate}

unfoldable pub action_name : Action → Text
action_name allow = codes "allow"
action_name deny = codes "deny"
action_name hold = codes "hold"

-- `map.remove(k)`.
without_key {ℓ} : {V : Type ℓ} → Text → List (Text × V) → List (Text × V)
unfolding str_eq
without_key k [] = []
without_key k ((l, v) ∷ fields) =
    let rest = without_key k fields in if str_eq l k then rest else (l, v) ∷ rest

module _ (j : Json) (d : Digest) where
  abbrev texts : List Text → j.Value
  texts ts = j.array (map j.str ts)

  abbrev or_null_text : Option Text → j.Value
  or_null_text none = j.null
  or_null_text (some t) = j.str t

  abbrev or_null_texts : Option (List Text) → j.Value
  or_null_texts none = j.null
  or_null_texts (some ts) = texts ts

  when_value : Option RuleWhen → j.Value
  when_value none = j.null
  when_value (some w) = j.object ((codes "profile", j.str w.profile) ∷ [])

  capability_value : Capability → j.Value
  unfolding effect_name rung_name
  capability_value c = j.object (
      (codes "id", j.str c.id)
      ∷ (codes "tools", texts c.tools)
      ∷ (codes "effect", j.str (effect_name c.effect))
      ∷ (codes "rung", j.str (rung_name c.rung))
      ∷ (codes "credentials", texts c.credentials)
      ∷ (codes "rollback", or_null_text c.rollback)
      ∷ (codes "sensors", texts c.sensors)
      ∷ [])

  rule_value : Rule → j.Value
  unfolding action_name when_value
  rule_value r = j.object (
      (codes "id", j.str r.id)
      ∷ (
        codes "match",
        j.object (
            (codes "capability", or_null_text r.matcher.capability)
            ∷ (codes "target_in", or_null_texts r.matcher.target_in)
            ∷ []),
      )
      ∷ (codes "when", when_value r.when)
      ∷ (codes "action", j.str (action_name r.action))
      ∷ (codes "message", or_null_text r.message)
      ∷ [])

  policy_fields : Policy j.Value → List (Text × j.Value)
  unfolding capability_value rule_value
  policy_fields p =
      (codes "v", j.number p.v)
      ∷ (codes "policy_version", or_null_text p.policy_version)
      ∷ (codes "profile", j.str p.profile)
      ∷ (codes "profile_requirements", p.profile_requirements)
      ∷ (codes "capabilities", j.array (map capability_value p.capabilities))
      ∷ (codes "rules", j.array (map rule_value p.rules))
      ∷ (codes "trust_budget", p.trust_budget)
      ∷ []

  unfoldable pub version : Policy j.Value → Result Text
  unfolding subject_hash without_key policy_fields
  version p = subject_hash j d (j.object (without_key (codes "policy_version") (policy_fields p)))

  check_written : Option Text → Text → Result (Unit {0})
  unfolding str_eq
  check_written none computed = done
  check_written (some written) computed =
      if not (str_eq written computed) then err (version_mismatch written computed) else done

  accept : Policy j.Value → Result (Policy j.Value)
  unfolding version check_written validate
  accept policy = do
    computed ← version policy
    check_written policy.policy_version computed
    validate (record policy { policy_version = some computed })
    ok (record policy { policy_version = some computed })

  after_parse : Option (Policy j.Value) → Result (Policy j.Value)
  unfolding accept
  after_parse none = err policy_malformed
  after_parse (some policy) = accept policy

  unfoldable pub load : (Text → Option (Policy j.Value)) → Option Text → Result (Policy j.Value)
  unfolding after_parse
  load parse none = err policy_unreadable
  load parse (some text) = after_parse (parse text)
