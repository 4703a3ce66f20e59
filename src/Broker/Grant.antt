-- ===== src/Broker/Grant.antt =====
-- src/broker.rs: `usable_grant`, the approval on the ledger that can release a held call.
pub mod Spent
use trunnion.Prelude.{
  Bool, true, false, ◌&&◌, not, any, find, map, Text, codes, Option, none, some, List, [], ◌∷◌,
}
use trunnion.Json.{Json}
use trunnion.Policy.Rules.{Policy}
use trunnion.Trust.{TrustBudget, approver_ok, from_policy, subject_of}

module _ (j : Json) where
  abbrev pub has_kind : Text → j.Value → Bool
  has_kind kind event = j.equal (j.field event (codes "kind")) (j.str kind)

  unfoldable pub subjects_of : Text → List j.Value → List j.Value
  subjects_of kind [] = []
  subjects_of kind (event ∷ events) = elim (has_kind kind event) [
    | true ↦ subject_of j event ∷ subjects_of kind events
    | false ↦ subjects_of kind events
  ]

  abbrev pub grant_id : j.Value → j.Value
  grant_id subject = j.field subject (codes "grant_id")

  abbrev pub names_grant : j.Value → j.Value → Bool
  names_grant grant subject = j.equal (grant_id subject) (grant_id grant)

  -- An `approval.use` names the grant.
  unfoldable pub is_spent : List j.Value → j.Value → Bool
  unfolding subjects_of
  is_spent history grant = any (names_grant grant) (subjects_of (codes "approval.use") history)

  unfoldable pub may_approve : TrustBudget → Option Text → Bool
  unfolding approver_ok
  may_approve budget none = false
  may_approve budget (some approver) = approver_ok budget approver

  -- The test of the search.
  unfoldable pub releases : TrustBudget → List j.Value → Text → Text → j.Value → Bool
  unfolding may_approve is_spent
  releases budget history call_hash rule g =
      j.equal (j.field g (codes "call_hash")) (j.str call_hash)
      && j.equal (j.field g (codes "rule")) (j.str rule)
      && j.equal (j.field g (codes "verdict")) (j.str (codes "approve"))
      && may_approve budget (j.as_str (j.field g (codes "approver")))
      && not (is_spent history g)

  unfoldable pub usable_grant : Policy j.Value → List j.Value → Text → Text → Option j.Value
  unfolding from_policy subjects_of releases
  usable_grant policy history call_hash rule =
      find (releases (from_policy j policy.trust_budget) history call_hash rule)
        (subjects_of (codes "approval") history)
