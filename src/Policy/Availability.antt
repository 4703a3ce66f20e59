-- ===== src/Policy/Availability.antt =====
-- src/policy.rs: what a system can provide for a profile (`Providable`), what it cannot
-- (`unavailable_requirements`), and what follows at run open (`availability_check`).
-- src/sandbox.rs: the property that a backend holds (`confines_filesystem_and_network`).
pub mod Stance
use trunnion.Prelude.{
  Bool, true, false, ◌&&◌, ◌||◌, Text, codes, str_eq, any, map, Option, none, some, List, [], ◌∷◌,
  ◌++◌, if◌then◌else◌, not,
}
use trunnion.Fault.{Result, ok, err, unknown_stance, requirements_unavailable}
use trunnion.Json.{Json}

pub record Providable : Type 0 where
  pub isolation : List Text
  pub identity : List Text
  pub anchoring : List Text
  pub key_custody : List Text

pub record Shortfall : Type 0 where
  pub field : Text
  pub declared : Text
  pub providable : List Text

abbrev pub confinement : Text
confinement = codes "per_run_confinement"

unfoldable pub confines_filesystem_and_network : Text → Bool
unfolding str_eq
confines_filesystem_and_network backend =
    str_eq backend (codes "seatbelt") || str_eq backend (codes "landlock-v4")

with_none : Text → List Text
unfolding str_eq
with_none provided =
    if str_eq provided (codes "none") then codes "none" ∷ [] else provided ∷ codes "none" ∷ []

-- `out.insert(out.len() - 1, x)`, on a list that is not empty.
insert_before_last : Text → List Text → List Text
insert_before_last x [] = x ∷ []
insert_before_last x (a ∷ []) = x ∷ a ∷ []
insert_before_last x (a ∷ b ∷ s) = a ∷ insert_before_last x (b ∷ s)

unfoldable pub isolation_for : Text → List Text
unfolding with_none confines_filesystem_and_network insert_before_last
isolation_for backend =
    if confines_filesystem_and_network backend
    then insert_before_last confinement (with_none backend)
    else with_none backend

unfoldable pub for_this_build : Text → Providable
unfolding isolation_for with_none
for_this_build backend = record {
  isolation = isolation_for backend;
  identity = with_none (codes "local");
  anchoring = codes "none" ∷ [];
  key_custody = codes "software" ∷ [];
}

abbrev pub provides : List Text → Text → Bool
provides provided declared = any (λ p. str_eq p declared) provided

-- One field: what is declared for it, if anything, against what is provided.
shortfall_of : Text → Option Text → List Text → List Shortfall
shortfall_of field none provided = []
shortfall_of field (some declared) provided =
    if provides provided declared
    then []
    else record { field = field; declared = declared; providable = provided } ∷ []

abbrev refuses : Text → List Shortfall → Bool
refuses stance [] = false
refuses stance (s ∷ rest) = str_eq stance (codes "refuse")

-- The two tests of `availability_check`, on a stance and what is missing.
settle : Text → Text → List Shortfall → Result (List Shortfall)
unfolding str_eq
settle profile stance short =
    if not (str_eq stance (codes "degrade")) && not (str_eq stance (codes "refuse"))
    then err (unknown_stance stance)
    else if refuses stance short
    then err (requirements_unavailable profile (map (λ (s : Shortfall). s.field) short))
    else ok short

module _ (j : Json) where
  -- `requirements[section][name].as_str()`.
  unfoldable pub declared_at : j.Value → Text → Text → Option Text
  declared_at requirements section name = j.as_str (j.field (j.field requirements section) name)

  unfoldable pub unavailable_requirements : j.Value → Providable → List Shortfall
  unfolding shortfall_of declared_at
  unavailable_requirements requirements providable =
      shortfall_of (codes "isolation.declared")
        (declared_at requirements (codes "isolation") (codes "declared")) providable.isolation
      ++ (shortfall_of (codes "identity.declared")
            (declared_at requirements (codes "identity") (codes "declared")) providable.identity
          ++ (shortfall_of (codes "ledger.anchoring")
                (declared_at requirements (codes "ledger") (codes "anchoring")) providable.anchoring
              ++ shortfall_of (codes "ledger.key_custody")
                  (declared_at requirements (codes "ledger") (codes "key_custody"))
                  providable.key_custody))

  -- `requirements["on_unavailable"].as_str().unwrap_or("degrade")`.
  unfoldable pub stance_of : j.Value → Text
  stance_of requirements = elim (j.as_str (j.field requirements (codes "on_unavailable"))) [
    | some stance ↦ stance
    | none ↦ codes "degrade"
  ]

  unfoldable pub availability_check : Text → j.Value → Providable → Result (List Shortfall)
  unfolding settle stance_of unavailable_requirements
  availability_check profile requirements providable =
      settle profile (stance_of requirements) (unavailable_requirements requirements providable)
