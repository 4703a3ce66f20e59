-- ===== src/Policy/Availability/Stance.antt =====
-- src/policy.rs: what `availability_check` lets through.
use trunnion.Prelude.{
  true, Text, codes, str_eq, str_eq_iff, Option, none, some, List, [], ◌∷◌, ◌++◌, ◌≡◌, ◌≢◌, ◌⊎◌,
  ◌↔◌, refl, inl, inr, arith,
}
use trunnion.Fault.{ok}
use trunnion.Json.{Json}
use trunnion.Policy.Availability.{
  Providable, Shortfall, provides, shortfall_of, declared_at, unavailable_requirements, stance_of,
  availability_check, settle, confinement, confines_filesystem_and_network, isolation_for,
}

-- What is declared, if anything, is provided.
abbrev pub IsProvided : Option Text → List Text → Type 0
IsProvided declared provided = (t : Text) → declared ≡ some t → provides provided t ≡ true

shortfall_of-empty :
    (field : Text) (declared : Option Text) (provided : List Text)
    → (shortfall_of field declared provided ≡ []) ↔ IsProvided declared provided
unfolding shortfall_of
shortfall_of-empty field none provided = ((λ _ t e. cc), λ _. refl)
shortfall_of-empty field (some x) provided = ((λ h t e. ground arith), λ h. rw (h x refl))

append-empty {ℓ} : {A : Type ℓ} (xs ys : List A) → ((xs ++ ys) ≡ []) ↔ ((xs ≡ []) × (ys ≡ []))
append-empty [] ys = ((λ h. (refl, h)), λ h. h.1)
append-empty (x ∷ xs) ys = ((λ h. cc), λ h. cc)

settle-ok :
    (profile stance : Text) (short out : List Shortfall)
    → settle profile stance short ≡ ok out
    → (out ≡ short) × ((stance ≡ codes "degrade") ⊎ ((stance ≡ codes "refuse") × (short ≡ [])))
unfolding settle
settle-ok profile stance [] out h =
    ground (arith, str_eq_iff stance (codes "degrade"), str_eq_iff stance (codes "refuse"))
settle-ok profile stance (s ∷ rest) out h =
    ground (arith, str_eq_iff stance (codes "degrade"), str_eq_iff stance (codes "refuse"))

settle-degrade :
    (profile stance : Text) (short : List Shortfall)
    → stance ≡ codes "degrade"
    → settle profile stance short ≡ ok short
unfolding settle str_eq
settle-degrade profile stance [] e = rw e
settle-degrade profile stance (s ∷ rest) e = rw e

settle-refuse :
    (profile stance : Text) (short : List Shortfall)
    → stance ≡ codes "refuse"
    → short ≡ []
    → settle profile stance short ≡ ok short
unfolding settle str_eq
settle-refuse profile stance [] e n = rw e
settle-refuse profile stance (s ∷ rest) e n = cc

module _ (j : Json) (requirements : j.Value) (providable : Providable) where
  abbrev at : Text → Text → Option Text
  at section name = declared_at j requirements section name

  -- Every requirement with an availability question that the profile declares is provided.
  pub record IsAvailable : Type 0 where
    pub isolation : IsProvided (at (codes "isolation") (codes "declared")) providable.isolation
    pub identity : IsProvided (at (codes "identity") (codes "declared")) providable.identity
    pub anchoring : IsProvided (at (codes "ledger") (codes "anchoring")) providable.anchoring
    pub key_custody : IsProvided (at (codes "ledger") (codes "key_custody")) providable.key_custody

  unavailable-empty : (unavailable_requirements j requirements providable ≡ []) ↔ IsAvailable
  unfolding unavailable_requirements
  unavailable-empty = (to, from)
    where
      to : unavailable_requirements j requirements providable ≡ [] → IsAvailable
      to h =
          let (a, rest) = (append-empty _ _).0 h in
          let (b, rest') = (append-empty _ _).0 rest in
          let (c, e) = (append-empty _ _).0 rest' in
          record {
            isolation = (shortfall_of-empty _ _ _).0 a;
            identity = (shortfall_of-empty _ _ _).0 b;
            anchoring = (shortfall_of-empty _ _ _).0 c;
            key_custody = (shortfall_of-empty _ _ _).0 e;
          }

      from : IsAvailable → unavailable_requirements j requirements providable ≡ []
      from s = rw (
        (shortfall_of-empty (codes "isolation.declared") _ _).1 s.isolation,
        (shortfall_of-empty (codes "identity.declared") _ _).1 s.identity,
        (shortfall_of-empty (codes "ledger.anchoring") _ _).1 s.anchoring,
        (shortfall_of-empty (codes "ledger.key_custody") _ _).1 s.key_custody,
      )

  -- A check passes exactly with the list of what is missing, and only if the profile says to degrade,
  -- or says to refuse and nothing that it declares is missing.
  pub availability_check_iff :
      (profile : Text) (short : List Shortfall)
      → (availability_check j profile requirements providable ≡ ok short) ↔ (
          (short ≡ unavailable_requirements j requirements providable)
          × ((stance_of j requirements ≡ codes "degrade")
              ⊎ ((stance_of j requirements ≡ codes "refuse") × IsAvailable)))
  unfolding availability_check
  availability_check_iff profile short = (to, from)
    where
      missing : List Shortfall
      missing = unavailable_requirements j requirements providable

      to :
          availability_check j profile requirements providable ≡ ok short
          → (short ≡ missing)
            × ((stance_of j requirements ≡ codes "degrade")
                ⊎ ((stance_of j requirements ≡ codes "refuse") × IsAvailable))
      to h =
          let (e, stance) = settle-ok profile (stance_of j requirements) missing short h in
          elim stance [
            | inl degrade ↦ (e, inl degrade)
            | inr (refuse, empty) ↦ (e, inr (refuse, unavailable-empty.0 empty))
          ]

      from :
          (short ≡ missing)
            × ((stance_of j requirements ≡ codes "degrade")
                ⊎ ((stance_of j requirements ≡ codes "refuse") × IsAvailable))
          → availability_check j profile requirements providable ≡ ok short
      from (e, inl degrade) = rw (e) (settle-degrade profile _ missing degrade)
      from (e, inr (refuse, s)) =
          rw e (settle-refuse profile _ missing refuse (unavailable-empty.1 s))

-- A host provides the confinement property exactly when its backend confines the file system and the
-- network.
pub isolation_for-confinement :
    (backend : Text)
    → backend ≢ confinement
    → provides (isolation_for backend) confinement ≡ confines_filesystem_and_network backend
unfolding isolation_for
isolation_for-confinement backend n =
    ground (arith, str_eq_iff backend confinement, str_eq_iff backend (codes "none"))
