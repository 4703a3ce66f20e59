-- ===== src/Trust/Log.antt =====
-- src/runlog.rs and src/ledger.rs as src/trust.rs uses them: an append and the history of the events,
-- each with its payload under `_subject`.
use trunnion.Prelude.{Text, codes, List, [], ◌∷◌, ◌++◌, ◌≡◌, ◌⊎◌}
use trunnion.Fault.{Result, ok}
use trunnion.Json.{Json, Digest, ReadsBack}
use trunnion.Merkle.Collision.{Collision}

pub record Log (j : Json) : Type 1 where
  pub Store : Type 0
  pub append : Text → j.Value → Store → Store × Result (Unit {0})
  pub history : Store → Result (List j.Value)

-- An event as the history shows it.
pub record IsEvent (j : Json) (kind : Text) (subject event : j.Value) : Type 0 where
  pub kind_eq : j.field event (codes "kind") ≡ j.str kind
  pub subject_eq : j.field event (codes "_subject") ≡ subject

-- On a store that is whole, an append of a payload that serde reads back, and that ends well, adds one event
-- at the end of the history and leaves the store whole, or there is a collision of SHA-256.
pub record IsAppendOnly (j : Json) (d : Digest) (log : Log j) (whole : log.Store → Type 0)
    : Type 0 where
  pub appended :
      (kind : Text) (subject : j.Value) (store after : log.Store) (events : List j.Value)
      → whole store
      → ReadsBack j subject
      → log.append kind subject store ≡ (after, ok tt)
      → log.history store ≡ ok events
      → (whole after
          × ((event : j.Value) × IsEvent j kind subject event
              × (log.history after ≡ ok (events ++ event ∷ []))))
        ⊎ Collision d
