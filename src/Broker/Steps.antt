-- ===== src/Broker/Steps.antt =====
-- src/broker.rs: the steps of a chain in the broker, by how each one ends.
use trunnion.Prelude.{Bool, true, false, if◌then◌else◌, Text, ◌≡◌, refl}
use trunnion.Fault.{Fault, Result, ok, err}
use trunnion.Trial.{Trial, chain, give}
use trunnion.Json.{Json, Digest}
use trunnion.Keys.{Keys}
use trunnion.Runlog.{Core, append}
use trunnion.Broker.{Site, Run, with_core, record_event}

pub if-step {ℓ κ} :
    {A : Type ℓ} {a b : A} (P : A → Type κ) (test : Bool) → P a → P b → P (if test then a else b)
if-step P true pa pb = pa
if-step P false pa pb = pb

-- A step that changes nothing.
pub give-step {ℓ} :
    {S A B : Type 0} (P : S × Result B → Type ℓ) (r : Result A) (rest : A → Trial S B) (s : S)
    → ((fault : Fault) → r ≡ err fault → P (s, err fault))
    → ((a : A) → r ≡ ok a → P (rest a s))
    → P (chain (give r s) rest)
give-step P (err fault) rest s fails goes = fails fault refl
give-step P (ok a) rest s fails goes = goes a refl

module _ (j : Json) (d : Digest) (keys : Keys) (site : Site j) where
  abbrev appended :
      Text → j.Value → Run j d keys site → Core j d keys site.book site.clock × Result Text
  appended kind subject run = append j d keys site.book site.clock kind subject run.core

  -- An event on the ledger: only the core changes.
  pub record-step {ℓ} :
      {B : Type 0} (P : Run j d keys site × Result B → Type ℓ) (kind : Text) (subject : j.Value)
      (rest : Text → Trial (Run j d keys site) B) (run : Run j d keys site)
      → ((core : Core j d keys site.book site.clock) (fault : Fault)
          → append j d keys site.book site.clock kind subject run.core ≡ (core, err fault)
          → P (record run { core = core }, err fault))
      → ((core : Core j d keys site.book site.clock) (id : Text)
          → append j d keys site.book site.clock kind subject run.core ≡ (core, ok id)
          → P (rest id (record run { core = core })))
      → P (chain (record_event j d keys site kind subject run) rest)
  unfolding record_event
  record-step P kind subject rest run fails goes = by_result (appended kind subject run) refl
    where
      by_result :
          (r : Core j d keys site.book site.clock × Result Text)
          → appended kind subject run ≡ r
          → P (chain (with_core j d keys site run r) rest)
      by_result (core, err fault) e = fails core fault e
      by_result (core, ok id) e = goes core id e
