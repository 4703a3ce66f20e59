-- ===== src/Runlog/Traces.antt =====
-- src/runlog.rs: the appends of a run, one after another.
use trunnion.Prelude.{ℕ, Text, List, [], ◌∷◌, ◌≡◌}
use trunnion.Fault.{ok}
use trunnion.Json.{Json, Digest}
use trunnion.Keys.{Keys}
use trunnion.Runlog.{Book, Core, append}

module _ (j : Json) (d : Digest) (keys : Keys) (book : Book j) (clock : ℕ → Text) where
  -- The kind and the payload of each append.
  abbrev pub Items : Type 0
  Items = List (Text × j.Value)

  -- The appends of these items, in their order and no others, each of which ends well.
  abbrev pub Trace : Core j d keys book clock → Items → Core j d keys book clock → Type 0
  Trace core [] after = core ≡ after
  Trace core ((kind, subject) ∷ items) after =
      (mid : Core j d keys book clock) × (id : Text) × (append j d keys book clock kind subject core
        ≡ (mid, ok id))
      × Trace mid items after
