-- ===== src/Tests/Walks.antt =====
-- A walk of src/drift.rs over a small profile.
use trunnion.Prelude.{true, Text, codes, none, some, List, [], ◌∷◌, ◌≡◌, refl}
use trunnion.Fault.{err, external}
use trunnion.Drift.{Running, FieldReport, walk, tally, diverged_ids, report}
use trunnion.Drift.Observed.{Rests, report-Rests}
use trunnion.Tests.Sample.{Tree, nothing, key, text, toy, sample_json}
use trunnion.Tests.Documents.{policy}

abbrev running : Running Tree
running = record {
  instructions = err (external 2);
  settings = none;
  backend = codes "seatbelt";
  head_present = true;
  last_event = some nothing;
}

abbrev spec_of : Text → Text → Tree
spec_of source declared =
    key (codes "observed_by") (text source) (key (codes "declared") (text declared) nothing)

abbrev profile : Tree
profile =
    key (codes "isolation") (spec_of (codes "sandbox.active_backend") (codes "per_run_confinement"))
      (key (codes "egress") (spec_of (codes "sandbox.egress_allow") (codes "x")) (
        key (codes "custody") (spec_of (codes "ledger.head") (codes "remote")) (
          key (codes "rung_default") (text (codes "assisted"))
            (key (codes "pack") (spec_of (codes "gateway.instruction_hash") (codes "x")) nothing))))

abbrev reports : List FieldReport
unfolding walk
reports = walk sample_json toy (record policy { profile_requirements = profile }) running

-- Tests.
counts : tally reports ≡ (1, 1, 3)
unfolding tally walk
counts = refl

names_divergence : diverged_ids reports ≡ codes "custody.declared" ∷ []
unfolding diverged_ids walk
names_divergence = refl

report-Rests_example :
    Rests sample_json toy running (spec_of (codes "ledger.head") (codes "remote")) (
      report sample_json toy
        (codes "custody")
        (spec_of (codes "ledger.head") (codes "remote"))
        running)
report-Rests_example =
    report-Rests sample_json toy running (codes "custody")
      (spec_of (codes "ledger.head") (codes "remote"))
