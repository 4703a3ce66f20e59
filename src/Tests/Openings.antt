-- ===== src/Tests/Openings.antt =====
-- Openings of broker runs, and model calls in them.
use trunnion.Prelude.{ℕ, Text, codes, str_eq, some, List, [], ◌∷◌, ◌≡◌, refl}
use trunnion.Fault.{Result, ok, err, policy_unversioned}
use trunnion.Policy.Rules.{Policy}
use trunnion.Broker.{Run}
use trunnion.Broker.Open.{Ground, open_run, model_call}
use trunnion.Gateway.{replied}
use trunnion.Tests.Sample.{Tree, number, toy, sample_json}
use trunnion.Tests.Bundles.{toy_keys}
use trunnion.Tests.Documents.{policy}
use trunnion.Tests.Runs.{around}
use trunnion.Tests.Calls.{toy_site, opened}
use trunnion.Tests.Models.{reply, net_with, provider, pinning}

abbrev ground_of : Result Text → Ground Tree
ground_of workdir = record {
  around = around;
  run_id = codes "run-9";
  backend = codes "landlock-v4";
  workdir = workdir;
  values_of = λ handles. [];
  zero_cost = number 0;
}

abbrev first_id : Result (Run sample_json toy toy_keys toy_site × Result Text) → Result Text
first_id (err fault) = err fault
first_id (ok (run, result)) = result

abbrev open_with : Policy Tree → Result Text
unfolding open_run
open_with p = first_id (
    open_run sample_json toy toy_keys toy_site (ground_of (ok (codes "/tmp/w"))) pinning [] [] p
      (codes "work"))

abbrev kinds_after : List Text → ℕ
unfolding model_call
kinds_after tainted =
    (model_call sample_json toy toy_keys toy_site (net_with (replied reply)) provider [] tainted
      (opened, [])).0.0.core.next_seq

-- Tests.
needs_version : open_with policy ≡ err policy_unversioned
unfolding open_run
needs_version = refl

taint_noted : kinds_after (codes "run-7-req-0" ∷ []) ≡ 2
unfolding model_call str_eq
taint_noted = refl

no_taint : kinds_after [] ≡ 1
unfolding model_call str_eq
no_taint = refl

opens :
    open_with
      (record policy { policy_version = some (codes "v1"); profile_requirements = number 0 })
    ≡ ok (codes "run-9-0")
unfolding open_run str_eq
opens = refl
