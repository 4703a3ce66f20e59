-- ===== src/Tests/Loading.antt =====
-- A load of the sample policy, and a use of its theorem.
use trunnion.Prelude.{Text, codes, some, [], ◌≡◌, refl}
use trunnion.Fault.{Result, ok, err, version_mismatch}
use trunnion.Policy.Rules.{Policy}
use trunnion.Policy.Document.{version, load}
use trunnion.Policy.Document.Loaded.{versioned, IsLoaded, load_lem}
use trunnion.Tests.Sample.{Tree, toy, sample_json}
use trunnion.Tests.Documents.{policy}

abbrev text_of : Result Text → Text
text_of (ok t) = t
text_of (err fault) = []

abbrev computed : Text
unfolding version
computed = text_of (version sample_json toy policy)

loaded :
    load sample_json toy (λ _. some policy) (some [])
    ≡ ok (versioned sample_json toy policy computed)
unfolding load version
loaded = refl

refused :
    load sample_json toy (λ _. some (versioned sample_json toy policy (codes "v1"))) (some [])
    ≡ err (version_mismatch (codes "v1") computed)
unfolding load version
refused = refl

load_lem_example :
    (document : Policy Tree) × (hash : Text) × (some policy ≡ some document)
    × IsLoaded sample_json toy document hash (versioned sample_json toy policy computed)
load_lem_example =
    load_lem sample_json toy (λ _. some policy) [] (versioned sample_json toy policy computed)
      loaded
