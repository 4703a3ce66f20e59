-- ===== src/Tests/Runs.antt =====
-- Runs of src/runlog.rs and src/broker.rs on a ledger that is a list, and uses of their theorems there.
use trunnion.Prelude.{ℕ, Text, codes, str_eq, none, some, List, [], ◌∷◌, ◌++◌, ◌≡◌, ◌≢◌, refl}
use trunnion.Fault.{Result, ok}
use trunnion.Ledger.{SignedHead}
use trunnion.Ledger.Actors.{key_id_for}
use trunnion.Trust.Log.{IsAppendOnly}
use trunnion.Runlog.{Book, Core, ActorSigner, Surroundings, append, seal, declared}
use trunnion.Runlog.Declared.{IsDeclared, declared-IsDeclared}
use trunnion.Runlog.Recorded.{ledger_book, WholeCore, run_log, run_log-IsAppendOnly}
use trunnion.Runlog.Numbered.{now, after, Later-id_differs}
use trunnion.Tests.Sample.{
  Tree, nothing, text, key, event_of, toy, sample_json, sample_json-IsLawful,
}
use trunnion.Tests.Bundles.{toy_keys, toy_keys-IsSound, working}

abbrev pub some_head : SignedHead
some_head = record { size = 1; root_hash = codes "sha256:"; ts = []; key_id = []; sig = [] }

abbrev pub list_book : Book sample_json
list_book = record {
  Store = List Tree;
  append = λ ev events. (events ++ event_of ev.kind ev.subject ∷ [], ok tt);
  history = λ events. ok events;
  latest_head = λ events. ok some_head;
}

abbrev pub still_clock : ℕ → Text
still_clock n = []

abbrev pub fresh_core : Core sample_json toy toy_keys list_book still_clock
fresh_core = record {
  ledger = [];
  run_id = codes "run-7";
  next_seq = 0;
  actor = text (codes "agent");
  authority = nothing;
  signer = none;
}

abbrev seed : Text
seed = codes "12345678901234567890123456789012"

abbrev actor_key_id : Text
unfolding key_id_for
actor_key_id = key_id_for sample_json toy toy_keys seed

abbrev pub around : Surroundings
around = record { variable = λ _. some seed; file = λ _. none; published_seed_hexes = none }

abbrev attestation_block : Tree
attestation_block = key (codes "declared") (text (codes "ed25519")) (
    key (codes "seed_env") (text (codes "SEED")) (key (codes "key_id") (text actor_key_id) nothing))

abbrev signed_profile : Tree
signed_profile = key (codes "attestation") attestation_block nothing

abbrev actor_signer : ActorSigner (List ℕ)
actor_signer = record { key = seed; key_id = actor_key_id }

abbrev run_append :
    Text
    → Tree
    → Core sample_json toy toy_keys list_book still_clock
    → Core sample_json toy toy_keys list_book still_clock × Result Text
run_append = append sample_json toy toy_keys list_book still_clock

-- Tests.
declares_signer :
    declared sample_json toy toy_keys around (codes "solo") signed_profile ≡ ok (some actor_signer)
unfolding declared key_id_for
declares_signer = refl

declares_none : declared sample_json toy toy_keys around (codes "solo") nothing ≡ ok none
unfolding declared
declares_none = refl

first_append : run_append (codes "run.open") nothing fresh_core ≡ (
  record fresh_core { ledger = event_of (codes "run.open") nothing ∷ []; next_seq = 1 },
  ok (codes "run-7-0"),
)
unfolding append
first_append = refl

signed_append :
    (run_append (codes "run.open") nothing (record fresh_core { signer = some actor_signer })).1
    ≡ ok (codes "run-7-0")
unfolding append
signed_append = refl

seals :
    (seal sample_json toy toy_keys list_book still_clock nothing (codes "complete") fresh_core).1
    ≡ ok some_head
unfolding seal
seals = refl

declared-IsDeclared_example :
    (sample_json.as_str (sample_json.field attestation_block (codes "declared"))
      ≡ some (codes "ed25519"))
    × IsDeclared sample_json toy toy_keys around (codes "solo") attestation_block actor_signer
unfolding str_eq
declared-IsDeclared_example =
    declared-IsDeclared sample_json toy toy_keys around (codes "solo") signed_profile actor_signer
      declares_signer

run_log-IsAppendOnly_example :
    IsAppendOnly sample_json toy
      (run_log sample_json toy toy_keys
        (ledger_book sample_json sample_json-IsLawful toy toy_keys toy_keys-IsSound working
          still_clock)
        still_clock)
      (WholeCore sample_json sample_json-IsLawful toy toy_keys toy_keys-IsSound working still_clock)
run_log-IsAppendOnly_example =
    run_log-IsAppendOnly sample_json sample_json-IsLawful toy toy_keys toy_keys-IsSound working
      still_clock

abbrev core_after :
    Core sample_json toy toy_keys list_book still_clock
    → Core sample_json toy toy_keys list_book still_clock
core_after core = (run_append (codes "note") nothing core).0

second_append :
    run_append (codes "note") nothing (core_after (core_after fresh_core))
    ≡ (core_after (core_after (core_after fresh_core)), ok (codes "run-7-2"))
unfolding append
second_append = refl

zeroth_append :
    run_append (codes "note") nothing fresh_core ≡ (core_after fresh_core, ok (codes "run-7-0"))
unfolding append
zeroth_append = refl

Later-id_differs_example : codes "run-7-0" ≢ codes "run-7-2"
Later-id_differs_example =
    Later-id_differs sample_json toy toy_keys list_book still_clock (codes "note") (codes "note")
      nothing nothing fresh_core (core_after fresh_core) (core_after (core_after fresh_core))
      (core_after (core_after (core_after fresh_core))) (codes "run-7-0") (codes "run-7-2")
      zeroth_append (after now (codes "note") nothing) second_append
