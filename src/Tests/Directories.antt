-- ===== src/Tests/Directories.antt =====
-- The check of src/ledger.rs on the directory of a ledger of one event, and uses of its theorems there.
use trunnion.Prelude.{
  ℕ, true, length, map, All, Any, subst, ◌≢◌, codes, str_eq, Option, none, some, List, [], ◌∷◌, ◌≡◌,
  ◌⊎◌, inl, refl, if◌then◌else◌,
}
use trunnion.Fault.{ok, log_truncated}
use trunnion.Event.{Envelope, canonical_bytes}
use trunnion.Ledger.{SignedHead, parse_pub_key}
use trunnion.Ledger.Actors.{forged, parse_with_published, state_of}
use trunnion.Ledger.Producer.{append, envelope_of}
use trunnion.Ledger.Verify.{Directory, VerifyReport, EntryFault, is_ok}
use trunnion.Ledger.Verify.Report.{verify_with_actor_keys_and_published}
use trunnion.Ledger.Verify.Sound.{IsIntact, verify_sound}
use trunnion.Ledger.Verify.Tamper.{IsClean, verify-same_log}
use trunnion.Ledger.Verify.Clean.{directory_of, Grown, fresh, grown, Grown-verifies}
use trunnion.Merkle.Collision.{Collision}
use trunnion.Tests.Sample.{Tree, toy, toy-IsSized, sample_json}
use trunnion.Tests.Bundles.{
  toy_keys, toy_keys-IsSound, key_text, working, opening, one_event, first_envelope, first_head,
  appended, key_read,
}

abbrev first_line : List ℕ
unfolding append
first_line = elim one_event.lines [ [] ↦ [] | line ∷ rest ↦ line ]

-- A reader that knows one line.
abbrev read_line : List ℕ → Option (Envelope Tree)
unfolding append envelope_of str_eq
read_line line = if str_eq line first_line then some first_envelope else none

abbrev clean_report : VerifyReport
clean_report = record {
  entries = 1;
  faults = [];
  attestations_unverified = 0;
  attestations_verified = 0;
  attestations_under_published_seed = 0;
  seq_gaps = [];
}

abbrev first_directory : Directory
unfolding append
first_directory = directory_of one_event key_text

-- The same log, with another file among the payloads.
abbrev second_directory : Directory
unfolding append str_eq
second_directory = record first_directory {
  payload = λ name. if str_eq name (codes "other") then some [] else first_directory.payload name;
}

-- Tests.
first_clean :
    verify_with_actor_keys_and_published sample_json toy toy_keys read_line first_directory [] []
    ≡ ok clean_report
unfolding verify_with_actor_keys_and_published append envelope_of
first_clean = refl

second_clean :
    verify_with_actor_keys_and_published sample_json toy toy_keys read_line second_directory [] []
    ≡ ok clean_report
unfolding verify_with_actor_keys_and_published append envelope_of
second_clean = refl

abbrev faults_in : Directory → List EntryFault
unfolding verify_with_actor_keys_and_published append envelope_of
faults_in dir =
    elim (verify_with_actor_keys_and_published sample_json toy toy_keys read_line dir [] []) [
      | ok report ↦ report.faults
      | _ ↦ []
    ]

truncated :
    faults_in (record first_directory { events = ok [] })
    ≡ record { index = some 0; id = none; fault = log_truncated 0 1 0 } ∷ []
unfolding faults_in
truncated = refl

report_ok : is_ok clean_report ≡ true
unfolding is_ok
report_ok = refl

abbrev heads_read : List (Option SignedHead)
heads_read = map some one_event.heads

first_IsClean :
    IsClean sample_json toy toy_keys toy_keys-IsSound read_line first_directory one_event.lines
      heads_read
unfolding append
first_IsClean = record {
  actor_keys = [];
  published_seeds = [];
  pub_hex = key_text;
  vk = key_text;
  report = clean_report;
  events_eq = refl;
  key_eq = refl;
  vk_eq = key_read;
  heads_eq = refl;
  report_eq = first_clean;
  ok_eq = report_ok;
}

second_IsClean :
    IsClean sample_json toy toy_keys toy_keys-IsSound read_line second_directory one_event.lines
      heads_read
unfolding append second_directory
second_IsClean = record {
  actor_keys = [];
  published_seeds = [];
  pub_hex = key_text;
  vk = key_text;
  report = clean_report;
  events_eq = refl;
  key_eq = refl;
  vk_eq = key_read;
  heads_eq = refl;
  report_eq = second_clean;
  ok_eq = report_ok;
}

head_there : Any (λ line. line ≡ some first_head) heads_read
unfolding append
head_there = inl refl

head_covers : first_head.size ≡ length one_event.lines
unfolding append
head_covers = refl

events_there : first_directory.events ≡ ok one_event.lines
unfolding append
events_there = refl

heads_there : first_directory.heads ≡ ok heads_read
unfolding append
heads_there = refl

key_there : first_directory.public_key ≡ ok key_text
unfolding append
key_there = refl

verify_sound_example :
    IsIntact sample_json toy toy_keys read_line key_text
      (parse_with_published sample_json toy toy_keys [] [])
      first_directory.payload
      one_event.lines
      heads_read
verify_sound_example =
    verify_sound sample_json toy toy_keys read_line first_directory [] [] one_event.lines key_text
      key_text heads_read clean_report events_there key_there key_read heads_there first_clean
      report_ok

verify-same_log_example : (one_event.lines ≡ one_event.lines) ⊎ Collision toy
verify-same_log_example =
    verify-same_log sample_json toy toy_keys toy_keys-IsSound read_line toy-IsSized first_directory
      second_directory one_event.lines one_event.lines heads_read heads_read first_head
      first_IsClean second_IsClean head_there head_there head_covers head_covers

one_event-Grown :
    Grown sample_json toy toy_keys toy_keys-IsSound read_line key_text (codes "k") one_event
one_event-Grown = grown working opening (fresh refl) appended

read_back :
    All
      (λ env.
        (bytes : List ℕ)
        → canonical_bytes sample_json toy env ≡ ok bytes
        → read_line bytes ≡ some env)
      one_event.envelopes
unfolding append envelope_of canonical_bytes str_eq
read_back = (
  (λ bytes e.
      let same : first_line ≡ bytes = cc in
      subst (λ b. read_line b ≡ some first_envelope) same refl),
  tt,
)

none_forged :
    All
      (λ env.
        state_of sample_json toy toy_keys (parse_with_published sample_json toy toy_keys [] []) env
        ≢ forged)
      one_event.envelopes
unfolding append envelope_of state_of
none_forged = ((λ e. cc), tt)

signing_read :
    parse_pub_key sample_json toy toy_keys key_text ≡ ok (toy_keys.public_of one_event.signing)
unfolding append
signing_read = key_read

Grown-verifies_example :
    (report : VerifyReport) × (verify_with_actor_keys_and_published sample_json toy toy_keys
        read_line
        (directory_of one_event key_text)
        []
        []
      ≡ ok report)
    × (is_ok report ≡ true)
Grown-verifies_example =
    Grown-verifies sample_json toy toy_keys toy_keys-IsSound read_line key_text (codes "k") key_text
      [] [] one_event read_back one_event-Grown signing_read none_forged
