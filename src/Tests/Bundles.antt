-- ===== src/Tests/Bundles.antt =====
-- Runs of src/ledger.rs on a ledger of one event, and uses of its theorems there.
use trunnion.Prelude.{
  any, true, map, strip_prefix, some, ℕ, ◌≤◌, length, get_elem?, take, Text, codes, str_eq,
  str_eq_refl, Option, none, some, List, [], ◌∷◌, ◌++◌, ◌≡◌, ◌⊎◌, refl, arith,
}
use trunnion.Fault.{ok, done}
use trunnion.Keys.{Keys, IsSound}
use trunnion.Event.{Envelope, NewEvent, subject_hash, canonical_bytes}
use trunnion.Merkle.{leaf_hash, root}
use trunnion.Merkle.Collision.{Collision}
use trunnion.Ledger.{
  SignedHead, InclusionBundle, parse_hash, parse_pub_key, verify_head_sig, verify_bundle,
  verify_consistency_hex,
}
use trunnion.Ledger.Offline.{leaves_of, verify_bundle_sound, verify_consistency_hex_sound}
use trunnion.Ledger.Producer.{Disk, State, last_of, envelope_of, append, prove}
use trunnion.Ledger.Producer.Kept.{IsKept, append-IsKept}
use trunnion.Ledger.Producer.Expiry.{IsGone, expire, expire-IsKept}
use trunnion.Ledger.Producer.Proved.{prove-verifies}
use trunnion.Tests.Sample.{
  Tree, render, nothing, text, cut, length-cut, toy, toy-IsSized, sample_json,
}

abbrev pub toy_keys : Keys
toy_keys = record {
  Secret = List ℕ;
  Public = List ℕ;
  secret_from_bytes = λ bytes. bytes;
  public_from_bytes = λ bytes. some bytes;
  public_bytes = λ public. public;
  public_of = λ secret. secret;
  sign = λ secret message. cut 64 message;
  check = λ public message signature. str_eq signature (cut 64 message);
}

pub toy_keys-IsSound : IsSound toy toy_keys
toy_keys-IsSound = record {
  length-sign = λ secret message. length-cut 64 message;
  check-sign = λ secret message. str_eq_refl (cut 64 message);
  unhex-hex = λ bytes. refl;
}

abbrev pub key_text : Text
key_text = codes "0123456789abcdef0123456789abcdef"

abbrev pub working : Disk
working = record { payload_write = ok tt; event_write = ok tt; head_write = ok tt }

abbrev pub opening : NewEvent Tree
opening = record {
  id = codes "run-1-0";
  run_id = codes "run-1";
  parent_id = none;
  seq = 0;
  ts = codes "t0";
  kind = codes "run.open";
  actor = nothing;
  authority = nothing;
  subject = text (codes "hello");
  redacted = [];
  attestation = none;
}

abbrev pub empty : State sample_json toy toy_keys
empty = record {
  signing = key_text;
  key_id = codes "k";
  envelopes = [];
  leaves = [];
  payloads = [];
  lines = [];
  heads = [];
}

abbrev pub hash_of_hello : Text
hash_of_hello = codes "sha256:" ++ cut 32 (render (text (codes "hello")))

abbrev pub first_envelope : Envelope Tree
unfolding envelope_of
first_envelope = envelope_of sample_json toy toy_keys empty opening hash_of_hello

abbrev pub one_event : State sample_json toy toy_keys
unfolding append
one_event = (append sample_json toy toy_keys working opening empty).0

pub appended :
    append sample_json toy toy_keys working opening empty ≡ (one_event, ok first_envelope)
unfolding append
appended = refl

empty-IsKept : IsKept sample_json toy toy_keys toy_keys-IsSound empty
empty-IsKept = record { leaves_eq = refl; entries = tt; latest = λ head e. cc }

append-IsKept_example :
    IsKept sample_json toy toy_keys toy_keys-IsSound one_event
    × ((s_hash : Text) × (subject_hash sample_json toy opening.subject ≡ ok s_hash)
        × (first_envelope ≡ envelope_of sample_json toy toy_keys empty opening s_hash))
append-IsKept_example =
    append-IsKept sample_json toy toy_keys toy_keys-IsSound working opening empty one_event
      first_envelope empty-IsKept appended

abbrev head_or : Option SignedHead → SignedHead
head_or (some head) = head
head_or none = record { size = 0; root_hash = []; ts = []; key_id = []; sig = [] }

abbrev pub first_head : SignedHead
first_head = head_or (last_of one_event.heads)

abbrev first_bundle : InclusionBundle Tree
first_bundle = record { envelope = first_envelope; index = 0; proof = []; head = first_head }

proved : prove sample_json toy toy_keys one_event 0 ≡ ok first_bundle
unfolding prove append
proved = refl

pub key_read : parse_pub_key sample_json toy toy_keys key_text ≡ ok key_text
unfolding parse_pub_key
key_read = refl

prove-verifies_example : verify_bundle sample_json toy toy_keys first_bundle key_text ≡ done
unfolding one_event
prove-verifies_example =
    prove-verifies sample_json toy toy_keys toy_keys-IsSound toy-IsSized one_event 0 first_bundle
      key_text one_event-IsKept key_read proved
  where
    one_event-IsKept : IsKept sample_json toy toy_keys toy_keys-IsSound one_event
    one_event-IsKept =
        (append-IsKept sample_json toy toy_keys toy_keys-IsSound working opening empty one_event
          first_envelope empty-IsKept appended).0

head_root :
    parse_hash sample_json toy toy_keys first_head.root_hash
    ≡ some (root toy (leaves_of toy one_event.lines))
unfolding parse_hash append root leaf_hash
head_root = refl

head_size : first_head.size ≡ length one_event.lines
unfolding append
head_size = refl

bundle_checks : verify_bundle sample_json toy toy_keys first_bundle key_text ≡ done
unfolding verify_bundle append
bundle_checks = refl

verify_bundle_sound_example :
    (vk : List ℕ) × (bytes : List ℕ) × (parse_pub_key sample_json toy toy_keys key_text ≡ ok vk)
    × (verify_head_sig sample_json toy toy_keys first_head vk ≡ done)
    × (canonical_bytes sample_json toy first_envelope ≡ ok bytes)
    × ((get_elem? one_event.lines 0 ≡ some bytes) ⊎ Collision toy)
verify_bundle_sound_example =
    verify_bundle_sound sample_json toy toy_keys toy-IsSized one_event.lines first_bundle key_text
      head_root head_size bundle_checks

prefix_checks :
    verify_consistency_hex sample_json toy toy_keys 1 first_head.root_hash first_head [] key_text
    ≡ done
unfolding verify_consistency_hex append
prefix_checks = refl

verify_consistency_hex_sound_example :
    (vk : List ℕ) × (parse_pub_key sample_json toy toy_keys key_text ≡ ok vk)
    × (verify_head_sig sample_json toy toy_keys first_head vk ≡ done)
    × (1 ≤ length one_event.lines)
    × ((parse_hash sample_json toy toy_keys first_head.root_hash
          ≡ some (root toy (leaves_of toy (take 1 one_event.lines))))
        ⊎ Collision toy)
verify_consistency_hex_sound_example =
    verify_consistency_hex_sound sample_json toy toy_keys toy-IsSized one_event.lines 1
      first_head.root_hash first_head [] key_text head_root head_size (omega arith) prefix_checks

abbrev expiry : NewEvent Tree
expiry = record opening { kind = codes "retention.expire"; subject = text (codes "gone") }

abbrev pub name_of_hello : Text
name_of_hello = cut 32 (render (text (codes "hello")))

abbrev hash_of_gone : Text
hash_of_gone = codes "sha256:" ++ cut 32 (render (text (codes "gone")))

abbrev second_envelope : Envelope Tree
unfolding envelope_of append
second_envelope = envelope_of sample_json toy toy_keys one_event expiry hash_of_gone

abbrev expired_ledger : State sample_json toy toy_keys
unfolding expire append
expired_ledger = (expire sample_json toy toy_keys working (ok tt) hash_of_hello expiry one_event).0

expired :
    expire sample_json toy toy_keys working (ok tt) hash_of_hello expiry one_event
    ≡ (expired_ledger, ok second_envelope)
unfolding expire append envelope_of
expired = refl

-- One file of a payload is left, that of the expiry itself.
one_payload : map (λ p. p.0) expired_ledger.payloads ≡ cut 32 (render (text (codes "gone"))) ∷ []
unfolding expire append
one_payload = refl

stripped : strip_prefix (codes "sha256:") hash_of_hello ≡ some name_of_hello
unfolding strip_prefix
stripped = refl

expire-IsKept_example :
    IsKept sample_json toy toy_keys toy_keys-IsSound expired_ledger
    × IsGone sample_json toy toy_keys toy_keys-IsSound name_of_hello expired_ledger
    × (str_eq expiry.kind (codes "retention.expire") ≡ true)
    × (any (λ (e : Envelope Tree). str_eq e.subject_hash hash_of_hello) one_event.envelopes ≡ true)
expire-IsKept_example =
    expire-IsKept sample_json toy toy_keys toy_keys-IsSound working (ok tt) hash_of_hello
      name_of_hello expiry one_event expired_ledger second_envelope
      (append-IsKept sample_json toy toy_keys toy_keys-IsSound working opening empty one_event
        first_envelope empty-IsKept appended).0
      stripped expired
