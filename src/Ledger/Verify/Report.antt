-- ===== src/Ledger/Verify/Report.antt =====
-- src/ledger.rs: the report on a ledger directory: its attestations, its payloads and the whole.
use trunnion.Prelude.{
  ℕ, suc, ◌+◌, any, map, length, Bool, false, Text, codes, str_eq, strip_prefix, Option, none, some,
  List, [], ◌∷◌, ◌++◌, if◌then◌else◌,
}
use trunnion.Fault.{Result, ok, ◌>>=◌, attestation_forged, payload_differs, payload_missing}
use trunnion.Json.{Json, Digest}
use trunnion.Keys.{Keys}
use trunnion.Event.{Envelope}
use trunnion.Merkle.{leaf_hash}
use trunnion.Ledger.{parse_pub_key}
use trunnion.Ledger.Actors.{
  AttestationState, verified, unverified, forged, ActorKeys, parse_with_published, key_id_of,
  is_fixture, state_of,
}
use trunnion.Ledger.Gaps.{seq_gaps}
use trunnion.Ledger.Verify.{
  Directory, EntryFault, VerifyReport, Walk, at_entry, entry_id, line_faults, chain_faults,
  walk_heads, tail_faults,
}

module _ (j : Json) (d : Digest) (keys : Keys) (parse : List ℕ → Option (Envelope j.Value)) where
  -- The counts of the report, and the forged attestations.
  unfoldable pub counted : AttestationState → Bool → VerifyReport → VerifyReport
  counted verified fixture report = record report {
    attestations_verified = report.attestations_verified + 1;
    attestations_under_published_seed =
        if fixture
        then report.attestations_under_published_seed + 1
        else report.attestations_under_published_seed;
  }
  counted unverified fixture report = record report {
    attestations_unverified = report.attestations_unverified + 1;
  }
  counted _ fixture report = report

  unfoldable pub forgery : ℕ → Envelope j.Value → AttestationState → List EntryFault
  forgery i env forged =
      at_entry i env.id (attestation_forged i env.id (key_id_of j d keys env)) ∷ []
  forgery i env _ = []

  unfoldable pub attestation_faults :
      ActorKeys keys.Public → ℕ → List (Option (Envelope j.Value)) → List EntryFault
  unfolding state_of forgery
  attestation_faults actors i [] = []
  attestation_faults actors i (none ∷ envelopes) = attestation_faults actors (suc i) envelopes
  attestation_faults actors i (some env ∷ envelopes) =
      forgery i env (state_of j d keys actors env) ++ attestation_faults actors (suc i) envelopes

  unfoldable pub count_attestations :
      ActorKeys keys.Public → List (Option (Envelope j.Value)) → VerifyReport → VerifyReport
  unfolding state_of counted is_fixture
  count_attestations actors [] report = report
  count_attestations actors (none ∷ envelopes) report = count_attestations actors envelopes report
  count_attestations actors (some env ∷ envelopes) report =
      count_attestations actors envelopes
        (counted (state_of j d keys actors env) (is_fixture j d keys actors env) report)

  -- The targets of the `retention.expire` events whose payload is there and names one.
  abbrev keep_target : Option Text → List Text → List Text
  keep_target none rest = rest
  keep_target (some target) rest = target ∷ rest

  named_target : Option j.Value → Option Text
  named_target none = none
  named_target (some v) = j.as_str (j.field v (codes "expired"))

  target_in : Option (List ℕ) → Option Text
  unfolding named_target
  target_in none = none
  target_in (some bytes) = named_target (j.from_str bytes)

  unfoldable pub target_of : (Text → Option (List ℕ)) → Envelope j.Value → Option Text
  unfolding target_in strip_prefix str_eq
  target_of payload env =
      if str_eq env.kind (codes "retention.expire")
      then elim (strip_prefix (codes "sha256:") env.subject_hash) [
        | none ↦ none
        | some name ↦ target_in (payload name)
      ]
      else none

  unfoldable pub expired_in :
      (Text → Option (List ℕ)) → List (Option (Envelope j.Value)) → List Text
  unfolding target_of
  expired_in payload [] = []
  expired_in payload (none ∷ envelopes) = expired_in payload envelopes
  expired_in payload (some env ∷ envelopes) =
      keep_target (target_of payload env) (expired_in payload envelopes)

  unfoldable pub payload_fault :
      List Text → ℕ → Envelope j.Value → Option (List ℕ) → List EntryFault
  unfolding str_eq
  payload_fault expired i env none =
      if any (λ t. str_eq t env.subject_hash) expired
      then []
      else at_entry i env.id (payload_missing i env.id env.subject_hash) ∷ []
  payload_fault expired i env (some bytes) =
      let actual = codes "sha256:" ++ d.hex (d.sha256 bytes) in
      if str_eq actual env.subject_hash
      then []
      else at_entry i env.id (payload_differs i env.id actual env.subject_hash) ∷ []

  unfoldable pub entry_payload_fault :
      List Text → ℕ → (Text → Option (List ℕ)) → Envelope j.Value → List EntryFault
  unfolding payload_fault strip_prefix
  entry_payload_fault expired i payload env =
      elim (strip_prefix (codes "sha256:") env.subject_hash) [
        | none ↦ []
        | some name ↦ payload_fault expired i env (payload name)
      ]

  unfoldable pub payload_faults :
      List Text → ℕ → (Text → Option (List ℕ)) → List (Option (Envelope j.Value)) → List EntryFault
  unfolding entry_payload_fault
  payload_faults expired i payload [] = []
  payload_faults expired i payload (none ∷ envelopes) =
      payload_faults expired (suc i) payload envelopes
  payload_faults expired i payload (some env ∷ envelopes) =
      entry_payload_fault expired i payload env ++ payload_faults expired (suc i) payload envelopes

  abbrev pub start_walk : Walk
  start_walk = record { covered = 0; faulted = false; faults = [] }

  abbrev pub first_id : List (Option (Envelope j.Value)) → Option Text
  first_id envelopes = entry_id envelopes 0

  -- The faults in the order in which the report has them.
  abbrev pub all_faults :
      (Text → Option (List ℕ)) → ActorKeys keys.Public → List (List ℕ) → Walk → List EntryFault
  all_faults payload actors lines walk =
      let envelopes = map parse lines in
      line_faults j d keys parse 0 lines
      ++ (chain_faults j d keys parse 0 none (first_id envelopes) envelopes
            (map (leaf_hash d) lines)
          ++ (walk.faults
              ++ (tail_faults j d keys parse (length lines) envelopes walk
                  ++ (attestation_faults actors 0 envelopes
                      ++ payload_faults (expired_in payload envelopes) 0 payload envelopes))))

  unfoldable pub report_of :
      (Text → Option (List ℕ)) → ActorKeys keys.Public → List (List ℕ) → Walk → VerifyReport
  unfolding line_faults chain_faults tail_faults attestation_faults expired_in payload_faults
      leaf_hash count_attestations seq_gaps
  report_of payload actors lines walk = count_attestations actors (map parse lines) (record {
    entries = length lines;
    faults = all_faults payload actors lines walk;
    attestations_unverified = 0;
    attestations_verified = 0;
    attestations_under_published_seed = 0;
    seq_gaps = seq_gaps (map parse lines);
  })

  unfoldable pub verify_with_actor_keys_and_published :
      Directory → List Text → List Text → Result VerifyReport
  unfolding parse_pub_key walk_heads report_of parse_with_published leaf_hash
  verify_with_actor_keys_and_published dir actor_keys published_seeds = do
    lines ← dir.events
    pub_hex ← dir.public_key
    vk ← parse_pub_key j d keys pub_hex
    heads ← dir.heads
    walk ←
        walk_heads j d keys parse 0 vk (map (leaf_hash d) lines) (map parse lines) heads start_walk
    ok (report_of dir.payload (parse_with_published j d keys actor_keys published_seeds) lines walk)
