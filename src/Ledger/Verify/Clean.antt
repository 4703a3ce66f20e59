-- ===== src/Ledger/Verify/Clean.antt =====
-- src/ledger.rs: a ledger that has grown by appends that succeed checks clean.
use trunnion.Prelude.{
  ℕ, suc, ltb, length, take, map, true, false, Text, codes, str_eq, str_eq_refl, str_eq_iff, Option,
  none, some, List, [], ◌∷◌, ◌++◌, ◌≡◌, ◌≢◌, refl, sym, arith, All,
}
use trunnion.Fault.{ok}
use trunnion.Json.{Json, Digest}
use trunnion.Keys.{Keys, IsSound}
use trunnion.Event.{Envelope, NewEvent, canonical_bytes}
use trunnion.Merkle.{Hash, root}
use trunnion.Ledger.{SignedHead, hash_str, parse_pub_key}
use trunnion.Ledger.Actors.{
  AttestationState, verified, unverified, forged, absent, ActorKeys, parse_with_published, state_of,
}
use trunnion.Ledger.Offline.{leaves_of}
use trunnion.Ledger.Producer.{Ledger, Disk, State, append}
use trunnion.Ledger.Producer.Kept.{Entries}
use trunnion.Ledger.Verify.{
  Directory, VerifyReport, Walk, is_ok, opt_eq, line_fault, form_fault, line_faults, link_fault,
  chain_faults, check_head, check_size, check_root, walk_heads, tail_faults,
}
use trunnion.Ledger.Verify.Report.{
  forgery, attestation_faults, payload_fault, entry_payload_fault, payload_faults, start_walk,
  first_id, all_faults, report_of, verify_with_actor_keys_and_published,
}
use trunnion.Ledger.Verify.Sound.{Chained, IsHeadOver, covers_last, report_of-faults}
use trunnion.Ledger.Verify.Recorded.{file_in, HasPayload, IsRecorded, append-IsRecorded}

-- The directory that holds a ledger's files.
abbrev pub directory_of : {V Secret : Type 0} → Ledger V Secret → Text → Directory
directory_of ledger pub_hex = record {
  events = ok ledger.lines;
  public_key = ok pub_hex;
  heads = ok (map some ledger.heads);
  payload = λ name. file_in name ledger.payloads;
}

opt_eq_refl : (s : Option Text) → opt_eq s s ≡ true
unfolding opt_eq
opt_eq_refl none = refl
opt_eq_refl (some t) = str_eq_refl t

module _ (j : Json) (d : Digest) (keys : Keys) (sound : IsSound d keys)
    (parse : List ℕ → Option (Envelope j.Value)) where
  -- serde reads back the canonical bytes of the envelope.
  abbrev pub ReadsBack : Envelope j.Value → Type 0
  ReadsBack env = (bytes : List ℕ) → canonical_bytes j d env ≡ ok bytes → parse bytes ≡ some env

  parsed :
      (envelopes : List (Envelope j.Value)) (lines : List (List ℕ))
      → All ReadsBack envelopes
      → Entries j d keys sound envelopes lines
      → map parse lines ≡ map some envelopes
  parsed [] [] reads h = refl
  parsed [] (y ∷ lines) reads h = absurd h
  parsed (x ∷ envelopes) [] reads h = absurd h
  parsed (x ∷ envelopes) (y ∷ lines) reads h =
      rw (reads.0 y h.0, parsed envelopes lines reads.1 h.1) refl

  lines_clean :
      (i : ℕ) (envelopes : List (Envelope j.Value)) (lines : List (List ℕ))
      → All ReadsBack envelopes
      → Entries j d keys sound envelopes lines
      → line_faults j d keys parse i lines ≡ []
  unfolding line_faults
  lines_clean i [] [] reads h = refl
  lines_clean i [] (y ∷ lines) reads h = absurd h
  lines_clean i (x ∷ envelopes) [] reads h = absurd h
  lines_clean i (x ∷ envelopes) (y ∷ lines) reads h =
      rw (reads.0 y h.0, line_fault, h.0, form_fault, str_eq_refl y)
        (lines_clean (suc i) envelopes lines reads.1 h.1)

  chain_clean :
      (i : ℕ) (expected before : Option Text) (envelopes : List (Envelope j.Value))
      (leaves : List Hash)
      → Chained j d keys parse expected (map some envelopes) leaves
      → chain_faults j d keys parse i expected before (map some envelopes) leaves ≡ []
  unfolding chain_faults
  chain_clean i expected before [] leaves h = refl
  chain_clean i expected before (x ∷ envelopes) [] h = refl
  chain_clean i expected before (x ∷ envelopes) (leaf ∷ leaves) h =
      rw (h.0 x refl, link_fault, opt_eq_refl expected)
        (chain_clean (suc i) (some (hash_str j d keys leaf)) (some x.id) envelopes leaves h.1)

  head_clean :
      (index : ℕ) (vk : keys.Public) (leaves : List Hash)
      (envelopes : List (Option (Envelope j.Value))) (head : SignedHead) (walk : Walk)
      → IsHeadOver j d keys parse vk leaves head
      → check_head j d keys parse index vk leaves envelopes (some head) walk
        ≡ ok (true, record walk { covered = head.size })
  unfolding check_head check_size check_root
  head_clean index vk leaves envelopes head walk over =
      let fits : ltb (length leaves) head.size ≡ false = ground (arith, over.within) in
      let same : str_eq (hash_str j d keys (root d (take head.size leaves))) head.root_hash ≡ true =
        (str_eq_iff _ _).1 (sym over.root_eq) in
      rw (over.signed, check_head, fits, check_size, same, check_root) refl

  walk_clean :
      (index : ℕ) (vk : keys.Public) (leaves : List Hash)
      (envelopes : List (Option (Envelope j.Value))) (heads : List SignedHead) (walk : Walk)
      → All (IsHeadOver j d keys parse vk leaves) heads
      → walk_heads j d keys parse index vk leaves envelopes (map some heads) walk
        ≡ ok (record walk { covered = covers_last j d keys parse walk.covered (map some heads) })
  unfolding walk_heads
  walk_clean index vk leaves envelopes [] walk h = refl
  walk_clean index vk leaves envelopes (head ∷ heads) walk h =
      rw (head_clean index vk leaves envelopes head walk h.0)
        (walk_clean (suc index) vk leaves envelopes heads (record walk { covered = head.size }) h.1)

  attestations_clean :
      (actors : ActorKeys keys.Public) (i : ℕ) (envelopes : List (Envelope j.Value))
      → All (λ env. state_of j d keys actors env ≢ forged) envelopes
      → attestation_faults j d keys parse actors i (map some envelopes) ≡ []
  unfolding attestation_faults
  attestations_clean actors i [] h = refl
  attestations_clean actors i (x ∷ envelopes) h =
      rw (none_found (state_of j d keys actors x) h.0)
        (attestations_clean actors (suc i) envelopes h.1)
    where
      none_found : (s : AttestationState) → s ≢ forged → forgery j d keys parse i x s ≡ []
      none_found verified n = refl
      none_found unverified n = refl
      none_found forged n = absurd (n refl)
      none_found absent n = refl

  payloads_clean :
      (payloads : List (Text × List ℕ)) (expired : List Text) (i : ℕ)
      (envelopes : List (Envelope j.Value))
      → All (HasPayload j d keys parse payloads) envelopes
      → payload_faults j d keys parse expired i (λ name. file_in name payloads) (map some envelopes)
        ≡ []
  unfolding payload_faults
  payloads_clean payloads expired i [] h = refl
  payloads_clean payloads expired i (x ∷ envelopes) h =
      let has = h.0 in
      let same : str_eq (codes "sha256:" ++ d.hex (d.sha256 has.bytes)) x.subject_hash ≡ true =
        (str_eq_iff _ _).1 has.hash_eq in
      rw (has.named, entry_payload_fault, has.there, payload_fault, same)
        (payloads_clean payloads expired (suc i) envelopes h.1)

  recorded_faults :
      (actors : ActorKeys keys.Public) (ledger : State j d keys) (walk : Walk)
      → All ReadsBack ledger.envelopes
      → IsRecorded j d keys sound parse ledger
      → All (λ env. state_of j d keys actors env ≢ forged) ledger.envelopes
      → walk ≡ record (start_walk j d keys parse) { covered = length ledger.lines }
      → all_faults j d keys parse (λ name. file_in name ledger.payloads) actors ledger.lines walk
        ≡ []
  unfolding tail_faults
  recorded_faults actors ledger walk reads rec authentic e =
      let envs = parsed ledger.envelopes ledger.lines reads rec.entries in
      let whole : ltb (length ledger.lines) (length ledger.lines) ≡ false = ground arith in
      rw
        (
          lines_clean 0 ledger.envelopes ledger.lines reads rec.entries,
          envs,
          chain_clean 0 none (first_id j d keys parse (map some ledger.envelopes)) ledger.envelopes
              (leaves_of d ledger.lines) rec.chained,
          e,
          whole,
          attestations_clean actors 0 ledger.envelopes authentic,
        )
        (payloads_clean ledger.payloads _ 0 ledger.envelopes rec.backed)

  -- The states that appends reach from an empty ledger, each with the writes of its disk.
  pub data Grown (signing : keys.Secret) (key_id : Text) : State j d keys → Type 0 where
    fresh :
        {ledger : State j d keys}
        → ledger ≡ record {
          signing = signing;
          key_id = key_id;
          envelopes = [];
          leaves = [];
          payloads = [];
          lines = [];
          heads = [];
        }
        → Grown signing key_id ledger
    grown :
        {ledger after : State j d keys} {given : Envelope j.Value} (disk : Disk)
        (ev : NewEvent j.Value)
        → Grown signing key_id ledger
        → append j d keys disk ev ledger ≡ (after, ok given)
        → Grown signing key_id after

  Grown-IsRecorded :
      {signing : keys.Secret} {key_id : Text} {ledger : State j d keys}
      → Grown signing key_id ledger
      → IsRecorded j d keys sound parse ledger
  Grown-IsRecorded (fresh e) = rw e (record {
    leaves_eq = refl;
    entries = tt;
    chained = tt;
    good = tt;
    covers = refl;
    backed = tt;
  })
  Grown-IsRecorded (grown {ledger = before} {after = after} {given = given} disk ev g h) =
      append-IsRecorded j d keys sound parse disk ev before after given (Grown-IsRecorded g) h

  -- With sound signatures, the check of a ledger that has grown by appends that succeed ends with a report
  -- without faults, if serde reads its envelopes back and none of its attestations under a registered key
  -- is forged.
  pub Grown-verifies :
      (signing : keys.Secret) (key_id pub_hex : Text) (actor_keys published_seeds : List Text)
      (ledger : State j d keys)
      → All ReadsBack ledger.envelopes
      → Grown signing key_id ledger
      → parse_pub_key j d keys pub_hex ≡ ok (keys.public_of ledger.signing)
      → All
          (λ env.
            state_of j d keys (parse_with_published j d keys actor_keys published_seeds) env
            ≢ forged)
          ledger.envelopes
      → (report : VerifyReport) × (verify_with_actor_keys_and_published j d keys parse
            (directory_of ledger pub_hex)
            actor_keys
            published_seeds
          ≡ ok report)
        × (is_ok report ≡ true)
  unfolding verify_with_actor_keys_and_published is_ok
  Grown-verifies signing key_id pub_hex actor_keys published_seeds ledger reads g key authentic =
      let rec = Grown-IsRecorded g in
      let actors = parse_with_published j d keys actor_keys published_seeds in
      let walk : Walk = record (start_walk j d keys parse) { covered = length ledger.lines } in
      (
        report_of j d keys parse (λ name. file_in name ledger.payloads) actors ledger.lines walk,
        rw
            (
              key,
              walk_clean 0 (keys.public_of ledger.signing) (leaves_of d ledger.lines)
                  (map parse ledger.lines) ledger.heads (start_walk j d keys parse) rec.good,
              rec.covers,
            )
            refl,
        rw
            (
              report_of-faults j d keys parse (λ name. file_in name ledger.payloads) actors
                  ledger.lines walk,
              recorded_faults actors ledger walk reads rec authentic refl,
            )
            refl,
      )
