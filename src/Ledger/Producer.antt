-- ===== src/Ledger/Producer.antt =====
-- src/ledger.rs: the ledger that appends, proves and hands out bundles. The files hold what serde writes
-- to them and reads back; whether a file operation succeeds is a parameter of the append.
pub mod Expiry
pub mod Kept
pub mod Appended
pub mod Proved
pub mod History
use trunnion.Prelude.{
  ℕ, suc, ◌-◌, ◌==◌, Bool, true, false, ◌||◌, ltb, length, get_elem?, find, map, Text, codes,
  str_eq, strip_prefix, Option, none, some, List, [], ◌∷◌, ◌++◌, if◌then◌else◌,
}
use trunnion.Fault.{
  Fault, Result, ok, err, no_entry, no_head, no_head_at, no_tree, not_a_subject_hash,
}
use trunnion.Trial.{Trial, give, update, attempt, ◌>>=◌, ◌>>◌}
use trunnion.Json.{Json, Digest, or_null}
use trunnion.Keys.{Keys}
use trunnion.Event.{Envelope, NewEvent, envelope_fields, jcs_bytes, subject_hash, canonical_bytes}
use trunnion.Merkle.{Hash, leaf_hash, root, inclusion_proof, consistency_proof}
use trunnion.Ledger.{SignedHead, InclusionBundle, ConsistencyBundle, or_fault, hash_str, head_core}

-- The outcomes of the three writes of an append; one that fails is taken to leave its file as it was.
pub record Disk : Type 0 where
  pub payload_write : Result (Unit {0})
  pub event_write : Result (Unit {0})
  pub head_write : Result (Unit {0})

pub record Ledger (V Secret : Type 0) : Type 0 where
  pub signing : Secret
  pub key_id : Text
  pub envelopes : List (Envelope V)
  pub leaves : List Hash
  -- payloads/, events.jsonl and heads.jsonl
  pub payloads : List (Text × List ℕ)
  pub lines : List (List ℕ)
  pub heads : List SignedHead

abbrev pub last_of {ℓ} : {A : Type ℓ} → List A → Option A
last_of [] = none
last_of (x ∷ []) = some x
last_of (x ∷ y ∷ s) = last_of (y ∷ s)

module _ (j : Json) (d : Digest) (keys : Keys) where
  abbrev pub State : Type 0
  State = Ledger j.Value keys.Secret

  -- A head from its root's text and the bytes that are signed.
  head_from : State → ℕ → Text → Text → List ℕ → SignedHead
  head_from ledger size root_hash ts message = record {
    size = size;
    root_hash = root_hash;
    ts = ts;
    key_id = ledger.key_id;
    sig = d.hex (keys.sign ledger.signing message);
  }

  after_core : State → ℕ → Text → Text → Result (List ℕ) → Result SignedHead
  unfolding head_from
  after_core ledger size root_hash ts (err fault) = err fault
  after_core ledger size root_hash ts (ok message) = ok (head_from ledger size root_hash ts message)

  unfoldable pub sign_head : State → ℕ → Hash → Text → Result SignedHead
  unfolding after_core head_core hash_str jcs_bytes
  sign_head ledger size r ts =
      after_core ledger size (hash_str j d keys r) ts
        (jcs_bytes j d (head_core j d keys size (hash_str j d keys r) ts ledger.key_id))

  unfoldable pub prev_hash_of : Option Hash → Option Text
  unfolding hash_str
  prev_hash_of none = none
  prev_hash_of (some h) = some (hash_str j d keys h)

  unfoldable pub envelope_of : State → NewEvent j.Value → Text → Envelope j.Value
  unfolding prev_hash_of
  envelope_of ledger ev s_hash = record {
    v = 2;
    id = ev.id;
    run_id = ev.run_id;
    parent_id = ev.parent_id;
    seq = ev.seq;
    ts = ev.ts;
    kind = ev.kind;
    actor = ev.actor;
    authority = ev.authority;
    subject_hash = s_hash;
    redacted = ev.redacted;
    prev_hash = prev_hash_of (last_of ledger.leaves);
    attestation = ev.attestation;
  }

  unfoldable pub payload_name : Text → Result Text
  unfolding strip_prefix
  payload_name s_hash = or_fault (strip_prefix (codes "sha256:") s_hash) (not_a_subject_hash s_hash)

  abbrev pub put_payload : Text → List ℕ → State → State
  put_payload name bytes ledger = record ledger { payloads = (name, bytes) ∷ ledger.payloads }

  abbrev pub put_line : List ℕ → State → State
  put_line bytes ledger = record ledger { lines = ledger.lines ++ bytes ∷ [] }

  abbrev pub put_leaf : Hash → State → State
  put_leaf leaf ledger = record ledger { leaves = ledger.leaves ++ leaf ∷ [] }

  abbrev pub put_head : SignedHead → State → State
  put_head head ledger = record ledger { heads = ledger.heads ++ head ∷ [] }

  abbrev pub put_envelope : Envelope j.Value → State → State
  put_envelope env ledger = record ledger { envelopes = ledger.envelopes ++ env ∷ [] }

  -- The second half of an append: the leaf is pushed before the head is signed and written, and the
  -- envelope after it.
  publish : Disk → Envelope j.Value → List ℕ → Trial State (Envelope j.Value)
  unfolding leaf_hash root sign_head
  publish disk envelope bytes = do
    update (put_leaf (leaf_hash d bytes))
    head ← λ (ledger : State).
        (ledger, sign_head ledger (length ledger.leaves) (root d ledger.leaves) envelope.ts)
    attempt disk.head_write (put_head head)
    update (put_envelope envelope)
    give (ok envelope)

  record_line : Disk → Envelope j.Value → Trial State (Envelope j.Value)
  unfolding canonical_bytes publish
  record_line disk envelope = do
    bytes ← give (canonical_bytes j d envelope)
    attempt disk.event_write (put_line bytes)
    publish disk envelope bytes

  unfoldable pub append : Disk → NewEvent j.Value → Trial State (Envelope j.Value)
  unfolding subject_hash payload_name jcs_bytes envelope_of record_line
  append disk ev = do
    s_hash ← give (subject_hash j d ev.subject)
    name ← give (payload_name s_hash)
    payload ← give (jcs_bytes j d ev.subject)
    attempt disk.payload_write (put_payload name payload)
    envelope ← λ (ledger : State). (ledger, ok (envelope_of ledger ev s_hash))
    record_line disk envelope

  -- `fs::read_to_string` of the payload's file: the text that was written to it last.
  unfoldable pub file_named : Text → List (Text × List ℕ) → Option (List ℕ)
  unfolding str_eq
  file_named name [] = none
  file_named name ((n, bytes) ∷ files) = if str_eq n name then some bytes else file_named name files

  -- The payload as the history shows it: `null` where its file is gone or does not parse.
  unfoldable pub retained : List (Text × List ℕ) → Text → j.Value
  unfolding payload_name file_named
  retained files s_hash = elim (payload_name s_hash) [
    | err _ ↦ j.null
    | ok name ↦ elim (file_named name files) [
      | none ↦ j.null
      | some bytes ↦ or_null j (j.from_str bytes)
    ]
  ]

  -- An envelope with its payload under `_subject`.
  unfoldable pub shown : List (Text × List ℕ) → Envelope j.Value → j.Value
  unfolding retained
  shown files env =
      j.object (envelope_fields j d env ++ (codes "_subject", retained files env.subject_hash) ∷ [])

  unfoldable pub events_with_subjects : State → List j.Value
  unfolding shown
  events_with_subjects ledger = map (shown ledger.payloads) ledger.envelopes

  unfoldable pub latest_head : State → Result SignedHead
  latest_head ledger = or_fault (last_of ledger.heads) no_head

  unfoldable pub head_at : State → ℕ → Result SignedHead
  head_at ledger size =
      or_fault (find (λ (h : SignedHead). h.size == size) ledger.heads)
        (no_head_at size (length ledger.leaves))

  bundle_from : State → ℕ → Envelope j.Value → Result SignedHead → Result (InclusionBundle j.Value)
  unfolding inclusion_proof hash_str
  bundle_from ledger index envelope (err fault) = err fault
  bundle_from ledger index envelope (ok head) = ok (record {
    envelope = envelope;
    index = index;
    proof = map (hash_str j d keys) (inclusion_proof d ledger.leaves index);
    head = head;
  })

  unfoldable pub prove : State → ℕ → Result (InclusionBundle j.Value)
  unfolding latest_head bundle_from
  prove ledger index = elim (get_elem? ledger.envelopes index) [
    | none ↦ err (no_entry index (length ledger.leaves))
    | some envelope ↦ bundle_from ledger index envelope (latest_head ledger)
  ]

  unfoldable pub consistency : State → ℕ → Result (List Text)
  unfolding consistency_proof hash_str
  consistency ledger m =
      if m == 0 || ltb (length ledger.leaves) m
      then err (no_tree m (length ledger.leaves))
      else ok (map (hash_str j d keys) (consistency_proof d ledger.leaves m))
