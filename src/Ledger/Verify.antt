-- ===== src/Ledger/Verify.antt =====
-- src/ledger.rs: the check of a ledger directory, `verify_with_actor_keys_and_published`. The outcomes
-- of reading its files and of parsing their lines come in with the directory.
pub mod Report
pub mod Recorded
pub mod Clean
pub mod Sound
pub mod Tamper
use trunnion.Prelude.{
  ℕ, zero, suc, ◌+◌, ◌-◌, ◌==◌, ltb, Bool, true, false, not, ◌&&◌, any, length, take, get_elem?,
  map, Text, codes, str_eq, strip_prefix, Option, none, some, List, [], ◌∷◌, ◌++◌, if◌then◌else◌,
}
use trunnion.Fault.{
  Fault, Result, ok, err, ◌>>=◌, entry_not_canonical, entry_unparsed, chain_diverges, head_unparsed,
  log_truncated, root_diverges, no_suspect, tail_uncovered, attestation_forged, payload_differs,
  payload_missing,
}
use trunnion.Json.{Json, Digest}
use trunnion.Keys.{Keys}
use trunnion.Event.{Envelope, canonical_bytes}
use trunnion.Merkle.{Hash, leaf_hash, root}
use trunnion.Ledger.{SignedHead, hash_str, parse_pub_key, verify_head_sig}
use trunnion.Ledger.Actors.{
  AttestationState, verified, unverified, forged, absent, ActorKeys, parse_with_published,
  key_id_of, is_fixture, state_of,
}
use trunnion.Ledger.Gaps.{SeqGap, seq_gaps}

-- The lines of events.jsonl, keys/ledger.pub, the lines of heads.jsonl as serde reads them, and
-- payloads/; an unreadable payload is one that is not there.
pub record Directory : Type 0 where
  pub events : Result (List (List ℕ))
  pub public_key : Result Text
  pub heads : Result (List (Option SignedHead))
  pub payload : Text → Option (List ℕ)

pub record EntryFault : Type 0 where
  pub index : Option ℕ
  pub id : Option Text
  pub fault : Fault

pub record VerifyReport : Type 0 where
  pub entries : ℕ
  pub faults : List EntryFault
  pub attestations_unverified : ℕ
  pub attestations_verified : ℕ
  pub attestations_under_published_seed : ℕ
  pub seq_gaps : List SeqGap

-- What the walk over the heads has found so far.
pub record Walk : Type 0 where
  pub covered : ℕ
  pub faulted : Bool
  pub faults : List EntryFault

abbrev is_empty : List EntryFault → Bool
is_empty [] = true
is_empty (f ∷ fs) = false

-- `VerifyReport::ok`.
unfoldable pub is_ok : VerifyReport → Bool
is_ok report = is_empty report.faults

abbrev pub id_of : {V : Type 0} → Option (Envelope V) → Option Text
id_of none = none
id_of (some env) = some env.id

abbrev pub entry_id : {V : Type 0} → List (Option (Envelope V)) → ℕ → Option Text
entry_id envelopes index = elim (get_elem? envelopes index) [ none ↦ none | some e ↦ id_of e ]

abbrev pub opt_eq : Option Text → Option Text → Bool
unfolding str_eq
opt_eq none none = true
opt_eq none (some t) = false
opt_eq (some s) none = false
opt_eq (some s) (some t) = str_eq s t

abbrev pub at_entry : ℕ → Text → Fault → EntryFault
at_entry index id fault = record { index = some index; id = some id; fault = fault }

abbrev pub at_head : Fault → EntryFault
at_head fault = record { index = none; id = none; fault = fault }

module _ (j : Json) (d : Digest) (keys : Keys) (parse : List ℕ → Option (Envelope j.Value)) where
  form_fault : ℕ → Envelope j.Value → List ℕ → Result (List ℕ) → List EntryFault
  unfolding str_eq
  form_fault i env line (err fault) = []
  form_fault i env line (ok canon) =
      if str_eq canon line then [] else at_entry i env.id (entry_not_canonical i env.id) ∷ []

  line_fault : ℕ → List ℕ → Option (Envelope j.Value) → List EntryFault
  unfolding form_fault canonical_bytes
  line_fault i line none = record { index = some i; id = none; fault = entry_unparsed i } ∷ []
  line_fault i line (some env) = form_fault i env line (canonical_bytes j d env)

  unfoldable pub line_faults : ℕ → List (List ℕ) → List EntryFault
  unfolding line_fault
  line_faults i [] = []
  line_faults i (line ∷ lines) = line_fault i line (parse line) ++ line_faults (suc i) lines

  -- The link of an entry to the leaf before it; the fault names the entry before, or the first.
  link_fault : ℕ → Option Text → Option Text → Option (Envelope j.Value) → List EntryFault
  link_fault i expected before none = []
  link_fault i expected before (some env) =
      if opt_eq env.prev_hash expected
      then []
      else record { index = some (i - 1); id = before; fault = chain_diverges i } ∷ []

  unfoldable pub chain_faults :
      ℕ → Option Text → Option Text → List (Option (Envelope j.Value)) → List Hash → List EntryFault
  unfolding link_fault hash_str
  chain_faults i expected before [] leaves = []
  chain_faults i expected before (env ∷ envelopes) [] = []
  chain_faults i expected before (env ∷ envelopes) (leaf ∷ leaves) =
      link_fault i expected before env
      ++ chain_faults (suc i) (some (hash_str j d keys leaf)) (id_of env) envelopes leaves

  -- One head: the walk goes on after it (`true`) or stops there.
  bad_head : Walk → Fault → Walk
  bad_head walk fault = record walk { faulted = true; faults = walk.faults ++ at_head fault ∷ [] }

  -- The indexing of `envelopes[suspect]` holds where the size is at most the number of leaves.
  diverged : Walk → List (Option (Envelope j.Value)) → ℕ → Text → Text → Result (Bool × Walk)
  diverged walk envelopes zero recomputed signed = err no_suspect
  diverged walk envelopes (suc suspect) recomputed signed =
      let id = entry_id envelopes suspect in
      let found : EntryFault = record {
        index = some suspect;
        id = id;
        fault = root_diverges (suc suspect) recomputed signed id;
      } in
      ok (false, record walk { faulted = true; faults = walk.faults ++ found ∷ [] })

  check_root :
      List Hash → List (Option (Envelope j.Value)) → SignedHead → Walk → Result (Bool × Walk)
  unfolding diverged hash_str root str_eq
  check_root leaves envelopes head walk =
      let recomputed = hash_str j d keys (root d (take head.size leaves)) in
      if str_eq recomputed head.root_hash
      then ok (true, record walk { covered = head.size })
      else diverged walk envelopes head.size recomputed head.root_hash

  check_size :
      ℕ → List Hash → List (Option (Envelope j.Value)) → SignedHead → Walk → Result (Bool × Walk)
  unfolding check_root
  check_size index leaves envelopes head walk =
      if ltb (length leaves) head.size
      then ok (
        false,
        record walk {
          faulted = true;
          faults =
              walk.faults
              ++ record {
                index = some (length leaves);
                id = none;
                fault = log_truncated index head.size (length leaves);
              }
                ∷ [];
        },
      )
      else check_root leaves envelopes head walk

  unfoldable pub check_head :
      ℕ
      → keys.Public
      → List Hash
      → List (Option (Envelope j.Value))
      → Option SignedHead
      → Walk
      → Result (Bool × Walk)
  unfolding bad_head check_size verify_head_sig
  check_head index vk leaves envelopes none walk = ok (true, bad_head walk (head_unparsed index))
  check_head index vk leaves envelopes (some head) walk = elim (verify_head_sig j d keys head vk) [
    | err fault ↦ ok (true, bad_head walk fault)
    | ok _ ↦ check_size index leaves envelopes head walk
  ]

  abbrev pub walk_on : (Walk → Result Walk) → Bool × Walk → Result Walk
  walk_on rest (true, walk) = rest walk
  walk_on rest (false, walk) = ok walk

  unfoldable pub walk_heads :
      ℕ
      → keys.Public
      → List Hash
      → List (Option (Envelope j.Value))
      → List (Option SignedHead)
      → Walk
      → Result Walk
  unfolding check_head
  walk_heads index vk leaves envelopes [] walk = ok walk
  walk_heads index vk leaves envelopes (line ∷ lines) walk =
      check_head index vk leaves envelopes line walk
      >>= walk_on (λ after. walk_heads (suc index) vk leaves envelopes lines after)

  unfoldable pub tail_faults : ℕ → List (Option (Envelope j.Value)) → Walk → List EntryFault
  tail_faults entries envelopes walk =
      if not walk.faulted && ltb walk.covered entries
      then record {
        index = some walk.covered;
        id = entry_id envelopes walk.covered;
        fault = tail_uncovered walk.covered (entries - 1);
      }
        ∷ []
      else []
