-- ===== src/Ledger/Producer/Proved.antt =====
-- src/ledger.rs: a bundle that the ledger hands out checks offline.
use trunnion.Prelude.{
  ℕ, zero, suc, ◌-◌, true, ltb, length, get_elem?, take, drop, Text, strip_prefix, some, List, [],
  ◌∷◌, map, ◌≡◌, refl, ◌∙◌, ap, All, All-take, All-drop, All-append, Bool-cases, Option-cases, inl,
  inr,
}
use trunnion.Fault.{ok, done, no_head}
use trunnion.Json.{Json, Digest}
use trunnion.Keys.{Keys, IsSound}
use trunnion.Event.{Envelope, canonical_bytes}
use trunnion.Merkle.{
  Hash, leaf_hash, split_point, root, proof_on, inclusion_proof, verify_inclusion,
}
use trunnion.Merkle.Collision.{IsHash, IsSized, root-IsHash}
use trunnion.Merkle.Inclusion.{verify_inclusion_complete}
use trunnion.Ledger.{
  SignedHead, InclusionBundle, or_fault, hash_str, parse_hash, parse_hashes, parse_pub_key,
  verify_head_sig, verify_bundle,
}
use trunnion.Ledger.Offline.{leaves_of, leaves-AreHashes, length-map}
use trunnion.Ledger.Producer.{State, last_of, bundle_from, prove}
use trunnion.Ledger.Producer.Kept.{Entries, IsKept, sized-exact}

proof_on-AreHashes :
    (d : Digest)
    → IsSized d
    → (fuel : ℕ) (leaves : List Hash) (index : ℕ) → All IsHash leaves
    → All IsHash (proof_on d fuel leaves index)
unfolding proof_on
proof_on-AreHashes d sized_digest fuel [] index h = tt
proof_on-AreHashes d sized_digest fuel (x ∷ []) index h = tt
proof_on-AreHashes d sized_digest zero (x ∷ y ∷ rest) index h = tt
proof_on-AreHashes d sized_digest (suc fuel) (x ∷ y ∷ rest) index h =
    elim (Bool-cases (ltb index (split_point (length (x ∷ y ∷ rest))))) [
      | inl left ↦
          rw (left, proof_on)
            (All-append IsHash (proof_on d fuel (take k (x ∷ y ∷ rest)) index) _
              (proof_on-AreHashes d sized_digest fuel (take k (x ∷ y ∷ rest)) index
                (All-take IsHash k (x ∷ y ∷ rest) h))
              (
                root-IsHash d sized_digest (drop k (x ∷ y ∷ rest))
                    (All-drop IsHash k (x ∷ y ∷ rest) h),
                tt,
              ))
      | inr right ↦
          rw (right, proof_on)
            (All-append IsHash (proof_on d fuel (drop k (x ∷ y ∷ rest)) (index - k)) _
              (proof_on-AreHashes d sized_digest fuel (drop k (x ∷ y ∷ rest)) (index - k)
                (All-drop IsHash k (x ∷ y ∷ rest) h))
              (
                root-IsHash d sized_digest (take k (x ∷ y ∷ rest))
                    (All-take IsHash k (x ∷ y ∷ rest) h),
                tt,
              ))
    ]
  where
    k : ℕ
    k = split_point (length (x ∷ y ∷ rest))

module _ (j : Json) (d : Digest) (keys : Keys) (sound : IsSound d keys) where
  parse_hash-hash_str : (h : Hash) → IsHash h → parse_hash j d keys (hash_str j d keys h) ≡ some h
  unfolding parse_hash hash_str strip_prefix
  parse_hash-hash_str h n = rw (sound.unhex-hex h, sized-exact 32 h n)

  parse_hashes-hash_str :
      (hashes : List Hash)
      → All IsHash hashes
      → parse_hashes j d keys (map (hash_str j d keys) hashes) ≡ ok hashes
  unfolding parse_hashes
  parse_hashes-hash_str [] n = refl
  parse_hashes-hash_str (h ∷ hashes) n =
      rw (parse_hash-hash_str h n.0, parse_hashes-hash_str hashes n.1)

  entry_at :
      (envelopes : List (Envelope j.Value)) (lines : List (List ℕ)) (index : ℕ)
      (env : Envelope j.Value)
      → Entries j d keys sound envelopes lines
      → get_elem? envelopes index ≡ some env
      → (bytes : List ℕ) × (canonical_bytes j d env ≡ ok bytes)
        × (get_elem? (leaves_of d lines) index ≡ some (leaf_hash d bytes))
  entry_at [] lines index env h e = cc
  entry_at (x ∷ envelopes) [] index env h e = absurd h
  entry_at (x ∷ envelopes) (line ∷ lines) zero env h e =
      (line, ap (canonical_bytes j d) (cc) ∙ h.0, refl)
  entry_at (x ∷ envelopes) (line ∷ lines) (suc index) env h e =
      entry_at envelopes lines index env h.1 e

  checks :
      (bundle : InclusionBundle j.Value) (pub_key_hex : Text) (vk : keys.Public) (bytes : List ℕ)
      (r : Hash) (proof : List Hash)
      → parse_pub_key j d keys pub_key_hex ≡ ok vk
      → verify_head_sig j d keys bundle.head vk ≡ done
      → canonical_bytes j d bundle.envelope ≡ ok bytes
      → parse_hash j d keys bundle.head.root_hash ≡ some r
      → parse_hashes j d keys bundle.proof ≡ ok proof
      → verify_inclusion d (leaf_hash d bytes) bundle.index bundle.head.size proof r ≡ true
      → verify_bundle j d keys bundle pub_key_hex ≡ done
  unfolding verify_bundle
  checks bundle pub_key_hex vk bytes r proof key_read signed canonical root_read proof_read
        verified =
      rw (key_read, signed, canonical, root_read, proof_read, verified)

  made : State j d keys → ℕ → Envelope j.Value → SignedHead → InclusionBundle j.Value
  made ledger index env head = record {
    envelope = env;
    index = index;
    proof = map (hash_str j d keys) (inclusion_proof d ledger.leaves index);
    head = head;
  }

  made_checks :
      IsSized d
      → (ledger : State j d keys) (index : ℕ) (pub_key_hex : Text) (env : Envelope j.Value)
        (head : SignedHead)
      → IsKept j d keys sound ledger
      → parse_pub_key j d keys pub_key_hex ≡ ok (keys.public_of ledger.signing)
      → get_elem? ledger.envelopes index ≡ some env
      → last_of ledger.heads ≡ some head
      → verify_bundle j d keys (made ledger index env head) pub_key_hex ≡ done
  unfolding made
  made_checks sized_digest ledger index pub_key_hex env head kept key_read at last =
      let (bytes, canonical, leaf_at) =
        entry_at ledger.envelopes ledger.lines index env kept.entries at in
      let is_head = kept.latest head last in
      let leaves = leaves_of d ledger.lines in
      checks (made ledger index env head) pub_key_hex (keys.public_of ledger.signing) bytes
        (root d leaves) (inclusion_proof d leaves index) key_read is_head.signed canonical
        (ap (parse_hash j d keys) is_head.root_eq
          ∙ parse_hash-hash_str (root d leaves)
              (root-IsHash d sized_digest leaves (leaves-AreHashes d sized_digest ledger.lines)))
        (rw kept.leaves_eq (
          parse_hashes-hash_str (inclusion_proof d leaves index) (
            unfold inclusion_proof in
            proof_on-AreHashes d sized_digest (length leaves) leaves index
              (leaves-AreHashes d sized_digest ledger.lines))))
        (rw (is_head.size_eq, ← length-map (leaf_hash d) ledger.lines)
          (verify_inclusion_complete d leaves index (leaf_hash d bytes) leaf_at))

  -- What a ledger in order proves checks offline under its public key.
  pub prove-verifies :
      IsSized d
      → (ledger : State j d keys) (index : ℕ) (bundle : InclusionBundle j.Value)
        (pub_key_hex : Text)
      → IsKept j d keys sound ledger
      → parse_pub_key j d keys pub_key_hex ≡ ok (keys.public_of ledger.signing)
      → prove j d keys ledger index ≡ ok bundle
      → verify_bundle j d keys bundle pub_key_hex ≡ done
  unfolding prove
  prove-verifies sized_digest ledger index bundle pub_key_hex kept key_read h =
      elim (Option-cases (get_elem? ledger.envelopes index)) [
        | inl missing ↦ absurd (cc (rw (missing, prove) at h))
        | inr (env, at) ↦ elim (Option-cases (last_of ledger.heads)) [
          | inl headless ↦ absurd (cc (rw (at, prove, headless) at h))
          | inr (head, last) ↦
              rw (← same env head (rw (at, prove, last) at h))
                (made_checks sized_digest ledger index pub_key_hex env head kept key_read at last)
        ]
      ]
    where
      same :
          (env : Envelope j.Value) (head : SignedHead)
          → bundle_from j d keys ledger index env (or_fault (some head) no_head) ≡ ok bundle
          → made ledger index env head ≡ bundle
      same env head e = unfold made bundle_from in cc
