-- ===== src/Ledger.antt =====
-- src/ledger.rs: signed heads, the bundles that the ledger hands out, and their check by a party that
-- has the bundle and the public key alone.
pub mod Actors
pub mod Gaps
pub mod Verify
pub mod Offline
pub mod Producer
use trunnion.Prelude.{
  ℕ, Bool, true, false, not, ◌==◌, length, Text, codes, strip_prefix, trim, Option, none, some,
  List, [], ◌∷◌, ◌++◌, if◌then◌else◌,
}
use trunnion.Fault.{
  Fault, Result, ok, err, done, ◌>>=◌, ◌>>◌, bad_hash, bad_public_key, head_signature_malformed,
  head_signature_invalid, inclusion_fails, consistency_fails,
}
use trunnion.Json.{Json, Digest}
use trunnion.Keys.{Keys}
use trunnion.Event.{Envelope, jcs_bytes, canonical_bytes}
use trunnion.Merkle.{Hash, leaf_hash, verify_inclusion, verify_consistency}

pub record SignedHead : Type 0 where
  pub size : ℕ
  pub root_hash : Text
  pub ts : Text
  pub key_id : Text
  pub sig : Text

pub record InclusionBundle (V : Type 0) : Type 0 where
  pub envelope : Envelope V
  pub index : ℕ
  pub proof : List Text
  pub head : SignedHead

pub record ConsistencyBundle : Type 0 where
  pub old_head : SignedHead
  pub new_head : SignedHead
  pub proof : List Text

-- `Option::ok_or_else`.
abbrev pub or_fault {ℓ} : {A : Type ℓ} → Option A → Fault → Result A
or_fault none fault = err fault
or_fault (some a) fault = ok a

-- `try_into` an array of `n` bytes.
abbrev pub sized : ℕ → Option (List ℕ) → Option (List ℕ)
sized n none = none
sized n (some bytes) = if length bytes == n then some bytes else none

module _ (j : Json) (d : Digest) (keys : Keys) where
  unfoldable pub hash_str : Hash → Text
  hash_str h = codes "sha256:" ++ d.hex h

  unfoldable pub parse_hash : Text → Option Hash
  unfolding strip_prefix
  parse_hash s = elim (strip_prefix (codes "sha256:") s) [
    | none ↦ none
    | some hex_part ↦ sized 32 (d.unhex hex_part)
  ]

  unfoldable pub parse_hashes : List Text → Result (List Hash)
  unfolding parse_hash
  parse_hashes [] = ok []
  parse_hashes (s ∷ rest) = do
    h ← or_fault (parse_hash s) (bad_hash s)
    hs ← parse_hashes rest
    ok (h ∷ hs)

  public_from : Option (List ℕ) → Option keys.Public
  public_from none = none
  public_from (some bytes) = keys.public_from_bytes bytes

  unfoldable pub parse_pub_key : Text → Result keys.Public
  unfolding trim public_from
  parse_pub_key pub_key_hex =
      or_fault (public_from (sized 32 (d.unhex (trim pub_key_hex)))) bad_public_key

  -- `HeadCore`, the fields that the signature covers.
  unfoldable pub head_core : ℕ → Text → Text → Text → j.Value
  head_core size root_hash ts key_id = j.object (
      (codes "size", j.number size)
      ∷ (codes "root_hash", j.str root_hash)
      ∷ (codes "ts", j.str ts)
      ∷ (codes "key_id", j.str key_id)
      ∷ [])

  unfoldable pub verify_head_sig : SignedHead → keys.Public → Result (Unit {0})
  unfolding jcs_bytes head_core
  verify_head_sig head vk = do
    sig_bytes ← or_fault (sized 64 (d.unhex head.sig)) head_signature_malformed
    message ← jcs_bytes j d (head_core head.size head.root_hash head.ts head.key_id)
    if keys.check vk message sig_bytes then done else err (head_signature_invalid head.size)

  unfoldable pub verify_bundle : InclusionBundle j.Value → Text → Result (Unit {0})
  unfolding parse_pub_key verify_head_sig canonical_bytes leaf_hash parse_hashes verify_inclusion
  verify_bundle bundle pub_key_hex = do
    vk ← parse_pub_key pub_key_hex
    verify_head_sig bundle.head vk
    bytes ← canonical_bytes j d bundle.envelope
    root ← or_fault (parse_hash bundle.head.root_hash) (bad_hash bundle.head.root_hash)
    proof ← parse_hashes bundle.proof
    if verify_inclusion d (leaf_hash d bytes) bundle.index bundle.head.size proof root
        then done
        else err (inclusion_fails bundle.index bundle.envelope.id bundle.head.size)

  unfoldable pub verify_consistency_hex :
      ℕ → Text → SignedHead → List Text → Text → Result (Unit {0})
  unfolding parse_pub_key verify_head_sig parse_hashes verify_consistency
  verify_consistency_hex m old_root new_head proof_hex pub_key_hex = do
    vk ← parse_pub_key pub_key_hex
    verify_head_sig new_head vk
    old ← or_fault (parse_hash old_root) (bad_hash old_root)
    new ← or_fault (parse_hash new_head.root_hash) (bad_hash new_head.root_hash)
    proof ← parse_hashes proof_hex
    if verify_consistency d m new_head.size old new proof
        then done
        else err (consistency_fails m new_head.size)

  unfoldable pub verify_consistency_bundle : ConsistencyBundle → Text → Result (Unit {0})
  unfolding parse_pub_key verify_head_sig verify_consistency_hex
  verify_consistency_bundle bundle pub_key_hex = do
    vk ← parse_pub_key pub_key_hex
    verify_head_sig bundle.old_head vk
    verify_consistency_hex bundle.old_head.size bundle.old_head.root_hash bundle.new_head
        bundle.proof pub_key_hex
