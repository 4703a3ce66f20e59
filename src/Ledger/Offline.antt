-- ===== src/Ledger/Offline.antt =====
-- src/ledger.rs: what a bundle that checks offline says of the log, if the head in it is of that log.
use trunnion.Prelude.{
  ℕ, zero, suc, ◌≤◌, Bool, true, false, ltb, length, take, get_elem?, Text, codes, strip_prefix,
  Option, none, some, List, [], ◌∷◌, map, ◌≡◌, ◌⊎◌, inl, inr, refl, ◌∙◌, ap, subst, arith, All,
  Bool-cases, Option-cases, str_eq, str_eq_iff, if◌then◌else◌,
}
use trunnion.Fault.{Fault, ok, err, done, >>=-eq-ok}
use trunnion.Json.{Json, Digest}
use trunnion.Keys.{Keys}
use trunnion.Event.{canonical_bytes}
use trunnion.Merkle.{Hash, leaf_hash, root, verify_inclusion, verify_consistency}
use trunnion.Merkle.Collision.{Collision, IsHash, IsSized}
use trunnion.Merkle.Inclusion.{verify_inclusion_sound}
use trunnion.Merkle.Prefix.{verify_consistency_sound}
use trunnion.Ledger.{
  SignedHead, InclusionBundle, or_fault, sized, parse_hash, parse_hashes, parse_pub_key,
  verify_head_sig, verify_bundle, verify_consistency_hex,
}

pub length-map {ℓ κ} :
    {A : Type ℓ} {B : Type κ} (f : A → B) (xs : List A) → length (map f xs) ≡ length xs
length-map f [] = refl
length-map f (x ∷ xs) = ap suc (length-map f xs)

get_elem?-map :
    (f : List ℕ → Hash) (xs : List (List ℕ)) (i : ℕ) (y : Hash)
    → get_elem? (map f xs) i ≡ some y
    → (x : List ℕ) × (get_elem? xs i ≡ some x) × (f x ≡ y)
get_elem?-map f [] i y h = cc
get_elem?-map f (x ∷ xs) zero y h = (x, refl, cc)
get_elem?-map f (x ∷ xs) (suc i) y h = get_elem?-map f xs i y h

pub or_fault-ok {ℓ} :
    {A : Type ℓ} (o : Option A) (fault : Fault) (a : A) → or_fault o fault ≡ ok a → o ≡ some a
or_fault-ok none fault a h = cc
or_fault-ok (some b) fault a h = cc

pub sized-some :
    (n : ℕ) (o : Option (List ℕ)) (bytes : List ℕ) → sized n o ≡ some bytes → length bytes ≡ n
sized-some n none bytes h = cc
sized-some n (some b) bytes h = ground arith

guarded : (b : Bool) (fault : Fault) → (if b then done else err fault) ≡ done → b ≡ true
guarded true fault h = refl
guarded false fault h = cc

-- The leaf hashes of the lines of a log.
abbrev pub leaves_of : Digest → List (List ℕ) → List Hash
leaves_of d lines = map (leaf_hash d) lines

pub leaves-AreHashes :
    (d : Digest) → IsSized d → (lines : List (List ℕ)) → All IsHash (leaves_of d lines)
leaves-AreHashes d sized_digest [] = tt
leaves-AreHashes d sized_digest (line ∷ lines) =
    (unfold leaf_hash in sized_digest (0 ∷ line), leaves-AreHashes d sized_digest lines)

pub leaf_hash-inj :
    (d : Digest) (a b : List ℕ) → leaf_hash d a ≡ leaf_hash d b → (a ≡ b) ⊎ Collision d
unfolding leaf_hash
leaf_hash-inj d a b e = elim (Bool-cases (str_eq a b)) [
  | inl same ↦ inl ((str_eq_iff a b).0 same)
  | inr differ ↦ inr (0 ∷ a, 0 ∷ b, (λ q. ground (arith, str_eq_iff a b)), e)
]

-- An inclusion proof that verifies against the root of a log's leaves, on the lines of the log.
included :
    (d : Digest)
    → IsSized d
    → (lines : List (List ℕ)) (bytes : List ℕ) (index size : ℕ) (proof : List Hash) (r : Hash)
    → All IsHash proof
    → r ≡ root d (leaves_of d lines)
    → size ≡ length lines
    → verify_inclusion d (leaf_hash d bytes) index size proof r ≡ true
    → (get_elem? lines index ≡ some bytes) ⊎ Collision d
included d sized_digest lines bytes index size proof r hashes root_eq size_eq h =
    elim (verify_inclusion_sound d sized_digest (leaves_of d lines) index (leaf_hash d bytes) proof
      (leaves-AreHashes d sized_digest lines) (unfold leaf_hash in sized_digest (0 ∷ bytes)) hashes
      (rw (length-map (leaf_hash d) lines, ← size_eq, ← root_eq) h)) [
        | inr collision ↦ inr collision
        | inl at ↦
            let (line, found, same) =
              get_elem?-map (leaf_hash d) lines index (leaf_hash d bytes) at in
            elim (leaf_hash-inj d line bytes same) [
              | inr collision ↦ inr collision
              | inl equal ↦ inl (found ∙ ap (λ (b : List ℕ). some b) equal)
            ]
      ]

take-map : (f : List ℕ → Hash) (m : ℕ) (xs : List (List ℕ)) → take m (map f xs) ≡ map f (take m xs)
take-map f zero xs = refl
take-map f (suc m) [] = refl
take-map f (suc m) (x ∷ xs) = ap (λ ys. f x ∷ ys) (take-map f m xs)

within_size :
    (d : Digest) (m n : ℕ) (old new : Hash) (proof : List Hash)
    → 1 ≤ m
    → verify_consistency d m n old new proof ≡ true
    → m ≤ n
unfolding verify_consistency
within_size d m n old new proof positive h = elim (Bool-cases (ltb n m)) [
  | inl above ↦ absurd (ground (arith, rw (above, verify_consistency) at h))
  | inr fits ↦ ground arith
]

consistent :
    (d : Digest)
    → IsSized d
    → (lines : List (List ℕ)) (m size : ℕ) (old new : Hash) (proof : List Hash) → IsHash old
    → All IsHash proof
    → new ≡ root d (leaves_of d lines)
    → size ≡ length lines
    → 1 ≤ m
    → verify_consistency d m size old new proof ≡ true
    → (m ≤ length lines) × ((old ≡ root d (leaves_of d (take m lines))) ⊎ Collision d)
consistent d sized_digest lines m size old new proof old_sized hashes root_eq size_eq positive h = (
  rw (← size_eq) within,
  rw (← take-map (leaf_hash d) m lines) (
      verify_consistency_sound d sized_digest (leaves_of d lines) m old proof
        (leaves-AreHashes d sized_digest lines) old_sized hashes positive
        (rw (length-map (leaf_hash d) lines, ← size_eq) within)
        (rw (length-map (leaf_hash d) lines, ← size_eq, ← root_eq) h)),
)
  where
    within : m ≤ size
    within = within_size d m size old new proof positive h

module _ (j : Json) (d : Digest) (keys : Keys) where
  parse_hash-IsHash : (s : Text) (h : Hash) → parse_hash j d keys s ≡ some h → IsHash h
  unfolding parse_hash
  parse_hash-IsHash s h e = elim (Option-cases (strip_prefix (codes "sha256:") s)) [
    | inl bare ↦ absurd (cc (rw (bare, parse_hash) at e))
    | inr (rest, found) ↦ sized-some 32 (d.unhex rest) h (rw (found, parse_hash) at e)
  ]

  parse_hashes-AreHashes :
      (texts : List Text) (hashes : List Hash)
      → parse_hashes j d keys texts ≡ ok hashes
      → All IsHash hashes
  unfolding parse_hashes
  parse_hashes-AreHashes [] [] e = tt
  parse_hashes-AreHashes [] (h ∷ hashes) e = cc
  parse_hashes-AreHashes (s ∷ texts) hashes e =
      let (h, first, rest) = >>=-eq-ok (or_fault (parse_hash j d keys s) _) _ e in
      let (hs, second, last) = >>=-eq-ok (parse_hashes j d keys texts) _ rest in
      let joined : h ∷ hs ≡ hashes = cc in
      subst (All IsHash) joined
        (parse_hash-IsHash s h (or_fault-ok _ _ h first), parse_hashes-AreHashes texts hs second)

  -- A bundle that checks against a head of the log with these lines holds the line at its index, byte
  -- for byte, and a head whose signature is good; or SHA-256 has a collision, which the bundle shows.
  pub verify_bundle_sound :
      IsSized d
      → (lines : List (List ℕ)) (bundle : InclusionBundle j.Value) (pub_key_hex : Text)
      → parse_hash j d keys bundle.head.root_hash ≡ some (root d (leaves_of d lines))
      → bundle.head.size ≡ length lines
      → verify_bundle j d keys bundle pub_key_hex ≡ done
      → (vk : keys.Public) × (bytes : List ℕ) × (parse_pub_key j d keys pub_key_hex ≡ ok vk)
        × (verify_head_sig j d keys bundle.head vk ≡ done)
        × (canonical_bytes j d bundle.envelope ≡ ok bytes)
        × ((get_elem? lines bundle.index ≡ some bytes) ⊎ Collision d)
  unfolding verify_bundle
  verify_bundle_sound sized_digest lines bundle pub_key_hex root_eq size_eq h =
      let (vk, key_read, h1) = >>=-eq-ok (parse_pub_key j d keys pub_key_hex) _ h in
      let (_, signed, h2) = >>=-eq-ok (verify_head_sig j d keys bundle.head vk) _ h1 in
      let (bytes, canonical, h3) = >>=-eq-ok (canonical_bytes j d bundle.envelope) _ h2 in
      let (r, root_read, h4) =
        >>=-eq-ok (or_fault (parse_hash j d keys bundle.head.root_hash) _) _ h3 in
      let (proof, proof_read, h5) = >>=-eq-ok (parse_hashes j d keys bundle.proof) _ h4 in
      (
        vk,
        bytes,
        key_read,
        signed,
        canonical,
        included d sized_digest lines bytes bundle.index bundle.head.size proof r
            (parse_hashes-AreHashes bundle.proof proof proof_read)
            (same_root r (or_fault-ok _ _ r root_read)) size_eq (guarded _ _ h5),
      )
    where
      same_root :
          (r : Hash)
          → parse_hash j d keys bundle.head.root_hash ≡ some r
          → r ≡ root d (leaves_of d lines)
      same_root r read = cc

  -- An older root that checks as consistent with a head of the log with these lines is, for an old size
  -- of one or more, the root of that many of the log's first lines, and the newer head's signature is
  -- good; or SHA-256 has a collision, which the proof shows.
  pub verify_consistency_hex_sound :
      IsSized d
      → (lines : List (List ℕ)) (m : ℕ) (old_root : Text) (new_head : SignedHead)
        (proof_hex : List Text) (pub_key_hex : Text)
      → parse_hash j d keys new_head.root_hash ≡ some (root d (leaves_of d lines))
      → new_head.size ≡ length lines
      → 1 ≤ m
      → verify_consistency_hex j d keys m old_root new_head proof_hex pub_key_hex ≡ done
      → (vk : keys.Public) × (parse_pub_key j d keys pub_key_hex ≡ ok vk)
        × (verify_head_sig j d keys new_head vk ≡ done)
        × (m ≤ length lines)
        × ((parse_hash j d keys old_root ≡ some (root d (leaves_of d (take m lines))))
            ⊎ Collision d)
  unfolding verify_consistency_hex
  verify_consistency_hex_sound sized_digest lines m old_root new_head proof_hex pub_key_hex root_eq
        size_eq positive h =
      let (vk, key_read, h1) = >>=-eq-ok (parse_pub_key j d keys pub_key_hex) _ h in
      let (_, signed, h2) = >>=-eq-ok (verify_head_sig j d keys new_head vk) _ h1 in
      let (old, old_read, h3) = >>=-eq-ok (or_fault (parse_hash j d keys old_root) _) _ h2 in
      let (new, new_read, h4) =
        >>=-eq-ok (or_fault (parse_hash j d keys new_head.root_hash) _) _ h3 in
      let (proof, proof_read, h5) = >>=-eq-ok (parse_hashes j d keys proof_hex) _ h4 in
      let (within, prefix) =
        consistent d sized_digest lines m new_head.size old new proof
          (parse_hash-IsHash old_root old (or_fault-ok _ _ old old_read))
          (parse_hashes-AreHashes proof_hex proof proof_read)
          (same_root new (or_fault-ok _ _ new new_read)) size_eq positive (guarded _ _ h5) in
      (vk, key_read, signed, within, read_back old (or_fault-ok _ _ old old_read) prefix)
    where
      same_root :
          (r : Hash)
          → parse_hash j d keys new_head.root_hash ≡ some r
          → r ≡ root d (leaves_of d lines)
      same_root r read = cc

      read_back :
          (old : Hash)
          → parse_hash j d keys old_root ≡ some old
          → (old ≡ root d (leaves_of d (take m lines))) ⊎ Collision d
          → (parse_hash j d keys old_root ≡ some (root d (leaves_of d (take m lines))))
            ⊎ Collision d
      read_back old read (inl same) = inl (read ∙ ap (λ (h : Hash). some h) same)
      read_back old read (inr collision) = inr collision
