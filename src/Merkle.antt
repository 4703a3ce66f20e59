-- ===== src/Merkle.antt =====
-- src/merkle.rs: the RFC 6962 tree over leaf hashes, its inclusion and consistency proofs, and the
-- verifiers that recompute roots from them. A proof is read from its end, so the verifiers recur on
-- the reversed proof, whose head is what `split_last` takes off.
pub mod Injective
pub mod Split
pub mod Root
pub mod Collision
pub mod Inclusion
pub mod Consistency
pub mod Prefix
use mathlib.Core.Option
use trunnion.Prelude.{
  ℕ, zero, suc, ◌+◌, ◌-◌, ◌*◌, ◌%◌, ◌^◌, Bool, true, false, ◌&&◌, ◌||◌, ◌==◌, ltb, leb,
  if◌then◌else◌, length, take, drop, Option, none, some, List, [], ◌∷◌, ◌++◌, reverse, str_eq, not,
}
use trunnion.Json.{Digest}

-- `[u8; 32]`: that a hash has 32 bytes is a hypothesis where a theorem needs it.
abbrev pub Hash : Type 0
Hash = List ℕ

-- Largest power of two below `n`: the loop doubles `k` while twice it is below `n`. The fuel is never
-- used up (Merkle/Split). Here the product has no bound; `split_point_u64` is the loop on a `usize`.
split_loop : ℕ → ℕ → ℕ → ℕ
split_loop zero k n = k
split_loop (suc fuel) k n = elim (ltb (k * 2) n) [ true ↦ split_loop fuel (k * 2) n | false ↦ k ]

unfoldable pub split_point : ℕ → ℕ
unfolding split_loop
split_point n = split_loop n 1 n

-- The same loop with the product as a `usize` of 64 bits holds it. Above 2 ^ 63 the product wraps.
split_loop_u64 : ℕ → ℕ → ℕ → ℕ
split_loop_u64 zero k n = k
split_loop_u64 (suc fuel) k n = elim (ltb (k * 2 % 2 ^ 64) n) [
  | true ↦ split_loop_u64 fuel (k * 2 % 2 ^ 64) n
  | false ↦ k
]

unfoldable pub split_point_u64 : ℕ → ℕ
unfolding split_loop_u64
split_point_u64 n = split_loop_u64 n 1 n

abbrev is_empty {ℓ} : {A : Type ℓ} → List A → Bool
is_empty [] = true
is_empty (x ∷ xs) = false

module _ (d : Digest) where
  unfoldable pub leaf_hash : List ℕ → Hash
  leaf_hash leaf_bytes = d.sha256 (0 ∷ leaf_bytes)

  unfoldable pub node_hash : Hash → Hash → Hash
  node_hash left right = d.sha256 (1 ∷ (left ++ right))

  -- Recursion on fuel, since half a list is no part of it. The length is enough (Merkle/Root).
  root_on : ℕ → List Hash → Hash
  unfolding node_hash split_point
  root_on fuel [] = d.sha256 []
  root_on fuel (x ∷ []) = x
  root_on zero (x ∷ y ∷ rest) = d.sha256 []
  root_on (suc fuel) (x ∷ y ∷ rest) =
      let leaves = x ∷ y ∷ rest in
      let k = split_point (length leaves) in
      node_hash (root_on fuel (take k leaves)) (root_on fuel (drop k leaves))

  unfoldable pub root : List Hash → Hash
  unfolding root_on
  root leaves = root_on (length leaves) leaves

  unfoldable pub proof_on : ℕ → List Hash → ℕ → List Hash
  proof_on fuel [] index = []
  proof_on fuel (x ∷ []) index = []
  proof_on zero (x ∷ y ∷ rest) index = []
  proof_on (suc fuel) (x ∷ y ∷ rest) index =
      let leaves = x ∷ y ∷ rest in
      let k = split_point (length leaves) in
      elim (ltb index k) [
        | true ↦ proof_on fuel (take k leaves) index ++ root (drop k leaves) ∷ []
        | false ↦ proof_on fuel (drop k leaves) (index - k) ++ root (take k leaves) ∷ []
      ]

  unfoldable pub inclusion_proof : List Hash → ℕ → List Hash
  unfolding proof_on
  inclusion_proof leaves index = proof_on (length leaves) leaves index

  -- `root_from_inclusion`, on the reversed proof.
  unfoldable pub climb : Hash → ℕ → ℕ → List Hash → Option Hash
  unfolding split_point node_hash
  climb leaf index size [] = if leb size index then none else if size == 1 then some leaf else none
  climb leaf index size (last ∷ rest) =
      let k = split_point size in
      if leb size index || size == 1 then none else elim (ltb index k) [
        | true ↦ Option.map (λ sub. node_hash sub last) (climb leaf index k rest)
        | false ↦ Option.map (λ sub. node_hash last sub) (climb leaf (index - k) (size - k) rest)
      ]

  unfoldable pub root_from_inclusion : Hash → ℕ → ℕ → List Hash → Option Hash
  unfolding climb
  root_from_inclusion leaf index size proof = climb leaf index size (reverse proof)

  abbrev is_root : Option Hash → Hash → Bool
  is_root none expected = false
  is_root (some computed) expected = str_eq computed expected

  unfoldable pub verify_inclusion : Hash → ℕ → ℕ → List Hash → Hash → Bool
  unfolding root_from_inclusion str_eq
  verify_inclusion leaf index size proof expected_root =
      is_root (root_from_inclusion leaf index size proof) expected_root

  -- `subproof` does not end for `m` of 0 or above the number of leaves; `Ledger::consistency` refuses
  -- those, and the fuel gives the empty proof there.
  unfoldable pub subproof_on : ℕ → List Hash → ℕ → Bool → List Hash
  subproof_on zero leaves m complete = if complete then [] else root leaves ∷ []
  subproof_on (suc fuel) leaves m complete =
      let n = length leaves in
      let k = split_point n in
      elim (m == n) [
        | true ↦ if complete then [] else root leaves ∷ []
        | false ↦ elim (leb m k) [
          | true ↦ subproof_on fuel (take k leaves) m complete ++ root (drop k leaves) ∷ []
          | false ↦ subproof_on fuel (drop k leaves) (m - k) false ++ root (take k leaves) ∷ []
        ]
      ]

  unfoldable pub consistency_proof : List Hash → ℕ → List Hash
  unfolding subproof_on
  consistency_proof leaves m = subproof_on (length leaves) leaves m true

  -- `roots_from_consistency`, on the reversed proof.
  unfoldable pub climb_both : ℕ → ℕ → Bool → List Hash → Hash → Option (Hash × Hash)
  climb_both m n complete [] old_root =
      if m == n && complete then some (old_root, old_root) else none
  climb_both m n complete (last ∷ rest) old_root =
      let k = split_point n in
      elim (m == n) [
        | true ↦ if not complete && is_empty rest then some (last, last) else none
        | false ↦ elim (leb m k) [
          | true ↦
              Option.map (λ (r : Hash × Hash). (r.0, node_hash r.1 last))
                (climb_both m k complete rest old_root)
          | false ↦
              Option.map (λ (r : Hash × Hash). (node_hash last r.0, node_hash last r.1))
                (climb_both (m - k) (n - k) false rest old_root)
        ]
      ]

  abbrev are_roots : Option (Hash × Hash) → Hash → Hash → Bool
  are_roots none old_root new_root = false
  are_roots (some (o, ne)) old_root new_root = str_eq o old_root && str_eq ne new_root

  unfoldable pub verify_consistency : ℕ → ℕ → Hash → Hash → List Hash → Bool
  unfolding climb_both str_eq
  verify_consistency m n old_root new_root proof =
      if ltb n m || m == 0
      then m == n && str_eq old_root new_root && is_empty proof
      else are_roots (climb_both m n true (reverse proof) old_root) old_root new_root
