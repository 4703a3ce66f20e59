-- ===== src/Tests/MerkleTree.antt =====
-- Runs of src/merkle.rs on a tree of three leaves, and uses of its theorems there.
use trunnion.Prelude.{
  ℕ, ◌*◌, ◌^◌, ◌≤◌, ◌<◌, true, All, take, get_elem?, some, List, [], ◌∷◌, ◌++◌, ◌≡◌, ◌⊎◌, refl,
  arith,
}
use trunnion.Merkle.{
  Hash, split_point, split_point_u64, leaf_hash, node_hash, root, inclusion_proof, verify_inclusion,
  consistency_proof, verify_consistency,
}
use trunnion.Merkle.Split.{split_point_u64_lem}
use trunnion.Merkle.Collision.{Collision, IsHash}
use trunnion.Merkle.Inclusion.{verify_inclusion_complete, verify_inclusion_sound}
use trunnion.Merkle.Consistency.{verify_consistency_complete}
use trunnion.Merkle.Prefix.{verify_consistency_sound}
use trunnion.Tests.Sample.{toy, toy-IsSized, length-cut}

abbrev leaf_a : Hash
leaf_a = leaf_hash toy (1 ∷ [])

abbrev leaf_b : Hash
leaf_b = leaf_hash toy (2 ∷ [])

abbrev leaf_c : Hash
leaf_c = leaf_hash toy (3 ∷ [])

abbrev leaves : List Hash
leaves = leaf_a ∷ leaf_b ∷ leaf_c ∷ []

leaf-IsHash : (bytes : List ℕ) → IsHash (leaf_hash toy bytes)
unfolding leaf_hash
leaf-IsHash bytes = length-cut 32 (0 ∷ bytes)

leaves-AreHashes : All IsHash leaves
leaves-AreHashes = (leaf-IsHash (1 ∷ []), (leaf-IsHash (2 ∷ []), (leaf-IsHash (3 ∷ []), tt)))

node-IsHash : (l r : Hash) → IsHash (node_hash toy l r)
unfolding node_hash
node-IsHash l r = length-cut 32 (1 ∷ (l ++ r))

-- Tests.
split_of_five : split_point 5 ≡ 4
unfolding split_point
split_of_five = refl

split_of_eight : split_point 8 ≡ 4
unfolding split_point
split_of_eight = refl

root_of_three : root toy leaves ≡ node_hash toy (node_hash toy leaf_a leaf_b) leaf_c
unfolding root
root_of_three = refl

proof_of_second : inclusion_proof toy leaves 1 ≡ leaf_a ∷ leaf_c ∷ []
unfolding inclusion_proof root
proof_of_second = refl

proof_of_two : consistency_proof toy leaves 2 ≡ leaf_c ∷ []
unfolding consistency_proof root
proof_of_two = refl

split_point_u64_lem_example :
    (split_point_u64 5 ≡ split_point 5)
    × ((j : ℕ) × (split_point_u64 5 ≡ 2 ^ j) × (2 ^ j < 5) × (5 ≤ 2 * 2 ^ j))
split_point_u64_lem_example = split_point_u64_lem 5 (omega arith) (omega arith)

verify_inclusion_complete_example :
    verify_inclusion toy leaf_b 1 3 (inclusion_proof toy leaves 1) (root toy leaves) ≡ true
verify_inclusion_complete_example = verify_inclusion_complete toy leaves 1 leaf_b refl

verify_inclusion_sound_example : (get_elem? leaves 1 ≡ some leaf_b) ⊎ Collision toy
verify_inclusion_sound_example =
    verify_inclusion_sound toy toy-IsSized leaves 1 leaf_b (leaf_a ∷ leaf_c ∷ []) leaves-AreHashes
      (leaf-IsHash (2 ∷ [])) (leaf-IsHash (1 ∷ []), (leaf-IsHash (3 ∷ []), tt)) verified
  where
    verified : verify_inclusion toy leaf_b 1 3 (leaf_a ∷ leaf_c ∷ []) (root toy leaves) ≡ true
    verified = rw proof_of_second at (verify_inclusion_complete toy leaves 1 leaf_b refl)

verify_consistency_complete_example :
    verify_consistency toy 2 3
      (root toy (take 2 leaves))
      (root toy leaves)
      (consistency_proof toy leaves 2)
    ≡ true
verify_consistency_complete_example =
    verify_consistency_complete toy leaves 2 (omega arith) (omega arith)

root_of_two : root toy (take 2 leaves) ≡ node_hash toy leaf_a leaf_b
unfolding root
root_of_two = refl

verify_consistency_sound_example :
    (node_hash toy leaf_a leaf_b ≡ root toy (take 2 leaves)) ⊎ Collision toy
verify_consistency_sound_example =
    verify_consistency_sound toy toy-IsSized leaves 2 (node_hash toy leaf_a leaf_b) (leaf_c ∷ [])
      leaves-AreHashes (node-IsHash leaf_a leaf_b) (leaf-IsHash (3 ∷ []), tt) (omega arith)
      (omega arith) verified
  where
    verified :
        verify_consistency toy 2 3 (node_hash toy leaf_a leaf_b) (root toy leaves) (leaf_c ∷ [])
        ≡ true
    verified =
        rw (proof_of_two, root_of_two) at
          (verify_consistency_complete toy leaves 2 (omega arith) (omega arith))
