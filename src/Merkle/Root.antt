-- ===== src/Merkle/Root.antt =====
-- src/merkle.rs: the equation of `root`, and induction along the splits of a tree.
use native.Mathlib.Nat.{le_refl}
use trunnion.Prelude.{
  ℕ, zero, suc, ◌-◌, ◌≤◌, length, take, drop, length-take, length-drop, List, [], ◌∷◌, ◌≡◌, refl,
  arith, ap₂,
}
use trunnion.Json.{Digest}
use trunnion.Merkle.{Hash, split_point, node_hash, root_on, root}
use trunnion.Merkle.Split.{split_point_bounds}

module _ {ℓ} {A : Type ℓ} (leaves : List A) (two : 2 ≤ length leaves) where
  abbrev pub left_size : ℕ
  left_size = split_point (length leaves)

  pub length-left : length (take (split_point (length leaves)) leaves) ≡ split_point (length leaves)
  length-left =
      let bounds = split_point_bounds (length leaves) two in
      omega (arith, bounds.0, length-take (split_point (length leaves)) leaves)

  pub length-right :
      length (drop (split_point (length leaves)) leaves)
      ≡ length leaves - split_point (length leaves)
  length-right = length-drop (split_point (length leaves)) leaves

-- To prove a property of every list of leaves, prove it of at most one and of a list from its parts.
module _ {ℓ κ} {A : Type ℓ} (P : List A → Type κ) (base : P []) (one : (x : A) → P (x ∷ []))
    (join : (leaves : List A)
      → 2 ≤ length leaves
      → P (take (split_point (length leaves)) leaves)
      → P (drop (split_point (length leaves)) leaves)
      → P leaves) where
  split_induction_on : (fuel : ℕ) (leaves : List A) → length leaves ≤ fuel → P leaves
  split_induction_on fuel [] h = base
  split_induction_on fuel (x ∷ []) h = one x
  split_induction_on zero (x ∷ y ∷ rest) h = absurd (omega arith)
  split_induction_on (suc fuel) (x ∷ y ∷ rest) h =
      let leaves : List A = x ∷ y ∷ rest in
      let two : 2 ≤ length leaves = omega arith in
      let bounds = split_point_bounds (length leaves) two in
      join leaves two
        (split_induction_on fuel (take (split_point (length leaves)) leaves)
          (omega (arith, length-left leaves two, bounds.0)))
        (split_induction_on fuel (drop (split_point (length leaves)) leaves)
          (omega (arith, length-right leaves two, bounds.2)))

  pub split_induction : (leaves : List A) → P leaves
  split_induction leaves = split_induction_on (length leaves) leaves (omega arith)

module _ (d : Digest) where
  -- The fuel does not show in the root.
  root_on-fuel :
      (f g : ℕ) (leaves : List Hash)
      → length leaves ≤ f
      → length leaves ≤ g
      → root_on d f leaves ≡ root_on d g leaves
  unfolding root_on
  root_on-fuel f g [] hf hg = refl
  root_on-fuel f g (x ∷ []) hf hg = refl
  root_on-fuel zero g (x ∷ y ∷ rest) hf hg = absurd (omega arith)
  root_on-fuel (suc f) zero (x ∷ y ∷ rest) hf hg = absurd (omega arith)
  root_on-fuel (suc f) (suc g) (x ∷ y ∷ rest) hf hg =
      let leaves : List Hash = x ∷ y ∷ rest in
      let two : 2 ≤ length leaves = omega arith in
      let bounds = split_point_bounds (length leaves) two in
      let left = length-left leaves two in
      let right = length-right leaves two in
      ap₂ (node_hash d)
        (root_on-fuel f g (take (split_point (length leaves)) leaves) (omega arith) (omega arith))
        (root_on-fuel f g (drop (split_point (length leaves)) leaves) (omega arith) (omega arith))

  -- `root` is the Merkle tree hash of RFC 6962: the hash of the roots of the two parts.
  pub root-split :
      (leaves : List Hash)
      → 2 ≤ length leaves
      → root d leaves
        ≡ node_hash d
            (root d (take (split_point (length leaves)) leaves))
            (root d (drop (split_point (length leaves)) leaves))
  unfolding root
  root-split [] two = absurd (omega arith)
  root-split (x ∷ []) two = absurd (omega arith)
  root-split (x ∷ y ∷ rest) two =
      let leaves : List Hash = x ∷ y ∷ rest in
      let bounds = split_point_bounds (length leaves) two in
      let left = length-left leaves two in
      let right = length-right leaves two in
      unfold root_on in
      ap₂ (node_hash d)
        (root_on-fuel (suc (length rest)) _ (take (split_point (length leaves)) leaves)
          (omega arith) (le_refl _))
        (root_on-fuel (suc (length rest)) _ (drop (split_point (length leaves)) leaves)
          (omega arith) (le_refl _))

  pub root-one : (x : Hash) → root d (x ∷ []) ≡ x
  unfolding root root_on
  root-one x = refl
