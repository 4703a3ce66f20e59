-- ===== src/Merkle/Inclusion.antt =====
-- src/merkle.rs: inclusion proofs verify, and what verifies is in the tree.
use mathlib.Core.Option
use native.Mathlib.Nat.{le_refl}
use trunnion.Prelude.{
  ℕ, zero, suc, ◌-◌, ◌≤◌, ◌<◌, true, false, ◌||◌, ltb, leb, ◌==◌, length, take, drop, get_elem?,
  get_elem?-take, get_elem?-drop, get_elem?-lt, List, [], ◌∷◌, ◌++◌, reverse, reverse-snoc, Option,
  none, some, ◌≡◌, refl, arith, ◌⊎◌, inl, inr, Bool-cases, Option-cases, All, All-take, All-drop,
  All-reverse, str_eq_refl, str_eq_iff, ap, sym, ◌∙◌,
}
use trunnion.Json.{Digest}
use trunnion.Merkle.{
  Hash, split_point, node_hash, root_on, root, proof_on, inclusion_proof, climb,
  root_from_inclusion, verify_inclusion,
}
use trunnion.Merkle.Split.{split_point_bounds}
use trunnion.Merkle.Root.{length-left, length-right, root-split, root-one}
use trunnion.Merkle.Collision.{Collision, IsHash, IsSized, node_hash-inj, root-IsHash}

module _ (d : Digest) where
  climb-left :
      (leaf : Hash) (index size : ℕ) (last : Hash) (rest : List Hash)
      → 2 ≤ size
      → index < split_point size
      → climb d leaf index size (last ∷ rest)
        ≡ Option.map (λ sub. node_hash d sub last) (climb d leaf index (split_point size) rest)
  unfolding climb
  climb-left leaf index size last rest two lt = rw (guard, test)
    where
      guard : (leb size index || size == 1) ≡ false
      guard = ground (arith, split_point_bounds size two)

      test : ltb index (split_point size) ≡ true
      test = ground arith

  climb-right :
      (leaf : Hash) (index size : ℕ) (last : Hash) (rest : List Hash)
      → 2 ≤ size
      → split_point size ≤ index
      → index < size
      → climb d leaf index size (last ∷ rest)
        ≡ Option.map
            (λ sub. node_hash d last sub)
            (climb d leaf (index - split_point size) (size - split_point size) rest)
  unfolding climb
  climb-right leaf index size last rest two ge lt = rw (guard, test)
    where
      guard : (leb size index || size == 1) ≡ false
      guard = ground arith

      test : ltb index (split_point size) ≡ false
      test = ground arith

  module _ (leaves : List Hash) (two : 2 ≤ length leaves) (index : ℕ) (leaf : Hash)
      (p : List Hash) where
    complete-left :
        index < (split_point (length leaves))
        → climb d leaf index (length (take (split_point (length leaves)) leaves)) (reverse p)
          ≡ some (root d (take (split_point (length leaves)) leaves))
        → climb d leaf index
            (length leaves)
            (reverse (p ++ root d (drop (split_point (length leaves)) leaves) ∷ []))
          ≡ some (root d leaves)
    complete-left lt ih =
        let ih' = rw (length-left leaves two) at ih in
        rw
          (
            reverse-snoc p (root d (drop (split_point (length leaves)) leaves)),
            climb-left leaf index (length leaves)
                (root d (drop (split_point (length leaves)) leaves)) (reverse p) two lt,
            ih',
          )
          (ap (λ r. some r) (sym (root-split d leaves two)))

    complete-right :
        (split_point (length leaves)) ≤ index
        → index < length leaves
        → climb d leaf
            (index - (split_point (length leaves)))
            (length (drop (split_point (length leaves)) leaves))
            (reverse p)
          ≡ some (root d (drop (split_point (length leaves)) leaves))
        → climb d leaf index
            (length leaves)
            (reverse (p ++ root d (take (split_point (length leaves)) leaves) ∷ []))
          ≡ some (root d leaves)
    complete-right ge lt ih =
        let ih' = rw (length-right leaves two) at ih in
        rw
          (
            reverse-snoc p (root d (take (split_point (length leaves)) leaves)),
            climb-right leaf index (length leaves)
                (root d (take (split_point (length leaves)) leaves)) (reverse p) two ge lt,
            ih',
          )
          (ap (λ r. some r) (sym (root-split d leaves two)))

  at-right :
      (k : ℕ) (leaves : List Hash) (index : ℕ)
      → k ≤ index
      → get_elem? (drop k leaves) (index - k) ≡ get_elem? leaves index
  at-right k leaves index ge =
      get_elem?-drop k leaves (index - k) ∙ ap (get_elem? leaves) (omega arith)

  climb_complete :
      (fuel : ℕ) (leaves : List Hash) (index : ℕ) (leaf : Hash)
      → length leaves ≤ fuel
      → get_elem? leaves index ≡ some leaf
      → climb d leaf index (length leaves) (reverse (proof_on d fuel leaves index))
        ≡ some (root d leaves)
  unfolding proof_on
  climb_complete fuel [] index leaf enough at = cc
  climb_complete fuel (x ∷ []) zero leaf enough at = unfold climb in rw (root-one d x) (sym at)
  climb_complete fuel (x ∷ []) (suc i) leaf enough at = cc
  climb_complete zero (x ∷ y ∷ rest) index leaf enough at = absurd (omega arith)
  climb_complete (suc fuel) (x ∷ y ∷ rest) index leaf enough at =
      elim (Bool-cases (ltb index (split_point (length leaves)))) [
        | inl left ↦
            rw (left, proof_on)
              (complete-left leaves two index leaf
                (proof_on d fuel (take (split_point (length leaves)) leaves) index) (ground arith)
                (climb_complete fuel (take (split_point (length leaves)) leaves) index leaf
                  (omega (arith, length-left leaves two, split_point_bounds (length leaves) two))
                  (get_elem?-take _ leaves index (ground arith) ∙ at)))
        | inr right ↦
            rw (right, proof_on)
              (complete-right leaves two index leaf
                (proof_on d fuel (drop (split_point (length leaves)) leaves)
                  (index - split_point (length leaves)))
                (ground arith) (get_elem?-lt leaves index leaf at)
                (climb_complete fuel (drop (split_point (length leaves)) leaves) _ leaf
                  (omega (arith, length-right leaves two, split_point_bounds (length leaves) two))
                  (at-right _ leaves index (ground arith) ∙ at)))
      ]
    where
      leaves : List Hash
      leaves = x ∷ y ∷ rest

      two : 2 ≤ length leaves
      two = omega arith

  -- The proof for an entry verifies against the root of the tree that holds it.
  pub verify_inclusion_complete :
      (leaves : List Hash) (index : ℕ) (leaf : Hash)
      → get_elem? leaves index ≡ some leaf
      → verify_inclusion d leaf index
          (length leaves)
          (inclusion_proof d leaves index)
          (root d leaves)
        ≡ true
  unfolding verify_inclusion inclusion_proof
  verify_inclusion_complete leaves index leaf at =
      rw (climb_complete (length leaves) leaves index leaf (le_refl _) at)
        (str_eq_refl (root d leaves))

  map-eq-some :
      (f : Hash → Hash) (o : Option Hash) (r : Hash)
      → Option.map f o ≡ some r
      → (sub : Hash) × (o ≡ some sub) × (f sub ≡ r)
  map-eq-some f none r h = cc
  map-eq-some f (some sub) r h = (sub, refl, cc)

  climb-IsHash :
      (sized : IsSized d) (leaf : Hash) (index size : ℕ) (rev : List Hash) (r : Hash)
      → IsHash leaf
      → climb d leaf index size rev ≡ some r
      → IsHash r
  unfolding climb node_hash
  climb-IsHash sized leaf index size [] r n h = ground arith
  climb-IsHash sized leaf index size (last ∷ rest) r n h =
      elim (Bool-cases (leb size index || size == 1)) [
        | inl out ↦ ground arith
        | inr in_range ↦ elim (Bool-cases (ltb index (split_point size))) [
          | inl left ↦
              let (sub, _, e) = map-eq-some _ _ r (rw (in_range, climb, left) at h) in
              rw (← e) (sized _)
          | inr right ↦
              let (sub, _, e) = map-eq-some _ _ r (rw (in_range, climb, right) at h) in
              rw (← e) (sized _)
        ]
      ]

  -- One level of the climb, read against the two parts of the tree.
  module _ (sized : IsSized d) (leaves : List Hash) (two : 2 ≤ length leaves)
      (hl : All IsHash leaves) (index : ℕ) (leaf last : Hash) (rest : List Hash) (n : IsHash leaf)
      (hlast : IsHash last) where
    abbrev left : List Hash
    left = take (split_point (length leaves)) leaves

    abbrev right : List Hash
    right = drop (split_point (length leaves)) leaves

    sound-left :
        index < split_point (length leaves)
        → climb d leaf index (length leaves) (last ∷ rest) ≡ some (root d leaves)
        → (climb d leaf index (length left) rest ≡ some (root d left)) ⊎ Collision d
    sound-left lt h =
        let (sub, below, e) =
          map-eq-some _ _ (root d leaves)
            (rw (climb-left leaf index (length leaves) last rest two lt) at h) in
        elim (node_hash-inj d sub last (root d left) (root d right)
          (climb-IsHash sized leaf index _ rest sub n below)
          (root-IsHash d sized left (All-take IsHash _ leaves hl)) (e ∙ root-split d leaves two)) [
            | inl (same, _) ↦ inl (rw (length-left leaves two) (below ∙ ap (λ x. some x) same))
            | inr collision ↦ inr collision
          ]

    sound-right :
        split_point (length leaves) ≤ index
        → index < length leaves
        → climb d leaf index (length leaves) (last ∷ rest) ≡ some (root d leaves)
        → (climb d leaf (index - split_point (length leaves)) (length right) rest
            ≡ some (root d right))
          ⊎ Collision d
    sound-right ge lt h =
        let (sub, below, e) =
          map-eq-some _ _ (root d leaves)
            (rw (climb-right leaf index (length leaves) last rest two ge lt) at h) in
        elim (node_hash-inj d last sub (root d left) (root d right) hlast
          (root-IsHash d sized left (All-take IsHash _ leaves hl)) (e ∙ root-split d leaves two)) [
            | inl (_, same) ↦ inl (rw (length-right leaves two) (below ∙ ap (λ x. some x) same))
            | inr collision ↦ inr collision
          ]

  climb_sound :
      (sized : IsSized d) (rev : List Hash) (leaves : List Hash) (index : ℕ) (leaf : Hash)
      → All IsHash leaves
      → IsHash leaf
      → All IsHash rev
      → climb d leaf index (length leaves) rev ≡ some (root d leaves)
      → (get_elem? leaves index ≡ some leaf) ⊎ Collision d
  climb_sound sized [] [] index leaf hl n hr h = unfold climb in ground arith
  climb_sound sized [] (x ∷ []) zero leaf hl n hr h = inl (unfold climb root root_on in sym h)
  climb_sound sized [] (x ∷ []) (suc i) leaf hl n hr h = unfold climb in ground arith
  climb_sound sized [] (x ∷ y ∷ rest) index leaf hl n hr h = unfold climb in ground arith
  climb_sound sized (last ∷ rev) [] index leaf hl n hr h = unfold climb in ground arith
  climb_sound sized (last ∷ rev) (x ∷ []) index leaf hl n hr h = unfold climb in ground arith
  climb_sound sized (last ∷ rev) (x ∷ y ∷ rest) index leaf hl n hr h =
      elim (Bool-cases (leb (length leaves) index)) [
        | inl out ↦ unfold climb in ground arith
        | inr in_range ↦ elim (Bool-cases (ltb index k)) [
          | inl lt ↦
              elim (sound-left sized leaves two hl index leaf last rev n hr.0 (ground arith) h) [
                | inl below ↦
                    elim (climb_sound sized rev (take k leaves) index leaf
                      (All-take IsHash k leaves hl) n hr.1 below) [
                        | inl at ↦ inl (sym (get_elem?-take k leaves index (ground arith)) ∙ at)
                        | inr collision ↦ inr collision
                      ]
                | inr collision ↦ inr collision
              ]
          | inr ge ↦
              elim (sound-right sized leaves two hl index leaf last rev n hr.0 (ground arith)
                (ground arith) h) [
                  | inl below ↦
                      elim (climb_sound sized rev (drop k leaves) (index - k) leaf
                        (All-drop IsHash k leaves hl) n hr.1 below) [
                          | inl at ↦ inl (sym (at-right k leaves index (ground arith)) ∙ at)
                          | inr collision ↦ inr collision
                        ]
                  | inr collision ↦ inr collision
                ]
        ]
      ]
    where
      leaves : List Hash
      leaves = x ∷ y ∷ rest

      two : 2 ≤ length leaves
      two = omega arith

      k : ℕ
      k = split_point (length leaves)

  -- An entry that verifies against a tree's root stands at its index in the tree, or the proof shows a
  -- collision of SHA-256.
  pub verify_inclusion_sound :
      IsSized d
      → (leaves : List Hash) (index : ℕ) (leaf : Hash) (proof : List Hash) → All IsHash leaves
      → IsHash leaf
      → All IsHash proof
      → verify_inclusion d leaf index (length leaves) proof (root d leaves) ≡ true
      → (get_elem? leaves index ≡ some leaf) ⊎ Collision d
  unfolding verify_inclusion root_from_inclusion
  verify_inclusion_sound sized leaves index leaf proof hl n hp h =
      elim (Option-cases (climb d leaf index (length leaves) (reverse proof))) [
        | inl e ↦ ground arith
        | inr (r, e) ↦
            climb_sound sized (reverse proof) leaves index leaf hl n (All-reverse IsHash proof hp)
              (e ∙ ap (λ x. some x) (ground (arith, str_eq_iff r (root d leaves))))
      ]
