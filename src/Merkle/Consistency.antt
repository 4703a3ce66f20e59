-- ===== src/Merkle/Consistency.antt =====
-- src/merkle.rs: consistency proofs verify.
use mathlib.Core.Option
use native.Mathlib.Nat.{le_refl}
use trunnion.Prelude.{
  ℕ, zero, suc, ◌-◌, ◌≤◌, ◌<◌, Bool, true, false, ◌||◌, ltb, leb, ◌==◌, length, take, drop,
  take-take, drop-take, take-all, length-take, List, [], ◌∷◌, reverse, reverse-snoc, Option, some,
  ◌≡◌, refl, arith, Bool-cases, str_eq_refl, ap, ap₂, sym, ◌∙◌, if◌then◌else◌, inl, inr,
}
use trunnion.Json.{Digest}
use trunnion.Merkle.{
  Hash, split_point, node_hash, root, subproof_on, consistency_proof, climb_both,
  verify_consistency,
}
use trunnion.Merkle.Split.{split_point_bounds, split_point_mono}
use trunnion.Merkle.Root.{length-left, length-right, root-split}

module _ (d : Digest) where
  abbrev pub under_left : Hash → Option (Hash × Hash) → Option (Hash × Hash)
  under_left last = Option.map (λ (r : Hash × Hash). (r.0, node_hash d r.1 last))

  abbrev pub under_right : Hash → Option (Hash × Hash) → Option (Hash × Hash)
  under_right last = Option.map (λ (r : Hash × Hash). (node_hash d last r.0, node_hash d last r.1))

  pub climb_both-left :
      (m n : ℕ) (complete : Bool) (last : Hash) (rest : List Hash) (old : Hash)
      → m < n
      → m ≤ split_point n
      → climb_both d m n complete (last ∷ rest) old
        ≡ under_left last (climb_both d m (split_point n) complete rest old)
  unfolding climb_both
  climb_both-left m n complete last rest old lt le = rw (differ, climb_both, test)
    where
      differ : (m == n) ≡ false
      differ = ground arith

      test : leb m (split_point n) ≡ true
      test = ground arith

  pub climb_both-right :
      (m n : ℕ) (complete : Bool) (last : Hash) (rest : List Hash) (old : Hash)
      → m < n
      → split_point n < m
      → climb_both d m n complete (last ∷ rest) old
        ≡ under_right last (climb_both d (m - split_point n) (n - split_point n) false rest old)
  unfolding climb_both
  climb_both-right m n complete last rest old lt le = rw (differ, climb_both, test)
    where
      differ : (m == n) ≡ false
      differ = ground arith

      test : leb m (split_point n) ≡ false
      test = ground arith

  -- The root of a prefix that reaches past the split.
  pub root-prefix :
      (leaves : List Hash) (m : ℕ)
      → 2 ≤ length leaves
      → split_point (length leaves) < m
      → m ≤ length leaves
      → root d (take m leaves)
        ≡ node_hash d (root d (take (split_point (length leaves)) leaves)) (
            root d
              (take (m - split_point (length leaves)) (drop (split_point (length leaves)) leaves)))
  root-prefix leaves m two lt le =
      root-split d (take m leaves) (omega (arith, size, split_point_bounds (length leaves) two))
      ∙ ap₂ (node_hash d) (ap (root d) (rw same (take-take k m leaves (omega arith))))
          (ap (root d) (rw same (drop-take k m leaves)))
    where
      k : ℕ
      k = split_point (length leaves)

      size : length (take m leaves) ≡ m
      size = omega (arith, length-take m leaves)

      same : split_point (length (take m leaves)) ≡ k
      same = ap split_point size ∙ split_point_mono (length leaves) m two lt le

  whole_tree :
      (leaves : List Hash) (m : ℕ) (complete : Bool) (old : Hash)
      → m ≡ length leaves
      → (complete ≡ true → old ≡ root d (take m leaves))
      → climb_both d m
          (length leaves)
          complete
          (reverse (if complete then [] else root d leaves ∷ []))
          old
        ≡ some (root d (take m leaves), root d leaves)
  unfolding climb_both
  whole_tree leaves m true old same e =
      ground (arith, e refl, ap (root d) (take-all m leaves (sym same)))
  whole_tree leaves m false old same e = ground (arith, ap (root d) (take-all m leaves (sym same)))

  climb_both_complete :
      (fuel : ℕ) (leaves : List Hash) (m : ℕ) (complete : Bool) (old : Hash)
      → length leaves ≤ fuel
      → 1 ≤ m
      → m ≤ length leaves
      → (complete ≡ true → old ≡ root d (take m leaves))
      → climb_both d m (length leaves) complete (reverse (subproof_on d fuel leaves m complete)) old
        ≡ some (root d (take m leaves), root d leaves)
  unfolding subproof_on
  climb_both_complete zero leaves m complete old enough pos le e = absurd (omega arith)
  climb_both_complete (suc fuel) leaves m complete old enough pos le e =
      elim (Bool-cases (m == length leaves)) [
        | inl same ↦ rw (same, subproof_on) (whole_tree leaves m complete old (ground arith) e)
        | inr differ ↦
            let lt : m < length leaves = ground arith in
            let two : 2 ≤ length leaves = omega arith in
            let bounds = split_point_bounds (length leaves) two in
            elim (Bool-cases (leb m (split_point (length leaves)))) [
              | inl left ↦
                  let ih =
                    climb_both_complete fuel (take (split_point (length leaves)) leaves) m complete
                      old (omega (arith, length-left leaves two)) pos
                      (ground (arith, length-left leaves two))
                      (λ t. e t ∙ ap (root d) (sym (take-take m _ leaves (ground arith)))) in
                  let ih' = rw (length-left leaves two) at ih in
                  rw
                    (
                      differ,
                      subproof_on,
                      left,
                      reverse-snoc
                          (subproof_on d fuel (take (split_point (length leaves)) leaves) m
                            complete)
                          (root d (drop (split_point (length leaves)) leaves)),
                      climb_both-left m (length leaves) complete _ _ old lt (ground arith),
                      ih',
                    )
                    (ap some (
                      ap₂ (λ a b. (a, b)) (ap (root d) (take-take m _ leaves (ground arith)))
                        (sym (root-split d leaves two))))
              | inr right ↦
                  let ih =
                    climb_both_complete fuel (drop (split_point (length leaves)) leaves)
                      (m - split_point (length leaves)) false old
                      (omega (arith, length-right leaves two)) (ground arith)
                      (omega (arith, length-right leaves two)) (λ t. cc) in
                  let ih' = rw (length-right leaves two) at ih in
                  rw
                    (
                      differ,
                      subproof_on,
                      right,
                      reverse-snoc
                          (subproof_on d fuel (drop (split_point (length leaves)) leaves)
                            (m - split_point (length leaves)) false)
                          (root d (take (split_point (length leaves)) leaves)),
                      climb_both-right m (length leaves) complete _ _ old lt (ground arith),
                      ih',
                    )
                    (ap some (
                      ap₂ (λ a b. (a, b)) (sym (root-prefix leaves m two (ground arith) le))
                        (sym (root-split d leaves two))))
            ]
      ]

  -- For every size from 1 to the tree's, the proof that the tree of that size is a prefix verifies.
  pub verify_consistency_complete :
      (leaves : List Hash) (m : ℕ)
      → 1 ≤ m
      → m ≤ length leaves
      → verify_consistency d m
          (length leaves)
          (root d (take m leaves))
          (root d leaves)
          (consistency_proof d leaves m)
        ≡ true
  unfolding verify_consistency consistency_proof
  verify_consistency_complete leaves m pos le = rw (
    guard,
    verify_consistency,
    climb_both_complete (length leaves) leaves m true (root d (take m leaves)) (le_refl _) pos le
        (λ _. refl),
    str_eq_refl (root d (take m leaves)),
    str_eq_refl (root d leaves),
  )
    where
      guard : (ltb (length leaves) m || m == 0) ≡ false
      guard = ground arith
