-- ===== src/Merkle/Prefix.antt =====
-- src/merkle.rs: what verifies as consistent is a prefix.
use trunnion.Prelude.{
  ℕ, ◌-◌, ◌≤◌, ◌<◌, Bool, true, false, leb, ◌==◌, length, take, drop, take-take, take-all, List, [],
  ◌∷◌, reverse, Option, none, some, ◌≡◌, refl, arith, Bool-cases, Option-cases, str_eq_iff, ap, ap₂,
  sym, ◌∙◌, inl, inr, ◌⊎◌, All, All-take, All-drop, All-reverse,
}
use trunnion.Json.{Digest}
use trunnion.Merkle.{Hash, split_point, node_hash, root, climb_both, verify_consistency}
use trunnion.Merkle.Split.{split_point_bounds}
use trunnion.Merkle.Root.{length-left, length-right, root-split}
use trunnion.Merkle.Collision.{Collision, IsHash, IsSized, node_hash-inj, root-IsHash}
use trunnion.Merkle.Consistency.{
  under_left, under_right, climb_both-left, climb_both-right, root-prefix,
}

module _ (d : Digest) where
  under_left-eq-some :
      (last : Hash) (o : Option (Hash × Hash)) (r : Hash × Hash)
      → under_left d last o ≡ some r
      → (s : Hash × Hash) × (o ≡ some s) × (s.0 ≡ r.0) × (node_hash d s.1 last ≡ r.1)
  under_left-eq-some last none r h = cc
  under_left-eq-some last (some s) r h = (s, refl, cc, cc)

  under_right-eq-some :
      (last : Hash) (o : Option (Hash × Hash)) (r : Hash × Hash)
      → under_right d last o ≡ some r
      → (s : Hash × Hash) × (o ≡ some s)
        × (node_hash d last s.0 ≡ r.0)
        × (node_hash d last s.1 ≡ r.1)
  under_right-eq-some last none r h = cc
  under_right-eq-some last (some s) r h = (s, refl, cc, cc)

  module _ (sized : IsSized d) where
    climb_both-IsHash :
        (rev : List Hash) (m n : ℕ) (complete : Bool) (old : Hash) (r : Hash × Hash)
        → IsHash old
        → All IsHash rev
        → m ≤ n
        → climb_both d m n complete rev old ≡ some r
        → IsHash r.1
    climb_both-IsHash [] m n complete old r ho hr le h = unfold climb_both in ground arith
    climb_both-IsHash (last ∷ rev) m n complete old r ho hr le h = elim (Bool-cases (m == n)) [
      | inl same ↦ unfold climb_both in ground arith
      | inr differ ↦ elim (Bool-cases (leb m (split_point n))) [
        | inl left ↦
            let (s, _, _, e) = under_left-eq-some last _ r (
              rw (climb_both-left d m n complete last rev old (ground arith) (ground arith)) at
                h) in
            rw (← e) (unfold node_hash in sized _)
        | inr right ↦
            let (s, _, _, e) = under_right-eq-some last _ r (
              rw (climb_both-right d m n complete last rev old (ground arith) (ground arith)) at
                h) in
            rw (← e) (unfold node_hash in sized _)
      ]
    ]

    climb_both_whole :
        (rev : List Hash) (m n : ℕ) (complete : Bool) (old : Hash) (r : Hash × Hash)
        → (m == n) ≡ true
        → climb_both d m n complete rev old ≡ some r
        → r.0 ≡ r.1
    unfolding climb_both
    climb_both_whole [] m n complete old r same h = ground arith
    climb_both_whole (last ∷ rev) m n complete old r same h = ground arith

    climb_both_empty :
        (m n : ℕ) (complete : Bool) (old : Hash) (r : Hash × Hash)
        → climb_both d m n complete [] old ≡ some r
        → (m == n) ≡ true
    unfolding climb_both
    climb_both_empty m n complete old r h = ground arith

    whole_sound :
        (rev leaves : List Hash) (m : ℕ) (complete : Bool) (old : Hash) (r : Hash × Hash)
        → (m == length leaves) ≡ true
        → climb_both d m (length leaves) complete rev old ≡ some r
        → r.1 ≡ root d leaves
        → r.0 ≡ root d (take m leaves)
    whole_sound rev leaves m complete old r same h e =
        climb_both_whole rev m (length leaves) complete old r same h
        ∙ e
        ∙ ap (root d) (sym (take-all m leaves (ground arith)))

    -- Both roots that a proof implies, where the newer one is the tree's.
    climb_both_sound :
        (rev leaves : List Hash) (m : ℕ) (complete : Bool) (old : Hash) (r : Hash × Hash)
        → All IsHash leaves
        → IsHash old
        → All IsHash rev
        → 1 ≤ m
        → m ≤ length leaves
        → climb_both d m (length leaves) complete rev old ≡ some r
        → r.1 ≡ root d leaves
        → (r.0 ≡ root d (take m leaves)) ⊎ Collision d
    climb_both_sound [] leaves m complete old r hl ho hr pos le h e =
        inl (whole_sound [] leaves m complete old r (climb_both_empty m _ complete old r h) h e)
    climb_both_sound (last ∷ rev) leaves m complete old r hl ho hr pos le h e =
        elim (Bool-cases (m == length leaves)) [
          | inl same ↦ inl (whole_sound (last ∷ rev) leaves m complete old r same h e)
          | inr differ ↦
              let lt : m < length leaves = ground arith in
              let two : 2 ≤ length leaves = omega arith in
              let bounds = split_point_bounds (length leaves) two in
              elim (Bool-cases (leb m (split_point (length leaves)))) [
                | inl left ↦
                    let (s, below, first, second) = under_left-eq-some last _ r (
                      rw
                        (climb_both-left d m (length leaves) complete last rev old lt
                          (ground arith))
                        at h) in
                    elim (node_hash-inj d s.1 last (root d (take k leaves)) (root d (drop k leaves))
                      (climb_both-IsHash rev m k complete old s ho hr.1 (ground arith) below)
                      (root-IsHash d sized (take k leaves) (All-take IsHash k leaves hl))
                      (second ∙ e ∙ root-split d leaves two)) [
                        | inr collision ↦ inr collision
                        | inl (same, _) ↦
                            elim (climb_both_sound rev (take k leaves) m complete old s
                              (All-take IsHash k leaves hl) ho hr.1 pos
                              (ground (arith, length-left leaves two))
                              (rw (length-left leaves two) below) same) [
                                | inr collision ↦ inr collision
                                | inl at ↦ inl (
                                    sym first
                                    ∙ at
                                    ∙ ap (root d) (take-take m k leaves (ground arith)))
                              ]
                      ]
                | inr right ↦
                    let (s, below, first, second) = under_right-eq-some last _ r (
                      rw
                        (climb_both-right d m (length leaves) complete last rev old lt
                          (ground arith))
                        at h) in
                    elim (node_hash-inj d last s.1 (root d (take k leaves)) (root d (drop k leaves))
                      hr.0 (root-IsHash d sized (take k leaves) (All-take IsHash k leaves hl))
                      (second ∙ e ∙ root-split d leaves two)) [
                        | inr collision ↦ inr collision
                        | inl (same_left, same) ↦
                            elim (climb_both_sound rev (drop k leaves) (m - k) false old s
                              (All-drop IsHash k leaves hl) ho hr.1 (ground arith)
                              (omega (arith, length-right leaves two))
                              (rw (length-right leaves two) below) same) [
                                | inr collision ↦ inr collision
                                | inl at ↦ inl (
                                    sym first
                                    ∙ ap₂ (node_hash d) same_left at
                                    ∙ sym (root-prefix d leaves m two (ground arith) le))
                              ]
                      ]
              ]
        ]
      where
        k : ℕ
        k = split_point (length leaves)

    -- An older root that verifies as consistent with a tree's root is the root of the tree's first `m`
    -- leaves, or the proof shows a collision of SHA-256.
    pub verify_consistency_sound :
        (leaves : List Hash) (m : ℕ) (old_root : Hash) (proof : List Hash)
        → All IsHash leaves
        → IsHash old_root
        → All IsHash proof
        → 1 ≤ m
        → m ≤ length leaves
        → verify_consistency d m (length leaves) old_root (root d leaves) proof ≡ true
        → (old_root ≡ root d (take m leaves)) ⊎ Collision d
    unfolding verify_consistency
    verify_consistency_sound leaves m old_root proof hl ho hp pos le h =
        elim (Option-cases (climb_both d m (length leaves) true (reverse proof) old_root)) [
          | inl e ↦ ground arith
          | inr (r, e) ↦
              elim (climb_both_sound (reverse proof) leaves m true old_root r hl ho
                (All-reverse IsHash proof hp) pos le e
                (ground (arith, str_eq_iff r.1 (root d leaves), str_eq_iff r.0 old_root))) [
                  | inr collision ↦ inr collision
                  | inl at ↦
                      inl (ground (arith, str_eq_iff r.1 (root d leaves), str_eq_iff r.0 old_root))
                ]
        ]
