-- ===== src/Merkle/Injective.antt =====
-- src/merkle.rs: the root of a log tells its leaves, or gives a collision.
use trunnion.Prelude.{
  ℕ, zero, suc, ◌≤◌, length, take, drop, List, [], ◌∷◌, ◌++◌, ◌≡◌, refl, sym, ◌∙◌, ap, ap₂, arith,
  ◌⊎◌, inl, inr, All, All-take, All-drop, length-take, length-drop,
}
use trunnion.Json.{Digest}
use trunnion.Merkle.{Hash, split_point, node_hash, root}
use trunnion.Merkle.Collision.{Collision, IsHash, IsSized, node_hash-inj, root-IsHash}
use trunnion.Merkle.Split.{split_point_bounds}
use trunnion.Merkle.Root.{root-split, root-one}

take-append-drop : (k : ℕ) (xs : List Hash) → take k xs ++ drop k xs ≡ xs
take-append-drop zero xs = refl
take-append-drop (suc k) [] = refl
take-append-drop (suc k) (x ∷ xs) = ap (λ ys. x ∷ ys) (take-append-drop k xs)

join : (k : ℕ) (xs ys : List Hash) → take k xs ≡ take k ys → drop k xs ≡ drop k ys → xs ≡ ys
join k xs ys first rest =
    sym (take-append-drop k xs) ∙ ap₂ (λ a b. a ++ b) first rest ∙ take-append-drop k ys

module _ (d : Digest) (sized : IsSized d) where
  root-inj_on :
      (fuel : ℕ) (xs ys : List Hash)
      → length xs ≤ fuel
      → length xs ≡ length ys
      → All IsHash xs
      → All IsHash ys
      → root d xs ≡ root d ys
      → (xs ≡ ys) ⊎ Collision d
  root-inj_on fuel [] [] h n hx hy e = inl refl
  root-inj_on fuel [] (y ∷ ys) h n hx hy e = absurd (omega arith)
  root-inj_on fuel (x ∷ xs) [] h n hx hy e = absurd (omega arith)
  root-inj_on fuel (x ∷ []) (y ∷ []) h n hx hy e =
      inl (ap (λ z. z ∷ []) (sym (root-one d x) ∙ e ∙ root-one d y))
  root-inj_on fuel (x ∷ []) (y ∷ y' ∷ ys) h n hx hy e = absurd (omega arith)
  root-inj_on fuel (x ∷ x' ∷ xs) (y ∷ []) h n hx hy e = absurd (omega arith)
  root-inj_on zero (x ∷ x' ∷ xs) (y ∷ y' ∷ ys) h n hx hy e = absurd (omega arith)
  root-inj_on (suc fuel) (x ∷ x' ∷ xs) (y ∷ y' ∷ ys) h n hx hy e =
      let a : List Hash = x ∷ x' ∷ xs in
      let b : List Hash = y ∷ y' ∷ ys in
      let k = split_point (length a) in
      let bounds = split_point_bounds (length a) (omega arith) in
      let same_k : k ≡ split_point (length b) = ap split_point n in
      let split_b : root d b ≡ node_hash d (root d (take k b)) (root d (drop k b)) =
        rw same_k (root-split d b (omega arith)) in
      elim (node_hash-inj d _ _ _ _ (root-IsHash d sized (take k a) (All-take IsHash k a hx))
        (root-IsHash d sized (take k b) (All-take IsHash k b hy))
        (sym (root-split d a (omega arith)) ∙ e ∙ split_b)) [
          | inr collision ↦ inr collision
          | inl (left, right) ↦
              both k a b
                (root-inj_on fuel (take k a) (take k b) (omega (arith, length-take k a))
                  (omega (arith, length-take k a, length-take k b)) (All-take IsHash k a hx)
                  (All-take IsHash k b hy) left)
                (root-inj_on fuel (drop k a) (drop k b) (omega (arith, length-drop k a))
                  (omega (arith, length-drop k a, length-drop k b)) (All-drop IsHash k a hx)
                  (All-drop IsHash k b hy) right)
        ]
    where
      both :
          (k : ℕ) (a b : List Hash)
          → (take k a ≡ take k b) ⊎ Collision d
          → (drop k a ≡ drop k b) ⊎ Collision d
          → (a ≡ b) ⊎ Collision d
      both k a b (inr collision) right = inr collision
      both k a b (inl first) (inr collision) = inr collision
      both k a b (inl first) (inl rest) = inl (join k a b first rest)

  -- Two logs of one size and one root have the same leaves, or there is a collision.
  pub root-inj :
      (xs ys : List Hash)
      → length xs ≡ length ys
      → All IsHash xs
      → All IsHash ys
      → root d xs ≡ root d ys
      → (xs ≡ ys) ⊎ Collision d
  root-inj xs ys = root-inj_on (length xs) xs ys (omega arith)
