-- ===== src/Merkle/Collision.antt =====
-- src/merkle.rs: what equal node hashes say, with no assumption that SHA-256 has no collisions: where
-- the parts differ, the two inputs are a collision, and it is the theorem's answer.
use trunnion.Prelude.{
  ℕ, length, List, [], ◌∷◌, ◌++◌, ◌≡◌, ◌≢◌, refl, arith, ◌⊎◌, inl, inr, str_eq, str_eq_iff,
  Bool-cases, All,
}
use trunnion.Json.{Digest}
use trunnion.Merkle.{Hash, node_hash, root_on, root}

-- Two inputs of SHA-256 with one digest.
abbrev pub Collision : Digest → Type 0
Collision d = (a b : List ℕ) × (a ≢ b) × (d.sha256 a ≡ d.sha256 b)

abbrev pub IsHash : Hash → Type 0
IsHash h = length h ≡ 32

-- A SHA-256 digest has 32 bytes.
abbrev pub IsSized : Digest → Type 0
IsSized d = (bytes : List ℕ) → length (d.sha256 bytes) ≡ 32

append_injective :
    (a a' b b' : List ℕ) → length a ≡ length a' → a ++ b ≡ a' ++ b' → (a ≡ a') × (b ≡ b')
append_injective [] [] b b' n e = (refl, e)
append_injective [] (y ∷ a') b b' n e = absurd (omega arith)
append_injective (x ∷ a) [] b b' n e = absurd (omega arith)
append_injective (x ∷ a) (y ∷ a') b b' n e =
    let (same, rest) = append_injective a a' b b' (omega arith) (cc) in (cc, rest)

module _ (d : Digest) where
  pub node_hash-inj :
      (l r l' r' : Hash)
      → IsHash l
      → IsHash l'
      → node_hash d l r ≡ node_hash d l' r'
      → ((l ≡ l') × (r ≡ r')) ⊎ Collision d
  unfolding node_hash
  node_hash-inj l r l' r' n n' e = elim (Bool-cases (str_eq (l ++ r) (l' ++ r'))) [
    | inl same ↦ inl (append_injective l l' r r' (omega arith) ((str_eq_iff _ _).0 same))
    | inr differ ↦
        inr (1 ∷ (l ++ r), 1 ∷ (l' ++ r'), (λ q. ground (arith, str_eq_iff (l ++ r) (l' ++ r'))), e)
  ]

  pub root-IsHash : IsSized d → (leaves : List Hash) → All IsHash leaves → IsHash (root d leaves)
  unfolding root root_on node_hash
  root-IsHash sized [] h = sized []
  root-IsHash sized (x ∷ []) h = h.0
  root-IsHash sized (x ∷ y ∷ rest) h = sized _
