-- ===== src/Merkle/Split.antt =====
-- src/merkle.rs: where `split_point` splits.
use trunnion.Prelude.{
  ℕ, zero, suc, ◌+◌, ◌*◌, ◌%◌, ◌^◌, ◌≤◌, ◌<◌, ltb, ◌≡◌, refl, ◌∙◌, arith, Bool-cases, inl, inr,
}
use native.Mathlib.Nat.{pow-suc, mod-eq_of_lt}
use trunnion.Merkle.{split_loop, split_point, split_loop_u64, split_point_u64}

-- The loop ends by its test, below `n`.
split_loop_bounds :
    (fuel k n : ℕ)
    → 0 < k
    → k < n
    → n ≤ fuel + k
    → (split_loop fuel k n < n) × (n ≤ 2 * split_loop fuel k n) × (k ≤ split_loop fuel k n)
unfolding split_loop
split_loop_bounds zero k n p lt enough = absurd (omega arith)
split_loop_bounds (suc fuel) k n p lt enough = ground (arith, split_loop_bounds fuel (k * 2) n)

pub split_point_bounds :
    (n : ℕ) → 2 ≤ n → (split_point n < n) × (n ≤ 2 * split_point n) × (1 ≤ split_point n)
unfolding split_point
split_point_bounds n h = split_loop_bounds n 1 n (omega arith) h (omega arith)

split_loop-pow : (fuel k n i : ℕ) → k ≡ 2 ^ i → (j : ℕ) × (split_loop fuel k n ≡ 2 ^ j)
unfolding split_loop
split_loop-pow zero k n i e = (i, e)
split_loop-pow (suc fuel) k n i e = elim (Bool-cases (ltb (k * 2) n)) [
  | inl more ↦ rw (more, split_loop) (split_loop-pow fuel (k * 2) n (suc i) (rw (pow-suc 2 i, e)))
  | inr stop ↦ rw (stop, split_loop) (i, e)
]

split_point_lem :
    (n : ℕ) → 2 ≤ n → (j : ℕ) × (split_point n ≡ 2 ^ j) × (2 ^ j < n) × (n ≤ 2 * 2 ^ j)
split_point_lem n h =
    let (j, e) = power in
    let (below, above, _) = split_point_bounds n h in (j, e, rw (← e) below, rw (← e) above)
  where
    power : (j : ℕ) × (split_point n ≡ 2 ^ j)
    power = unfold split_point in split_loop-pow n 1 n 0 refl

doubled : (k n : ℕ) → k < n → n ≤ 2 ^ 63 → k * 2 % 2 ^ 64 ≡ k * 2
doubled k n lt fits = mod-eq_of_lt (omega arith)

split_loop_u64_lem :
    (fuel k n : ℕ) → k < n → n ≤ 2 ^ 63 → split_loop_u64 fuel k n ≡ split_loop fuel k n
unfolding split_loop split_loop_u64
split_loop_u64_lem zero k n lt fits = refl
split_loop_u64_lem (suc fuel) k n lt fits = elim (Bool-cases (ltb (k * 2) n)) [
  | inl more ↦
      rw (doubled k n lt fits, split_loop_u64, more, split_loop, doubled k n lt fits)
        (split_loop_u64_lem fuel (k * 2) n (ground arith) fits)
  | inr stop ↦ rw (doubled k n lt fits, split_loop_u64, stop, split_loop) refl
]

-- For a size from 2 to 2 ^ 63, the split point as a machine with 64-bit sizes computes it is the
-- unbounded one, a power of two below the size, and the size is at most twice it.
pub split_point_u64_lem :
    (n : ℕ)
    → 2 ≤ n
    → n ≤ 2 ^ 63
    → (split_point_u64 n ≡ split_point n)
      × ((j : ℕ) × (split_point_u64 n ≡ 2 ^ j) × (2 ^ j < n) × (n ≤ 2 * 2 ^ j))
split_point_u64_lem n two fits =
    let (j, power, below, above) = split_point_lem n two in (same, (j, same ∙ power, below, above))
  where
    same : split_point_u64 n ≡ split_point n
    same = unfold split_point split_point_u64 in split_loop_u64_lem n 1 n two fits

split_loop_mono :
    (g f k n m : ℕ)
    → 0 < k
    → k < n
    → n ≤ g + k
    → m ≤ f + k
    → split_loop g k n < m
    → m ≤ n
    → split_loop f k m ≡ split_loop g k n
unfolding split_loop
split_loop_mono zero f k n m p lt enough enough' below le = absurd (omega arith)
split_loop_mono (suc g) zero k n m p lt enough enough' below le =
    ground (arith, split_loop_bounds g (k * 2) n)
split_loop_mono (suc g) (suc f) k n m p lt enough enough' below le =
    ground (arith, split_loop_bounds g (k * 2) n, split_loop_mono g f (k * 2) n m)

-- A tree of `m` leaves, past the split of a larger one, splits at the same place.
pub split_point_mono : (n m : ℕ) → 2 ≤ n → split_point n < m → m ≤ n → split_point m ≡ split_point n
unfolding split_point
split_point_mono n m h below le =
    split_loop_mono n m 1 n m (omega arith) h (omega arith) (omega arith) below le
