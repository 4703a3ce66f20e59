-- ===== src/Prelude/Decimal.antt =====
-- A number as the formatter writes it, in decimal digits, and back.
use Prim.Native.Nat.{ℕ, zero, suc, ◌+◌, ◌-◌, ◌*◌, ◌/◌, ◌%◌, ◌≤◌, ◌<◌}
use mathlib.Core.Path.{◌≡◌, refl, sym, ap, ◌∙◌}
use mathlib.Core.Bool.{true, false}
use mathlib.Core.Logic.{inl, inr}
use mathlib.Core.List.{[], ◌∷◌, ◌++◌}
use native.Mathlib.Omega.{arith}
use trunnion.Prelude.Tests.{ltb, Bool-cases}
use trunnion.Prelude.Bytes.{Text}

-- On fuel: a round divides the number by ten, so a number is fuel enough for itself.
unfoldable pub decimal_on : ℕ → ℕ → Text
decimal_on zero n = (b'0' + n % 10) ∷ []
decimal_on (suc fuel) n = elim (ltb n 10) [
  | true ↦ (b'0' + n % 10) ∷ []
  | false ↦ decimal_on fuel (n / 10) ++ (b'0' + n % 10) ∷ []
]

unfoldable pub decimal : ℕ → Text
unfolding decimal_on
decimal n = decimal_on n n

-- The number that digits write, after the digits read so far.
abbrev value_from : ℕ → Text → ℕ
value_from acc [] = acc
value_from acc (c ∷ s) = value_from (acc * 10 + (c - b'0')) s

value_from-snoc :
    (acc : ℕ) (s : Text) (c : ℕ) → value_from acc (s ++ c ∷ []) ≡ value_from acc s * 10 + (c - b'0')
value_from-snoc acc [] c = refl
value_from-snoc acc (x ∷ s) c = value_from-snoc (acc * 10 + (x - b'0')) s c

value-decimal_on : (fuel n : ℕ) → n ≤ fuel → value_from 0 (decimal_on fuel n) ≡ n
unfolding decimal_on
value-decimal_on zero n h = omega arith
value-decimal_on (suc fuel) n h = elim (Bool-cases (ltb n 10)) [
  | inl small ↦ let below : n < 10 = ground arith in rw (small, decimal_on) (omega arith)
  | inr large ↦
      let above : 10 ≤ n = ground arith in
      rw
        (
          large,
          decimal_on,
          value_from-snoc 0 (decimal_on fuel (n / 10)) (b'0' + n % 10),
          value-decimal_on fuel (n / 10) (omega arith),
        )
        (omega arith)
]

-- Two numbers that are written alike are equal.
pub decimal-injective : (m n : ℕ) → decimal m ≡ decimal n → m ≡ n
unfolding decimal
decimal-injective m n e =
    sym (value-decimal_on m m (omega arith))
    ∙ ap (value_from 0) e
    ∙ value-decimal_on n n (omega arith)
