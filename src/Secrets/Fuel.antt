-- ===== src/Secrets/Fuel.antt =====
-- src/secrets.rs: the fuel of the loops is enough.
use trunnion.Prelude.{
  ℕ, zero, suc, Text, codes, Option, some, List, [], ◌∷◌, ◌≡◌, ◌≢◌, refl, ◌∙◌, ap, arith,
  Bool-cases, Option-cases, inl, inr, ◌≤◌, ◌<◌, ◌+◌, ◌-◌, length, strip_prefix,
}
use trunnion.Fault.{err, out_of_fuel}
use trunnion.Secrets.{
  Substitution, handle_open, handle_close, cut_at, value_of, contains, take_handle, substitute_on,
  blank, substitute,
}

strip_prefix-length : (p s r : Text) → strip_prefix p s ≡ some r → length r ≤ length s
unfolding strip_prefix
strip_prefix-length [] s r h = ground arith
strip_prefix-length (c ∷ p) [] r h = ground arith
strip_prefix-length (c ∷ p) (d ∷ s) r h = ground (arith, strip_prefix-length p s r)

strip_prefix-shorter :
    (c : ℕ) (p s r : Text) → strip_prefix (c ∷ p) s ≡ some r → suc (length r) ≤ length s
unfolding strip_prefix
strip_prefix-shorter c p [] r h = ground arith
strip_prefix-shorter c p (d ∷ s) r h = ground (arith, strip_prefix-length p s r)

cut_at-shorter :
    (c : ℕ) (p s b a : Text) → cut_at (c ∷ p) s ≡ some (b, a) → suc (length a) ≤ length s
unfolding cut_at
cut_at-shorter c p [] b a h = absurd (cc)
cut_at-shorter c p (d ∷ s) b a h = elim (Option-cases (strip_prefix (c ∷ p) (d ∷ s))) [
  | inr (after, found) ↦
      rw (← same_after (rw (found, cut_at) at h)) (strip_prefix-shorter c p (d ∷ s) after found)
  | inl missing ↦ elim (Option-cases (cut_at (c ∷ p) s)) [
    | inl never ↦ absurd (cc (rw (missing, cut_at, never) at h))
    | inr ((b', a'), later) ↦
        rw (← same_later (rw (missing, cut_at, later) at h))
          (le_suc (cut_at-shorter c p s b' a' later))
  ]
]
  where
    same_after :
        {b b' a a' : Text} → ◌≡◌ {A = Option (Text × Text)} (some (b, a)) (some (b', a')) → a ≡ a'
    same_after e = cc

    same_later :
        {b b' a a' : Text}
        → ◌≡◌ {A = Option (Text × Text)} (some (d ∷ b, a)) (some (b', a'))
        → a ≡ a'
    same_later e = cc

    le_suc : {m n : ℕ} → suc m ≤ n → suc m ≤ suc n
    le_suc h = omega arith

module _ (upper : Text → Text) where
  -- With more fuel than the rest has characters, one more round of fuel changes nothing, and the fuel does
  -- not run out.
  substitute_on-suc :
      (fuel : ℕ) (values : List (Text × Text)) (command : Text) (granted : List Text) (rest : Text)
      (s : Substitution)
      → length rest < fuel
      → (substitute_on upper (suc fuel) values command granted rest s
          ≡ substitute_on upper fuel values command granted rest s)
        × (substitute_on upper fuel values command granted rest s ≢ err out_of_fuel)
  unfolding substitute_on cut_at
  substitute_on-suc zero values command granted rest s h = absurd (omega arith)
  substitute_on-suc (suc fuel) values command granted rest s h =
      elim (Option-cases (cut_at handle_open rest)) [
        | inl ends ↦ rw (ends, substitute_on) (refl, λ e. cc)
        | inr ((before, after), opened) ↦ elim (Option-cases (cut_at handle_close after)) [
          | inl open_end ↦ rw (opened, substitute_on, open_end) (refl, λ e. cc)
          | inr ((name, next), closed) ↦ elim (Bool-cases (contains granted name)) [
            | inr refused ↦ rw (opened, substitute_on, closed, refused) (refl, λ e. cc)
            | inl is_granted ↦ elim (Option-cases (value_of values name)) [
              | inl missing ↦
                  rw (opened, substitute_on, closed, is_granted, missing) (refl, λ e. cc)
              | inr (value, found) ↦
                  rw (opened, substitute_on, closed, is_granted, found)
                    (substitute_on-suc fuel values command granted next
                      (take_handle upper before name value s)
                      (next_fits (cut_at-shorter b'{' (codes "{handle:") rest before after opened)
                        (cut_at-shorter b'}' (codes "}") after name next closed) h))
            ]
          ]
        ]
      ]
    where
      next_fits : {a n r f : ℕ} → suc a ≤ r → suc n ≤ a → r < suc f → n < f
      next_fits h h' h'' = omega arith

  substitute_on-enough :
      (more fuel n : ℕ) (values : List (Text × Text)) (command : Text) (granted : List Text)
      → length command < fuel
      → n ≡ more + fuel
      → substitute_on upper n values command granted command (blank upper)
        ≡ substitute_on upper fuel values command granted command (blank upper)
  substitute_on-enough zero fuel n values command granted h e =
      ap (λ k. substitute_on upper k values command granted command (blank upper)) (same e)
    where
      same : n ≡ 0 + fuel → n ≡ fuel
      same e = omega arith
  substitute_on-enough (suc more) fuel zero values command granted h e = absurd (omega arith)
  substitute_on-enough (suc more) fuel (suc n) values command granted h e =
      (substitute_on-suc n values command granted command (blank upper) (omega arith)).0
      ∙ substitute_on-enough more fuel n values command granted h (omega arith)

  -- The loop ends: it does not run out of fuel, and with fuel of more than the command's length, however
  -- much, it gives what `substitute` gives.
  pub substitute-fuel :
      (fuel : ℕ) (values : List (Text × Text)) (command : Text) (granted : List Text)
      → length command < fuel
      → (substitute upper values command granted ≢ err out_of_fuel)
        × (substitute_on upper fuel values command granted command (blank upper)
            ≡ substitute upper values command granted)
  unfolding substitute
  substitute-fuel fuel values command granted h = (
    (substitute_on-suc (suc (length command)) values command granted command (blank upper)
        (omega arith)).1,
    substitute_on-enough (fuel - suc (length command)) (suc (length command)) fuel values command
        granted (omega arith) (omega arith),
  )
