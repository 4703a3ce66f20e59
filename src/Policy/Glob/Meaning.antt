-- ===== src/Policy/Glob/Meaning.antt =====
-- src/policy.rs: what `glob_inner` and `glob_matches` decide.
use trunnion.Prelude.{
  ◌==◌, Bool-cases, ℕ, true, Text, codes, strip_prefix, strip_prefix-append, strip_prefix-eq-some,
  Option-cases, [], ◌∷◌, ◌++◌, ◌≡◌, ◌≢◌, ◌⊎◌, ◌↔◌, refl, inl, inr, arith, ap,
}
use trunnion.Policy.Glob.{glob_inner, strip_dot, glob_either, glob_matches}

-- `*` stands for any bytes, `?` for any one byte, and every other byte for itself.
pub data Matches : Text → Text → Type 0 where
  finish : Matches [] []
  star : {c : ℕ} {p t u : Text} (s : Text) → c ≡ b'*' → u ≡ s ++ t → Matches p t → Matches (c ∷ p) u
  single :
      {c d : ℕ} {p t : Text}
      → c ≢ b'*'
      → (c ≡ b'?') ⊎ (c ≡ d)
      → Matches p t
      → Matches (c ∷ p) (d ∷ t)

star_more : {c : ℕ} (d : ℕ) {p t : Text} → c ≡ b'*' → Matches (c ∷ p) t → Matches (c ∷ p) (d ∷ t)
star_more d e (star s e' split m) = star (d ∷ s) e (ap (λ (u : Text). d ∷ u) split) m
star_more d e (single n _ m) = absurd (n e)

Matches-glob_inner : (p t : Text) → glob_inner p t ≡ true → Matches p t
unfolding glob_inner
Matches-glob_inner [] [] h = finish
Matches-glob_inner [] (d ∷ t) h = ground arith
Matches-glob_inner (c ∷ p) [] h =
    star [] (ground arith) refl (Matches-glob_inner p [] (ground arith))
Matches-glob_inner (c ∷ p) (d ∷ t) h = elim (Bool-cases (c == b'*')) [
  | inl wild ↦ elim (Bool-cases (glob_inner p (d ∷ t))) [
    | inl now ↦ star [] (ground arith) refl (Matches-glob_inner p (d ∷ t) now)
    | inr later ↦ star_more d (ground arith) (Matches-glob_inner (c ∷ p) t (ground arith))
  ]
  | inr plain ↦ single (ground arith) (ground arith) (Matches-glob_inner p t (ground arith))
]

pub glob_inner-star :
    (c : ℕ) (p s t : Text) → c ≡ b'*' → glob_inner p t ≡ true → glob_inner (c ∷ p) (s ++ t) ≡ true
unfolding glob_inner
glob_inner-star c p [] [] e h = ground arith
glob_inner-star c p [] (d ∷ t) e h = ground arith
glob_inner-star c p (d ∷ s) t e h = ground (arith, glob_inner-star c p s t e h)

glob_inner-Matches : {p t : Text} → Matches p t → glob_inner p t ≡ true
unfolding glob_inner
glob_inner-Matches finish = refl
glob_inner-Matches (star {c = c} {p = p} {t = t} s e split m) =
    rw split (glob_inner-star c p s t e (glob_inner-Matches m))
glob_inner-Matches (single n same m) = ground (arith, glob_inner-Matches m)

pub glob_inner-iff-Matches : (p t : Text) → (glob_inner p t ≡ true) ↔ Matches p t
glob_inner-iff-Matches p t = (Matches-glob_inner p t, glob_inner-Matches)

-- A pattern, past a leading `./`, matches by itself or by what follows a leading `**/`.
abbrev pub GlobMatches : Text → Text → Type 0
GlobMatches pattern target =
    Matches pattern target ⊎ ((rest : Text) × (pattern ≡ codes "**/" ++ rest) × Matches rest target)

glob_either_sound : (p t : Text) → glob_either p t ≡ true → GlobMatches p t
unfolding glob_either
glob_either_sound p t h = elim (Bool-cases (glob_inner p t)) [
  | inl e ↦ inl (Matches-glob_inner p t e)
  | inr e ↦ elim (Option-cases (strip_prefix (codes "**/") p)) [
    | inl bare ↦ ground arith
    | inr (rest, found) ↦ inr (
      rest,
      strip_prefix-eq-some (codes "**/") p rest found,
      Matches-glob_inner rest t (ground arith),
    )
  ]
]

glob_either_complete : (p t : Text) → GlobMatches p t → glob_either p t ≡ true
unfolding glob_either
glob_either_complete p t (inl m) = rw (glob_inner-Matches m)
glob_either_complete p t (inr (rest, split, m)) =
    ground (arith, glob_inner-Matches m, strip_prefix-append (codes "**/") rest, split)

pub glob_matches-iff-GlobMatches :
    (pattern target : Text)
    → (glob_matches pattern target ≡ true) ↔ GlobMatches (strip_dot pattern) (strip_dot target)
unfolding glob_matches
glob_matches-iff-GlobMatches pattern target = (
  glob_either_sound (strip_dot pattern) (strip_dot target),
  glob_either_complete (strip_dot pattern) (strip_dot target),
)
