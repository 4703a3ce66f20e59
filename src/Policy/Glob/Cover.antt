-- ===== src/Policy/Glob/Cover.antt =====
-- src/policy.rs: when one pattern that matches another, read as text, stands for all that the other
-- stands for. `covers` relies on this.
use trunnion.Prelude.{
  ℕ, true, Text, codes, strip_prefix, Free, none, some, [], ◌∷◌, ◌≡◌, subst, inl, inr, arith,
  Option-cases,
}
use trunnion.Policy.Glob.{glob_inner, strip_dot, glob_either, glob_matches}

pub glob_inner_trans :
    (p q t : Text)
    → Free b'?' p
    → glob_inner p q ≡ true
    → glob_inner q t ≡ true
    → glob_inner p t ≡ true
unfolding glob_inner
glob_inner_trans [] [] t f h k = k
glob_inner_trans [] (d ∷ q) t f h k = ground arith
glob_inner_trans (c ∷ p) [] [] f h k = h
glob_inner_trans (c ∷ p) [] (e ∷ t) f h k = ground arith
glob_inner_trans (c ∷ p) (d ∷ q) [] f h k =
    ground (arith, glob_inner_trans p (d ∷ q) [] f.1, glob_inner_trans (c ∷ p) q [] f)
glob_inner_trans (c ∷ p) (d ∷ q) (e ∷ t) f h k = ground (
  arith,
  glob_inner_trans p (d ∷ q) (e ∷ t) f.1,
  glob_inner_trans (c ∷ p) q (e ∷ t) f,
  glob_inner_trans (c ∷ p) (d ∷ q) t f,
  glob_inner_trans (c ∷ p) q t f,
  glob_inner_trans p q t f.1,
)

pub Free-strip_prefix : (c : ℕ) (p s r : Text) → Free c s → strip_prefix p s ≡ some r → Free c r
unfolding strip_prefix
Free-strip_prefix c [] s r f h = subst (Free c) (cc) f
Free-strip_prefix c (a ∷ p) [] r f h = ground arith
Free-strip_prefix c (a ∷ p) (d ∷ s) r f h = Free-strip_prefix c p s r f.1 (ground arith)

Free-strip_dot : (c : ℕ) (s : Text) → Free c s → Free c (strip_dot s)
unfolding strip_dot
Free-strip_dot c s f = elim (Option-cases (strip_prefix (codes "./") s)) [
  | inl e ↦ rw (e, strip_dot) f
  | inr (rest, e) ↦ rw (e, strip_dot) (Free-strip_prefix c (codes "./") s rest f e)
]

-- `b` begins, a leading `./` aside, with no `**/`.
abbrev pub IsRooted : Text → Type 0
IsRooted b = strip_prefix (codes "**/") (strip_dot b) ≡ none

glob_either_trans :
    (p q t : Text)
    → Free b'?' p
    → strip_prefix (codes "**/") q ≡ none
    → glob_either p q ≡ true
    → glob_either q t ≡ true
    → glob_either p t ≡ true
unfolding glob_either
glob_either_trans p q t f rooted h k = elim (Option-cases (strip_prefix (codes "**/") p)) [
  | inl e ↦ ground (arith, glob_inner_trans p q t f)
  | inr (rest, e) ↦ ground (
    arith,
    glob_inner_trans p q t f,
    glob_inner_trans rest q t (Free-strip_prefix b'?' (codes "**/") p rest f e),
  )
]

pub glob_matches_trans :
    (a b t : Text)
    → Free b'?' a
    → IsRooted b
    → glob_matches a b ≡ true
    → glob_matches b t ≡ true
    → glob_matches a t ≡ true
unfolding glob_matches
glob_matches_trans a b t f rooted =
    glob_either_trans (strip_dot a) (strip_dot b) (strip_dot t) (Free-strip_dot b'?' a f) rooted
