-- ===== src/Scorer/Overall.antt =====
-- src/scorer.rs: the overall score.
use trunnion.Prelude.{
  ℕ, ◌≤◌, min, Option, none, some, List, [], ◌∷◌, ◌≡◌, refl, arith, All, All-imp, Any, Bool-cases,
  leb, subst, ap, ◌∙◌, inl, inr,
}
use trunnion.Json.{Json}
use trunnion.Scorer.{
  PrimitiveScore, Scoring, least, lower, keep_score, scored, sealed_runs, score_rules, score,
}

abbrev pub IsAtLeast : ℕ → PrimitiveScore → Type 0
IsAtLeast m s = (n : ℕ) → s.score ≡ some n → m ≤ n

-- No primitive is scored; or this is the score of one, and no primitive is scored below it.
abbrev pub IsMinimum : Option ℕ → List PrimitiveScore → Type 0
IsMinimum none scores = All (λ (s : PrimitiveScore). s.score ≡ none) scores
IsMinimum (some m) scores =
    All (IsAtLeast m) scores × Any (λ (s : PrimitiveScore). s.score ≡ some m) scores

extended :
    (s : PrimitiveScore) (scores : List PrimitiveScore) (own : Option ℕ)
    → s.score ≡ own
    → IsMinimum (least (scored scores)) scores
    → IsMinimum (least (keep_score own (scored scores))) (s ∷ scores)
unfolding least
extended s scores none e h = with_none (least (scored scores)) h
  where
    with_none : (o : Option ℕ) → IsMinimum o scores → IsMinimum o (s ∷ scores)
    with_none none k = (e, k)
    with_none (some m) k = ((λ n own. cc, k.0), inr k.1)
extended s scores (some n) e h = with_some (least (scored scores)) h
  where
    with_some : (o : Option ℕ) → IsMinimum o scores → IsMinimum (some (lower n o)) (s ∷ scores)
    with_some none k = (
      (
        λ m own. ground arith,
        All-imp {P = λ (x : PrimitiveScore). x.score ≡ none} {Q = IsAtLeast n}
            (λ x absent m own. cc) scores k,
      ),
      inl e,
    )
    with_some (some m) k = (
      (
        λ i own. ground arith,
        All-imp {P = IsAtLeast m} {Q = IsAtLeast (min n m)}
            (λ x above i own. omega (arith, above i own)) scores k.0,
      ),
      elim (Bool-cases (leb n m)) [
        | inl below ↦ inl (e ∙ ap (λ (i : ℕ). some i) (ground arith))
        | inr above ↦ inr (
            subst (λ (i : ℕ). Any (λ (x : PrimitiveScore). x.score ≡ some i) scores) (ground arith)
              k.1)
      ],
    )

least_lem : (scores : List PrimitiveScore) → IsMinimum (least (scored scores)) scores
unfolding least scored
least_lem [] = tt
least_lem (s ∷ scores) = extended s scores s.score refl (least_lem scores)

-- The overall score is the least of the scores, and there is none exactly where no primitive has one.
pub score-IsMinimum :
    (j : Json) (scoring : Scoring j.Value) (events : List j.Value)
    → IsMinimum (score j scoring events).overall (score j scoring events).scores
unfolding score
score-IsMinimum j scoring events =
    least_lem (score_rules j scoring.rules events (sealed_runs j events))
