-- ===== src/Scorer/Climb.antt =====
-- src/scorer.rs: what the score of one primitive says.
use trunnion.Prelude.{
  ℕ, ◌≤◌, ◌<◌, leb, Text, some, List, [], ◌∷◌, ◌≡◌, ◌⊎◌, inl, inr, refl, arith, All, All-imp, Any,
  Bool-cases, Option-cases, subst, sym, ◌∙◌, find, not,
}
use trunnion.Json.{Json}
use trunnion.Scorer.{
  Level, PrimitiveRule, Rating, insert_level, sort_levels, pred_matches, all_match, climb, at_base,
  is_empty_text, score_rule,
}

module _ {V : Type 0} (P : Level V → Type 0) where
  All-insert_level :
      (l : Level V) (xs : List (Level V)) → P l → All P xs → All P (insert_level l xs)
  unfolding insert_level
  All-insert_level l [] h k = (h, tt)
  All-insert_level l (x ∷ xs) h k = elim (Bool-cases (leb l.level x.level)) [
    | inl first ↦ rw (first, insert_level) (h, k)
    | inr later ↦ rw (later, insert_level) (k.0, All-insert_level l xs h k.1)
  ]

  insert_level-All :
      (l : Level V) (xs : List (Level V)) → All P (insert_level l xs) → P l × All P xs
  unfolding insert_level
  insert_level-All l [] h = h
  insert_level-All l (x ∷ xs) h = elim (Bool-cases (leb l.level x.level)) [
    | inl first ↦ rw (first, insert_level) at h
    | inr later ↦
        let here : P x × All P (insert_level l xs) = rw (later, insert_level) at h in
        let (mine, rest) = insert_level-All l xs here.1 in (mine, (here.0, rest))
  ]

  -- What holds of every sorted level holds of every level.
  sort_levels-All : (ls : List (Level V)) → All P (sort_levels ls) → All P ls
  unfolding sort_levels
  sort_levels-All [] h = tt
  sort_levels-All (l ∷ ls) h =
      let (mine, rest) = insert_level-All l (sort_levels ls) h in (mine, sort_levels-All ls rest)

  Any-insert_level :
      (l : Level V) (xs : List (Level V)) → Any P (insert_level l xs) → P l ⊎ Any P xs
  unfolding insert_level
  Any-insert_level l [] h = h
  Any-insert_level l (x ∷ xs) h = elim (Bool-cases (leb l.level x.level)) [
    | inl first ↦ rw (first, insert_level) at h
    | inr later ↦
        let found : P x ⊎ Any P (insert_level l xs) = rw (later, insert_level) at h in
        elim found [ inl here ↦ inr (inl here) | inr rest ↦ reorder (Any-insert_level l xs rest) ]
  ]
    where
      reorder : P l ⊎ Any P xs → P l ⊎ Any P (x ∷ xs)
      reorder (inl mine) = inl mine
      reorder (inr rest) = inr (inr rest)

  sort_levels-Any : (ls : List (Level V)) → Any P (sort_levels ls) → Any P ls
  unfolding sort_levels
  sort_levels-Any [] h = h
  sort_levels-Any (l ∷ ls) h = elim (Any-insert_level l (sort_levels ls) h) [
    | inl mine ↦ inl mine
    | inr rest ↦ inr (sort_levels-Any ls rest)
  ]

abbrev IsSorted : {V : Type 0} → List (Level V) → Type 0
IsSorted [] = Unit
IsSorted {V = V} (l ∷ ls) = All (λ (x : Level V). l.level ≤ x.level) ls × IsSorted ls

insert_level-IsSorted :
    {V : Type 0} (l : Level V) (xs : List (Level V)) → IsSorted xs → IsSorted (insert_level l xs)
unfolding insert_level
insert_level-IsSorted l [] h = (tt, tt)
insert_level-IsSorted {V = V} l (x ∷ xs) h = elim (Bool-cases (leb l.level x.level)) [
  | inl first ↦
      rw (first, insert_level)
        (
          (
            ground arith,
            All-imp {P = λ (y : Level V). x.level ≤ y.level}
                {Q = λ (y : Level V). l.level ≤ y.level} (λ y above. ground arith) xs h.0,
          ),
          h,
        )
  | inr later ↦
      rw (later, insert_level)
        (
          All-insert_level (λ (y : Level V). x.level ≤ y.level) l xs (ground arith) h.0,
          insert_level-IsSorted l xs h.1,
        )
]

sort_levels-IsSorted : {V : Type 0} (ls : List (Level V)) → IsSorted (sort_levels ls)
unfolding sort_levels
sort_levels-IsSorted [] = tt
sort_levels-IsSorted (l ∷ ls) = insert_level-IsSorted l (sort_levels ls) (sort_levels-IsSorted ls)

module _ (j : Json) (events : List j.Value) (sealed : List Text) where
  -- Every predicate of the level holds of the events.
  abbrev pub IsSatisfied : Level j.Value → Type 0
  IsSatisfied l = (ids : List Text) × (all_match j l.requires events sealed ≡ some ids)

  abbrev pub BelowIsSatisfied : ℕ → Level j.Value → Type 0
  BelowIsSatisfied best l = l.level < best → IsSatisfied l

  -- Every level below the one reached is satisfied, and the one reached is, if it is not the start.
  abbrev Reaches : List (Level j.Value) → Rating → Rating → Type 0
  Reaches ls rating reached =
      All (BelowIsSatisfied reached.best) ls
      × ((reached.best ≡ rating.best)
          ⊎ Any (λ (l : Level j.Value). (l.level ≡ reached.best) × IsSatisfied l) ls)

  abbrev step_to : Level j.Value → List Text → Rating
  step_to l ids = record {
    best = l.level;
    evidence = l.evidence;
    sample = find (λ s. not (is_empty_text s)) ids;
  }

  stays :
      (ls : List (Level j.Value)) (rating : Rating)
      → All (λ (l : Level j.Value). rating.best ≤ l.level) ls
      → Reaches ls rating rating
  stays ls rating above = (
    All-imp {P = λ (x : Level j.Value). rating.best ≤ x.level} {Q = BelowIsSatisfied rating.best}
        (λ x high low. absurd (omega arith)) ls above,
    inl refl,
  )

  moves :
      (l : Level j.Value) (ls : List (Level j.Value)) (ids : List Text) (rating reached : Rating)
      → all_match j l.requires events sealed ≡ some ids
      → Reaches ls (step_to l ids) reached
      → Reaches (l ∷ ls) rating reached
  moves l ls ids rating reached e (below, inl at_level) =
      (((λ low. (ids, e)), below), inr (inl (sym at_level, (ids, e))))
  moves l ls ids rating reached e (below, inr later) = (((λ low. (ids, e)), below), inr (inr later))

  -- The climb over sorted levels, from a rating no higher than the first of them.
  climb-Reaches :
      (ls : List (Level j.Value)) (rating : Rating)
      → IsSorted ls
      → All (λ (l : Level j.Value). rating.best ≤ l.level) ls
      → Reaches ls rating (climb j ls events sealed rating)
  climb-Reaches [] rating sorted above = unfold climb in (tt, inl refl)
  climb-Reaches (l ∷ ls) rating sorted above =
      elim (Option-cases (all_match j l.requires events sealed)) [
        | inl missing ↦
            let stops : rating ≡ climb j (l ∷ ls) events sealed rating =
              unfold climb in rw (missing, climb) in
            subst (Reaches (l ∷ ls) rating) stops (stays (l ∷ ls) rating above)
        | inr (ids, e) ↦
            let goes_on : climb j ls events sealed (step_to l ids)
                ≡ climb j (l ∷ ls) events sealed rating =
              unfold climb in rw (e, climb) in
            subst (Reaches (l ∷ ls) rating) goes_on (
              moves l ls ids rating (climb j ls events sealed (step_to l ids)) e
                (climb-Reaches ls (step_to l ids) sorted.1 sorted.0))
      ]

  zero_below : (ls : List (Level j.Value)) → All (λ (l : Level j.Value). 0 ≤ l.level) ls
  zero_below [] = tt
  zero_below (l ∷ ls) = (omega arith, zero_below ls)

  -- A rule that gives a score has its base in the events; every level of the rule below the score has
  -- all that it requires, and so has a level with the score's number, unless the score is 0.
  pub score_rule_lem :
      (rule : PrimitiveRule j.Value) (best : ℕ)
      → (score_rule j rule events sealed).score ≡ some best
      → ((id : Text) × (pred_matches j rule.base events sealed ≡ some id))
        × All (BelowIsSatisfied best) rule.levels
        × ((best ≡ 0) ⊎ Any (λ (l : Level j.Value). (l.level ≡ best) × IsSatisfied l) rule.levels)
  unfolding score_rule
  score_rule_lem rule best h = elim (Option-cases (pred_matches j rule.base events sealed)) [
    | inl missing ↦ absurd (cc (rw (missing, score_rule) at h))
    | inr (id, e) ↦
        let reached : (climb j (sort_levels rule.levels) events sealed (at_base j)).best ≡ best =
          scored_as (rw (e, score_rule) at h) in
        let climbed =
          climb-Reaches (sort_levels rule.levels) (at_base j) (sort_levels-IsSorted rule.levels)
            (zero_below (sort_levels rule.levels)) in
        (
          (id, e),
          sort_levels-All (BelowIsSatisfied best) rule.levels (
              subst (λ (b : ℕ). All (BelowIsSatisfied b) (sort_levels rule.levels)) reached
                climbed.0),
          from_sorted reached climbed.1,
        )
  ]
    where
      scored_as :
          some (climb j (sort_levels rule.levels) events sealed (at_base j)).best ≡ some best
          → (climb j (sort_levels rule.levels) events sealed (at_base j)).best ≡ best
      scored_as q = cc

      from_sorted :
          (climb j (sort_levels rule.levels) events sealed (at_base j)).best ≡ best
          → ((climb j (sort_levels rule.levels) events sealed (at_base j)).best ≡ 0)
            ⊎ Any
                (λ (l : Level j.Value).
                  (l.level ≡ (climb j (sort_levels rule.levels) events sealed (at_base j)).best)
                  × IsSatisfied l)
                (sort_levels rule.levels)
          → (best ≡ 0) ⊎ Any (λ (l : Level j.Value). (l.level ≡ best) × IsSatisfied l) rule.levels
      from_sorted reached (inl bottom) = inl (sym reached ∙ bottom)
      from_sorted reached (inr some_level) = inr (
          sort_levels-Any (λ (l : Level j.Value). (l.level ≡ best) × IsSatisfied l) rule.levels
            (subst
              (λ (b : ℕ).
                Any (λ (l : Level j.Value). (l.level ≡ b) × IsSatisfied l)
                  (sort_levels rule.levels))
              reached some_level))
