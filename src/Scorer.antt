-- ===== src/Scorer.antt =====
-- src/scorer.rs: the score of each primitive, from rules that are data and from the events of a ledger.
pub mod Overall
pub mod Climb
use trunnion.Prelude.{
  ℕ, suc, ◌+◌, min, Bool, true, false, ◌&&◌, ◌||◌, not, leb, length, Text, codes, str_eq, any, find,
  map, Option, none, some, List, [], ◌∷◌, if◌then◌else◌,
}
use trunnion.Json.{Json, or_null}

-- `min` is `minimum` here.
pub record Pred (V : Type 0) : Type 0 where
  pub kind : Text
  pub minimum : Option ℕ
  pub pointer : Option Text
  pub equals : Option V
  pub not_equals : Option V
  pub present : Option Bool
  pub in_unsealed_run : Bool

pub record Level (V : Type 0) : Type 0 where
  pub level : ℕ
  pub requires : List (Pred V)
  pub evidence : Text

pub record PrimitiveRule (V : Type 0) : Type 0 where
  pub primitive : ℕ
  pub name : Text
  pub base : Pred V
  pub levels : List (Level V)

pub record Scoring (V : Type 0) : Type 0 where
  pub rules_version : Text
  pub rules : List (PrimitiveRule V)

pub record PrimitiveScore : Type 0 where
  pub primitive : ℕ
  pub name : Text
  pub score : Option ℕ
  pub evidence : Text
  pub sample_event : Option Text

pub record ScoreSnapshot : Type 0 where
  pub scores : List PrimitiveScore
  pub overall : Option ℕ
  pub rules_version : Text
  pub events_scored : ℕ

-- How far a rule has climbed.
pub record Rating : Type 0 where
  pub best : ℕ
  pub evidence : Text
  pub sample : Option Text

abbrev pub unwrap_or {ℓ} : {A : Type ℓ} → Option A → A → A
unwrap_or none d = d
unwrap_or (some a) d = a

abbrev first_of : Option Text → Text → Option Text
first_of none id = some id
first_of (some s) id = some s

abbrev is_empty_text : Text → Bool
is_empty_text [] = true
is_empty_text (c ∷ s) = false

-- `Iterator::min`.
abbrev pub lower : ℕ → Option ℕ → ℕ
lower n none = n
lower n (some m) = min n m

unfoldable pub least : List ℕ → Option ℕ
least [] = none
least (n ∷ ns) = some (lower n (least ns))

abbrev pub keep_score : Option ℕ → List ℕ → List ℕ
keep_score none rest = rest
keep_score (some n) rest = n ∷ rest

unfoldable pub scored : List PrimitiveScore → List ℕ
scored [] = []
scored (s ∷ scores) = keep_score s.score (scored scores)

-- `sort_by_key(|l| l.level)`, which is stable.
insert_level : {V : Type 0} → Level V → List (Level V) → List (Level V)
insert_level l [] = l ∷ []
insert_level l (x ∷ xs) = elim (leb l.level x.level) [
  | true ↦ l ∷ x ∷ xs
  | false ↦ x ∷ insert_level l xs
]

unfoldable pub sort_levels : {V : Type 0} → List (Level V) → List (Level V)
unfolding insert_level
sort_levels [] = []
sort_levels (l ∷ ls) = insert_level l (sort_levels ls)

module _ (j : Json) where
  sealed_run : j.Value → Option Text → List Text → List Text
  sealed_run ev none runs = runs
  sealed_run ev (some run) runs =
      if j.equal (j.field ev (codes "kind")) (j.str (codes "run.seal")) then run ∷ runs else runs

  unfoldable pub sealed_runs : List j.Value → List Text
  unfolding sealed_run
  sealed_runs [] = []
  sealed_runs (ev ∷ events) =
      sealed_run ev (j.as_str (j.field ev (codes "run_id"))) (sealed_runs events)

  -- The constraint on the value at a predicate's pointer.
  value_fits : Option j.Value → Option j.Value → Option Bool → j.Value → Bool
  value_fits (some expected) not_equals present at = j.equal at expected
  value_fits none (some excluded) present at = not (j.equal at j.null || j.equal at excluded)
  value_fits none none (some true) at = not (j.equal at j.null)
  value_fits none none _ at = true

  pointer_fits : Pred j.Value → Option Text → j.Value → Bool
  unfolding value_fits
  pointer_fits pred none ev = true
  pointer_fits pred (some path) ev =
      value_fits pred.equals pred.not_equals pred.present
        (or_null j (j.pointer (j.field ev (codes "_subject")) path))

  unsealed : List Text → j.Value → Bool
  unfolding str_eq
  unsealed sealed ev =
      not (any (λ run. str_eq run (unwrap_or (j.as_str (j.field ev (codes "run_id"))) [])) sealed)

  -- The event passes every `continue` of the loop.
  unfoldable pub fits : Pred j.Value → List Text → j.Value → Bool
  unfolding unsealed pointer_fits
  fits pred sealed ev =
      j.equal (j.field ev (codes "kind")) (j.str pred.kind)
      && (not pred.in_unsealed_run || unsealed sealed ev)
      && pointer_fits pred pred.pointer ev

  unfoldable pub tally : Pred j.Value → List Text → List j.Value → ℕ → Option Text → ℕ × Option Text
  unfolding fits
  tally pred sealed [] count sample = (count, sample)
  tally pred sealed (ev ∷ events) count sample = elim (fits pred sealed ev) [
    | true ↦
        tally pred sealed events (count + 1)
          (first_of sample (unwrap_or (j.as_str (j.field ev (codes "id"))) []))
    | false ↦ tally pred sealed events count sample
  ]

  enough : ℕ → ℕ × Option Text → Option Text
  enough minimum (count, sample) = if leb minimum count then some (unwrap_or sample []) else none

  unfoldable pub pred_matches : Pred j.Value → List j.Value → List Text → Option Text
  unfolding tally enough
  pred_matches pred events sealed =
      enough (unwrap_or pred.minimum 1) (tally pred sealed events 0 none)

  -- `collect` into an `Option<Vec<String>>`.
  unfoldable pub all_match : List (Pred j.Value) → List j.Value → List Text → Option (List Text)
  unfolding pred_matches
  all_match [] events sealed = some []
  all_match (p ∷ preds) events sealed = elim (pred_matches p events sealed) [
    | none ↦ none
    | some id ↦ elim (all_match preds events sealed) [ none ↦ none | some ids ↦ some (id ∷ ids) ]
  ]

  unfoldable pub climb : List (Level j.Value) → List j.Value → List Text → Rating → Rating
  unfolding all_match
  climb [] events sealed rating = rating
  climb (level ∷ levels) events sealed rating = elim (all_match level.requires events sealed) [
    | none ↦ rating
    | some ids ↦ climb levels events sealed (record {
      best = level.level;
      evidence = level.evidence;
      sample = find (λ s. not (is_empty_text s)) ids;
    })
  ]

  abbrev pub at_base : Rating
  at_base = record { best = 0; evidence = codes "base evidence present"; sample = none }

  unfoldable pub score_rule : PrimitiveRule j.Value → List j.Value → List Text → PrimitiveScore
  unfolding pred_matches climb sort_levels
  score_rule rule events sealed = elim (pred_matches rule.base events sealed) [
    | none ↦ record {
      primitive = rule.primitive;
      name = rule.name;
      score = none;
      evidence = codes "N/A: no telemetry for this primitive in this ledger";
      sample_event = none;
    }
    | some _ ↦
        let rating = climb (sort_levels rule.levels) events sealed at_base in
        record {
          primitive = rule.primitive;
          name = rule.name;
          score = some rating.best;
          evidence = rating.evidence;
          sample_event = rating.sample;
        }
  ]

  score_rules : List (PrimitiveRule j.Value) → List j.Value → List Text → List PrimitiveScore
  unfolding score_rule
  score_rules [] events sealed = []
  score_rules (rule ∷ rules) events sealed =
      score_rule rule events sealed ∷ score_rules rules events sealed

  unfoldable pub score : Scoring j.Value → List j.Value → ScoreSnapshot
  unfolding sealed_runs score_rules least scored
  score scoring events =
      let scores = score_rules scoring.rules events (sealed_runs events) in
      record {
        scores = scores;
        overall = least (scored scores);
        rules_version = scoring.rules_version;
        events_scored = length events;
      }
