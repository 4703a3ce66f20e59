-- ===== src/Tests/Scores.antt =====
-- A score of two rules over two events, and uses of the theorems of src/scorer.rs there.
use trunnion.Prelude.{ℕ, false, Text, codes, none, some, List, [], ◌∷◌, All, Any, ◌≡◌, ◌⊎◌, refl}
use trunnion.Scorer.{Pred, Level, PrimitiveRule, Scoring, pred_matches, score_rule, score}
use trunnion.Scorer.Overall.{IsMinimum, score-IsMinimum}
use trunnion.Scorer.Climb.{IsSatisfied, BelowIsSatisfied, score_rule_lem}
use trunnion.Tests.Sample.{Tree, nothing, event_of, sample_json}

abbrev kind_seen : Text → Pred Tree
kind_seen kind = record {
  kind = kind;
  minimum = none;
  pointer = none;
  equals = none;
  not_equals = none;
  present = none;
  in_unsealed_run = false;
}

abbrev rule : PrimitiveRule Tree
rule = record {
  primitive = 1;
  name = codes "record";
  base = kind_seen (codes "run.open");
  levels =
      record {
        level = 2;
        requires = kind_seen (codes "approval") ∷ [];
        evidence = codes "approved";
      }
      ∷ record {
        level = 1;
        requires = kind_seen (codes "run.seal") ∷ [];
        evidence = codes "sealed";
      }
      ∷ [];
}

abbrev absent_rule : PrimitiveRule Tree
absent_rule = record {
  primitive = 2;
  name = codes "tools";
  base = kind_seen (codes "tool.result");
  levels = [];
}

abbrev scoring : Scoring Tree
scoring = record { rules_version = codes "v1"; rules = rule ∷ absent_rule ∷ [] }

abbrev events : List Tree
events = event_of (codes "run.open") nothing ∷ event_of (codes "run.seal") nothing ∷ []

-- Tests.
level_one : (score_rule sample_json rule events []).score ≡ some 1
unfolding score_rule
level_one = refl

capped : (score sample_json scoring events).overall ≡ some 1
unfolding score
capped = refl

score-IsMinimum_example :
    IsMinimum (score sample_json scoring events).overall (score sample_json scoring events).scores
score-IsMinimum_example = score-IsMinimum sample_json scoring events

score_rule_lem_example :
    ((id : Text) × (pred_matches sample_json rule.base events [] ≡ some id))
    × All (BelowIsSatisfied sample_json events [] 1) rule.levels
    × (◌≡◌ {A = ℕ} 1 0
        ⊎ Any (λ (l : Level Tree). (l.level ≡ 1) × IsSatisfied sample_json events [] l) rule.levels)
score_rule_lem_example = score_rule_lem sample_json events [] rule 1 level_one
