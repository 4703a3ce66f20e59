-- ===== src/Policy/Rules.antt =====
-- src/policy.rs: the policy document, the load-time checks (`validate`) and the reachability test
-- that they use (`covers`).
pub mod Sound
use trunnion.Prelude.{
  ℕ, Bool, true, false, ◌&&◌, ◌||◌, Text, str_eq, is_blank, any, all, Option, none, some, List, [],
  ◌∷◌, ◌++◌, if◌then◌else◌,
}
use trunnion.Fault.{
  Result, done, err, ◌>>◌, post_without_rollback, undeclared_capability, mute_rule,
  unreachable_rule,
}
use trunnion.Policy.Ladder.{Effect, Rung, Action, allow, Gate, post, gate}
use trunnion.Policy.Glob.{glob_matches}

pub record Capability : Type 0 where
  pub id : Text
  pub tools : List Text
  pub effect : Effect
  pub rung : Rung
  pub credentials : List Text
  pub rollback : Option Text
  pub sensors : List Text

pub record RuleMatch : Type 0 where
  pub capability : Option Text
  pub target_in : Option (List Text)

pub record RuleWhen : Type 0 where
  pub profile : Text

pub record Rule : Type 0 where
  pub id : Text
  pub matcher : RuleMatch
  pub when : Option RuleWhen
  pub action : Action
  pub message : Option Text

pub record Policy (V : Type 0) : Type 0 where
  pub v : ℕ
  pub policy_version : Option Text
  pub profile : Text
  pub profile_requirements : V
  pub capabilities : List Capability
  pub rules : List Rule
  pub trust_budget : V

abbrev pub is_none {ℓ} : {A : Type ℓ} → Option A → Bool
is_none none = true
is_none (some _) = false

abbrev pub is_post : Gate → Bool
is_post post = true
is_post _ = false

abbrev is_allow : Action → Bool
is_allow allow = true
is_allow _ = false

-- The three parts of `covers`.
unfoldable pub cap_covered : Option Text → Option Text → Bool
unfolding str_eq
cap_covered none _ = true
cap_covered (some a) none = false
cap_covered (some a) (some b) = str_eq a b

unfoldable pub when_covered : Option RuleWhen → Option RuleWhen → Bool
unfolding str_eq
when_covered none _ = true
when_covered (some a) none = false
when_covered (some a) (some b) = str_eq a.profile b.profile

abbrev pub pattern_covered : List Text → Text → Bool
pattern_covered a bp = any (λ ap. str_eq ap bp || glob_matches ap bp) a

unfoldable pub target_covered : Option (List Text) → Option (List Text) → Bool
unfolding str_eq glob_matches
target_covered none _ = true
target_covered (some a) none = false
target_covered (some a) (some b) = all (pattern_covered a) b

unfoldable pub covers : Rule → Rule → Bool
unfolding cap_covered when_covered target_covered
covers earlier later =
    cap_covered earlier.matcher.capability later.matcher.capability
    && when_covered earlier.when later.when
    && target_covered earlier.matcher.target_in later.matcher.target_in

-- A `for` loop whose body may return an error.
abbrev for_each {ℓ} : {A : Type ℓ} → (A → Result (Unit {0})) → List A → Result (Unit {0})
for_each body [] = done
for_each body (x ∷ xs) = do body x; for_each body xs

check_capability : Capability → Result (Unit {0})
unfolding gate
check_capability cap =
    if is_post (gate cap.rung cap.effect) && is_none cap.rollback
    then err (post_without_rollback cap.id)
    else done

check_named : List Capability → Text → Option Text → Result (Unit {0})
unfolding str_eq
check_named capabilities rule none = done
check_named capabilities rule (some cap_id) =
    if any (λ (c : Capability). str_eq c.id cap_id) capabilities
    then done
    else err (undeclared_capability rule cap_id)

abbrev or_empty : Option Text → Text
or_empty none = []
or_empty (some t) = t

check_message : Rule → Result (Unit {0})
unfolding is_blank
check_message rule =
    if is_allow rule.action
    then done
    else if is_blank (or_empty rule.message)
    then err (mute_rule rule.id)
    else done

check_rule : List Capability → Rule → Result (Unit {0})
unfolding check_named check_message
check_rule capabilities rule = do
  check_named capabilities rule.id rule.matcher.capability
  check_message rule

check_pair : Rule → Rule → Result (Unit {0})
unfolding covers
check_pair later earlier =
    if covers earlier later then err (unreachable_rule later.id earlier.id) else done

-- The outer loop, with the rules above the current one in their order.
check_reach : List Rule → List Rule → Result (Unit {0})
unfolding check_pair
check_reach above [] = done
check_reach above (later ∷ rest) = do
  for_each (check_pair later) above
  check_reach (above ++ later ∷ []) rest

unfoldable pub validate : {V : Type 0} → Policy V → Result (Unit {0})
unfolding check_capability check_rule check_reach
validate policy = do
  for_each check_capability policy.capabilities
  for_each (check_rule policy.capabilities) policy.rules
  check_reach [] policy.rules
