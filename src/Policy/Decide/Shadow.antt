-- ===== src/Policy/Decide/Shadow.antt =====
-- src/policy.rs: `covers` against the rule search of `decide_with_earned`.
use trunnion.Prelude.{
  true, Text, str_eq, str_eq_iff, any, all, find, find-shadowed, All, Free, Option, none, some,
  List, [], ◌∷◌, ◌++◌, ◌≡◌, refl, arith, inl, inr, Option-cases,
}
use trunnion.Policy.Ladder.{Rung}
use trunnion.Policy.Glob.{glob_matches}
use trunnion.Policy.Glob.Cover.{IsRooted, glob_matches_trans}
use trunnion.Policy.Rules.{
  Rule, RuleWhen, Policy, pattern_covered, cap_covered, when_covered, target_covered, covers,
}
use trunnion.Policy.Decide.{
  is_none_or, rule_applies, is_catch_all, default_rule, decide_on, declares,
}

-- The patterns of the earlier rule have no `?`, and those of the later do not begin with `**/`.
abbrev AreComparable : Option (List Text) → Option (List Text) → Type 0
AreComparable (some a) (some b) = All (Free b'?') a × All IsRooted b
AreComparable _ _ = Unit

abbrev pub IsComparable : Rule → Rule → Type 0
IsComparable earlier later = AreComparable earlier.matcher.target_in later.matcher.target_in

pattern_covered_sound :
    (a : List Text) (bp t : Text)
    → All (Free b'?') a
    → IsRooted bp
    → pattern_covered a bp ≡ true
    → glob_matches bp t ≡ true
    → any (λ p. glob_matches p t) a ≡ true
pattern_covered_sound [] bp t f rooted h k = h
pattern_covered_sound (ap ∷ a) bp t f rooted h k = ground (
  arith,
  str_eq_iff ap bp,
  glob_matches_trans ap bp t f.0 rooted,
  pattern_covered_sound a bp t f.1 rooted,
)

patterns_covered_sound :
    (a b : List Text) (t : Text)
    → All (Free b'?') a
    → All IsRooted b
    → all (pattern_covered a) b ≡ true
    → any (λ p. glob_matches p t) b ≡ true
    → any (λ p. glob_matches p t) a ≡ true
patterns_covered_sound a [] t f rooted h k = ground arith
patterns_covered_sound a (bp ∷ b) t f rooted h k =
    ground (arith, pattern_covered_sound a bp t f rooted.0, patterns_covered_sound a b t f rooted.1)

target_covered_sound :
    (a b : Option (List Text)) (t : Text)
    → AreComparable a b
    → target_covered a b ≡ true
    → is_none_or b (any (λ p. glob_matches p t)) ≡ true
    → is_none_or a (any (λ p. glob_matches p t)) ≡ true
unfolding target_covered
target_covered_sound none b t c h k = refl
target_covered_sound (some a) none t c h k = ground arith
target_covered_sound (some a) (some b) t c h k = patterns_covered_sound a b t c.0 c.1 h k

cap_covered_sound :
    (a b : Option Text) (cap_id : Text)
    → cap_covered a b ≡ true
    → is_none_or b (λ c. str_eq c cap_id) ≡ true
    → is_none_or a (λ c. str_eq c cap_id) ≡ true
unfolding cap_covered
cap_covered_sound none b cap_id h k = refl
cap_covered_sound (some a) none cap_id h k = ground arith
cap_covered_sound (some a) (some b) cap_id h k = ground (arith, str_eq_iff a b)

when_covered_sound :
    (a b : Option RuleWhen) (profile : Text)
    → when_covered a b ≡ true
    → is_none_or b (λ (w : RuleWhen). str_eq w.profile profile) ≡ true
    → is_none_or a (λ (w : RuleWhen). str_eq w.profile profile) ≡ true
unfolding when_covered
when_covered_sound none b profile h k = refl
when_covered_sound (some a) none profile h k = ground arith
when_covered_sound (some a) (some b) profile h k = ground (arith, str_eq_iff a.profile b.profile)

-- Where the patterns are comparable, a rule that covers another applies to every call to which the
-- other applies, under every profile.
pub covers_sound :
    (earlier later : Rule) (profile cap_id target : Text)
    → IsComparable earlier later
    → covers earlier later ≡ true
    → rule_applies profile cap_id target later ≡ true
    → rule_applies profile cap_id target earlier ≡ true
unfolding covers rule_applies
covers_sound earlier later profile cap_id target c h k = ground (
  arith,
  cap_covered_sound earlier.matcher.capability later.matcher.capability cap_id,
  when_covered_sound earlier.when later.when profile,
  target_covered_sound earlier.matcher.target_in later.matcher.target_in target c,
)

catch_all-shadowed :
    (earlier later : Rule)
    → covers earlier later ≡ true
    → is_catch_all later ≡ true
    → is_catch_all earlier ≡ true
unfolding covers cap_covered target_covered
catch_all-shadowed earlier later h k = ground arith

-- The policy with one rule left out.
abbrev pub without_rule : {V : Type 0} → Policy V → List Rule → Policy V
without_rule policy rules = record policy { rules = rules }

module _ {V : Type 0} (policy : Policy V) (identity : V) (above : List Rule) (earlier : Rule)
    (between : List Rule) (later : Rule) (below : List Rule)
    (rules_eq : policy.rules ≡ above ++ earlier ∷ (between ++ later ∷ below))
    (comparable : IsComparable earlier later) (covered : covers earlier later ≡ true) where
  rule_search :
      (cap_id target : Text)
      → find (rule_applies policy.profile cap_id target) policy.rules
        ≡ find (rule_applies policy.profile cap_id target) (above ++ earlier ∷ (between ++ below))
  rule_search cap_id target = rw rules_eq (
      find-shadowed _ above earlier between later below
        (covers_sound earlier later policy.profile cap_id target comparable covered))

  default_search :
      find is_catch_all policy.rules ≡ find is_catch_all (above ++ earlier ∷ (between ++ below))
  default_search = rw rules_eq (
      find-shadowed is_catch_all above earlier between later below
        (catch_all-shadowed earlier later covered))

  same_default : default_rule (above ++ earlier ∷ (between ++ below)) ≡ default_rule policy.rules
  unfolding default_rule
  same_default = ground (arith, default_search)

  -- A rule that `covers` calls unreachable, with comparable patterns, decides nothing: leaving it out
  -- of the policy leaves the decision on every call as it is, whatever the earned rungs.
  pub decide_on-shadowed :
      (tool target : Text) (request : V) (earned : Text → Rung → Rung)
      → decide_on
          (without_rule policy (above ++ earlier ∷ (between ++ below)))
          identity
          tool
          target
          request
          earned
        ≡ decide_on policy identity tool target request earned
  unfolding decide_on
  decide_on-shadowed tool target request earned =
      elim (Option-cases (find (declares tool target) policy.capabilities)) [
        | inl e ↦ ground (arith, same_default, e)
        | inr (cap, e) ↦ ground (arith, same_default, rule_search cap.id target, e)
      ]
