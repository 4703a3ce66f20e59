-- ===== src/Policy/Glob/Tool.antt =====
-- src/policy.rs: what a tool pattern says.
use trunnion.Prelude.{
  ◌&&◌, true, ◌||◌, Text, codes, str_eq, strip_prefix, starts_with, Free, some, split_once-append,
  split_once-Free, split_last-append, rsplit_once-append, rsplit_once-Free, and_eq_true, or_eq_true,
  strip_prefix-append, strip_prefix-eq-some, str_eq_iff, str_eq_refl, ◌↔◌, ◌⊎◌, ap, [], ◌∷◌, ◌++◌,
  ◌≡◌, refl, inl, inr, arith, Option-cases,
}
use trunnion.Policy.Glob.{parse_tool_pattern, inner_matches, tool_pattern_matches, glob_matches}

-- `Name(inner)` is read back as its two parts, where the name holds no `(`.
pub parse_tool_pattern-of_parts :
    (name inner : Text)
    → Free b'(' name
    → parse_tool_pattern (name ++ b'(' ∷ (inner ++ b')' ∷ [])) ≡ some (name, inner)
unfolding parse_tool_pattern
parse_tool_pattern-of_parts name inner f =
    ground (arith, split_once-append b'(' name (inner ++ b')' ∷ []) f, split_last-append inner b')')

-- A pattern with no `(` names the tool alone.
pub tool_pattern_matches_bare :
    (pattern tool target : Text)
    → Free b'(' pattern
    → tool_pattern_matches pattern tool target ≡ str_eq pattern tool
unfolding tool_pattern_matches
tool_pattern_matches_bare pattern tool target f = ground (arith, split_once-Free b'(' pattern f)

starts_with_iff : (p s : Text) → (starts_with p s ≡ true) ↔ ((r : Text) × (s ≡ p ++ r))
unfolding starts_with
starts_with_iff p s = (to, from)
  where
    to : starts_with p s ≡ true → (r : Text) × (s ≡ p ++ r)
    to h = elim (Option-cases (strip_prefix p s)) [
      | inl e ↦ ground arith
      | inr (r, e) ↦ (r, strip_prefix-eq-some p s r e)
    ]

    from : (r : Text) × (s ≡ p ++ r) → starts_with p s ≡ true
    from (r, e) = ground (arith, strip_prefix-append p r)

-- The target is the command itself, or the command, a space and any arguments.
abbrev pub IsCommand : Text → Text → Type 0
IsCommand prefix target =
    (target ≡ prefix) ⊎ ((arguments : Text) × (target ≡ (prefix ++ codes " ") ++ arguments))

parenthesised :
    (name inner tool target : Text)
    → Free b'(' name
    → tool_pattern_matches (name ++ b'(' ∷ (inner ++ b')' ∷ [])) tool target
      ≡ (str_eq name tool && inner_matches inner target)
unfolding tool_pattern_matches
parenthesised name inner tool target f = ground (arith, parse_tool_pattern-of_parts name inner f)

inner_matches-command :
    (prefix target : Text)
    → inner_matches (prefix ++ codes ":*") target
      ≡ (str_eq target prefix || starts_with (prefix ++ codes " ") target)
unfolding inner_matches
inner_matches-command prefix target =
    ground (arith, rsplit_once-append b':' prefix (codes "*") (refl, tt), str_eq_refl (codes "*"))

IsCommand-iff :
    (prefix target : Text)
    → ((str_eq target prefix || starts_with (prefix ++ codes " ") target) ≡ true)
      ↔ IsCommand prefix target
IsCommand-iff prefix target = (to, from)
  where
    to :
        (str_eq target prefix || starts_with (prefix ++ codes " ") target) ≡ true
        → IsCommand prefix target
    to h = elim (or_eq_true (str_eq target prefix) _ h) [
      | inl same ↦ inl ((str_eq_iff target prefix).0 same)
      | inr longer ↦ inr ((starts_with_iff (prefix ++ codes " ") target).0 longer)
    ]

    from :
        IsCommand prefix target
        → (str_eq target prefix || starts_with (prefix ++ codes " ") target) ≡ true
    from (inl same) = rw ((str_eq_iff target prefix).1 same)
    from (inr longer) = ground (arith, (starts_with_iff (prefix ++ codes " ") target).1 longer)

-- `Name(prefix:*)` matches the calls of the tool `Name` whose command is `prefix`, cut at a word's
-- end, and no other call.
pub tool_pattern_matches-IsCommand :
    (name prefix tool target : Text)
    → Free b'(' name
    → (tool_pattern_matches (name ++ b'(' ∷ ((prefix ++ codes ":*") ++ b')' ∷ [])) tool target
        ≡ true)
      ↔ ((name ≡ tool) × IsCommand prefix target)
tool_pattern_matches-IsCommand name prefix tool target f =
    rw
      (parenthesised name (prefix ++ codes ":*") tool target f, inner_matches-command prefix target)
      (
        λ h.
            let (same, rest) = and_eq_true (str_eq name tool) _ h in
            ((str_eq_iff name tool).0 same, (IsCommand-iff prefix target).0 rest),
        λ h. rw ((str_eq_iff name tool).1 h.0) ((IsCommand-iff prefix target).1 h.1),
      )

-- `Name(inner)` with no `:` in it matches the calls of the tool `Name` whose target `inner` matches as a wildcard pattern.
pub tool_pattern_matches_glob :
    (name inner tool target : Text)
    → Free b'(' name
    → Free b':' inner
    → tool_pattern_matches (name ++ b'(' ∷ (inner ++ b')' ∷ [])) tool target
      ≡ (str_eq name tool && glob_matches inner target)
unfolding inner_matches
tool_pattern_matches_glob name inner tool target f g =
    rw (parenthesised name inner tool target f) (ap (λ b. str_eq name tool && b) plain)
  where
    plain : inner_matches inner target ≡ glob_matches inner target
    plain = ground (arith, rsplit_once-Free b':' inner g)
