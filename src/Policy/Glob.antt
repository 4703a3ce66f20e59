-- ===== src/Policy/Glob.antt =====
-- src/policy.rs: wildcard patterns (`glob_inner`, `glob_matches`) and tool patterns
-- (`parse_tool_pattern`, `tool_pattern_matches`), over the bytes of UTF-8 texts as in the source.
pub mod Meaning
pub mod Characters
pub mod Cover
pub mod Tool
use trunnion.Prelude.{
  ◌==◌, ℕ, Bool, true, false, ◌&&◌, ◌||◌, Text, codes, str_eq, strip_prefix, split_once,
  rsplit_once, split_last, starts_with, Option, none, some, [], ◌∷◌, ◌++◌, if◌then◌else◌,
}

-- Each recursive call stands in a case, which is evaluated when it is reached, as in the source.
unfoldable pub glob_inner : Text → Text → Bool
glob_inner [] [] = true
glob_inner [] (d ∷ t) = false
glob_inner (c ∷ p) [] = elim (c == b'*') [ true ↦ glob_inner p [] | false ↦ false ]
glob_inner (c ∷ p) (d ∷ t) = elim (c == b'*') [
  | true ↦ elim (glob_inner p (d ∷ t)) [ true ↦ true | false ↦ glob_inner (c ∷ p) t ]
  | false ↦ elim (c == b'?' || c == d) [ true ↦ glob_inner p t | false ↦ false ]
]

-- `s.strip_prefix("./").unwrap_or(s)`.
unfoldable pub strip_dot : Text → Text
unfolding strip_prefix
strip_dot s = elim (strip_prefix (codes "./") s) [ none ↦ s | some rest ↦ rest ]

glob_either : Text → Text → Bool
unfolding glob_inner strip_prefix
glob_either pattern target =
    if glob_inner pattern target then true else elim (strip_prefix (codes "**/") pattern) [
      | some rest ↦ glob_inner rest target
      | none ↦ false
    ]

unfoldable pub glob_matches : Text → Text → Bool
unfolding glob_either strip_dot
glob_matches pattern target = glob_either (strip_dot pattern) (strip_dot target)

-- `pattern.get(open + 1..pattern.len() - 1)` is out of range where `(` is the last byte, and a text
-- that ends with `)` is cut at a character.
inner_of : Option (Text × ℕ) → Option Text
inner_of none = none
inner_of (some (inner, c)) = if c == b')' then some inner else none

unfoldable pub parse_tool_pattern : Text → Option (Text × Text)
unfolding split_once split_last inner_of
parse_tool_pattern pattern = elim (split_once b'(' pattern) [
  | none ↦ none
  | some (name, rest) ↦ elim (inner_of (split_last rest)) [
    | none ↦ none
    | some inner ↦ some (name, inner)
  ]
]

-- The arm `Some((prefix, "*"))`: a prefix of the command line, at the end of a word.
unfoldable pub command_prefix : Text → Option Text
unfolding rsplit_once str_eq
command_prefix inner = elim (rsplit_once b':' inner) [
  | none ↦ none
  | some (prefix, rest) ↦ if str_eq rest (codes "*") then some prefix else none
]

unfoldable pub inner_matches : Text → Text → Bool
unfolding command_prefix glob_matches starts_with
inner_matches inner target = elim (command_prefix inner) [
  | some prefix ↦ str_eq target prefix || starts_with (prefix ++ codes " ") target
  | none ↦ glob_matches inner target
]

unfoldable pub tool_pattern_matches : Text → Text → Text → Bool
unfolding parse_tool_pattern inner_matches str_eq
tool_pattern_matches pattern tool target = elim (parse_tool_pattern pattern) [
  | some (name, inner) ↦ str_eq name tool && inner_matches inner target
  | none ↦ str_eq pattern tool
]
