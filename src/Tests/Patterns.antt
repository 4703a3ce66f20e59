-- ===== src/Tests/Patterns.antt =====
-- Runs of the pattern tests of src/policy.rs, and uses of their theorems.
use trunnion.Prelude.{arith, true, false, codes, some, ◌≡◌, ◌↔◌, refl}
use trunnion.Policy.Glob.{strip_dot, glob_matches, parse_tool_pattern, tool_pattern_matches}
use trunnion.Policy.Glob.Characters.{IsAscii, GlobReads, glob_matches_iff}

-- Tests.
any_depth : glob_matches (codes "**/*.env") (codes "./prod.env") ≡ true
unfolding glob_matches
any_depth = refl

whole_target : glob_matches (codes "notes/*") (codes "old/notes/a") ≡ false
unfolding glob_matches
whole_target = refl

command_words : tool_pattern_matches (codes "Bash(git:*)") (codes "Bash") (codes "gitk") ≡ false
unfolding tool_pattern_matches
command_words = refl

two_parts : parse_tool_pattern (codes "Bash(rm -rf *)") ≡ some (codes "Bash", codes "rm -rf *")
unfolding parse_tool_pattern
two_parts = refl

ascii : IsAscii (codes "./a.env")
ascii = (
  omega arith,
  (omega arith, (omega arith, (omega arith, (omega arith, (omega arith, (omega arith, tt)))))),
)

glob_matches_iff_example :
    (glob_matches (codes "**/*.env") (codes "./a.env") ≡ true)
    ↔ GlobReads (strip_dot (codes "**/*.env")) (strip_dot (codes "./a.env"))
glob_matches_iff_example = glob_matches_iff (codes "**/*.env") (codes "./a.env") ascii
