-- ===== src/Prelude/Bytes.antt =====
-- Rust's `str` and `String` as their UTF-8 bytes, with the operations of the standard library that
-- the program uses. A literal of the source, which is ASCII, is `codes "..."`.
use Prim.Native.Nat.{ℕ}
use Prim.Native.Char.{code}
use Prim.Native.String.{String}
use mathlib.Core.Path.{◌≡◌, refl}
use mathlib.Core.Logic.{◌↔◌}
use mathlib.Core.Bool.{Bool, true, false, ◌&&◌, ◌||◌}
use mathlib.Core.List.{List, [], ◌∷◌, ◌++◌}
use mathlib.Core.Option.{Option, none, some}
use native.Mathlib.Omega.{arith}
use trunnion.Prelude.Tests.{◌==◌, leb, if◌then◌else◌}

abbrev pub Text : Type 0
Text = List ℕ

abbrev pub codes : String → Text
codes String.[] = []
codes (String.◌∷◌ c s) = code c ∷ codes s

-- `==` on texts.
unfoldable pub str_eq : Text → Text → Bool
str_eq [] [] = true
str_eq [] (d ∷ t) = false
str_eq (c ∷ s) [] = false
str_eq (c ∷ s) (d ∷ t) = c == d && str_eq s t

pub eq_of_str_eq : (s t : Text) → str_eq s t ≡ true → s ≡ t
unfolding str_eq
eq_of_str_eq [] [] h = refl
eq_of_str_eq [] (d ∷ t) h = ground arith
eq_of_str_eq (c ∷ s) [] h = ground arith
eq_of_str_eq (c ∷ s) (d ∷ t) h = ground (arith, eq_of_str_eq s t)

pub str_eq_refl : (s : Text) → str_eq s s ≡ true
unfolding str_eq
str_eq_refl [] = refl
str_eq_refl (c ∷ s) = ground (arith, str_eq_refl s)

pub str_eq_iff : (s t : Text) → (str_eq s t ≡ true) ↔ (s ≡ t)
str_eq_iff s t = (eq_of_str_eq s t, λ e. rw e (str_eq_refl t))

pub str_eq_sym : (s t : Text) → str_eq s t ≡ str_eq t s
unfolding str_eq
str_eq_sym [] [] = refl
str_eq_sym [] (d ∷ t) = refl
str_eq_sym (c ∷ s) [] = refl
str_eq_sym (c ∷ s) (d ∷ t) = ground (arith, str_eq_sym s t)

-- `s.strip_prefix(p)`: what follows `p`, if `s` begins with it.
unfoldable pub strip_prefix : Text → Text → Option Text
strip_prefix [] s = some s
strip_prefix (c ∷ p) [] = none
strip_prefix (c ∷ p) (d ∷ s) = if c == d then strip_prefix p s else none

pub strip_prefix-append : (p s : Text) → strip_prefix p (p ++ s) ≡ some s
unfolding strip_prefix
strip_prefix-append [] s = refl
strip_prefix-append (c ∷ p) s = ground (arith, strip_prefix-append p s)

pub strip_prefix-eq-some : (p s r : Text) → strip_prefix p s ≡ some r → s ≡ p ++ r
unfolding strip_prefix
strip_prefix-eq-some [] s r h = ground arith
strip_prefix-eq-some (c ∷ p) [] r h = ground arith
strip_prefix-eq-some (c ∷ p) (d ∷ s) r h = ground (arith, strip_prefix-eq-some p s r)

-- `s.starts_with(p)`.
unfoldable pub starts_with : Text → Text → Bool
unfolding strip_prefix
starts_with p s = elim (strip_prefix p s) [ none ↦ false | some _ ↦ true ]

-- `s.find(c)` for an ASCII `c`, with the text on either side of the first place.
unfoldable pub split_once : ℕ → Text → Option (Text × Text)
split_once c [] = none
split_once c (d ∷ s) =
    if d == c
    then some ([], s)
    else elim (split_once c s) [ none ↦ none | some (a, b) ↦ some (d ∷ a, b) ]

-- `s.rsplit_once(c)`: the same at the last place.
unfoldable pub rsplit_once : ℕ → Text → Option (Text × Text)
rsplit_once c [] = none
rsplit_once c (d ∷ s) = elim (rsplit_once c s) [
  | some (a, b) ↦ some (d ∷ a, b)
  | none ↦ if d == c then some ([], s) else none
]

-- All bytes but the last, and the last.
unfoldable pub split_last : Text → Option (Text × ℕ)
split_last [] = none
split_last (c ∷ []) = some ([], c)
split_last (c ∷ d ∷ s) = elim (split_last (d ∷ s)) [ none ↦ none | some (a, x) ↦ some (c ∷ a, x) ]

abbrev pub Free : ℕ → Text → Type 0
Free c [] = Unit
Free c (d ∷ s) = (d == c) ≡ false × Free c s

pub split_once-append : (c : ℕ) (s t : Text) → Free c s → split_once c (s ++ c ∷ t) ≡ some (s, t)
unfolding split_once
split_once-append c [] t h = ground arith
split_once-append c (d ∷ s) t h = ground (arith, split_once-append c s t)

pub split_once-Free : (c : ℕ) (s : Text) → Free c s → split_once c s ≡ none
unfolding split_once
split_once-Free c [] h = refl
split_once-Free c (d ∷ s) h = ground (arith, split_once-Free c s)

pub rsplit_once-Free : (c : ℕ) (s : Text) → Free c s → rsplit_once c s ≡ none
unfolding rsplit_once
rsplit_once-Free c [] h = refl
rsplit_once-Free c (d ∷ s) h = ground (arith, rsplit_once-Free c s)

pub rsplit_once-append : (c : ℕ) (s t : Text) → Free c t → rsplit_once c (s ++ c ∷ t) ≡ some (s, t)
unfolding rsplit_once
rsplit_once-append c [] t h = ground (arith, rsplit_once-Free c t h)
rsplit_once-append c (d ∷ s) t h = ground (arith, rsplit_once-append c s t h)

pub split_last-append : (s : Text) (c : ℕ) → split_last (s ++ c ∷ []) ≡ some (s, c)
unfolding split_last
split_last-append [] c = refl
split_last-append (d ∷ []) c = refl
split_last-append (d ∷ e ∷ s) c = ground (arith, split_last-append (e ∷ s) c)

ascii_space : ℕ → Bool
ascii_space c = leb 9 c && leb c 13 || c == 32

-- U+0085 and U+00A0.
space_pair : ℕ → ℕ → Bool
space_pair a b = a == 0xC2 && (b == 0x85 || b == 0xA0)

-- U+1680, U+2000 to U+200A, U+2028, U+2029, U+202F, U+205F and U+3000.
space_triple : ℕ → ℕ → ℕ → Bool
space_triple a b c =
    a == 0xE1 && b == 0x9A && c == 0x80
    || a == 0xE2 && b == 0x80 && (leb 0x80 c && leb c 0x8A || c == 0xA8 || c == 0xA9 || c == 0xAF)
    || a == 0xE2 && b == 0x81 && c == 0x9F
    || a == 0xE3 && b == 0x80 && c == 0x80

-- `s.trim().is_empty()`: nothing but the code points that Unicode calls White_Space, in UTF-8.
unfoldable pub is_blank : Text → Bool
unfolding ascii_space space_pair space_triple
is_blank [] = true
is_blank (a ∷ []) = ascii_space a
is_blank (a ∷ b ∷ []) = space_pair a b || ascii_space a && ascii_space b
is_blank (a ∷ b ∷ c ∷ s) = elim (ascii_space a) [
  | true ↦ is_blank (b ∷ c ∷ s)
  | false ↦ elim (space_pair a b) [
    | true ↦ is_blank (c ∷ s)
    | false ↦ elim (space_triple a b c) [ true ↦ is_blank s | false ↦ false ]
  ]
]

trim_start : Text → Text
unfolding ascii_space space_pair space_triple
trim_start [] = []
trim_start (a ∷ []) = if ascii_space a then [] else a ∷ []
trim_start (a ∷ b ∷ []) = elim (ascii_space a) [
  | true ↦ trim_start (b ∷ [])
  | false ↦ if space_pair a b then [] else a ∷ b ∷ []
]
trim_start (a ∷ b ∷ c ∷ s) = elim (ascii_space a) [
  | true ↦ trim_start (b ∷ c ∷ s)
  | false ↦ elim (space_pair a b) [
    | true ↦ trim_start (c ∷ s)
    | false ↦ elim (space_triple a b c) [ true ↦ trim_start s | false ↦ a ∷ b ∷ c ∷ s ]
  ]
]

-- No byte inside a character begins a white space, so the blank end is cut at a character.
trim_end : Text → Text
unfolding is_blank
trim_end [] = []
trim_end (a ∷ s) = elim (is_blank (a ∷ s)) [ true ↦ [] | false ↦ a ∷ trim_end s ]

-- `s.trim()`.
unfoldable pub trim : Text → Text
unfolding trim_start trim_end
trim s = trim_end (trim_start s)
