-- ===== src/Secrets.antt =====
-- src/secrets.rs: the credential broker. `str::to_uppercase`, whose table is Unicode's, is a parameter.
pub mod Used
pub mod Fuel
use trunnion.Prelude.{
  ℕ, zero, suc, ◌==◌, ◌||◌, Bool, true, false, not, length, Text, codes, str_eq, strip_prefix, any,
  map, Option, none, some, List, [], ◌∷◌, ◌++◌, if◌then◌else◌,
}
use trunnion.Fault.{
  Result, ok, err, out_of_fuel, handle_unterminated, handle_not_granted, handle_without_value,
}

pub record Substitution : Type 0 where
  pub command : Text
  pub env : List (Text × Text)
  pub handles_used : List Text

abbrev pub handle_open : Text
handle_open = codes "{{handle:"

abbrev pub handle_close : Text
handle_close = codes "}}"

abbrev before_more : ℕ → Option (Text × Text) → Option (Text × Text)
before_more c none = none
before_more c (some (before, after)) = some (c ∷ before, after)

-- `s.find(p)`, with what stands before the first `p` and what after it; `p` is not empty.
unfoldable pub cut_at : Text → Text → Option (Text × Text)
unfolding strip_prefix
cut_at p [] = none
cut_at p (c ∷ s) = elim (strip_prefix p (c ∷ s)) [
  | some after ↦ some ([], after)
  | none ↦ before_more c (cut_at p s)
]

-- `BTreeMap::get`.
unfoldable pub value_of : List (Text × Text) → Text → Option Text
unfolding str_eq
value_of [] name = none
value_of ((k, v) ∷ values) name = if str_eq k name then some v else value_of values name

abbrev pub contains : List Text → Text → Bool
contains names name = any (λ n. str_eq n name) names

underscored : Text → Text
underscored = map (λ c. if c == b'-' || c == b'.' then b'_' else c)

module _ (upper : Text → Text) where
  unfoldable pub variable : Text → Text
  unfolding underscored
  variable name = codes "TRUNNION_HANDLE_" ++ underscored (upper name)

  abbrev pub note_name : Text → List Text → List Text
  note_name name used = if contains used name then used else used ++ name ∷ []

  note_value : Text → Text → List Text → List (Text × Text) → List (Text × Text)
  unfolding variable str_eq
  note_value name value used env =
      if contains used name then env else env ++ (variable name, value) ∷ []

  reference : Text → Text
  unfolding variable
  reference name = codes "\"$" ++ (variable name ++ codes "\"")

  -- What the loop has built so far.
  unfoldable pub take_handle : Text → Text → Text → Substitution → Substitution
  unfolding note_value reference str_eq
  take_handle before name value s = record {
    command = s.command ++ (before ++ reference name);
    env = note_value name value s.handles_used s.env;
    handles_used = note_name name s.handles_used;
  }

  -- The loop, on fuel: a round takes the handle's opening off the rest. Fuel that runs out is a result of
  -- its own (Secrets/Fuel: it does not).
  unfoldable pub substitute_on :
      ℕ → List (Text × Text) → Text → List Text → Text → Substitution → Result Substitution
  unfolding cut_at value_of take_handle str_eq
  substitute_on zero values command granted rest s = err out_of_fuel
  substitute_on (suc fuel) values command granted rest s = elim (cut_at handle_open rest) [
    | none ↦ ok (record s { command = s.command ++ rest })
    | some (before, after) ↦ elim (cut_at handle_close after) [
      | none ↦ err (handle_unterminated command)
      | some (name, next) ↦ elim (contains granted name) [
        | false ↦ err (handle_not_granted name)
        | true ↦ elim (value_of values name) [
          | none ↦ err (handle_without_value name)
          | some value ↦
              substitute_on fuel values command granted next (take_handle before name value s)
        ]
      ]
    ]
  ]

  abbrev pub blank : Substitution
  blank = record { command = []; env = []; handles_used = [] }

  unfoldable pub substitute : List (Text × Text) → Text → List Text → Result Substitution
  unfolding substitute_on
  substitute values command granted =
      substitute_on (suc (length command)) values command granted command blank

  unfoldable pub handles_on : ℕ → Text → List Text → List Text
  unfolding cut_at str_eq
  handles_on zero rest found = found
  handles_on (suc fuel) rest found = elim (cut_at handle_open rest) [
    | none ↦ found
    | some (before, after) ↦ elim (cut_at handle_close after) [
      | none ↦ found
      | some (name, next) ↦ handles_on fuel next (note_name name found)
    ]
  ]

  unfoldable pub handles_in : Text → List Text
  unfolding handles_on
  handles_in command = handles_on (suc (length command)) command []
