-- ===== src/Json.antt =====
-- What the program asks of serde_json (`Value`), serde_jcs, sha2 and hex, which the repository does
-- not hold: operations that the models take as parameters, and the documented behaviour that some
-- theorems rely on.
use trunnion.Prelude.{
  ℕ, Bool, true, Text, str_eq, Option, none, some, List, [], ◌∷◌, ◌≡◌, ◌↔◌, if◌then◌else◌,
}

-- The value of a key; of equal keys the last one counts, as when they are inserted in turn.
abbrev pub lookup {ℓ} : {V : Type ℓ} → Text → List (Text × V) → Option V
lookup k [] = none
lookup k ((j, v) ∷ m) = elim (lookup k m) [
  | some w ↦ some w
  | none ↦ if str_eq j k then some v else none
]

-- `field v k` is `v["k"]`: `null` where `v` is no object or has no such key.
pub record Json : Type 1 where
  pub Value : Type 0
  pub null : Value
  pub str : Text → Value
  pub bool : Bool → Value
  pub number : ℕ → Value
  pub object : List (Text × Value) → Value
  pub array : List Value → Value
  pub field : Value → Text → Value
  pub pointer : Value → Text → Option Value
  pub as_str : Value → Option Text
  pub as_u64 : Value → Option ℕ
  pub as_array : Value → Option (List Value)
  pub as_object : Value → Option (List (Text × Value))
  pub equal : Value → Value → Bool
  pub from_str : Text → Option Value
  pub jcs : Value → Option (List ℕ)

abbrev pub or_null : (j : Json) → Option j.Value → j.Value
or_null j none = j.null
or_null j (some v) = v

-- serde reads the value back from its canonical bytes.
abbrev pub ReadsBack : (j : Json) → j.Value → Type 0
ReadsBack j v = (bytes : List ℕ) → j.jcs v ≡ some bytes → j.from_str bytes ≡ some v

pub record IsLawful (j : Json) : Type 0 where
  pub as_str-str : (t : Text) → j.as_str (j.str t) ≡ some t
  pub as_str-null : j.as_str j.null ≡ none
  pub equal_iff : (v w : j.Value) → (j.equal v w ≡ true) ↔ (v ≡ w)
  pub str-injective : (s t : Text) → j.str s ≡ j.str t → s ≡ t
  pub field-object :
      (k : Text) (fields : List (Text × j.Value))
      → j.field (j.object fields) k ≡ or_null j (lookup k fields)

-- SHA-256 and hexadecimal; `hex::decode` gives no bytes for a text that is not hexadecimal.
pub record Digest : Type 0 where
  pub sha256 : List ℕ → List ℕ
  pub hex : List ℕ → Text
  pub unhex : Text → Option (List ℕ)
