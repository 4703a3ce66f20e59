-- ===== src/Tests/Handles.antt =====
-- Two handles substituted in a command, a refused one, and uses of the theorems of src/secrets.rs there.
use trunnion.Prelude.{arith, Text, codes, List, [], ◌∷◌, ◌≡◌, ◌≢◌, refl}
use trunnion.Fault.{ok, err, out_of_fuel, handle_not_granted}
use trunnion.Secrets.{Substitution, substitute_on, blank, substitute}
use trunnion.Secrets.Fuel.{substitute-fuel}
use trunnion.Secrets.Used.{substitute-secret}

abbrev same_case : Text → Text
same_case t = t

abbrev key : Text
key = codes "KEY-1"

abbrev granted_keys : List Text
granted_keys = key ∷ []

abbrev twice : Text
twice = codes "a {{handle:KEY-1}} {{handle:KEY-1}}"

abbrev values_of : Text → List (Text × Text)
values_of value = (key, value) ∷ []

abbrev with_value : Text → Substitution
with_value value = record {
  command = codes "a \"$TRUNNION_HANDLE_KEY_1\" \"$TRUNNION_HANDLE_KEY_1\"";
  env = (codes "TRUNNION_HANDLE_KEY_1", value) ∷ [];
  handles_used = key ∷ [];
}

-- Tests.
first_value :
    substitute same_case (values_of (codes "v")) twice granted_keys ≡ ok (with_value (codes "v"))
unfolding substitute
first_value = refl

second_value :
    substitute same_case (values_of (codes "w")) twice granted_keys ≡ ok (with_value (codes "w"))
unfolding substitute
second_value = refl

refused_handle :
    substitute same_case (values_of (codes "v")) twice [] ≡ err (handle_not_granted key)
unfolding substitute
refused_handle = refl

substitute-secret_example :
    ((with_value (codes "v")).command ≡ (with_value (codes "w")).command)
    × ((with_value (codes "v")).handles_used ≡ (with_value (codes "w")).handles_used)
substitute-secret_example =
    substitute-secret same_case (values_of (codes "v")) (values_of (codes "w")) twice granted_keys
      (with_value (codes "v")) (with_value (codes "w")) first_value second_value

substitute-fuel_example :
    (substitute same_case (values_of (codes "v")) twice granted_keys ≢ err out_of_fuel)
    × (substitute_on same_case 99 (values_of (codes "v")) twice granted_keys twice (blank same_case)
        ≡ substitute same_case (values_of (codes "v")) twice granted_keys)
substitute-fuel_example =
    substitute-fuel same_case 99 (values_of (codes "v")) twice granted_keys (omega arith)
