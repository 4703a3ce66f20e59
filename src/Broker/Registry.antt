-- ===== src/Broker/Registry.antt =====
-- src/broker.rs: the registry of tools (`validate_tool_def`, `register`), which takes a closed definition only.
pub mod Closed
use trunnion.Prelude.{
  ℕ, ◌==◌, Bool, true, false, not, ◌||◌, any, Text, codes, str_eq, is_blank, Option, none, some,
  List, [], ◌∷◌, if◌then◌else◌,
}
use trunnion.Fault.{
  Fault, Result, done, ok, err, tool_undescribed, tool_not_object, tool_without_properties,
  tool_open, tool_undeclared, property_untyped, registry_rejected,
}
use trunnion.Trial.{Trial, ◌>>=◌, ◌>>◌, update, give}
use trunnion.Json.{Json, Digest}
use trunnion.Keys.{Keys}
use trunnion.Event.{subject_hash}
use trunnion.Ledger.Actors.{or_empty}
use trunnion.Policy.Rules.{Capability, Policy}
use trunnion.Broker.{Site, Run, record_event}

pub record ToolDef (V : Type 0) : Type 0 where
  pub name : Text
  pub description : Text
  pub input_schema : V

-- `p.split('(').next().unwrap_or(p)`.
unfoldable pub before_paren : Text → Text
before_paren [] = []
before_paren (c ∷ s) = elim (c == b'(') [ true ↦ [] | false ↦ c ∷ before_paren s ]

-- One capability has a pattern for the tool.
unfoldable pub is_declared : List Capability → Text → Bool
unfolding before_paren str_eq
is_declared capabilities name =
    any (λ c. any (λ p. str_eq (before_paren p) name) c.tools) capabilities

abbrev no_properties : {V : Type 0} → Option (List (Text × V)) → Bool
no_properties none = true
no_properties (some []) = true
no_properties (some (_ ∷ _)) = false

module _ (j : Json) where
  abbrev pub has_type : j.Value → Bool
  has_type spec = not (str_eq (or_empty (j.as_str (j.field spec (codes "type")))) [])

  -- The loop over the properties, up to the first without a type.
  unfoldable pub check_types : Text → Option (List (Text × j.Value)) → Result (Unit {0})
  unfolding str_eq
  check_types name none = done
  check_types name (some []) = done
  check_types name (some ((property, spec) ∷ rest)) = elim (has_type spec) [
    | true ↦ check_types name (some rest)
    | false ↦ err (property_untyped name property)
  ]

  unfoldable pub check_declared : Policy j.Value → Text → Result (Unit {0})
  unfolding is_declared
  check_declared policy name =
      if is_declared policy.capabilities name then done else err (tool_undeclared name)

  unfoldable pub check_closed : ToolDef j.Value → Result (Unit {0})
  unfolding check_types is_blank
  check_closed def =
      let schema = def.input_schema in
      if is_blank def.description
      then err (tool_undescribed def.name)
      else if not (j.equal (j.field schema (codes "type")) (j.str (codes "object")))
      then err (tool_not_object def.name)
      else if no_properties (j.as_object (j.field schema (codes "properties")))
      then err (tool_without_properties def.name)
      else if not (j.equal (j.field schema (codes "additionalProperties")) (j.bool false))
      then err (tool_open def.name)
      else check_types def.name (j.as_object (j.field schema (codes "properties")))

  unfoldable pub validate_tool_def : ToolDef j.Value → Policy j.Value → Result (Unit {0})
  unfolding check_closed check_declared
  validate_tool_def def policy = elim (check_closed def) [
    | err fault ↦ err fault
    | ok _ ↦ check_declared policy def.name
  ]

  -- The two definitions that the broker brings.
  typed : Text → Text → j.Value
  typed type description =
      j.object ((codes "type", j.str type) ∷ (codes "description", j.str description) ∷ [])

  builtin : Text → Text → Text → Text → ToolDef j.Value
  unfolding typed
  builtin name description property what = record {
    name = name;
    description = description;
    input_schema = j.object (
        (codes "type", j.str (codes "object"))
        ∷ (codes "properties", j.object ((property, typed (codes "string") what) ∷ []))
        ∷ (codes "required", j.array (j.str property ∷ []))
        ∷ (codes "additionalProperties", j.bool false)
        ∷ []);
  }

  unfoldable pub builtin_tools : List (ToolDef j.Value)
  unfolding builtin
  builtin_tools =
      builtin (codes "Read") (codes "Read one file from the working tree and return its contents.")
        (codes "path") (codes "path relative to the working tree")
      ∷ builtin (codes "Bash") (codes "Run one shell command in the working tree.")
          (codes "command") (codes "the command line to run")
      ∷ []

module _ (j : Json) (d : Digest) (keys : Keys) (site : Site j) where
  register_subject : Text → Text → Text → j.Value → j.Value
  register_subject tool schema_hash verdict reason = j.object (
      (codes "tool", j.str tool)
      ∷ (codes "schema_version", j.str schema_hash)
      ∷ (codes "schema_hash", j.str schema_hash)
      ∷ (codes "verdict", j.str verdict)
      ∷ (codes "reason", reason)
      ∷ [])

  unfoldable pub settle :
      ToolDef j.Value → Text → Result (Unit {0}) → Trial (Run j d keys site) (Unit {0})
  unfolding register_subject record_event
  settle def schema_hash (ok _) = do
    _ ←
        record_event j d keys site (codes "tool.register")
          (register_subject def.name schema_hash (codes "registered") j.null)
    update (λ (run : Run j d keys site). record run {
      registered = (def.name, schema_hash) ∷ run.registered;
    })
  settle def schema_hash (err fault) = do
    _ ←
        record_event j d keys site (codes "tool.register")
          (register_subject def.name schema_hash (codes "rejected") (j.str (site.fault_text fault)))
    give (err (registry_rejected def.name fault))

  -- `BrokerRun::register`: one event, accepted or not.
  unfoldable pub register : ToolDef j.Value → Trial (Run j d keys site) (Unit {0})
  unfolding validate_tool_def settle subject_hash
  register def = do
    schema_hash ← give (subject_hash j d def.input_schema)
    λ run. settle def schema_hash (validate_tool_def j def run.policy) run

  unfoldable pub register_all : List (ToolDef j.Value) → Trial (Run j d keys site) (Unit {0})
  unfolding register
  register_all [] = give done
  register_all (def ∷ defs) = register def >> register_all defs

  unfoldable pub register_builtins : Trial (Run j d keys site) (Unit {0})
  unfolding register_all builtin_tools
  register_builtins = register_all (builtin_tools j)
