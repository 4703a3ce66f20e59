-- ===== src/Broker/Registry/Closed.antt =====
-- src/broker.rs: what a tool is that the registry takes.
use trunnion.Prelude.{
  Bool, true, false, not, Bool-cases, All, Text, codes, is_blank, Option, none, some, List, [], ◌∷◌,
  ◌≡◌, ◌≢◌, refl, inl, inr, if◌then◌else◌,
}
use trunnion.Fault.{Fault, Result, ok, err}
use trunnion.Json.{Json, Digest, IsLawful}
use trunnion.Keys.{Keys}
use trunnion.Event.{subject_hash}
use trunnion.Policy.Rules.{Policy}
use trunnion.Broker.{Site, Run}
use trunnion.Broker.Steps.{give-step, record-step}
use trunnion.Broker.Registry.{
  ToolDef, has_type, no_properties, check_types, check_closed, check_declared, is_declared,
  validate_tool_def, settle, register,
}

module _ (j : Json) (lawful : IsLawful j) where
  -- A described tool whose arguments are named, typed and all there is, and which a capability declares.
  pub record IsClosed (policy : Policy j.Value) (def : ToolDef j.Value) : Type 0 where
    pub described : is_blank def.description ≡ false
    pub object : j.field def.input_schema (codes "type") ≡ j.str (codes "object")
    pub properties : List (Text × j.Value)
    pub listed : j.as_object (j.field def.input_schema (codes "properties")) ≡ some properties
    pub some_property : properties ≢ []
    pub typed : All (λ (p : Text × j.Value). has_type j p.1 ≡ true) properties
    pub shut : j.field def.input_schema (codes "additionalProperties") ≡ j.bool false
    pub declared : is_declared policy.capabilities def.name ≡ true

  check_types-All :
      (name : Text) (properties : List (Text × j.Value))
      → check_types j name (some properties) ≡ ok tt
      → All (λ (p : Text × j.Value). has_type j p.1 ≡ true) properties
  unfolding check_types
  check_types-All name [] h = tt
  check_types-All name ((property, spec) ∷ rest) h = elim (Bool-cases (has_type j spec)) [
    | inl typed ↦ (typed, check_types-All name rest (rw (typed, check_types) at h))
    | inr untyped ↦ absurd (cc (rw (untyped, check_types) at h))
  ]

  -- An if whose first branch is a fault ends well only by the other.
  not_first :
      (test : Bool) (fault : Fault) (rest : Result (Unit {0}))
      → (if test then err fault else rest) ≡ ok tt
      → (test ≡ false) × (rest ≡ ok tt)
  not_first true fault rest h = cc
  not_first false fault rest h = (refl, h)

  not-eq_false : {b : Bool} → not b ≡ false → b ≡ true
  not-eq_false {b = true} h = refl
  not-eq_false {b = false} h = cc

  by_properties :
      (policy : Policy j.Value) (def : ToolDef j.Value) (o : Option (List (Text × j.Value)))
      → is_blank def.description ≡ false
      → j.field def.input_schema (codes "type") ≡ j.str (codes "object")
      → j.as_object (j.field def.input_schema (codes "properties")) ≡ o
      → no_properties o ≡ false
      → j.field def.input_schema (codes "additionalProperties") ≡ j.bool false
      → check_types j def.name o ≡ ok tt
      → is_declared policy.capabilities def.name ≡ true
      → IsClosed policy def
  by_properties policy def none described object listed filled shut types declared = cc
  by_properties policy def (some []) described object listed filled shut types declared = cc
  by_properties policy def (some (p ∷ ps)) described object listed filled shut types declared =
      record {
        described = described;
        object = object;
        properties = p ∷ ps;
        listed = listed;
        some_property = λ e. cc;
        typed = check_types-All def.name (p ∷ ps) types;
        shut = shut;
        declared = declared;
      }

  check_declared-eq :
      (policy : Policy j.Value) (name : Text)
      → check_declared j policy name ≡ ok tt
      → is_declared policy.capabilities name ≡ true
  unfolding check_declared
  check_declared-eq policy name h = elim (Bool-cases (is_declared policy.capabilities name)) [
    | inl listed ↦ listed
    | inr missing ↦ absurd (cc (rw (missing, check_declared) at h))
  ]

  pub validate_tool_def-IsClosed :
      (def : ToolDef j.Value) (policy : Policy j.Value)
      → validate_tool_def j def policy ≡ ok tt
      → IsClosed policy def
  unfolding validate_tool_def check_closed check_declared
  validate_tool_def-IsClosed def policy h = by_check (check_closed j def) refl h
    where
      by_check :
          (r : Result (Unit {0}))
          → check_closed j def ≡ r
          → ◌≡◌ {A = Result (Unit {0})}
              (elim r [ err f ↦ err f | ok _ ↦ check_declared j policy def.name ])
              (ok tt)
          → IsClosed policy def
      by_check (err fault) e h = cc
      by_check (ok _) e h =
          let (described, h1) = not_first _ _ _ e in
          let (object, h2) = not_first _ _ _ h1 in
          let (filled, h3) = not_first _ _ _ h2 in
          let (shut, types) = not_first _ _ _ h3 in
          by_properties policy def _ described ((lawful.equal_iff _ _).0 (not-eq_false object)) refl
            filled ((lawful.equal_iff _ _).0 (not-eq_false shut)) types
            (check_declared-eq policy def.name h)

module _ (j : Json) (lawful : IsLawful j) (d : Digest) (keys : Keys) (site : Site j) where
  -- An entry of the registry, from a closed definition with the schema's hash.
  pub record IsEntry (policy : Policy j.Value) (entry : Text × Text) : Type 0 where
    pub def : ToolDef j.Value
    pub named : def.name ≡ entry.0
    pub hashed : subject_hash j d def.input_schema ≡ ok entry.1
    pub closed : IsClosed j lawful policy def

  abbrev pub AllClosed : Run j d keys site → Type 0
  AllClosed run = All (IsEntry run.policy) run.registered

  abbrev Kept : {A : Type 0} → Run j d keys site × Result A → Type 0
  Kept (after, result) = AllClosed after

  settle-AllClosed :
      (def : ToolDef j.Value) (schema_hash : Text) (verdict : Result (Unit {0}))
      (run : Run j d keys site)
      → subject_hash j d def.input_schema ≡ ok schema_hash
      → validate_tool_def j def run.policy ≡ verdict
      → AllClosed run
      → Kept (settle j d keys site def schema_hash verdict run)
  unfolding settle
  settle-AllClosed def schema_hash (err fault) run hashed e all =
      record-step j d keys site Kept (codes "tool.register") _ _ run (λ core f h. all)
        (λ core id h. all)
  settle-AllClosed def schema_hash (ok _) run hashed e all =
      record-step j d keys site Kept (codes "tool.register") _ _ run (λ core f h. all)
        (λ core id h. (
          record {
            def = def;
            named = refl;
            hashed = hashed;
            closed = validate_tool_def-IsClosed j lawful def run.policy e;
          },
          all,
        ))

  -- Whatever a registration ends with, every tool in the registry then has a closed definition that a
  -- capability of the policy declares, if every tool in it had one before.
  pub register-AllClosed :
      (def : ToolDef j.Value) (run : Run j d keys site)
      → AllClosed run
      → AllClosed (register j d keys site def run).0
  unfolding register
  register-AllClosed def run all =
      give-step Kept (subject_hash j d def.input_schema) _ run (λ fault e. all)
        (λ schema_hash e.
          settle-AllClosed def schema_hash (validate_tool_def j def run.policy) run e refl all)
