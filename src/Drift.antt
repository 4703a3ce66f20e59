-- ===== src/Drift.antt =====
-- src/drift.rs: the comparison of what a profile declares with what its sources read, and `file_hash` of
-- src/gateway.rs. What the source says of a field is one constructor of `Reason` for the cause and the fix.
pub mod Observed
use trunnion.Prelude.{
  ℕ, Bool, true, false, ◌+◌, ◌&&◌, ◌||◌, map, Text, codes, str_eq, Option, none, some, List, [],
  ◌∷◌, ◌++◌, if◌then◌else◌,
}
use trunnion.Fault.{Fault, Result, ok, err}
use trunnion.Json.{Json, Digest}
use trunnion.Keys.{Keys}
use trunnion.Event.{Envelope, envelope_value}
use trunnion.Policy.Availability.{confinement, confines_filesystem_and_network}
use trunnion.Policy.Rules.{Policy}
use trunnion.Ledger.{SignedHead}
use trunnion.Ledger.Producer.{State, last_of, latest_head}

pub data Outcome : Type 0 where
  matched divergence unobservable : Outcome

pub data Reason : Type 0 where
  nothing_declared : (source : Text) → Reason
  instructions_unhashed settings_unhashed : Fault → Reason
  no_settings no_signed_head no_identity_source no_event own_allowlist no_namespace no_source :
      Reason
  unknown_source : (source : Text) → Reason
  values_differ : (field declared source observed : Text) → Reason

pub record FieldReport : Type 0 where
  pub field : Text
  pub observed_by : Text
  pub declared : Option Text
  pub observed : Option Text
  pub outcome : Outcome
  pub reason : Option Reason

-- The files are the outcomes of reading them; `backend` is what `sandbox::active_backend` finds.
pub record Running (V : Type 0) : Type 0 where
  pub instructions : Result (List ℕ)
  pub settings : Option (Result (List ℕ))
  pub backend : Text
  pub head_present : Bool
  pub last_event : Option V

pub data Reading : Type 0 where
  value : Text → Reading
  unreadable : Reason → Reading

abbrev pub readable_sources : List Text
readable_sources =
    codes "sandbox.active_backend"
    ∷ codes "gateway.instruction_hash"
    ∷ codes "hook.settings_hash"
    ∷ codes "ledger.head"
    ∷ codes "gateway.identity_source"
    ∷ codes "event.attestation.key_id"
    ∷ []

unfoldable pub compared_field : Text → Text
unfolding str_eq
compared_field source =
    if str_eq source (codes "event.attestation.key_id") then codes "key_id" else codes "declared"

unfoldable pub satisfies : Text → Text → Bool
unfolding str_eq confines_filesystem_and_network
satisfies declared observed =
    str_eq declared confinement && confines_filesystem_and_network observed

-- A value that is there, or the reason why there is none.
abbrev pub value_or : Option Text → Reason → Reading
value_or none reason = unreadable reason
value_or (some v) reason = value v

abbrev hashed : Result Text → (Fault → Reason) → Reading
hashed (err fault) reason = unreadable (reason fault)
hashed (ok hash) reason = value hash

abbrev or_text : Option Text → Option Text → Option Text
or_text none other = other
or_text (some t) other = some t

abbrev is_there : {A : Type 0} → Option A → Bool
is_there none = false
is_there (some _) = true

abbrev or_no_source : Option Text → Text
or_no_source none = codes "none"
or_no_source (some source) = source

abbrev walked_fields : {V : Type 0} → Option (List (Text × V)) → List (Text × V)
walked_fields none = []
walked_fields (some fields) = fields

unfoldable pub file_hash : Digest → Result (List ℕ) → Result Text
file_hash d (err fault) = err fault
file_hash d (ok bytes) = ok (codes "sha256:" ++ d.hex (d.sha256 bytes))

module _ (j : Json) (d : Digest) where
  -- `last_event_field`, on a path of two keys; a key that is not there has no text.
  last_event_field : Option j.Value → Text → Text → Option Text
  last_event_field none outer inner = none
  last_event_field (some event) outer inner = j.as_str (j.field (j.field event outer) inner)

  settings_reading : Option (Result (List ℕ)) → Reading
  unfolding file_hash
  settings_reading none = unreadable no_settings
  settings_reading (some bytes) = hashed (file_hash d bytes) settings_unhashed

  identity_reading : Running j.Value → Reading
  unfolding last_event_field
  identity_reading running =
      value_or (last_event_field running.last_event (codes "actor") (codes "identity_source"))
        (if is_there running.last_event then no_identity_source else no_event)

  -- An event without an attestation is a reading, "unsigned".
  attestation_reading : Running j.Value → Reading
  unfolding last_event_field
  attestation_reading running =
      value_or
        (or_text (last_event_field running.last_event (codes "attestation") (codes "key_id"))
          (if is_there running.last_event then some (codes "unsigned") else none))
        no_event

  unreadable_source : Text → Reason
  unfolding str_eq
  unreadable_source source =
      if str_eq source (codes "sandbox.egress_allow")
      then own_allowlist
      else if str_eq source (codes "netns.route_table")
      then no_namespace
      else if str_eq source (codes "none") || str_eq source []
      then no_source
      else unknown_source source

  unfoldable pub read : Text → Running j.Value → Reading
  unfolding file_hash settings_reading identity_reading attestation_reading unreadable_source str_eq
  read source running =
      if str_eq source (codes "sandbox.active_backend")
      then value running.backend
      else if str_eq source (codes "gateway.instruction_hash")
      then hashed (file_hash d running.instructions) instructions_unhashed
      else if str_eq source (codes "hook.settings_hash")
      then settings_reading running.settings
      else if str_eq source (codes "ledger.head")
      then (if running.head_present then value (codes "local_file") else unreadable no_signed_head)
      else if str_eq source (codes "gateway.identity_source")
      then identity_reading running
      else if str_eq source (codes "event.attestation.key_id")
      then attestation_reading running
      else unreadable (unreadable_source source)

  unfoldable pub source_of : j.Value → Text
  source_of spec = or_no_source (j.as_str (j.field spec (codes "observed_by")))

  unfoldable pub declared_by : j.Value → Option Text
  unfolding source_of compared_field
  declared_by spec =
      or_text (j.as_str (j.field spec (compared_field (source_of spec)))) (j.as_str spec)

  compared : Text → Text → Text → Text → Bool → FieldReport
  compared field source declared observed true = record {
    field = field;
    observed_by = source;
    declared = some declared;
    observed = some observed;
    outcome = matched;
    reason = none;
  }
  compared field source declared observed false = record {
    field = field;
    observed_by = source;
    declared = some declared;
    observed = some observed;
    outcome = divergence;
    reason = some (values_differ field declared source observed);
  }

  unfoldable pub report_reading : Text → Text → Text → Reading → FieldReport
  unfolding compared satisfies str_eq
  report_reading field source declared (unreadable reason) = record {
    field = field;
    observed_by = source;
    declared = some declared;
    observed = none;
    outcome = unobservable;
    reason = some reason;
  }
  report_reading field source declared (value observed) =
      compared field source declared observed
        (str_eq observed declared || satisfies declared observed)

  unfoldable pub report_declared : Text → Text → Option Text → Running j.Value → FieldReport
  unfolding report_reading read
  report_declared field source none running = record {
    field = field;
    observed_by = source;
    declared = none;
    observed = none;
    outcome = unobservable;
    reason = some (nothing_declared source);
  }
  report_declared field source (some declared) running =
      report_reading field source declared (read source running)

  unfoldable pub report : Text → j.Value → Running j.Value → FieldReport
  unfolding source_of declared_by report_declared
  report field spec running = report_declared field (source_of spec) (declared_by spec) running

  -- Every field of `profile_requirements`.
  unfoldable pub walk : Policy j.Value → Running j.Value → List FieldReport
  unfolding report
  walk policy running =
      map (λ (entry : Text × j.Value). report entry.0 entry.1 running)
        (walked_fields (j.as_object policy.profile_requirements))

abbrev is_outcome : Outcome → Outcome → Bool
is_outcome matched matched = true
is_outcome divergence divergence = true
is_outcome unobservable unobservable = true
is_outcome _ _ = false

unfoldable pub diverged_ids : List FieldReport → List Text
unfolding compared_field
diverged_ids [] = []
diverged_ids (r ∷ reports) = elim (is_outcome r.outcome divergence) [
  | true ↦ (r.field ++ (codes "." ++ compared_field r.observed_by)) ∷ diverged_ids reports
  | false ↦ diverged_ids reports
]

unfoldable pub count_of : Outcome → List FieldReport → ℕ
count_of o [] = 0
count_of o (r ∷ reports) = elim (is_outcome r.outcome o) [
  | true ↦ 1 + count_of o reports
  | false ↦ count_of o reports
]

unfoldable pub tally : List FieldReport → ℕ × ℕ × ℕ
unfolding count_of
tally reports =
    (count_of matched reports, count_of divergence reports, count_of unobservable reports)

-- `Running::observe`.
unfoldable pub observe :
    (j : Json) (d : Digest) (keys : Keys)
    → State j d keys
    → Result (List ℕ)
    → Option (Result (List ℕ))
    → Text
    → Running j.Value
unfolding latest_head envelope_value
observe j d keys ledger instructions settings backend = record {
  instructions = instructions;
  settings = settings;
  backend = backend;
  head_present = has_head (latest_head j d keys ledger);
  last_event = value_of_last (last_of ledger.envelopes);
}
  where
    has_head : Result SignedHead → Bool
    has_head (err fault) = false
    has_head (ok head) = true

    value_of_last : Option (Envelope j.Value) → Option j.Value
    value_of_last none = none
    value_of_last (some env) = some (envelope_value j d env)
