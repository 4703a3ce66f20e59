-- ===== src/Event.antt =====
-- src/event.rs: the envelope, its canonical bytes, and the hash that names a payload.
use trunnion.Prelude.{ℕ, Text, codes, Option, none, some, List, [], ◌∷◌, ◌++◌, map}
use trunnion.Fault.{Result, ok, err, not_canonical, ◌>>=◌}
use trunnion.Json.{Json, Digest, or_null}

pub record Envelope (V : Type 0) : Type 0 where
  pub v : ℕ
  pub id : Text
  pub run_id : Text
  pub parent_id : Option Text
  pub seq : ℕ
  pub ts : Text
  pub kind : Text
  pub actor : V
  pub authority : V
  pub subject_hash : Text
  pub redacted : List Text
  pub prev_hash : Option Text
  pub attestation : Option V

pub record NewEvent (V : Type 0) : Type 0 where
  pub id : Text
  pub run_id : Text
  pub parent_id : Option Text
  pub seq : ℕ
  pub ts : Text
  pub kind : Text
  pub actor : V
  pub authority : V
  pub subject : V
  pub redacted : List Text
  pub attestation : Option V

module _ (j : Json) (d : Digest) where
  unfoldable pub jcs_bytes : j.Value → Result (List ℕ)
  jcs_bytes value = elim (j.jcs value) [ none ↦ err not_canonical | some bytes ↦ ok bytes ]

  unfoldable pub subject_hash : j.Value → Result Text
  unfolding jcs_bytes
  subject_hash subject = do
    bytes ← jcs_bytes subject
    ok (codes "sha256:" ++ d.hex (d.sha256 bytes))

  abbrev pub text_or_null : Option Text → j.Value
  text_or_null none = j.null
  text_or_null (some t) = j.str t

  -- The envelope as serde writes it.
  abbrev pub envelope_fields : Envelope j.Value → List (Text × j.Value)
  envelope_fields env =
      (codes "v", j.number env.v)
      ∷ (codes "id", j.str env.id)
      ∷ (codes "run_id", j.str env.run_id)
      ∷ (codes "parent_id", text_or_null env.parent_id)
      ∷ (codes "seq", j.number env.seq)
      ∷ (codes "ts", j.str env.ts)
      ∷ (codes "kind", j.str env.kind)
      ∷ (codes "actor", env.actor)
      ∷ (codes "authority", env.authority)
      ∷ (codes "subject_hash", j.str env.subject_hash)
      ∷ (codes "redacted", j.array (map j.str env.redacted))
      ∷ (codes "prev_hash", text_or_null env.prev_hash)
      ∷ (codes "attestation", or_null j env.attestation)
      ∷ []

  unfoldable pub envelope_value : Envelope j.Value → j.Value
  envelope_value env = j.object (envelope_fields env)

  -- What an actor signs: the envelope without `v`, `parent_id`, `prev_hash` and the attestation.
  attested_value : Envelope j.Value → j.Value
  attested_value env = j.object (
      (codes "id", j.str env.id)
      ∷ (codes "run_id", j.str env.run_id)
      ∷ (codes "seq", j.number env.seq)
      ∷ (codes "ts", j.str env.ts)
      ∷ (codes "kind", j.str env.kind)
      ∷ (codes "actor", env.actor)
      ∷ (codes "authority", env.authority)
      ∷ (codes "subject_hash", j.str env.subject_hash)
      ∷ (codes "redacted", j.array (map j.str env.redacted))
      ∷ [])

  unfoldable pub attestation_bytes : Envelope j.Value → Result (List ℕ)
  unfolding jcs_bytes attested_value
  attestation_bytes env = jcs_bytes (attested_value env)

  unfoldable pub canonical_bytes : Envelope j.Value → Result (List ℕ)
  unfolding jcs_bytes envelope_value
  canonical_bytes env = jcs_bytes (envelope_value env)
