-- ===== src/Ledger/Actors.antt =====
-- src/ledger.rs: `AttestationState` and `ActorKeys`, which judge the signature of an actor on an event;
-- src/skills.rs: `parse_vk` and `key_id_for`.
use trunnion.Prelude.{
  ℕ, Bool, any, find, map, take, Text, codes, str_eq, trim, Option, none, some, List, [], ◌∷◌, ◌++◌,
  if◌then◌else◌,
}
use trunnion.Fault.{Result, ok, err}
use trunnion.Json.{Json, Digest}
use trunnion.Keys.{Keys}
use trunnion.Event.{Envelope, attestation_bytes}
use trunnion.Ledger.{sized, public_from}

pub data AttestationState : Type 0 where
  verified unverified forged absent : AttestationState

-- `ActorKeys`: the keys by their ids, and the ids of those whose seed is published.
pub record ActorKeys (Public : Type 0) : Type 0 where
  pub registered : List (Text × Public)
  pub published : List Text

-- `unwrap_or("")`.
abbrev pub or_empty : Option Text → Text
or_empty none = []
or_empty (some t) = t

module _ (j : Json) (d : Digest) (keys : Keys) where
  unfoldable pub parse_vk : Text → Option keys.Public
  unfolding trim public_from
  parse_vk hex_str = public_from j d keys (sized 32 (d.unhex (trim hex_str)))

  unfoldable pub key_id_for : keys.Public → Text
  key_id_for vk = codes "ed25519:" ++ take 16 (d.hex (d.sha256 (keys.public_bytes vk)))

  abbrev pub keep_key : Option keys.Public → List (Text × keys.Public) → List (Text × keys.Public)
  keep_key none rest = rest
  keep_key (some vk) rest = (key_id_for vk, vk) ∷ rest

  -- The closure `ids`: a key that does not parse is dropped.
  unfoldable pub ids : List Text → List (Text × keys.Public)
  unfolding parse_vk key_id_for
  ids [] = []
  ids (hex_key ∷ rest) = keep_key (parse_vk hex_key) (ids rest)

  unfoldable pub parse_with_published : List Text → List Text → ActorKeys keys.Public
  unfolding ids
  parse_with_published hex_keys published = record {
    registered = ids hex_keys;
    published = map (λ p. p.0) (ids published);
  }

  -- `a["key_id"].as_str()`, or nothing where there is no attestation.
  abbrev pub key_id_of : Envelope j.Value → Text
  key_id_of env = elim env.attestation [
    | none ↦ []
    | some att ↦ or_empty (j.as_str (j.field att (codes "key_id")))
  ]

  unfoldable pub is_fixture : ActorKeys keys.Public → Envelope j.Value → Bool
  unfolding str_eq
  is_fixture actors env = any (λ id. str_eq id (key_id_of env)) actors.published

  unfoldable pub trust_of : ActorKeys keys.Public → Envelope j.Value → Text
  unfolding is_fixture
  trust_of actors env = if is_fixture actors env then codes "fixture" else codes "registered"

  sig_bytes : Option Text → Option (List ℕ)
  sig_bytes none = none
  sig_bytes (some value) = sized 64 (d.unhex value)

  judge : keys.Public → Option (List ℕ) → Result (List ℕ) → AttestationState
  judge vk none message = forged
  judge vk (some sig) (err fault) = forged
  judge vk (some sig) (ok message) = if keys.check vk message sig then verified else forged

  state_under : Envelope j.Value → j.Value → Option (Text × keys.Public) → AttestationState
  unfolding judge sig_bytes attestation_bytes
  state_under env att none = unverified
  state_under env att (some (id, vk)) =
      judge vk (sig_bytes (j.as_str (j.field att (codes "value")))) (attestation_bytes j d env)

  unfoldable pub state_of : ActorKeys keys.Public → Envelope j.Value → AttestationState
  unfolding state_under str_eq
  state_of actors env = elim env.attestation [
    | none ↦ absent
    | some att ↦ state_under env att (find (λ p. str_eq p.0 (key_id_of env)) actors.registered)
  ]
