-- ===== src/Runlog.antt =====
-- src/runlog.rs: `RunCore`, the run under which every event is appended, and `ActorSigner`, the key that a
-- profile declares. The ledger beneath is an interface; the clock gives the time of each event.
pub mod Declared
pub mod Recorded
pub mod Numbered
pub mod Traces
use trunnion.Prelude.{
  ℕ, ◌+◌, Bool, true, false, ◌&&◌, ◌||◌, not, any, Text, codes, str_eq, is_blank, trim, decimal,
  Option, none, some, List, [], ◌∷◌, ◌++◌, if◌then◌else◌,
}
use trunnion.Fault.{
  Result, ok, err, ◌>>=◌, attestation_algorithm, seed_source_missing, seed_unreadable,
  seed_malformed, key_id_differs, seed_published,
}
use trunnion.Json.{Json, Digest}
use trunnion.Keys.{Keys}
use trunnion.Event.{Envelope, NewEvent, subject_hash, attestation_bytes}
use trunnion.Ledger.{SignedHead, or_fault, sized}
use trunnion.Ledger.Actors.{or_empty, parse_vk, key_id_for}

-- What a run asks of its ledger.
pub record Book (j : Json) : Type 1 where
  pub Store : Type 0
  pub append : NewEvent j.Value → Store → Store × Result (Unit {0})
  pub history : Store → Result (List j.Value)
  pub latest_head : Store → Result SignedHead

pub record ActorSigner (Secret : Type 0) : Type 0 where
  pub key : Secret
  pub key_id : Text

-- The environment, the files beside the policy, and the registry of keys there, by the outcome of each.
pub record Surroundings : Type 0 where
  pub variable : Text → Option Text
  pub file : Text → Option Text
  pub published_seed_hexes : Option (List Text)

pub record RunCore (Store V Secret : Type 0) : Type 0 where
  pub ledger : Store
  pub run_id : Text
  pub next_seq : ℕ
  pub actor : V
  pub authority : V
  pub signer : Option (ActorSigner Secret)

abbrev pub or_none : Option Text → Text
or_none none = codes "none"
or_none (some t) = t

module _ (j : Json) (d : Digest) (keys : Keys) where
  abbrev vk_has_id : Text → Option keys.Public → Bool
  vk_has_id key_id none = false
  vk_has_id key_id (some vk) = str_eq (key_id_for j d keys vk) key_id

  -- A registry that is not there or does not load has no published seed.
  unfoldable pub seed_is_published : Option (List Text) → Text → Bool
  unfolding parse_vk key_id_for str_eq
  seed_is_published none key_id = false
  seed_is_published (some hexes) key_id =
      any (λ hex. vk_has_id key_id (parse_vk j d keys hex)) hexes

  -- `std::env::var(var).ok().filter(|v| !v.trim().is_empty())`
  unfoldable pub set_variable : Surroundings → Option Text → Option Text
  unfolding is_blank
  set_variable around none = none
  set_variable around (some name) = elim (around.variable name) [
    | none ↦ none
    | some value ↦ if is_blank value then none else some value
  ]

  seed_in_file : Surroundings → Option Text → Option Text → Result Text
  seed_in_file around variable none = err (seed_source_missing variable)
  seed_in_file around variable (some file) = or_fault (around.file file) (seed_unreadable file)

  unfoldable pub seed_source : Surroundings → j.Value → Result Text
  unfolding set_variable seed_in_file
  seed_source around block =
      elim (set_variable around (j.as_str (j.field block (codes "seed_env")))) [
        | some value ↦ ok value
        | none ↦
            seed_in_file around (j.as_str (j.field block (codes "seed_env")))
              (j.as_str (j.field block (codes "seed_file")))
      ]

  -- The checks on a key that the seed gives.
  unfoldable pub accept_key :
      Surroundings → Text → j.Value → keys.Secret → Result (Option (ActorSigner keys.Secret))
  unfolding seed_is_published key_id_for str_eq
  accept_key around profile block key =
      let key_id = key_id_for j d keys (keys.public_of key) in
      let claimed = or_empty (j.as_str (j.field block (codes "key_id"))) in
      if not (str_eq claimed key_id)
      then err (key_id_differs claimed key_id)
      else if not (str_eq profile (codes "laptop"))
          && seed_is_published around.published_seed_hexes key_id
      then err (seed_published profile key_id)
      else ok (some (record { key = key; key_id = key_id }))

  unfoldable pub load_key :
      Surroundings → Text → j.Value → Result (Option (ActorSigner keys.Secret))
  unfolding seed_source accept_key trim
  load_key around profile block = do
    seed_hex ← seed_source around block
    seed ← or_fault (sized 32 (d.unhex (trim seed_hex))) seed_malformed
    accept_key around profile block (keys.secret_from_bytes seed)

  -- `ActorSigner::declared`.
  unfoldable pub declared :
      Surroundings → Text → j.Value → Result (Option (ActorSigner keys.Secret))
  unfolding load_key str_eq
  declared around profile requirements =
      let block = j.field requirements (codes "attestation") in
      let algorithm = or_none (j.as_str (j.field block (codes "declared"))) in
      if j.equal block j.null || str_eq algorithm (codes "none")
      then ok none
      else if not (str_eq algorithm (codes "ed25519"))
      then err (attestation_algorithm algorithm)
      else load_key around profile block

  -- The envelope whose bytes the actor signs.
  signed_form : NewEvent j.Value → Text → Envelope j.Value
  signed_form ev s_hash = record {
    v = 2;
    id = ev.id;
    run_id = ev.run_id;
    parent_id = ev.parent_id;
    seq = ev.seq;
    ts = ev.ts;
    kind = ev.kind;
    actor = ev.actor;
    authority = ev.authority;
    subject_hash = s_hash;
    redacted = ev.redacted;
    prev_hash = none;
    attestation = none;
  }

  unfoldable pub attest : ActorSigner keys.Secret → NewEvent j.Value → Result j.Value
  unfolding subject_hash attestation_bytes signed_form
  attest signer ev = do
    s_hash ← subject_hash j d ev.subject
    message ← attestation_bytes j d (signed_form ev s_hash)
    ok (
        j.object (
          (codes "alg", j.str (codes "ed25519"))
          ∷ (codes "key_id", j.str signer.key_id)
          ∷ (codes "value", j.str (d.hex (keys.sign signer.key message)))
          ∷ []))

  abbrev or_no_fields : Option (List (Text × j.Value)) → List (Text × j.Value)
  or_no_fields none = []
  or_no_fields (some fields) = fields

  module _ (book : Book j) (clock : ℕ → Text) where
    abbrev pub Core : Type 0
    Core = RunCore book.Store j.Value keys.Secret

    -- `RunCore::open`, with the id that the time gives.
    abbrev pub open_core : Text → book.Store → j.Value → j.Value → Core
    open_core run_id store actor authority = record {
      ledger = store;
      run_id = run_id;
      next_seq = 0;
      actor = actor;
      authority = authority;
      signer = none;
    }

    unfoldable pub event_id : Text → ℕ → Text
    unfolding decimal
    event_id run_id seq = run_id ++ (codes "-" ++ decimal seq)

    unfoldable pub new_event : Core → Text → j.Value → NewEvent j.Value
    unfolding event_id
    new_event core kind subject = record {
      id = event_id core.run_id core.next_seq;
      run_id = core.run_id;
      parent_id = none;
      seq = core.next_seq;
      ts = clock core.next_seq;
      kind = kind;
      actor = core.actor;
      authority = core.authority;
      subject = subject;
      redacted = [];
      attestation = none;
    }

    unfoldable pub attested :
        Option (ActorSigner keys.Secret) → NewEvent j.Value → Result (NewEvent j.Value)
    unfolding attest
    attested none ev = ok ev
    attested (some signer) ev = do
      attestation ← attest signer ev
      ok (record ev { attestation = some attestation })

    unfoldable pub booked : Core → Text → book.Store × Result (Unit {0}) → Core × Result Text
    booked core id (store, err fault) = (record core { ledger = store }, err fault)
    booked core id (store, ok _) = (record core { ledger = store }, ok id)

    unfoldable pub book_event : Core → Result (NewEvent j.Value) → Text → Core × Result Text
    unfolding booked
    book_event core (err fault) id = (core, err fault)
    book_event core (ok ev) id = booked core id (book.append ev core.ledger)

    -- `RunCore::append`: the number is taken also where the append fails.
    unfoldable pub append : Text → j.Value → Core → Core × Result Text
    unfolding new_event attested book_event
    append kind subject core =
        let ev = new_event core kind subject in
        book_event (record core { next_seq = core.next_seq + 1 }) (attested core.signer ev) ev.id

    head_value : SignedHead → j.Value
    head_value head = j.object (
        (codes "size", j.number head.size)
        ∷ (codes "root_hash", j.str head.root_hash)
        ∷ (codes "ts", j.str head.ts)
        ∷ (codes "key_id", j.str head.key_id)
        ∷ (codes "sig", j.str head.sig)
        ∷ [])

    -- A key of the extra subject takes the place of one of the three.
    seal_subject : Core → j.Value → Text → SignedHead → j.Value
    seal_subject core subject_extra outcome head = j.object (
        ((codes "outcome", j.str outcome)
          ∷ (codes "event_count", j.number core.next_seq)
          ∷ (codes "head_at_seal", head_value head)
          ∷ [])
        ++ or_no_fields (j.as_object subject_extra))

    sealed : Core × Result Text → Core × Result SignedHead
    sealed (core, err fault) = (core, err fault)
    sealed (core, ok id) = (core, book.latest_head core.ledger)

    seal_under : Core → j.Value → Text → Result SignedHead → Core × Result SignedHead
    unfolding append seal_subject head_value sealed
    seal_under core subject_extra outcome (err fault) = (core, err fault)
    seal_under core subject_extra outcome (ok head) =
        sealed (append (codes "run.seal") (seal_subject core subject_extra outcome head) core)

    -- `RunCore::seal`.
    unfoldable pub seal : j.Value → Text → Core → Core × Result SignedHead
    unfolding seal_under
    seal subject_extra outcome core =
        seal_under core subject_extra outcome (book.latest_head core.ledger)
