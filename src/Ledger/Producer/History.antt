-- ===== src/Ledger/Producer/History.antt =====
-- src/ledger.rs: what an append adds to the history of the events with their payloads.
use trunnion.Prelude.{
  ℕ, true, false, Text, codes, str_eq, str_eq_iff, str_eq_refl, strip_prefix-append, Bool,
  Bool-cases, Option, none, some, List, [], ◌∷◌, ◌++◌, map, ◌≡◌, refl, sym, ◌∙◌, ap, subst, ◌⊎◌,
  inl, inr, All, All-append, Option-cases,
}
use trunnion.Fault.{Result, ok, err, not_a_subject_hash}
use trunnion.Json.{Json, Digest, or_null, ReadsBack, IsLawful}
use trunnion.Keys.{Keys, IsSound}
use trunnion.Event.{Envelope, NewEvent, envelope_fields, jcs_bytes, subject_hash}
use trunnion.Merkle.Collision.{Collision}
use trunnion.Trust.Log.{IsEvent}
use trunnion.Ledger.{or_fault}
use trunnion.Ledger.Producer.{
  Disk, State, payload_name, append, envelope_of, file_named, retained, shown, events_with_subjects,
}
use trunnion.Ledger.Producer.Appended.{append-Appended}

module _ (j : Json) (d : Digest) (keys : Keys) (sound : IsSound d keys) where
  -- A file of payloads holds the bytes that this hash names.
  record IsStored (files : List (Text × List ℕ)) (s_hash : Text) : Type 0 where
    bytes : List ℕ
    hashed : s_hash ≡ codes "sha256:" ++ d.hex (d.sha256 bytes)
    stored : file_named j d keys (d.hex (d.sha256 bytes)) files ≡ some bytes

  -- No payload that an envelope names is gone or altered.
  pub IsWhole : State j d keys → Type 0
  IsWhole ledger = All (λ e. IsStored ledger.payloads e.subject_hash) ledger.envelopes

  hash_of :
      (v : j.Value) (s_hash : Text) (bytes : List ℕ)
      → subject_hash j d v ≡ ok s_hash
      → jcs_bytes j d v ≡ ok bytes
      → s_hash ≡ codes "sha256:" ++ d.hex (d.sha256 bytes)
  unfolding subject_hash
  hash_of v s_hash bytes h e =
      let same : ok (codes "sha256:" ++ d.hex (d.sha256 bytes)) ≡ ok s_hash =
        rw (e, subject_hash) at h in
      cc

  payload_name-sha256 : (name : Text) → payload_name j d keys (codes "sha256:" ++ name) ≡ ok name
  unfolding payload_name
  payload_name-sha256 name =
      ap (λ o. or_fault o (not_a_subject_hash (codes "sha256:" ++ name)))
        (strip_prefix-append (codes "sha256:") name)

  retained_of :
      (files : List (Text × List ℕ)) (name : Text) (bytes : List ℕ)
      → file_named j d keys name files ≡ some bytes
      → retained j d keys files (codes "sha256:" ++ name) ≡ or_null j (j.from_str bytes)
  unfolding retained
  retained_of files name bytes e =
      ap
        (λ (r : Result Text). elim r [
          | err _ ↦ j.null
          | ok n ↦ elim (file_named j d keys n files) [
            | none ↦ j.null
            | some found ↦ or_null j (j.from_str found)
          ]
        ])
        (payload_name-sha256 name)
      ∙ ap
          (λ (o : Option (List ℕ)). elim o [
            | none ↦ j.null
            | some found ↦ or_null j (j.from_str found)
          ])
          e

  hex-inj : (a b : List ℕ) → d.hex a ≡ d.hex b → a ≡ b
  hex-inj a b e =
      let same : some a ≡ some b = sym (sound.unhex-hex a) ∙ ap d.unhex e ∙ sound.unhex-hex b in cc

  -- A file that is written leaves the bytes of the others, or there is a collision.
  file_named-kept :
      (files : List (Text × List ℕ)) (bytes payload : List ℕ)
      → file_named j d keys (d.hex (d.sha256 bytes)) files ≡ some bytes
      → (file_named j d keys (d.hex (d.sha256 bytes)) ((d.hex (d.sha256 payload), payload) ∷ files)
          ≡ some bytes)
        ⊎ Collision d
  unfolding file_named
  file_named-kept files bytes payload e =
      elim (Bool-cases (str_eq (d.hex (d.sha256 payload)) (d.hex (d.sha256 bytes)))) [
        | inr other ↦ inl (rw (other, file_named) e)
        | inl same ↦ elim (Bool-cases (str_eq payload bytes)) [
          | inl equal ↦ inl (rw (same, file_named) (ap some ((str_eq_iff payload bytes).0 equal)))
          | inr differ ↦ inr (
            payload,
            bytes,
            (λ q. not_refl (ap (λ x. str_eq x bytes) q ∙ str_eq_refl bytes) differ),
            hex-inj _ _ ((str_eq_iff _ _).0 same),
          )
        ]
      ]
    where
      not_refl : {b : Bool} → b ≡ true → b ≡ false → ⊥
      not_refl h k = cc

  -- An envelope whose payload is stored shows what it showed before.
  IsStored-kept :
      (files : List (Text × List ℕ)) (payload : List ℕ) (env : Envelope j.Value)
      → IsStored files env.subject_hash
      → (IsStored ((d.hex (d.sha256 payload), payload) ∷ files) env.subject_hash
          × (shown j d keys ((d.hex (d.sha256 payload), payload) ∷ files) env
              ≡ shown j d keys files env))
        ⊎ Collision d
  unfolding shown
  IsStored-kept files payload env s = elim (file_named-kept files s.bytes payload s.stored) [
    | inr collision ↦ inr collision
    | inl kept ↦ inl (
      record { bytes = s.bytes; hashed = s.hashed; stored = kept },
      ap (λ v. j.object (envelope_fields j d env ++ (codes "_subject", v) ∷ []))
          (ap (retained j d keys ((d.hex (d.sha256 payload), payload) ∷ files)) s.hashed
            ∙ retained_of ((d.hex (d.sha256 payload), payload) ∷ files) _ s.bytes kept
            ∙ sym (ap (retained j d keys files) s.hashed ∙ retained_of files _ s.bytes s.stored)),
    )
  ]

  map-kept :
      (files : List (Text × List ℕ)) (payload : List ℕ) (envelopes : List (Envelope j.Value))
      → All (λ e. IsStored files e.subject_hash) envelopes
      → (All (λ e. IsStored ((d.hex (d.sha256 payload), payload) ∷ files) e.subject_hash) envelopes
          × (map (shown j d keys ((d.hex (d.sha256 payload), payload) ∷ files)) envelopes
              ≡ map (shown j d keys files) envelopes))
        ⊎ Collision d
  map-kept files payload [] h = inl (tt, refl)
  map-kept files payload (env ∷ envelopes) h =
      both (IsStored-kept files payload env h.0) (map-kept files payload envelopes h.1)
    where
      both :
          (IsStored ((d.hex (d.sha256 payload), payload) ∷ files) env.subject_hash
              × (shown j d keys ((d.hex (d.sha256 payload), payload) ∷ files) env
                  ≡ shown j d keys files env))
            ⊎ Collision d
          → (All
                (λ e. IsStored ((d.hex (d.sha256 payload), payload) ∷ files) e.subject_hash)
                envelopes
              × (map (shown j d keys ((d.hex (d.sha256 payload), payload) ∷ files)) envelopes
                  ≡ map (shown j d keys files) envelopes))
            ⊎ Collision d
          → (All
                (λ e. IsStored ((d.hex (d.sha256 payload), payload) ∷ files) e.subject_hash)
                (env ∷ envelopes)
              × (map
                    (shown j d keys ((d.hex (d.sha256 payload), payload) ∷ files))
                    (env ∷ envelopes)
                  ≡ map (shown j d keys files) (env ∷ envelopes)))
            ⊎ Collision d
      both (inr collision) r = inr collision
      both (inl one) (inr collision) = inr collision
      both (inl (s, e)) (inl (ss, es)) = inl ((s, ss), cc)

  map-snoc-shown :
      (files : List (Text × List ℕ)) (envelopes : List (Envelope j.Value)) (env : Envelope j.Value)
      → map (shown j d keys files) (envelopes ++ env ∷ [])
        ≡ map (shown j d keys files) envelopes ++ shown j d keys files env ∷ []
  map-snoc-shown files [] env = refl
  map-snoc-shown files (e ∷ envelopes) env =
      ap (λ es. shown j d keys files e ∷ es) (map-snoc-shown files envelopes env)

  module _ (lawful : IsLawful j) where
    shown-IsEvent :
        (files : List (Text × List ℕ)) (env : Envelope j.Value) (subject : j.Value)
        → retained j d keys files env.subject_hash ≡ subject
        → IsEvent j env.kind subject (shown j d keys files env)
    unfolding shown
    shown-IsEvent files env subject e = record {
      kind_eq = unfold str_eq in lawful.field-object (codes "kind") _;
      subject_eq = unfold str_eq in (lawful.field-object (codes "_subject") _ ∙ e);
    }

    -- On a ledger from which no payload that it names is gone, an append that ends well adds one event to
    -- the history, with its kind and its payload, if serde reads the payload back, and leaves no payload
    -- gone, or there is a collision of SHA-256.
    pub append-history :
        (disk : Disk) (ev : NewEvent j.Value) (ledger after : State j d keys)
        (given : Envelope j.Value)
        → IsWhole ledger
        → ReadsBack j ev.subject
        → append j d keys disk ev ledger ≡ (after, ok given)
        → (IsWhole after
            × ((event : j.Value) × IsEvent j ev.kind ev.subject event
                × (events_with_subjects j d keys after
                    ≡ events_with_subjects j d keys ledger ++ event ∷ [])))
          ⊎ Collision d
    unfolding events_with_subjects IsWhole envelope_of
    append-history disk ev ledger after given whole reads h =
        let a = append-Appended j d keys disk ev ledger after given h in
        let hash = hash_of ev.subject a.s_hash a.payload a.hashed a.stored in
        let named = same_name a.name a.s_hash a.payload a.named hash in
        elim (map-kept ledger.payloads a.payload ledger.envelopes whole) [
          | inr collision ↦ inr collision
          | inl (stored, same) ↦ inl (
              grown (envelope_of j d keys ledger ev a.s_hash) a.s_hash a.payload refl refl hash
                (jcs_of ev.subject a.payload a.stored) stored same
                (ap (λ (l : State j d keys). l.payloads) a.after_eq
                  ∙ ap (λ (n : Text). (n, a.payload) ∷ ledger.payloads) named)
                (ap (λ (l : State j d keys). l.envelopes) a.after_eq))
        ]
      where
        same_name :
            (name s_hash : Text) (payload : List ℕ)
            → payload_name j d keys s_hash ≡ ok name
            → s_hash ≡ codes "sha256:" ++ d.hex (d.sha256 payload)
            → name ≡ d.hex (d.sha256 payload)
        same_name name s_hash payload e hash =
            let read : ok name ≡ ok (d.hex (d.sha256 payload)) =
              sym e ∙ ap (payload_name j d keys) hash ∙ payload_name-sha256 _ in
            cc

        jcs_of : (v : j.Value) (bytes : List ℕ) → jcs_bytes j d v ≡ ok bytes → j.jcs v ≡ some bytes
        jcs_of v bytes e =
            unfold jcs_bytes in
            elim (Option-cases (j.jcs v)) [
              | inl missing ↦ absurd (cc (rw (missing, jcs_bytes) at e))
              | inr (b, found) ↦ let same : ok b ≡ ok bytes = rw (found, jcs_bytes) at e in cc
            ]

        newest :
            (bytes : List ℕ) (files : List (Text × List ℕ)) (name : Text)
            → file_named j d keys name ((name, bytes) ∷ files) ≡ some bytes
        newest bytes files name = unfold file_named in rw (str_eq_refl name) refl

        grown :
            (env : Envelope j.Value) (s_hash : Text) (payload : List ℕ)
            → env.kind ≡ ev.kind
            → env.subject_hash ≡ s_hash
            → s_hash ≡ codes "sha256:" ++ d.hex (d.sha256 payload)
            → j.jcs ev.subject ≡ some payload
            → All
                (λ e.
                  IsStored ((d.hex (d.sha256 payload), payload) ∷ ledger.payloads) e.subject_hash)
                ledger.envelopes
            → map
                (shown j d keys ((d.hex (d.sha256 payload), payload) ∷ ledger.payloads))
                ledger.envelopes
              ≡ map (shown j d keys ledger.payloads) ledger.envelopes
            → after.payloads ≡ (d.hex (d.sha256 payload), payload) ∷ ledger.payloads
            → after.envelopes ≡ ledger.envelopes ++ env ∷ []
            → All (λ e. IsStored after.payloads e.subject_hash) after.envelopes
              × ((event : j.Value) × IsEvent j ev.kind ev.subject event
                  × (map (shown j d keys after.payloads) after.envelopes
                      ≡ map (shown j d keys ledger.payloads) ledger.envelopes ++ event ∷ []))
        grown env s_hash payload kind_eq hash_eq hash written stored same files_eq envelopes_eq =
            let files : List (Text × List ℕ) =
              (d.hex (d.sha256 payload), payload) ∷ ledger.payloads in
            let found = newest payload ledger.payloads (d.hex (d.sha256 payload)) in
            let shows : retained j d keys files env.subject_hash ≡ ev.subject =
              ap (retained j d keys files) (hash_eq ∙ hash)
              ∙ retained_of files _ payload found
              ∙ ap (or_null j) (reads payload written) in
            rw (files_eq, envelopes_eq)
              (
                All-append (λ e. IsStored files e.subject_hash) ledger.envelopes (env ∷ []) stored
                    (record { bytes = payload; hashed = hash_eq ∙ hash; stored = found }, tt),
                (
                  shown j d keys files env,
                  subst (λ k. IsEvent j k ev.subject (shown j d keys files env)) kind_eq
                      (shown-IsEvent files env ev.subject shows),
                  map-snoc-shown files ledger.envelopes env
                      ∙ ap (λ es. es ++ shown j d keys files env ∷ []) same,
                ),
              )
