-- ===== src/Runlog/Recorded.antt =====
-- src/runlog.rs: what an append leaves on the ledger. The runs on the program's ledger as the log that
-- src/trust.rs writes on.
use trunnion.Prelude.{
  ℕ, ◌+◌, Text, Option, none, some, List, [], ◌∷◌, ◌++◌, ◌≡◌, refl, sym, ap, ◌∙◌, subst, ◌⊎◌, inl,
  inr,
}
use trunnion.Fault.{Result, ok, err, ◌>>=◌}
use trunnion.Json.{Json, Digest, IsLawful, ReadsBack}
use trunnion.Keys.{Keys, IsSound}
use trunnion.Event.{Envelope, NewEvent}
use trunnion.Merkle.Collision.{Collision}
use trunnion.Ledger.Producer
use trunnion.Ledger.Producer.{Disk, State, events_with_subjects, latest_head}
use trunnion.Ledger.Producer.History.{IsWhole, append-history}
use trunnion.Trust.Log.{Log, IsEvent, IsAppendOnly}
use trunnion.Runlog.{
  Book, Core, ActorSigner, attest, attested, new_event, event_id, booked, book_event, append,
}

module _ (j : Json) (d : Digest) (keys : Keys) (book : Book j) (clock : ℕ → Text) where
  -- What the append of a run does where it ends well.
  pub record IsAppended (kind : Text) (subject : j.Value) (core after : Core j d keys book clock)
      (id : Text) : Type 0 where
    pub event : NewEvent j.Value
    pub written : book.append event core.ledger ≡ (after.ledger, ok tt)
    pub kind_eq : event.kind ≡ kind
    pub subject_eq : event.subject ≡ subject
    pub numbered : event.seq ≡ core.next_seq
    pub named : id ≡ event_id j d keys book clock core.run_id core.next_seq
    pub moved : after.next_seq ≡ core.next_seq + 1
    pub same_run : after.run_id ≡ core.run_id

  pub append-IsAppended :
      (kind : Text) (subject : j.Value) (core after : Core j d keys book clock) (id : Text)
      → append j d keys book clock kind subject core ≡ (after, ok id)
      → IsAppended kind subject core after id
  unfolding append attested book_event booked new_event
  append-IsAppended kind subject core after id h = by_signer core.signer h
    where
      plain : NewEvent j.Value
      plain = new_event j d keys book clock core kind subject

      moved : Core j d keys book clock
      moved = record core { next_seq = core.next_seq + 1 }

      by_store :
          (attestation : Option j.Value) (r : book.Store × Result (Unit {0}))
          → book.append (record plain { attestation = attestation }) core.ledger ≡ r
          → booked j d keys book clock moved plain.id r ≡ (after, ok id)
          → IsAppended kind subject core after id
      by_store attestation (store, err fault) e h = cc
      by_store attestation (store, ok _) e h =
          let same : record moved { ledger = store } ≡ after = cc in
          let named : plain.id ≡ id = cc in
          rw (← same) (record {
            event = record plain { attestation = attestation };
            written = e;
            kind_eq = refl;
            subject_eq = refl;
            numbered = refl;
            named = sym named;
            moved = refl;
            same_run = refl;
          })

      by_attestation :
          (r : Result j.Value)
          → book_event j d keys book clock moved
              (r >>= (λ a. ok (record plain { attestation = some a })))
              plain.id
            ≡ (after, ok id)
          → IsAppended kind subject core after id
      by_attestation (err fault) h = cc
      by_attestation (ok a) h =
          by_store (some a) (book.append (record plain { attestation = some a }) core.ledger) refl h

      by_signer :
          (signer : Option (ActorSigner keys.Secret))
          → book_event j d keys book clock moved
              (attested j d keys book clock signer plain)
              plain.id
            ≡ (after, ok id)
          → IsAppended kind subject core after id
      by_signer none h = by_store none (book.append plain core.ledger) refl h
      by_signer (some signer) h = by_attestation (attest j d keys signer plain) h

  abbrev without_id :
      Core j d keys book clock × Result Text → Core j d keys book clock × Result (Unit {0})
  without_id (core, err fault) = (core, err fault)
  without_id (core, ok _) = (core, ok tt)

  -- `RunCore`, as `trust::Orchestrator` uses it: the append without the id, and `replayable_events`.
  abbrev pub run_log : Log j
  run_log = record {
    Store = Core j d keys book clock;
    append = λ kind subject core. without_id (append j d keys book clock kind subject core);
    history = λ core. book.history core.ledger;
  }

module _ (j : Json) (lawful : IsLawful j) (d : Digest) (keys : Keys) (sound : IsSound d keys)
    (disk : Disk) (clock : ℕ → Text) where
  abbrev without_envelope :
      State j d keys × Result (Envelope j.Value) → State j d keys × Result (Unit {0})
  without_envelope (ledger, err fault) = (ledger, err fault)
  without_envelope (ledger, ok _) = (ledger, ok tt)

  -- The ledger of the program, as the runs use it.
  abbrev pub ledger_book : Book j
  ledger_book = record {
    Store = State j d keys;
    append = λ ev ledger. without_envelope (Producer.append j d keys disk ev ledger);
    history = λ ledger. ok (events_with_subjects j d keys ledger);
    latest_head = latest_head j d keys;
  }

  abbrev pub WholeCore : Core j d keys ledger_book clock → Type 0
  WholeCore core = IsWhole j d keys sound core.ledger

  -- The runs on the program's ledger are the append-only log that the trust state is replayed from: on a
  -- ledger from which no payload that it names is gone, an append under a run, signed or not, that ends well
  -- adds one event to the history with the kind and the payload, if serde reads the payload back, and leaves
  -- no payload gone, or there is a collision of SHA-256.
  pub run_log-IsAppendOnly : IsAppendOnly j d (run_log j d keys ledger_book clock) WholeCore
  run_log-IsAppendOnly = record {
    appended = λ kind subject core after events whole reads h seen.
        by_result kind subject core after events
          (append j d keys ledger_book clock kind subject core) refl whole reads h seen;
  }
    where
      by_envelope :
          (ev : NewEvent j.Value) (ledger after : State j d keys) (events : List j.Value)
          (r : State j d keys × Result (Envelope j.Value))
          → Producer.append j d keys disk ev ledger ≡ r
          → IsWhole j d keys sound ledger
          → ReadsBack j ev.subject
          → without_envelope r ≡ (after, ok tt)
          → ◌≡◌ {A = Result (List j.Value)} (ok (events_with_subjects j d keys ledger)) (ok events)
          → (IsWhole j d keys sound after
              × ((event : j.Value) × IsEvent j ev.kind ev.subject event
                  × (◌≡◌ {A = Result (List j.Value)}
                      (ok (events_with_subjects j d keys after))
                      (ok (events ++ event ∷ [])))))
            ⊎ Collision d
      by_envelope ev ledger after events (ledger2, err fault) e whole reads h seen = cc
      by_envelope ev ledger after events (ledger2, ok given) e whole reads h seen =
          let same : ledger2 ≡ after = cc in
          let known : events_with_subjects j d keys ledger ≡ events = cc in
          elim (append-history j d keys sound lawful disk ev ledger after given whole reads
            (e ∙ ap (λ (l : State j d keys). (l, ok given)) same)) [
              | inr collision ↦ inr collision
              | inl (whole_after, (event, shown, grown)) ↦
                  inl
                    (whole_after, (event, shown, ap ok (grown ∙ ap (λ es. es ++ event ∷ []) known)))
            ]

      by_result :
          (kind : Text) (subject : j.Value) (core after : Core j d keys ledger_book clock)
          (events : List j.Value) (r : Core j d keys ledger_book clock × Result Text)
          → append j d keys ledger_book clock kind subject core ≡ r
          → WholeCore core
          → ReadsBack j subject
          → without_id j d keys ledger_book clock r ≡ (after, ok tt)
          → ledger_book.history core.ledger ≡ ok events
          → (WholeCore after
              × ((event : j.Value) × IsEvent j kind subject event
                  × (ledger_book.history after.ledger ≡ ok (events ++ event ∷ []))))
            ⊎ Collision d
      by_result kind subject core after events (core2, err fault) e whole reads h seen = cc
      by_result kind subject core after events (core2, ok id) e whole reads h seen =
          let same : core2 ≡ after = cc in
          let a =
            append-IsAppended j d keys ledger_book clock kind subject core after id
              (e ∙ ap (λ (c : Core j d keys ledger_book clock). (c, ok id)) same) in
          elim (by_envelope a.event core.ledger after.ledger events
            (Producer.append j d keys disk a.event core.ledger) refl whole
            (subst (ReadsBack j) (sym a.subject_eq) reads) a.written seen) [
              | inr collision ↦ inr collision
              | inl (whole_after, (event, shown, grown)) ↦ inl (
                whole_after,
                (
                  event,
                  record {
                    kind_eq = shown.kind_eq ∙ ap j.str a.kind_eq;
                    subject_eq = shown.subject_eq ∙ a.subject_eq;
                  },
                  grown,
                ),
              )
            ]
