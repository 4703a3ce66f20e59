-- ===== src/Ledger/Producer/Appended.antt =====
-- src/ledger.rs: what an append that succeeds has done, all at once.
use trunnion.Prelude.{ℕ, length, Text, List, [], ◌∷◌, ◌++◌, ◌≡◌, sym, ◌∙◌, ap, subst}
use trunnion.Fault.{Result, ok}
use trunnion.Trial.{attempt, chain-eq-ok}
use trunnion.Json.{Json, Digest}
use trunnion.Keys.{Keys}
use trunnion.Event.{Envelope, NewEvent, jcs_bytes, subject_hash, canonical_bytes}
use trunnion.Merkle.{leaf_hash, root}
use trunnion.Ledger.{SignedHead}
use trunnion.Ledger.Producer.{
  Disk, State, sign_head, envelope_of, payload_name, put_payload, put_line, put_leaf, put_head,
  put_envelope, publish, record_line, append,
}
use trunnion.Ledger.Producer.Kept.{attempt-ok}

module _ (j : Json) (d : Digest) (keys : Keys) where
  abbrev pub with_leaf : Text → List ℕ → List ℕ → State j d keys → State j d keys
  with_leaf name payload bytes ledger =
      put_leaf j d keys (leaf_hash d bytes)
        (put_line j d keys bytes (put_payload j d keys name payload ledger))

  pub record Appended (ev : NewEvent j.Value) (ledger after : State j d keys)
      (given : Envelope j.Value) : Type 0 where
    pub s_hash : Text
    pub name : Text
    pub payload : List ℕ
    pub bytes : List ℕ
    pub head : SignedHead
    pub hashed : subject_hash j d ev.subject ≡ ok s_hash
    pub named : payload_name j d keys s_hash ≡ ok name
    pub stored : jcs_bytes j d ev.subject ≡ ok payload
    pub given_eq : given ≡ envelope_of j d keys ledger ev s_hash
    pub canonical : canonical_bytes j d (envelope_of j d keys ledger ev s_hash) ≡ ok bytes
    pub signs :
        sign_head j d keys
          (with_leaf name payload bytes ledger)
          (length (ledger.leaves ++ leaf_hash d bytes ∷ []))
          (root d (ledger.leaves ++ leaf_hash d bytes ∷ []))
          ev.ts
        ≡ ok head
    pub after_eq :
        after
        ≡ put_envelope j d keys
            (envelope_of j d keys ledger ev s_hash)
            (put_head j d keys head (with_leaf name payload bytes ledger))

  -- The end of an append, from the leaf on.
  publish_lem :
      (disk : Disk) (ledger after : State j d keys) (bytes : List ℕ) (env given : Envelope j.Value)
      → publish j d keys disk env bytes ledger ≡ (after, ok given)
      → (head : SignedHead) × (given ≡ env)
        × (sign_head j d keys
              (put_leaf j d keys (leaf_hash d bytes) ledger)
              (length (ledger.leaves ++ leaf_hash d bytes ∷ []))
              (root d (ledger.leaves ++ leaf_hash d bytes ∷ []))
              env.ts
            ≡ ok head)
        × (after
            ≡ put_envelope j d keys env
                (put_head j d keys head (put_leaf j d keys (leaf_hash d bytes) ledger)))
  unfolding publish
  publish_lem disk ledger after bytes env given h =
      let (mid, head, e1, h1) =
        chain-eq-ok
          (
            put_leaf j d keys (leaf_hash d bytes) ledger,
            sign_head j d keys (put_leaf j d keys (leaf_hash d bytes) ledger)
                (length (ledger.leaves ++ leaf_hash d bytes ∷ []))
                (root d (ledger.leaves ++ leaf_hash d bytes ∷ [])) env.ts,
          )
          _ after given h in
      let (mid2, _, e2, h2) =
        chain-eq-ok (attempt disk.head_write (put_head j d keys head) mid) _ after given h1 in
      (
        head,
        cc,
        ap (λ (p : State j d keys × Result SignedHead). p.1) e1,
        sym (ap (λ (p : State j d keys × Result (Envelope j.Value)). p.0) h2)
            ∙ ap (put_envelope j d keys env) (
                sym (
                  ap (λ (p : State j d keys × Result SignedHead). put_head j d keys head p.0) e1
                  ∙ attempt-ok disk.head_write (put_head j d keys head) mid mid2 e2)),
      )

  record_line_lem :
      (disk : Disk) (ledger after : State j d keys) (env given : Envelope j.Value)
      → record_line j d keys disk env ledger ≡ (after, ok given)
      → (bytes : List ℕ) × (canonical_bytes j d env ≡ ok bytes)
        × (publish j d keys disk env bytes (put_line j d keys bytes ledger) ≡ (after, ok given))
  unfolding record_line
  record_line_lem disk ledger after env given h =
      let (l0, bytes, e0, h0) = chain-eq-ok (ledger, canonical_bytes j d env) _ after given h in
      let (l1, _, e1, h1) =
        chain-eq-ok (attempt disk.event_write (put_line j d keys bytes) l0) _ after given h0 in
      let same : ledger ≡ l0 = ap (λ (p : State j d keys × Result (List ℕ)). p.0) e0 in
      let wrote : put_line j d keys bytes ledger ≡ l1 =
        ap (put_line j d keys bytes) same
        ∙ attempt-ok disk.event_write (put_line j d keys bytes) l0 l1 e1 in
      (
        bytes,
        ap (λ (p : State j d keys × Result (List ℕ)). p.1) e0,
        subst (λ l. publish j d keys disk env bytes l ≡ (after, ok given)) (sym wrote) h1,
      )

  pub append-Appended :
      (disk : Disk) (ev : NewEvent j.Value) (ledger after : State j d keys)
      (given : Envelope j.Value)
      → append j d keys disk ev ledger ≡ (after, ok given)
      → Appended ev ledger after given
  unfolding append
  append-Appended disk ev ledger after given h =
      let (l0, s_hash, e0, h0) =
        chain-eq-ok (ledger, subject_hash j d ev.subject) _ after given h in
      let (l1, name, e1, h1) = chain-eq-ok (l0, payload_name j d keys s_hash) _ after given h0 in
      let (l2, payload, e2, h2) = chain-eq-ok (l1, jcs_bytes j d ev.subject) _ after given h1 in
      let (l3, _, e3, h3) =
        chain-eq-ok (attempt disk.payload_write (put_payload j d keys name payload) l2) _ after
          given h2 in
      let same : ledger ≡ l2 =
        ap (λ (p : State j d keys × Result Text). p.0) e0
        ∙ ap (λ (p : State j d keys × Result Text). p.0) e1
        ∙ ap (λ (p : State j d keys × Result (List ℕ)). p.0) e2 in
      let wrote : put_payload j d keys name payload ledger ≡ l3 =
        ap (put_payload j d keys name payload) same
        ∙ attempt-ok disk.payload_write (put_payload j d keys name payload) l2 l3 e3 in
      let lined : record_line j d keys disk (envelope_of j d keys ledger ev s_hash)
            (put_payload j d keys name payload ledger)
          ≡ (after, ok given) =
        subst
          (λ l. record_line j d keys disk (envelope_of j d keys l ev s_hash) l ≡ (after, ok given))
          (sym wrote) h3 in
      let (bytes, canonical, published) =
        record_line_lem disk (put_payload j d keys name payload ledger) after
          (envelope_of j d keys ledger ev s_hash) given lined in
      let (head, given_eq, signs, after_eq) =
        publish_lem disk (put_line j d keys bytes (put_payload j d keys name payload ledger)) after
          bytes (envelope_of j d keys ledger ev s_hash) given published in
      record {
        s_hash = s_hash;
        name = name;
        payload = payload;
        bytes = bytes;
        head = head;
        hashed = ap (λ (p : State j d keys × Result Text). p.1) e0;
        named = ap (λ (p : State j d keys × Result Text). p.1) e1;
        stored = ap (λ (p : State j d keys × Result (List ℕ)). p.1) e2;
        given_eq = given_eq;
        canonical = canonical;
        signs = signs;
        after_eq = after_eq;
      }
