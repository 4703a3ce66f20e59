-- ===== src/Ledger/Producer/Kept.antt =====
-- src/ledger.rs: what holds of a ledger between appends that succeed.
use trunnion.Prelude.{
  ℕ, length, Text, some, List, [], ◌∷◌, ◌++◌, map, ◌≡◌, refl, sym, ◌∙◌, ap, arith,
}
use trunnion.Fault.{Result, ok, err, done}
use trunnion.Trial.{attempt, chain-eq-ok}
use trunnion.Json.{Json, Digest}
use trunnion.Keys.{Keys, IsSound}
use trunnion.Event.{Envelope, NewEvent, jcs_bytes, subject_hash, canonical_bytes}
use trunnion.Merkle.{Hash, leaf_hash, root}
use trunnion.Ledger.{SignedHead, sized, hash_str, head_core, verify_head_sig}
use trunnion.Ledger.Offline.{leaves_of, length-map}
use trunnion.Ledger.Producer.{
  Disk, State, last_of, sign_head, after_core, head_from, envelope_of, payload_name, put_payload,
  put_line, put_leaf, put_head, put_envelope, publish, record_line, append,
}

pub last_of-snoc {ℓ} : {A : Type ℓ} (xs : List A) (x : A) → last_of (xs ++ x ∷ []) ≡ some x
last_of-snoc [] x = refl
last_of-snoc (y ∷ []) x = refl
last_of-snoc (y ∷ z ∷ xs) x = last_of-snoc (z ∷ xs) x

pub map-snoc :
    (f : List ℕ → Hash) (xs : List (List ℕ)) (x : List ℕ)
    → map f (xs ++ x ∷ []) ≡ map f xs ++ f x ∷ []
map-snoc f [] x = refl
map-snoc f (y ∷ xs) x = ap (λ ys. f y ∷ ys) (map-snoc f xs x)

pub attempt-ok :
    {S : Type 0} (outcome : Result (Unit {0})) (f : S → S) (store after : S)
    → attempt outcome f store ≡ (after, ok tt)
    → f store ≡ after
attempt-ok (err fault) f store after h = cc
attempt-ok (ok u) f store after h = cc

pub sized-exact : (n : ℕ) (bytes : List ℕ) → length bytes ≡ n → sized n (some bytes) ≡ some bytes
sized-exact n bytes e = ground arith

module _ (j : Json) (d : Digest) (keys : Keys) (sound : IsSound d keys) where
  -- The lines are the canonical bytes of the envelopes, in their order.
  abbrev pub Entries : List (Envelope j.Value) → List (List ℕ) → Type 0
  Entries [] [] = Unit
  Entries (env ∷ envelopes) (line ∷ lines) =
      (canonical_bytes j d env ≡ ok line) × Entries envelopes lines
  Entries _ _ = ⊥

  -- The head that the key signs over a log with these lines.
  pub record IsHeadOf (signing : keys.Secret) (lines : List (List ℕ)) (head : SignedHead)
      : Type 0 where
    pub size_eq : head.size ≡ length lines
    pub root_eq : head.root_hash ≡ hash_str j d keys (root d (leaves_of d lines))
    pub signed : verify_head_sig j d keys head (keys.public_of signing) ≡ done

  pub record IsKept (ledger : State j d keys) : Type 0 where
    pub leaves_eq : ledger.leaves ≡ leaves_of d ledger.lines
    pub entries : Entries ledger.envelopes ledger.lines
    pub latest :
        (head : SignedHead)
        → last_of ledger.heads ≡ some head
        → IsHeadOf ledger.signing ledger.lines head

  pub Entries-snoc :
      (envelopes : List (Envelope j.Value)) (lines : List (List ℕ)) (env : Envelope j.Value)
      (line : List ℕ)
      → Entries envelopes lines
      → canonical_bytes j d env ≡ ok line
      → Entries (envelopes ++ env ∷ []) (lines ++ line ∷ [])
  Entries-snoc [] [] env line h e = (e, tt)
  Entries-snoc [] (x ∷ lines) env line h e = absurd h
  Entries-snoc (x ∷ envelopes) [] env line h e = absurd h
  Entries-snoc (x ∷ envelopes) (y ∷ lines) env line h e =
      (h.0, Entries-snoc envelopes lines env line h.1 e)

  head_from-verifies :
      (ledger : State j d keys) (size : ℕ) (root_hash ts : Text) (message : List ℕ)
      → jcs_bytes j d (head_core j d keys size root_hash ts ledger.key_id) ≡ ok message
      → verify_head_sig j d keys
          (head_from j d keys ledger size root_hash ts message)
          (keys.public_of ledger.signing)
        ≡ done
  unfolding verify_head_sig head_from
  head_from-verifies ledger size root_hash ts message read = rw (
    sound.unhex-hex (keys.sign ledger.signing message),
    sized-exact 64 (keys.sign ledger.signing message) (sound.length-sign ledger.signing message),
    read,
    sound.check-sign ledger.signing message,
  )

  -- A head that the ledger signs checks under the ledger's public key.
  pub sign_head-verifies :
      (ledger : State j d keys) (size : ℕ) (r : Hash) (ts : Text) (head : SignedHead)
      → sign_head j d keys ledger size r ts ≡ ok head
      → (head.size ≡ size)
        × (head.root_hash ≡ hash_str j d keys r)
        × (verify_head_sig j d keys head (keys.public_of ledger.signing) ≡ done)
  unfolding sign_head
  sign_head-verifies ledger size r ts head h =
      core (jcs_bytes j d (head_core j d keys size (hash_str j d keys r) ts ledger.key_id)) refl h
    where
      made :
          (message : List ℕ)
          → jcs_bytes j d (head_core j d keys size (hash_str j d keys r) ts ledger.key_id)
            ≡ ok message
          → head_from j d keys ledger size (hash_str j d keys r) ts message ≡ head
          → (head.size ≡ size)
            × (head.root_hash ≡ hash_str j d keys r)
            × (verify_head_sig j d keys head (keys.public_of ledger.signing) ≡ done)
      made message read e = rw (← e) (
        unfold head_from in refl,
        unfold head_from in refl,
        head_from-verifies ledger size (hash_str j d keys r) ts message read,
      )

      core :
          (message : Result (List ℕ))
          → jcs_bytes j d (head_core j d keys size (hash_str j d keys r) ts ledger.key_id) ≡ message
          → after_core j d keys ledger size (hash_str j d keys r) ts message ≡ ok head
          → (head.size ≡ size)
            × (head.root_hash ≡ hash_str j d keys r)
            × (verify_head_sig j d keys head (keys.public_of ledger.signing) ≡ done)
      core (err fault) read k = unfold after_core in cc
      core (ok message) read k = made message read (unfold after_core in cc)

  -- A ledger that has written an event's line, and not yet its leaf, head and envelope.
  record HasLine (ledger : State j d keys) (lines : List (List ℕ)) (bytes : List ℕ) : Type 0 where
    written : ledger.lines ≡ lines ++ bytes ∷ []
    leaves_eq : ledger.leaves ≡ leaves_of d lines
    entries : Entries ledger.envelopes lines

  published :
      (ledger mid after : State j d keys) (lines : List (List ℕ)) (bytes : List ℕ)
      (env : Envelope j.Value) (head : SignedHead)
      → HasLine ledger lines bytes
      → canonical_bytes j d env ≡ ok bytes
      → sign_head j d keys
          (put_leaf j d keys (leaf_hash d bytes) ledger)
          (length (ledger.leaves ++ leaf_hash d bytes ∷ []))
          (root d (ledger.leaves ++ leaf_hash d bytes ∷ []))
          env.ts
        ≡ ok head
      → put_head j d keys head (put_leaf j d keys (leaf_hash d bytes) ledger) ≡ mid
      → put_envelope j d keys env mid ≡ after
      → IsKept after
  published ledger mid after lines bytes env head has canonical signs puts ends =
      rw (← ends, ← puts)
        (record {
          leaves_eq = leaves;
          entries =
              rw has.written (Entries-snoc ledger.envelopes lines env bytes has.entries canonical);
          latest =
              λ last found. latest last (some-inj (sym (last_of-snoc ledger.heads head) ∙ found));
        })
    where
      leaves : ledger.leaves ++ leaf_hash d bytes ∷ [] ≡ leaves_of d ledger.lines
      leaves = rw (has.written, map-snoc (leaf_hash d) lines bytes, has.leaves_eq) refl

      some-inj : {last : SignedHead} → some head ≡ some last → head ≡ last
      some-inj e = cc

      latest : (last : SignedHead) → head ≡ last → IsHeadOf ledger.signing ledger.lines last
      latest last e =
          let (size_eq, root_eq, signed) =
            sign_head-verifies (put_leaf j d keys (leaf_hash d bytes) ledger) _ _ env.ts head
              signs in
          rw (← e) (record {
            size_eq =
                size_eq
                ∙ ap (λ (hs : List Hash). length hs) leaves
                ∙ length-map (leaf_hash d) ledger.lines;
            root_eq = root_eq ∙ ap (λ (hs : List Hash). hash_str j d keys (root d hs)) leaves;
            signed = signed;
          })

  publish_keeps :
      (disk : Disk) (ledger after : State j d keys) (lines : List (List ℕ)) (bytes : List ℕ)
      (env given : Envelope j.Value)
      → HasLine ledger lines bytes
      → canonical_bytes j d env ≡ ok bytes
      → publish j d keys disk env bytes ledger ≡ (after, ok given)
      → IsKept after × (given ≡ env)
  unfolding publish
  publish_keeps disk ledger after lines bytes env given has canonical h =
      let (mid, head, e1, h1) =
        chain-eq-ok
          (
            put_leaf j d keys (leaf_hash d bytes) ledger,
            sign_head j d keys (put_leaf j d keys (leaf_hash d bytes) ledger)
                (length (ledger.leaves ++ leaf_hash d bytes ∷ []))
                (root d (ledger.leaves ++ leaf_hash d bytes ∷ [])) env.ts,
          )
          _ after given h in
      let (mid2, _, e2, h2) =
        chain-eq-ok (attempt disk.head_write (put_head j d keys head) mid) _ after given h1 in
      (
        published ledger mid2 after lines bytes env head has canonical
            (ap (λ (p : State j d keys × Result SignedHead). p.1) e1)
            (ap (λ (p : State j d keys × Result SignedHead). put_head j d keys head p.0) e1
              ∙ attempt-ok disk.head_write (put_head j d keys head) mid mid2 e2)
            (ap (λ (p : State j d keys × Result (Envelope j.Value)). p.0) h2),
        cc,
      )

  record_line_keeps :
      (disk : Disk) (ledger after : State j d keys) (env given : Envelope j.Value)
      → ledger.leaves ≡ leaves_of d ledger.lines
      → Entries ledger.envelopes ledger.lines
      → record_line j d keys disk env ledger ≡ (after, ok given)
      → IsKept after × (given ≡ env)
  unfolding record_line
  record_line_keeps disk ledger after env given leaves_eq entries h =
      let (l0, bytes, e0, h0) = chain-eq-ok (ledger, canonical_bytes j d env) _ after given h in
      let (l1, _, e1, h1) =
        chain-eq-ok (attempt disk.event_write (put_line j d keys bytes) l0) _ after given h0 in
      let same : ledger ≡ l0 = ap (λ (p : State j d keys × Result (List ℕ)). p.0) e0 in
      let canonical : canonical_bytes j d env ≡ ok bytes =
        ap (λ (p : State j d keys × Result (List ℕ)). p.1) e0 in
      let wrote : put_line j d keys bytes ledger ≡ l1 =
        ap (put_line j d keys bytes) same
        ∙ attempt-ok disk.event_write (put_line j d keys bytes) l0 l1 e1 in
      publish_keeps disk l1 after ledger.lines bytes env given
        (rw (← wrote) (record { written = refl; leaves_eq = leaves_eq; entries = entries }))
        canonical h1

  -- An append that succeeds keeps the ledger in order, and gives the envelope of the event: chained to
  -- the last leaf, and naming the payload by its hash.
  pub append-IsKept :
      (disk : Disk) (ev : NewEvent j.Value) (ledger after : State j d keys)
      (given : Envelope j.Value)
      → IsKept ledger
      → append j d keys disk ev ledger ≡ (after, ok given)
      → IsKept after
        × ((s_hash : Text) × (subject_hash j d ev.subject ≡ ok s_hash)
            × (given ≡ envelope_of j d keys ledger ev s_hash))
  unfolding append
  append-IsKept disk ev ledger after given kept h =
      let (l0, s_hash, e0, h0) =
        chain-eq-ok (ledger, subject_hash j d ev.subject) _ after given h in
      let (l1, name, e1, h1) = chain-eq-ok (l0, payload_name j d keys s_hash) _ after given h0 in
      let (l2, payload, e2, h2) = chain-eq-ok (l1, jcs_bytes j d ev.subject) _ after given h1 in
      let (l3, _, e3, h3) =
        chain-eq-ok (attempt disk.payload_write (put_payload j d keys name payload) l2) _ after
          given h2 in
      let same : ledger ≡ l2 =
        ap (λ (p : State j d keys × Result Text). p.0) e0
        ∙ ap (λ (p : State j d keys × Result Text). p.0) e1
        ∙ ap (λ (p : State j d keys × Result (List ℕ)). p.0) e2 in
      let wrote : put_payload j d keys name payload ledger ≡ l3 =
        ap (put_payload j d keys name payload) same
        ∙ attempt-ok disk.payload_write (put_payload j d keys name payload) l2 l3 e3 in
      let (kept_after, given_eq) =
        record_line_keeps disk l3 after (envelope_of j d keys l3 ev s_hash) given
          (rw (← wrote) kept.leaves_eq) (rw (← wrote) kept.entries) h3 in
      (
        kept_after,
        (
          s_hash,
          ap (λ (p : State j d keys × Result Text). p.1) e0,
          given_eq ∙ sym (ap (λ (l : State j d keys). envelope_of j d keys l ev s_hash) wrote),
        ),
      )
