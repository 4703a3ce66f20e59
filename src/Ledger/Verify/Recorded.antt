-- ===== src/Ledger/Verify/Recorded.antt =====
-- src/ledger.rs: what the files of a ledger hold while its appends succeed, as the check reads them.
use trunnion.Prelude.{
  ℕ, zero, suc, ◌≤◌, length, take, map, Text, codes, str_eq, str_eq_refl, str_eq_iff, strip_prefix,
  strip_prefix-eq-some, strip_prefix-append, Option, none, some, List, [], ◌∷◌, ◌++◌, ◌≡◌, refl,
  sym, ◌∙◌, ap, arith, All, All-imp, All-append, Bool-cases, inl, inr, if◌then◌else◌, length-append,
  take-all,
}
use trunnion.Fault.{Result, ok}
use trunnion.Json.{Json, Digest}
use trunnion.Keys.{Keys, IsSound}
use trunnion.Event.{Envelope, NewEvent, subject_hash}
use trunnion.Merkle.{Hash, leaf_hash, root}
use trunnion.Ledger.{SignedHead, hash_str}
use trunnion.Ledger.Offline.{leaves_of, length-map, or_fault-ok}
use trunnion.Ledger.Producer.{Disk, State, last_of, prev_hash_of, envelope_of, payload_name, append}
use trunnion.Ledger.Producer.Kept.{Entries, Entries-snoc, map-snoc, sign_head-verifies}
use trunnion.Ledger.Producer.Appended.{Appended, append-Appended, with_leaf}
use trunnion.Ledger.Verify.Sound.{Chained, IsHeadOver, covers_last}

-- `fs::read` of a payload: of two files of one name the later write is there.
abbrev pub file_in : Text → List (Text × List ℕ) → Option (List ℕ)
unfolding str_eq
file_in name [] = none
file_in name ((n, bytes) ∷ files) = if str_eq n name then some bytes else file_in name files

take-prefix : (n : ℕ) (xs ys : List Hash) → n ≤ length xs → take n (xs ++ ys) ≡ take n xs
take-prefix zero xs ys h = refl
take-prefix (suc n) [] ys h = absurd (omega arith)
take-prefix (suc n) (x ∷ xs) ys h = ap (λ zs. x ∷ zs) (take-prefix n xs ys (omega arith))

module _ (j : Json) (d : Digest) (keys : Keys) (parse : List ℕ → Option (Envelope j.Value)) where
  -- The payload of an envelope is there, and has the hash that the envelope names.
  pub record HasPayload (payloads : List (Text × List ℕ)) (env : Envelope j.Value) : Type 0 where
    pub name : Text
    pub bytes : List ℕ
    pub named : strip_prefix (codes "sha256:") env.subject_hash ≡ some name
    pub there : file_in name payloads ≡ some bytes
    pub hash_eq : codes "sha256:" ++ d.hex (d.sha256 bytes) ≡ env.subject_hash

  -- The link that the next envelope has to record.
  abbrev pub link_after : Option Text → List Hash → Option Text
  link_after expected [] = expected
  link_after expected (leaf ∷ leaves) = link_after (some (hash_str j d keys leaf)) leaves

  link_after_lem :
      (expected : Option Text) (leaves : List Hash)
      → expected ≡ none
      → prev_hash_of j d keys (last_of leaves) ≡ link_after expected leaves
  unfolding prev_hash_of
  link_after_lem expected [] e = sym e
  link_after_lem expected (leaf ∷ leaves) e = after leaf leaves
    where
      after :
          (leaf : Hash) (leaves : List Hash)
          → prev_hash_of j d keys (last_of (leaf ∷ leaves))
            ≡ link_after (some (hash_str j d keys leaf)) leaves
      after leaf [] = refl
      after leaf (next ∷ leaves) = after next leaves

  Chained-snoc :
      (expected : Option Text) (envelopes : List (Envelope j.Value)) (leaves : List Hash)
      (env : Envelope j.Value) (leaf : Hash)
      → length envelopes ≡ length leaves
      → Chained j d keys parse expected (map some envelopes) leaves
      → env.prev_hash ≡ link_after expected leaves
      → Chained j d keys parse expected (map some (envelopes ++ env ∷ [])) (leaves ++ leaf ∷ [])
  Chained-snoc expected [] [] env leaf n c e =
      ((λ env' same. let one : env ≡ env' = cc in rw (← one) e), tt)
  Chained-snoc expected [] (x ∷ leaves) env leaf n c e = absurd (omega arith)
  Chained-snoc expected (x ∷ envelopes) [] env leaf n c e = absurd (omega arith)
  Chained-snoc expected (x ∷ envelopes) (y ∷ leaves) env leaf n c e =
      (c.0, Chained-snoc (some (hash_str j d keys y)) envelopes leaves env leaf (omega arith) c.1 e)

  length-Entries :
      (sound : IsSound d keys) (envelopes : List (Envelope j.Value)) (lines : List (List ℕ))
      → Entries j d keys sound envelopes lines
      → length envelopes ≡ length lines
  length-Entries sound [] [] h = refl
  length-Entries sound [] (y ∷ lines) h = absurd h
  length-Entries sound (x ∷ envelopes) [] h = absurd h
  length-Entries sound (x ∷ envelopes) (y ∷ lines) h =
      ap suc (length-Entries sound envelopes lines h.1)

  -- A head over a log is one over every longer log.
  IsHeadOver-append :
      (vk : keys.Public) (leaves more : List Hash) (head : SignedHead)
      → IsHeadOver j d keys parse vk leaves head
      → IsHeadOver j d keys parse vk (leaves ++ more) head
  IsHeadOver-append vk leaves more head over = record {
    signed = over.signed;
    within = omega (arith, length-append leaves more, over.within);
    root_eq = rw (take-prefix head.size leaves more over.within) over.root_eq;
  }

  covers_last-snoc :
      (size : ℕ) (heads : List SignedHead) (head : SignedHead)
      → covers_last j d keys parse size (map some (heads ++ head ∷ [])) ≡ head.size
  covers_last-snoc size [] head = refl
  covers_last-snoc size (x ∷ heads) head = covers_last-snoc x.size heads head

  -- A payload written on top leaves the others as they are, but for one of its own name.
  HasPayload-put :
      (name : Text) (bytes : List ℕ) (payloads : List (Text × List ℕ)) (env : Envelope j.Value)
      → (codes "sha256:" ++ d.hex (d.sha256 bytes) ≡ codes "sha256:" ++ name)
      → HasPayload payloads env
      → HasPayload ((name, bytes) ∷ payloads) env
  unfolding file_in
  HasPayload-put name bytes payloads env made has = elim (Bool-cases (str_eq name has.name)) [
    | inl same ↦ record {
      name = has.name;
      bytes = bytes;
      named = has.named;
      there = rw same refl;
      hash_eq =
          made
          ∙ ap (λ (t : Text). codes "sha256:" ++ t) ((str_eq_iff name has.name).0 same)
          ∙ sym (strip_prefix-eq-some (codes "sha256:") env.subject_hash has.name has.named);
    }
    | inr other ↦ record {
      name = has.name;
      bytes = has.bytes;
      named = has.named;
      there = rw other has.there;
      hash_eq = has.hash_eq;
    }
  ]

module _ (j : Json) (d : Digest) (keys : Keys) (sound : IsSound d keys)
    (parse : List ℕ → Option (Envelope j.Value)) where
  pub record IsRecorded (ledger : State j d keys) : Type 0 where
    pub leaves_eq : ledger.leaves ≡ leaves_of d ledger.lines
    pub entries : Entries j d keys sound ledger.envelopes ledger.lines
    pub chained : Chained j d keys parse none (map some ledger.envelopes) (leaves_of d ledger.lines)
    pub good :
        All
          (IsHeadOver j d keys parse (keys.public_of ledger.signing) (leaves_of d ledger.lines))
          ledger.heads
    pub covers : covers_last j d keys parse 0 (map some ledger.heads) ≡ length ledger.lines
    pub backed : All (HasPayload j d keys parse ledger.payloads) ledger.envelopes

  module _ (ev : NewEvent j.Value) (ledger after : State j d keys) (given : Envelope j.Value)
      (made : Appended j d keys ev ledger after given) (rec : IsRecorded ledger) where
    leaves : List Hash
    leaves = leaves_of d ledger.lines

    longer :
        leaves_of d (ledger.lines ++ made.bytes ∷ [])
        ≡ leaves_of d ledger.lines ++ leaf_hash d made.bytes ∷ []
    longer = map-snoc (leaf_hash d) ledger.lines made.bytes

    name_eq : made.s_hash ≡ codes "sha256:" ++ made.name
    unfolding payload_name
    name_eq =
        strip_prefix-eq-some (codes "sha256:") made.s_hash made.name
          (or_fault-ok _ _ made.name made.named)

    hash_of_payload : codes "sha256:" ++ d.hex (d.sha256 made.payload) ≡ made.s_hash
    unfolding subject_hash
    hash_of_payload = inner (rw made.stored at made.hashed)
      where
        inner :
            ◌≡◌ {A = Result Text}
              (ok (codes "sha256:" ++ d.hex (d.sha256 made.payload)))
              (ok made.s_hash)
            → codes "sha256:" ++ d.hex (d.sha256 made.payload) ≡ made.s_hash
        inner e = cc

    new_payload :
        HasPayload j d keys parse
          ((made.name, made.payload) ∷ ledger.payloads)
          (envelope_of j d keys ledger ev made.s_hash)
    unfolding envelope_of file_in
    new_payload = record {
      name = made.name;
      bytes = made.payload;
      named = rw name_eq (strip_prefix-append (codes "sha256:") made.name);
      there = rw (str_eq_refl made.name) refl;
      hash_eq = hash_of_payload;
    }

    backed :
        All
          (HasPayload j d keys parse ((made.name, made.payload) ∷ ledger.payloads))
          (ledger.envelopes ++ envelope_of j d keys ledger ev made.s_hash ∷ [])
    backed =
        All-append _ ledger.envelopes _
          (All-imp
            (λ env has.
              HasPayload-put j d keys parse made.name made.payload ledger.payloads env
                (hash_of_payload ∙ name_eq) has)
            ledger.envelopes rec.backed)
          (new_payload, tt)

    linked :
        (envelope_of j d keys ledger ev made.s_hash).prev_hash
        ≡ link_after j d keys parse none (leaves_of d ledger.lines)
    unfolding envelope_of
    linked =
        ap (λ ls. prev_hash_of j d keys (last_of ls)) rec.leaves_eq
        ∙ link_after_lem j d keys parse none (leaves_of d ledger.lines) refl

    new_head :
        (made.head.size ≡ length (ledger.lines ++ made.bytes ∷ []))
        × IsHeadOver j d keys parse
            (keys.public_of ledger.signing)
            (leaves_of d (ledger.lines ++ made.bytes ∷ []))
            made.head
    new_head =
        let (size_eq, root_eq, signed) =
          sign_head-verifies j d keys sound
            (with_leaf j d keys made.name made.payload made.bytes ledger) _ _ ev.ts made.head
            made.signs in
        let whole : ledger.leaves ++ leaf_hash d made.bytes ∷ []
            ≡ leaves_of d (ledger.lines ++ made.bytes ∷ []) =
          ap (λ (ls : List Hash). ls ++ leaf_hash d made.bytes ∷ []) rec.leaves_eq ∙ sym longer in
        let size : made.head.size ≡ length (leaves_of d (ledger.lines ++ made.bytes ∷ [])) =
          size_eq ∙ ap (λ (ls : List Hash). length ls) whole in
        (
          size ∙ length-map (leaf_hash d) (ledger.lines ++ made.bytes ∷ []),
          record {
            signed = signed;
            within = omega arith;
            root_eq =
                root_eq
                ∙ ap (λ (ls : List Hash). hash_str j d keys (root d ls))
                    (whole ∙ sym (take-all made.head.size _ (sym size)));
          },
        )

    good :
        All
          (IsHeadOver j d keys parse
            (keys.public_of ledger.signing)
            (leaves_of d (ledger.lines ++ made.bytes ∷ [])))
          (ledger.heads ++ made.head ∷ [])
    good =
        All-append _ ledger.heads _
          (All-imp
            (λ head over. rw longer (
              IsHeadOver-append j d keys parse (keys.public_of ledger.signing)
                (leaves_of d ledger.lines) (leaf_hash d made.bytes ∷ []) head over))
            ledger.heads rec.good)
          (new_head.1, tt)

  -- An append that succeeds keeps the files in order, as the check reads them.
  pub append-IsRecorded :
      (disk : Disk) (ev : NewEvent j.Value) (ledger after : State j d keys)
      (given : Envelope j.Value)
      → IsRecorded ledger
      → append j d keys disk ev ledger ≡ (after, ok given)
      → IsRecorded after
  append-IsRecorded disk ev ledger after given rec h =
      let made = append-Appended j d keys disk ev ledger after given h in
      let env = envelope_of j d keys ledger ev made.s_hash in
      rw (made.after_eq) (record {
        leaves_eq =
            ap (λ (ls : List Hash). ls ++ leaf_hash d made.bytes ∷ []) rec.leaves_eq
            ∙ sym (longer ev ledger after given made rec);
        entries =
            Entries-snoc j d keys sound ledger.envelopes ledger.lines env made.bytes rec.entries
              made.canonical;
        chained = rw (longer ev ledger after given made rec) (
            Chained-snoc j d keys parse none ledger.envelopes (leaves_of d ledger.lines) env
              (leaf_hash d made.bytes)
              (length-Entries j d keys parse sound ledger.envelopes ledger.lines rec.entries
                ∙ sym (length-map (leaf_hash d) ledger.lines))
              rec.chained (linked ev ledger after given made rec));
        good = good ev ledger after given made rec;
        covers =
            covers_last-snoc j d keys parse 0 ledger.heads made.head
            ∙ (new_head ev ledger after given made rec).0;
        backed = backed ev ledger after given made rec;
      })
