-- ===== src/Ledger/Producer/Expiry.antt =====
-- src/ledger.rs: the expiry of a payload. The outcome of removing its file is a parameter.
use trunnion.Prelude.{
  Bool, true, false, any, not, Bool-cases, Text, codes, some, str_eq, strip_prefix, List, [], ◌∷◌,
  if◌then◌else◌, ◌≡◌, refl, All, inl, inr, ap, ◌∙◌, sym,
}
use trunnion.Fault.{Fault, Result, ok, err, not_an_expiry, not_referenced}
use trunnion.Trial.{Trial, give, attempt, chain-eq-ok, ◌>>=◌, ◌>>◌}
use trunnion.Json.{Json, Digest}
use trunnion.Keys.{Keys, IsSound}
use trunnion.Event.{Envelope, NewEvent}
use trunnion.Ledger.Producer.{Disk, State, payload_name, append}
use trunnion.Ledger.Producer.Kept.{IsKept, append-IsKept}

-- The directory of payloads, as pairs of a name and the bytes, without the file `name`.
unfoldable pub without : {A : Type 0} → Text → List (Text × A) → List (Text × A)
unfolding str_eq
without name [] = []
without name ((n, bytes) ∷ files) =
    if str_eq n name then without name files else (n, bytes) ∷ without name files

module _ (j : Json) (d : Digest) (keys : Keys) where
  abbrev has_payload : Text → State j d keys → Bool
  has_payload name ledger = any (λ p. str_eq p.0 name) ledger.payloads

  abbrev drop_payload : Text → State j d keys → State j d keys
  drop_payload name ledger = record ledger { payloads = without name ledger.payloads }

  remove_payload : Result (Unit {0}) → Text → Trial (State j d keys) (Unit {0})
  unfolding without str_eq
  remove_payload removal name ledger =
      if has_payload name ledger
      then attempt removal (drop_payload name) ledger
      else (ledger, ok tt)

  expire_known :
      Disk → Result (Unit {0}) → Text → NewEvent j.Value → Trial (State j d keys) (Envelope j.Value)
  unfolding append payload_name remove_payload
  expire_known disk removal target ev = do
    envelope ← append j d keys disk ev
    name ← give (payload_name j d keys target)
    remove_payload removal name
    give (ok envelope)

  unfoldable pub expire :
      Disk → Result (Unit {0}) → Text → NewEvent j.Value → Trial (State j d keys) (Envelope j.Value)
  unfolding expire_known str_eq
  expire disk removal target ev ledger =
      if not (str_eq ev.kind (codes "retention.expire"))
      then (ledger, err (not_an_expiry ev.kind))
      else if not (any (λ (e : Envelope j.Value). str_eq e.subject_hash target) ledger.envelopes)
      then (ledger, err (not_referenced target))
      else expire_known disk removal target ev ledger

All-without :
    {A : Type 0} (name : Text) (files : List (Text × A))
    → All (λ p. str_eq p.0 name ≡ false) (without name files)
unfolding without
All-without name [] = tt
All-without name ((n, bytes) ∷ files) = elim (Bool-cases (str_eq n name)) [
  | inl same ↦ rw same (All-without name files)
  | inr other ↦ rw other (other, All-without name files)
]

any-eq-false :
    {A : Type 0} (name : Text) (files : List (Text × A))
    → any (λ p. str_eq p.0 name) files ≡ false
    → All (λ p. str_eq p.0 name ≡ false) files
any-eq-false name [] h = tt
any-eq-false name ((n, bytes) ∷ files) h = elim (Bool-cases (str_eq n name)) [
  | inl same ↦ absurd (cc (rw same at h))
  | inr other ↦ (other, any-eq-false name files (rw other at h))
]

module _ (j : Json) (d : Digest) (keys : Keys) (sound : IsSound d keys) where
  pub IsGone : Text → State j d keys → Type 0
  IsGone name ledger = All (λ p. str_eq p.0 name ≡ false) ledger.payloads

  remove_keeps :
      (removal : Result (Unit {0})) (name : Text) (ledger after : State j d keys)
      → IsKept j d keys sound ledger
      → remove_payload j d keys removal name ledger ≡ (after, ok tt)
      → IsKept j d keys sound after × IsGone name after
  unfolding remove_payload IsGone
  remove_keeps (err fault) name ledger after kept h =
      elim (Bool-cases (has_payload j d keys name ledger)) [
        | inl there ↦ absurd (refused (rw (there, remove_payload) at h))
        | inr absent ↦
            rw
              (← ap (λ (p : State j d keys × Result (Unit {0})). p.0)
                (rw (absent, remove_payload) at h))
              (kept, any-eq-false name ledger.payloads absent)
      ]
    where
      refused : ◌≡◌ {A = State j d keys × Result (Unit {0})} (ledger, err fault) (after, ok tt) → ⊥
      refused e = cc
  remove_keeps (ok _) name ledger after kept h =
      elim (Bool-cases (has_payload j d keys name ledger)) [
        | inl there ↦
            rw
              (← ap (λ (p : State j d keys × Result (Unit {0})). p.0)
                (rw (there, remove_payload) at h))
              (
                record { leaves_eq = kept.leaves_eq; entries = kept.entries; latest = kept.latest },
                All-without name ledger.payloads,
              )
        | inr absent ↦
            rw
              (← ap (λ (p : State j d keys × Result (Unit {0})). p.0)
                (rw (absent, remove_payload) at h))
              (kept, any-eq-false name ledger.payloads absent)
      ]

  known_keeps :
      (disk : Disk) (removal : Result (Unit {0})) (target name : Text) (ev : NewEvent j.Value)
      (ledger after : State j d keys) (given : Envelope j.Value)
      → IsKept j d keys sound ledger
      → payload_name j d keys target ≡ ok name
      → expire_known j d keys disk removal target ev ledger ≡ (after, ok given)
      → IsKept j d keys sound after × IsGone name after
  unfolding expire_known
  known_keeps disk removal target name ev ledger after given kept named h =
      let (l0, envelope, e0, h0) = chain-eq-ok (append j d keys disk ev ledger) _ after given h in
      let (l1, found, e1, h1) = chain-eq-ok (l0, payload_name j d keys target) _ after given h0 in
      let (l2, _, e2, h2) =
        chain-eq-ok (remove_payload j d keys removal found l1) _ after given h1 in
      let at_end : l2 ≡ after = ap (λ (p : State j d keys × Result (Envelope j.Value)). p.0) h2 in
      let same_store : l0 ≡ l1 = ap (λ (p : State j d keys × Result Text). p.0) e1 in
      let same_name : name ≡ found =
        same (sym named ∙ ap (λ (p : State j d keys × Result Text). p.1) e1) in
      rw (← at_end, same_name)
        (remove_keeps removal found l1 l2
          (rw (← same_store) (append-IsKept j d keys sound disk ev ledger l0 envelope kept e0).0)
          e2)
    where
      same : {a b : Text} → ◌≡◌ {A = Result Text} (ok a) (ok b) → a ≡ b
      same e = cc

  -- With sound signatures, an expiry that succeeds keeps a ledger in order, was submitted as one and of a payload that an
  -- envelope references, and leaves no file with the payload's name.
  pub expire-IsKept :
      (disk : Disk) (removal : Result (Unit {0})) (target name : Text) (ev : NewEvent j.Value)
      (ledger after : State j d keys) (given : Envelope j.Value)
      → IsKept j d keys sound ledger
      → strip_prefix (codes "sha256:") target ≡ some name
      → expire j d keys disk removal target ev ledger ≡ (after, ok given)
      → IsKept j d keys sound after
        × IsGone name after
        × (str_eq ev.kind (codes "retention.expire") ≡ true)
        × (any (λ (e : Envelope j.Value). str_eq e.subject_hash target) ledger.envelopes ≡ true)
  unfolding expire payload_name
  expire-IsKept disk removal target name ev ledger after given kept named h =
      elim (Bool-cases (str_eq ev.kind (codes "retention.expire"))) [
        | inr other ↦ absurd (refused (rw (other, expire) at h))
        | inl is_expiry ↦
            elim (Bool-cases
              (any (λ (e : Envelope j.Value). str_eq e.subject_hash target) ledger.envelopes)) [
                | inr unknown ↦ absurd (refused (rw (is_expiry, expire, unknown) at h))
                | inl known ↦
                    let (kept_after, gone) =
                      known_keeps disk removal target name ev ledger after given kept
                        (rw named refl) (rw (is_expiry, expire, known) at h) in
                    (kept_after, gone, is_expiry, known)
              ]
      ]
    where
      refused :
          {fault : Fault}
          → ◌≡◌ {A = State j d keys × Result (Envelope j.Value)}
              (ledger, err fault)
              (after, ok given)
          → ⊥
      refused e = cc
