-- ===== src/Policy/Document/Loaded.antt =====
-- src/policy.rs: what `Policy::load` accepts, and what the version is of.
use trunnion.Prelude.{
  Text, str_eq, str_eq_iff, Option, none, some, ◌≡◌, ◌⊎◌, inl, inr, refl, sym, ◌∙◌, ap, Bool-cases,
}
use trunnion.Fault.{ok, done, >>=-eq-ok}
use trunnion.Json.{Json, Digest}
use trunnion.Policy.Rules.{Policy, validate}
use trunnion.Policy.Rules.Sound.{IsSound, validate_iff}
use trunnion.Policy.Document.{
  without_key, policy_fields, version, check_written, accept, after_parse, load,
}

module _ (j : Json) (d : Digest) where
  -- The version does not depend on the version that is written in the document.
  version-versioned :
      (policy : Policy j.Value) (written : Option Text)
      → version j d (record policy { policy_version = written }) ≡ version j d policy
  unfolding version without_key policy_fields str_eq
  version-versioned policy written = refl

  check_written-done :
      (written : Option Text) (computed : Text)
      → check_written j d written computed ≡ done
      → (written ≡ none) ⊎ (written ≡ some computed)
  unfolding check_written
  check_written-done none computed h = inl refl
  check_written-done (some t) computed h = elim (Bool-cases (str_eq t computed)) [
    | inl same ↦ inr (ap (λ (x : Text). some x) ((str_eq_iff t computed).0 same))
    | inr differ ↦ absurd (cc (rw (differ, check_written) at h))
  ]

  -- The version of a document, which it may have written, made its own.
  abbrev pub versioned : Policy j.Value → Text → Policy j.Value
  versioned document computed = record document { policy_version = some computed }

  -- A policy with a document's content and the hash of that content as its version, where the document
  -- has no other version written and the policy is sound.
  abbrev pub IsLoaded : Policy j.Value → Text → Policy j.Value → Type 0
  IsLoaded document computed policy =
      (policy ≡ versioned document computed)
      × ((document.policy_version ≡ none) ⊎ (document.policy_version ≡ some computed))
      × IsSound policy
      × (version j d policy ≡ ok computed)

  -- A policy that loads is the document in the file with the hash of its content as its version; the
  -- document has no other version written, the policy is sound, and its version is again the hash of its
  -- own content.
  pub load_lem :
      (parse : Text → Option (Policy j.Value)) (text : Text) (policy : Policy j.Value)
      → load j d parse (some text) ≡ ok policy
      → (document : Policy j.Value) × (computed : Text) × (parse text ≡ some document)
        × IsLoaded document computed policy
  unfolding load
  load_lem parse text policy h = parsed (parse text) refl h
    where
      accepted :
          (document : Policy j.Value)
          → accept j d document ≡ ok policy
          → (computed : Text) × IsLoaded document computed policy
      accepted document e =
          let (computed, hashed, e1) = >>=-eq-ok (version j d document) _ (unfold accept in e) in
          let (_, written, e2) =
            >>=-eq-ok (check_written j d document.policy_version computed) _ e1 in
          let (_, valid, e3) = >>=-eq-ok (validate (versioned document computed)) _ e2 in
          let same : versioned document computed ≡ policy = cc in
          (
            computed,
            (
              sym same,
              check_written-done document.policy_version computed written,
              rw (← same) ((validate_iff (versioned document computed)).0 valid),
              rw (← same) (version-versioned document (some computed) ∙ hashed),
            ),
          )

      parsed :
          (o : Option (Policy j.Value))
          → parse text ≡ o
          → after_parse j d o ≡ ok policy
          → (document : Policy j.Value) × (computed : Text) × (parse text ≡ some document)
            × IsLoaded document computed policy
      parsed none read e = unfold after_parse in cc
      parsed (some document) read e =
          let (computed, is_loaded) = accepted document (unfold after_parse in e) in
          (document, computed, read, is_loaded)
