-- ===== src/Runlog/Declared.antt =====
-- src/runlog.rs: what a key that a profile declares is, where the run gets one.
use trunnion.Prelude.{
  false, ◌||◌, Text, codes, str_eq, str_eq_iff, trim, Option, none, some, ◌≡◌, refl, ap, ◌⊎◌, inl,
  inr, Bool-cases,
}
use trunnion.Fault.{Result, ok, >>=-eq-ok, seed_malformed}
use trunnion.Json.{Json, Digest}
use trunnion.Keys.{Keys}
use trunnion.Ledger.{or_fault, sized}
use trunnion.Ledger.Actors.{or_empty, key_id_for}
use trunnion.Runlog.{
  ActorSigner, Surroundings, seed_is_published, seed_source, accept_key, load_key, or_none,
  declared,
}

module _ (j : Json) (d : Digest) (keys : Keys) (around : Surroundings) (profile : Text)
    (block : j.Value) where
  -- The key has the id that the profile claims, and its seed is held back but on a laptop.
  pub record IsDeclared (signer : ActorSigner keys.Secret) : Type 0 where
    pub produced : signer.key_id ≡ key_id_for j d keys (keys.public_of signer.key)
    pub claimed : or_empty (j.as_str (j.field block (codes "key_id"))) ≡ signer.key_id
    pub held :
        (profile ≡ codes "laptop")
        ⊎ (seed_is_published j d keys around.published_seed_hexes signer.key_id ≡ false)

  accept_key-IsDeclared :
      (key : keys.Secret) (signer : ActorSigner keys.Secret)
      → accept_key j d keys around profile block key ≡ ok (some signer)
      → IsDeclared signer
  unfolding accept_key
  accept_key-IsDeclared key signer h =
      elim (Bool-cases (str_eq (or_empty (j.as_str (j.field block (codes "key_id")))) key_id)) [
        | inr differs ↦ absurd (cc (rw (differs, accept_key) at h))
        | inl same ↦ elim (Bool-cases (str_eq profile (codes "laptop"))) [
          | inl laptop ↦
              made (inl ((str_eq_iff _ _).0 laptop)) ((str_eq_iff _ _).0 same)
                (rw (same, laptop, accept_key) at h)
          | inr other ↦
              elim (Bool-cases (seed_is_published j d keys around.published_seed_hexes key_id)) [
                | inl open_seed ↦ absurd (cc (rw (same, other, open_seed, accept_key) at h))
                | inr held ↦
                    made (inr held) ((str_eq_iff _ _).0 same)
                      (rw (same, other, held, accept_key) at h)
              ]
        ]
      ]
    where
      key_id : Text
      key_id = key_id_for j d keys (keys.public_of key)

      made :
          (profile ≡ codes "laptop")
            ⊎ (seed_is_published j d keys around.published_seed_hexes key_id ≡ false)
          → or_empty (j.as_str (j.field block (codes "key_id"))) ≡ key_id
          → ◌≡◌ {A = Result (Option (ActorSigner keys.Secret))}
              (ok (some (record { key = key; key_id = key_id })))
              (ok (some signer))
          → IsDeclared signer
      made held claimed e =
          let same : record { key = key; key_id = key_id } ≡ signer = cc in
          rw (← same) (record { produced = refl; claimed = claimed; held = held })

  load_key-IsDeclared :
      (signer : ActorSigner keys.Secret)
      → load_key j d keys around profile block ≡ ok (some signer)
      → IsDeclared signer
  unfolding load_key
  load_key-IsDeclared signer h =
      let (seed_hex, _, h1) = >>=-eq-ok (seed_source j d keys around block) _ h in
      let (seed, _, h2) =
        >>=-eq-ok (or_fault (sized 32 (d.unhex (trim seed_hex))) seed_malformed) _ h1 in
      accept_key-IsDeclared (keys.secret_from_bytes seed) signer h2

or_none-some : (t : Option Text) → or_none t ≡ codes "ed25519" → t ≡ some (codes "ed25519")
or_none-some none h = cc
or_none-some (some t) h = ap some h

-- A run signs only where the profile declares ed25519, and then under a key whose id is the one that the
-- profile claims, and whose seed no registry beside the policy marks published, but on a laptop.
pub declared-IsDeclared :
    (j : Json) (d : Digest) (keys : Keys) (around : Surroundings) (profile : Text)
    (requirements : j.Value) (signer : ActorSigner keys.Secret)
    → declared j d keys around profile requirements ≡ ok (some signer)
    → (j.as_str (j.field (j.field requirements (codes "attestation")) (codes "declared"))
        ≡ some (codes "ed25519"))
      × IsDeclared j d keys around profile (j.field requirements (codes "attestation")) signer
unfolding declared
declared-IsDeclared j d keys around profile requirements signer h =
    elim (Bool-cases (j.equal block j.null || str_eq algorithm (codes "none"))) [
      | inl open_run ↦ absurd (cc (rw (open_run, declared) at h))
      | inr signs ↦ elim (Bool-cases (str_eq algorithm (codes "ed25519"))) [
        | inr other ↦ absurd (cc (rw (signs, other, declared) at h))
        | inl ed25519 ↦ (
          or_none-some _ ((str_eq_iff _ _).0 ed25519),
          load_key-IsDeclared j d keys around profile block signer
              (rw (signs, ed25519, declared) at h),
        )
      ]
    ]
  where
    block : j.Value
    block = j.field requirements (codes "attestation")

    algorithm : Text
    algorithm = or_none (j.as_str (j.field block (codes "declared")))
