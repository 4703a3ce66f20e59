-- ===== src/Ledger/Verify/Tamper.antt =====
-- src/ledger.rs: what two ledger directories share that check clean and have a signed head in common.
use trunnion.Prelude.{
  ℕ, length, take, map, Text, codes, true, strip_prefix, strip_prefix-append, Option, some, List,
  [], ◌∷◌, ◌≡◌, refl, sym, ◌∙◌, ap, ◌⊎◌, inl, inr, All, Any, take-all,
}
use trunnion.Fault.{ok}
use trunnion.Json.{Json, Digest}
use trunnion.Keys.{Keys, IsSound}
use trunnion.Event.{Envelope}
use trunnion.Merkle.{Hash, leaf_hash, root}
use trunnion.Merkle.Collision.{Collision, IsSized}
use trunnion.Merkle.Injective.{root-inj}
use trunnion.Ledger.{SignedHead, hash_str, parse_pub_key}
use trunnion.Ledger.Actors.{parse_with_published}
use trunnion.Ledger.Offline.{length-map, leaf_hash-inj, leaves-AreHashes}
use trunnion.Ledger.Verify.{Directory, VerifyReport, is_ok}
use trunnion.Ledger.Verify.Report.{verify_with_actor_keys_and_published}
use trunnion.Ledger.Verify.Sound.{IsGoodHead, IsIntact, verify_sound}

leaves-inj :
    (d : Digest) (xs ys : List (List ℕ))
    → map (leaf_hash d) xs ≡ map (leaf_hash d) ys
    → (xs ≡ ys) ⊎ Collision d
leaves-inj d [] [] e = inl refl
leaves-inj d [] (y ∷ ys) e = cc
leaves-inj d (x ∷ xs) [] e = cc
leaves-inj d (x ∷ xs) (y ∷ ys) e =
    let first : leaf_hash d x ≡ leaf_hash d y = cc in
    let rest : map (leaf_hash d) xs ≡ map (leaf_hash d) ys = cc in
    both (leaf_hash-inj d x y first) (leaves-inj d xs ys rest)
  where
    both : (x ≡ y) ⊎ Collision d → (xs ≡ ys) ⊎ Collision d → (x ∷ xs ≡ y ∷ ys) ⊎ Collision d
    both (inr collision) r = inr collision
    both (inl same) (inr collision) = inr collision
    both (inl same) (inl rest) = inl (cc)

module _ (j : Json) (d : Digest) (keys : Keys) (sound : IsSound d keys)
    (parse : List ℕ → Option (Envelope j.Value)) where
  hash_str-inj : (r s : Hash) → hash_str j d keys r ≡ hash_str j d keys s → r ≡ s
  unfolding hash_str
  hash_str-inj r s e =
      let hex_eq : some (d.hex r) ≡ some (d.hex s) =
        sym (strip_prefix-append (codes "sha256:") (d.hex r))
        ∙ ap (strip_prefix (codes "sha256:")) e
        ∙ strip_prefix-append (codes "sha256:") (d.hex s) in
      let same : d.hex r ≡ d.hex s = cc in
      let bytes : some r ≡ some s = sym (sound.unhex-hex r) ∙ ap d.unhex same ∙ sound.unhex-hex s in
      cc

  good_root :
      (vk : keys.Public) (leaves : List Hash) (heads : List (Option SignedHead)) (head : SignedHead)
      → All (IsGoodHead j d keys parse vk leaves) heads
      → Any (λ line. line ≡ some head) heads
      → head.root_hash ≡ hash_str j d keys (root d (take head.size leaves))
  good_root vk leaves [] head good here = absurd here
  good_root vk leaves (line ∷ lines) head good (inl here) =
      let (head', same, over) = good.0 in let one : head' ≡ head = cc in rw (← one) over.root_eq
  good_root vk leaves (line ∷ lines) head good (inr later) =
      good_root vk leaves lines head good.1 later

  whole_root :
      (vk : keys.Public) (lines : List (List ℕ)) (heads : List (Option SignedHead))
      (head : SignedHead)
      → All (IsGoodHead j d keys parse vk (map (leaf_hash d) lines)) heads
      → Any (λ line. line ≡ some head) heads
      → head.size ≡ length lines
      → head.root_hash ≡ hash_str j d keys (root d (map (leaf_hash d) lines))
  whole_root vk lines heads head good here size =
      good_root vk (map (leaf_hash d) lines) heads head good here
      ∙ ap (λ ls. hash_str j d keys (root d ls))
          (take-all head.size (map (leaf_hash d) lines) (length-map (leaf_hash d) lines ∙ sym size))

  -- A directory that checks clean, with what the check reads of it.
  pub record IsClean (dir : Directory) (lines : List (List ℕ)) (heads : List (Option SignedHead))
      : Type 0 where
    pub actor_keys : List Text
    pub published_seeds : List Text
    pub pub_hex : Text
    pub vk : keys.Public
    pub report : VerifyReport
    pub events_eq : dir.events ≡ ok lines
    pub key_eq : dir.public_key ≡ ok pub_hex
    pub vk_eq : parse_pub_key j d keys pub_hex ≡ ok vk
    pub heads_eq : dir.heads ≡ ok heads
    pub report_eq :
        verify_with_actor_keys_and_published j d keys parse dir actor_keys published_seeds
        ≡ ok report
    pub ok_eq : is_ok report ≡ true

  intact :
      (dir : Directory) (lines : List (List ℕ)) (heads : List (Option SignedHead))
      (clean : IsClean dir lines heads)
      → IsIntact j d keys parse clean.vk
          (parse_with_published j d keys clean.actor_keys clean.published_seeds)
          dir.payload
          lines
          heads
  intact dir lines heads clean =
      verify_sound j d keys parse dir clean.actor_keys clean.published_seeds lines clean.pub_hex
        clean.vk heads clean.report clean.events_eq clean.key_eq clean.vk_eq clean.heads_eq
        clean.report_eq clean.ok_eq

  -- Two directories that check clean, whose heads have one head in common that covers both logs, hold the
  -- same log line for line, or there is a collision of SHA-256.
  pub verify-same_log :
      IsSized d
      → (dir dir' : Directory) (lines lines' : List (List ℕ))
        (heads heads' : List (Option SignedHead)) (head : SignedHead)
      → IsClean dir lines heads
      → IsClean dir' lines' heads'
      → Any (λ line. line ≡ some head) heads
      → Any (λ line. line ≡ some head) heads'
      → head.size ≡ length lines
      → head.size ≡ length lines'
      → (lines ≡ lines') ⊎ Collision d
  verify-same_log sized dir dir' lines lines' heads heads' head clean clean' here here' size size' =
      let i = intact dir lines heads clean in
      let i' = intact dir' lines' heads' clean' in
      let roots : root d (map (leaf_hash d) lines) ≡ root d (map (leaf_hash d) lines') =
        hash_str-inj _ _ (
          sym (whole_root clean.vk lines heads head i.good here size)
          ∙ whole_root clean'.vk lines' heads' head i'.good here' size') in
      let sizes : length (map (leaf_hash d) lines) ≡ length (map (leaf_hash d) lines') =
        length-map (leaf_hash d) lines ∙ sym size ∙ size' ∙ sym (length-map (leaf_hash d) lines') in
      elim (root-inj d sized (map (leaf_hash d) lines) (map (leaf_hash d) lines') sizes
        (leaves-AreHashes d sized lines) (leaves-AreHashes d sized lines') roots) [
          | inr collision ↦ inr collision
          | inl same ↦ leaves-inj d lines lines' same
        ]
