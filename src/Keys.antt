-- ===== src/Keys.antt =====
-- What the program asks of ed25519_dalek, which the repository does not hold: keys from their bytes,
-- signatures, and their check.
use trunnion.Prelude.{ℕ, Bool, true, length, Option, some, List, ◌≡◌}
use trunnion.Json.{Digest}

pub record Keys : Type 1 where
  pub Secret : Type 0
  pub Public : Type 0
  pub secret_from_bytes : List ℕ → Secret
  pub public_from_bytes : List ℕ → Option Public
  pub public_bytes : Public → List ℕ
  pub public_of : Secret → Public
  pub sign : Secret → List ℕ → List ℕ
  pub check : Public → List ℕ → List ℕ → Bool

-- A signature has 64 bytes and is good under the key's public half, and hexadecimal is read back.
pub record IsSound (d : Digest) (keys : Keys) : Type 0 where
  pub length-sign :
      (secret : keys.Secret) (message : List ℕ) → length (keys.sign secret message) ≡ 64
  pub check-sign :
      (secret : keys.Secret) (message : List ℕ)
      → keys.check (keys.public_of secret) message (keys.sign secret message) ≡ true
  pub unhex-hex : (bytes : List ℕ) → d.unhex (d.hex bytes) ≡ some bytes
