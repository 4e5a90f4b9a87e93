-- ===== src/Log/Crypto.antt =====
-- The cryptography that the envelope calls (crypto/ed25519, crypto/sha256): parameters of the
-- model. Keys, signatures and digests are lists of bytes, messages are text.
use lamdis.Prelude.{ℕ, ◌<◌, String, Bool, true, ◌≡◌, List}
use lamdis.Prelude.Lists.{length, All}

pub record Crypto : Type 0 where
  -- sha256.Sum256
  pub sha256 : String → List ℕ
  -- priv.Public()
  pub public : List ℕ → List ℕ
  -- ed25519.Sign
  pub sign : List ℕ → String → List ℕ
  -- ed25519.Verify
  pub verify : List ℕ → String → List ℕ → Bool

-- What the packages document: sizes, bytes, and that a signature verifies under its key.
pub record CryptoLaws (c : Crypto) : Type 0 where
  pub digest_size : (m : String) → length (c.sha256 m) ≡ 32
  pub digest_bytes : (m : String) → All (λ b. b < 256) (c.sha256 m)
  pub public_size : (k : List ℕ) → length (c.public k) ≡ 32
  pub public_bytes : (k : List ℕ) → All (λ b. b < 256) (c.public k)
  pub sign_size : (k : List ℕ) (m : String) → length (c.sign k m) ≡ 64
  pub sign_bytes : (k : List ℕ) (m : String) → All (λ b. b < 256) (c.sign k m)
  pub verify-sign : (k : List ℕ) (m : String) → c.verify (c.public k) m (c.sign k m) ≡ true
