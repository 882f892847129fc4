-- ===== src/Cipher.antt =====
-- What crypto/crypto.go of the server and of the orchestrator take from Go's crypto packages
-- (crypto/sha256, crypto/aes, crypto/cipher): an authenticated cipher under the hash of a secret.
use orbstrike.Common.{ℕ, Option, List, some, ◌≡◌, ◌<◌, Text, length}

pub record Cipher : Type 1 where
  pub Key : Type 0
  -- sha256.Sum256, aes.NewCipher and cipher.NewGCM; `none` is the error of either constructor
  pub new_gcm : Text → Option Key
  pub nonce_size : ℕ
  pub seal : Key → (nonce plain : List ℕ) → List ℕ
  pub open_sealed : Key → (nonce sealed : List ℕ) → Option (List ℕ)

-- The documented behaviour that a round trip rests on: `Open` undoes `Seal` under the same key and
-- nonce, and a sealed text is longer than none, since it ends with the tag.
pub record IsAead (c : Cipher) : Type 0 where
  pub open-seal :
      (k : c.Key) (nonce plain : List ℕ) → c.open_sealed k nonce (c.seal k nonce plain) ≡ some plain
  pub seal_nonempty : (k : c.Key) (nonce plain : List ℕ) → 0 < length (c.seal k nonce plain)
