-- ===== src/Orchestrator/Crypto/Presented.antt =====
-- The keys that a gameserver meets: those that the orchestrator sealed, and those that do not open.
use orbstrike.Common.{
  ℕ, ◌+◌, ◌≡◌, inl, inr, none, some, Text, ℤ, IsInt64, List, length, take, drop, ltb, arith,
  if◌then◌else◌, Option-cases,
}
use orbstrike.Cipher.{Cipher, IsAead}
use orbstrike.Server.Crypto.{KeyError, Decrypted, refuse, open_user_key, decrypt_user_key}
use orbstrike.Orchestrator.Crypto.{sealed, encrypt_user_key}
use orbstrike.Orchestrator.Crypto.RoundTrip.{decrypt_user_key-encrypt_user_key}

-- A key under a secret: EncryptUserKey sealed it under that secret, or the cipher does not open it.
pub data Presented (c : Cipher) (secret : Text) (userkey : List ℕ) : Type 0 where
  issued :
      (id : ℤ) (nonce : List ℕ)
      → IsInt64 id
      → length nonce ≡ c.nonce_size
      → encrypt_user_key c id secret (some nonce) ≡ sealed userkey
      → Presented c secret userkey
  unopened :
      ((k : c.Key)
        → c.new_gcm secret ≡ some k
        → c.open_sealed k (take c.nonce_size userkey) (drop c.nonce_size userkey) ≡ none)
      → Presented c secret userkey

module _ (c : Cipher) where
  open_user_key_shut :
      (k : c.Key) (userkey : List ℕ)
      → c.open_sealed k (take c.nonce_size userkey) (drop c.nonce_size userkey) ≡ none
      → (d : Decrypted) × (open_user_key c k userkey ≡ some d)
  unfolding open_user_key
  open_user_key_shut k userkey shut = (
    refuse (
        if ltb (length userkey) (c.nonce_size + 1)
        then KeyError.key_too_short
        else KeyError.open_failed),
    ground arith,
  )

  -- The gameserver does not panic at such a key.
  pub decrypt_user_key_total :
      IsAead c
      → (userkey : List ℕ) (secret : Text) → Presented c secret userkey
      → (d : Decrypted) × (decrypt_user_key c userkey secret ≡ some d)
  unfolding decrypt_user_key
  decrypt_user_key_total aead userkey secret (issued id nonce range full h) = (
    record { id = id; err = none },
    decrypt_user_key-encrypt_user_key c aead id range secret nonce userkey full h,
  )
  decrypt_user_key_total aead userkey secret (unopened shut) =
      elim (Option-cases (c.new_gcm secret)) [
        | inl bad ↦ (refuse KeyError.bad_secret, ground arith)
        | inr (k, e) ↦ let (d, o) = open_user_key_shut k userkey (shut k e) in (d, ground arith)
      ]
