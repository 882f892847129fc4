-- ===== src/Orchestrator/Crypto.antt =====
-- orchestrator/crypto/crypto.go. The random bytes of the nonce are an argument, `none` where
-- reading them fails.
pub mod RoundTrip
pub mod Presented
use orbstrike.Common.{
  ℕ, ◌+◌, ◌^◌, List, ◌++◌, Option, none, some, Text, ℤ, to_word, of_word, ltb, length, take, drop,
  put_uint64, uint64, if◌then◌else◌,
}
use orbstrike.Cipher.{Cipher}
use orbstrike.Server.Crypto.{KeyError, Decrypted, refuse}

pub data EncryptError : Type 0 where
  bad_secret no_nonce : EncryptError

pub data Encrypted : Type 0 where
  sealed : List ℕ → Encrypted
  refused : EncryptError → Encrypted

module _ (c : Cipher) where
  open c use {Key, new_gcm, nonce_size, seal, open_sealed}

  unfoldable pub seal_id : Key → ℤ → Option (List ℕ) → Encrypted
  seal_id k id none = refused EncryptError.no_nonce
  seal_id k id (some nonce) = sealed (nonce ++ seal k nonce (put_uint64 (to_word (2 ^ 64) id)))

  unfoldable pub encrypt_user_key : ℤ → Text → Option (List ℕ) → Encrypted
  unfolding seal_id
  encrypt_user_key id secret nonce = elim (new_gcm secret) [
    | none ↦ refused EncryptError.bad_secret
    | some k ↦ seal_id k id nonce
  ]

  -- `none` is a panic: the plain text has fewer than eight bytes.
  unfoldable pub decrypt_user_key : List ℕ → Text → Option Decrypted
  decrypt_user_key userkey secret = elim (new_gcm secret) [
    | none ↦ some (refuse KeyError.bad_secret)
    | some k ↦
        if ltb (length userkey) (nonce_size + 1)
        then some (refuse KeyError.key_too_short)
        else elim (open_sealed k (take nonce_size userkey) (drop nonce_size userkey)) [
          | none ↦ some (refuse KeyError.open_failed)
          | some dec ↦ elim (uint64 dec) [
            | none ↦ none
            | some w ↦ some (record { id = of_word (2 ^ 64) w; err = none })
          ]
        ]
  ]
