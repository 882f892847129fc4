-- ===== src/Server/Crypto.antt =====
-- server/crypto/crypto.go.
use orbstrike.Common.{
  ℕ, ◌+◌, ◌^◌, List, Option, none, some, Text, ℤ, negsuc, of_word, ltb, length, take, drop, uint64,
  if◌then◌else◌,
}
use orbstrike.Cipher.{Cipher}

pub data KeyError : Type 0 where
  bad_secret key_too_short open_failed : KeyError

-- The pair that `DecryptUserKey` returns; its identifier is -1 beside every error.
pub record Decrypted : Type 0 where
  pub id : ℤ
  pub err : Option KeyError

abbrev pub refuse : KeyError → Decrypted
refuse e = record { id = negsuc 0; err = some e }

module _ (c : Cipher) where
  open c use {Key, new_gcm, nonce_size, open_sealed}

  -- int64(binary.BigEndian.Uint64(dec))
  unfoldable pub read_id : List ℕ → Option Decrypted
  read_id dec = elim (uint64 dec) [
    | none ↦ none
    | some w ↦ some (record { id = of_word (2 ^ 64) w; err = none })
  ]

  unfoldable pub open_user_key : Key → List ℕ → Option Decrypted
  unfolding read_id
  open_user_key k userkey =
      if ltb (length userkey) (nonce_size + 1)
      then some (refuse KeyError.key_too_short)
      else elim (open_sealed k (take nonce_size userkey) (drop nonce_size userkey)) [
        | none ↦ some (refuse KeyError.open_failed)
        | some dec ↦ read_id dec
      ]

  -- `none` is a panic: the plain text has fewer than eight bytes.
  unfoldable pub decrypt_user_key : List ℕ → Text → Option Decrypted
  unfolding open_user_key
  decrypt_user_key userkey secret = elim (new_gcm secret) [
    | none ↦ some (refuse KeyError.bad_secret)
    | some k ↦ open_user_key k userkey
  ]
