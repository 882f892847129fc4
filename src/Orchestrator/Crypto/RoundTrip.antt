-- ===== src/Orchestrator/Crypto/RoundTrip.antt =====
-- The keys that the orchestrator hands out are the keys that the gameserver accepts.
use orbstrike.Common.{
  ℕ, ◌^◌, ◌<◌, ◌≡◌, List, ◌++◌, none, some, inl, inr, Text, ℤ, pos, negsuc, IsInt64, to_word,
  of_word-to_word_64, uint64-put_uint64, put_uint64, arith, length, length-append, take-append,
  drop-append, Option-cases,
}
use orbstrike.Cipher.{Cipher, IsAead}
use orbstrike.Server.Crypto.{decrypt_user_key as server_decrypt_user_key}
use orbstrike.Server.Crypto.{read_id, open_user_key}
use orbstrike.Orchestrator.Crypto.{sealed, encrypt_user_key, decrypt_user_key}

to_word-lt : (z : ℤ) → to_word (2 ^ 64) z < 2 ^ 64
unfolding to_word
to_word-lt (pos n) = omega arith
to_word-lt (negsuc n) = omega arith

module _ (c : Cipher) where
  -- Both services read every key alike, panics included.
  pub decrypt_user_key-agree :
      (userkey : List ℕ) (secret : Text)
      → decrypt_user_key c userkey secret ≡ server_decrypt_user_key c userkey secret
  unfolding decrypt_user_key server_decrypt_user_key
  decrypt_user_key-agree userkey secret = ground arith

module _ (c : Cipher) (aead : IsAead c) (id : ℤ) (range : IsInt64 id) where
  read_id-sealed :
      read_id c (put_uint64 (to_word (2 ^ 64) id)) ≡ some (record { id = id; err = none })
  unfolding read_id
  read_id-sealed =
      rw (uint64-put_uint64 (to_word (2 ^ 64) id) (to_word-lt id), read_id)
        (rw (of_word-to_word_64 id range))

  open-sealed :
      (k : c.Key) (nonce : List ℕ)
      → length nonce ≡ c.nonce_size
      → open_user_key c k (nonce ++ c.seal k nonce (put_uint64 (to_word (2 ^ 64) id)))
        ≡ some (record { id = id; err = none })
  unfolding open_user_key
  open-sealed k nonce full =
      let word = put_uint64 (to_word (2 ^ 64) id) in
      let body = c.seal k nonce word in
      rw (← full) (
        rw
          (
            take-append nonce body,
            drop-append nonce body,
            aead.open-seal k nonce word,
            open_user_key,
          )
          (ground
            (arith, read_id-sealed, length-append nonce body, aead.seal_nonempty k nonce word)))

  -- A key that the orchestrator seals, under a nonce of the cipher's size, opens on a gameserver
  -- with the same secret to the identifier that was sealed.
  pub decrypt_user_key-encrypt_user_key :
      (secret : Text) (nonce userkey : List ℕ)
      → length nonce ≡ c.nonce_size
      → encrypt_user_key c id secret (some nonce) ≡ sealed userkey
      → server_decrypt_user_key c userkey secret ≡ some (record { id = id; err = none })
  unfolding encrypt_user_key server_decrypt_user_key
  decrypt_user_key-encrypt_user_key secret nonce userkey full h =
      elim (Option-cases (c.new_gcm secret)) [
        | inl bad ↦ ground arith
        | inr (k, e) ↦ ground (arith, open-sealed k nonce full)
      ]
