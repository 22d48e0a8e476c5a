-- ===== src/Security/Encryption.antt =====
-- security/encryption/encryption_service.go: AES-256-GCM of texts and bytes. The cipher, base64 and
-- SHA-256 are the parameter `Crypto`; the random bytes of an operation are its argument, none where
-- the reader fails.
pub mod RoundTrip
pub mod Examples
use nflow_runtime.Common.{
  ℕ, zero, suc, ◌+◌, ◌≡◌, ◌≤◌, Bool, true, false, Option, none, some, List, [], ◌∷◌, ◌++◌, length,
  take, drop, ltb, leb, ◌==◌, if◌then◌else◌,
}
use nflow_runtime.Security.{Bytes}

pub record Crypto : Type 0 where
  -- `gcm.Seal` and `gcm.Open` with this key and nonce, without additional data
  pub seal : (key nonce plaintext : Bytes) → Bytes
  pub unseal : (key nonce ciphertext : Bytes) → Option Bytes
  -- `gcm.NonceSize`
  pub nonce_size : ℕ
  pub encode : Bytes → Bytes
  pub decode : Bytes → Option Bytes
  pub sum256 : Bytes → Bytes

-- What is documented of them.
pub record CryptoLaws (c : Crypto) : Type 0 where
  pub unseal-seal : (key nonce s : Bytes) → c.unseal key nonce (c.seal key nonce s) ≡ some s
  pub length-seal : (key nonce s : Bytes) → length (c.seal key nonce s) ≡ length s + 16
  pub nonce : c.nonce_size ≡ 12
  pub decode-encode : (s : Bytes) → c.decode (c.encode s) ≡ some s
  pub decode-nil : c.decode [] ≡ some []
  pub length-sum256 : (s : Bytes) → length (c.sum256 s) ≡ 32

pub data EncryptionError : Type 0 where
  invalid_key_size nonce_failed invalid_base64 too_short decryption_failed : EncryptionError

pub data Result (A : Type 0) : Type 0 where
  failed : EncryptionError → Result A
  done : A → Result A

pub record EncryptionService : Type 0 where
  pub key : Bytes
  pub encrypt_count : ℕ
  pub decrypt_count : ℕ

unfoldable pub new_encryption_service_with_bytes : Bytes → Result EncryptionService
new_encryption_service_with_bytes key =
    if length key == 32
    then done (record { key = key; encrypt_count = 0; decrypt_count = 0 })
    else failed invalid_key_size

unfoldable pub reset_metrics : EncryptionService → EncryptionService
reset_metrics es = record es { encrypt_count = 0; decrypt_count = 0 }

-- `RotateKey`
unfoldable pub rotate_key : EncryptionService → Bytes → Result EncryptionService
unfolding new_encryption_service_with_bytes
rotate_key es new_key = new_encryption_service_with_bytes new_key

unfoldable pub count_encrypt : EncryptionService → EncryptionService
count_encrypt es = record es { encrypt_count = es.encrypt_count + 1 }

unfoldable pub count_decrypt : EncryptionService → EncryptionService
count_decrypt es = record es { decrypt_count = es.decrypt_count + 1 }

module _ (c : Crypto) where
  -- The bytes of a key that is given as a text.
  unfoldable pub key_bytes : Bytes → Bytes
  key_bytes key = elim (c.decode key) [ none ↦ key | some decoded ↦ decoded ]

  unfoldable pub new_encryption_service : Bytes → Result EncryptionService
  unfolding key_bytes new_encryption_service_with_bytes
  new_encryption_service key =
      let raw = key_bytes key in
      if length raw == 32
      then new_encryption_service_with_bytes raw
      else if length raw == 0
      then failed invalid_key_size
      else new_encryption_service_with_bytes (c.sum256 raw)

  unfoldable pub encrypt :
      EncryptionService → (random : Option Bytes) → Bytes → Result (EncryptionService × Bytes)
  unfolding count_encrypt
  encrypt es random [] = done (es, [])
  encrypt es random (b ∷ bs) = elim random [
    | none ↦ failed nonce_failed
    | some nonce ↦ done (count_encrypt es, c.encode (nonce ++ c.seal es.key nonce (b ∷ bs)))
  ]

  -- What `Decrypt` and `DecryptBytes` do with the bytes.
  unfoldable pub unseal_data : EncryptionService → Bytes → Result (EncryptionService × Bytes)
  unfolding count_decrypt
  unseal_data es data_bytes =
      let opened = c.unseal es.key (take c.nonce_size data_bytes) (drop c.nonce_size data_bytes) in
      if ltb (length data_bytes) c.nonce_size then failed too_short else elim opened [
        | none ↦ failed decryption_failed
        | some plaintext ↦ done (count_decrypt es, plaintext)
      ]

  unfoldable pub decrypt : EncryptionService → Bytes → Result (EncryptionService × Bytes)
  unfolding unseal_data
  decrypt es [] = done (es, [])
  decrypt es (b ∷ bs) = elim (c.decode (b ∷ bs)) [
    | none ↦ failed invalid_base64
    | some data_bytes ↦ unseal_data es data_bytes
  ]

  unfoldable pub encrypt_bytes :
      EncryptionService → (random : Option Bytes) → Bytes → Result (EncryptionService × Bytes)
  unfolding count_encrypt
  encrypt_bytes es random [] = done (es, [])
  encrypt_bytes es random (b ∷ bs) = elim random [
    | none ↦ failed nonce_failed
    | some nonce ↦ done (count_encrypt es, nonce ++ c.seal es.key nonce (b ∷ bs))
  ]

  unfoldable pub decrypt_bytes : EncryptionService → Bytes → Result (EncryptionService × Bytes)
  unfolding unseal_data
  decrypt_bytes es [] = done (es, [])
  decrypt_bytes es (b ∷ bs) = unseal_data es (b ∷ bs)

  unfoldable pub is_encrypted : Bytes → Bool
  is_encrypted s = elim (c.decode s) [ none ↦ false | some decoded ↦ leb 28 (length decoded) ]

  -- `GenerateKeyString`, of the random bytes
  unfoldable pub generate_key_string : (random : Option Bytes) → Option Bytes
  generate_key_string random = elim random [ none ↦ none | some key ↦ some (c.encode key) ]
