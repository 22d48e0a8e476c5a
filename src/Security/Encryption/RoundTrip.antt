-- ===== src/Security/Encryption/RoundTrip.antt =====
-- What is encrypted is decrypted to what it was.
use nflow_runtime.Common.{
  ℕ, ◌+◌, ◌≡◌, ◌<◌, refl, sym, ap, ◌∙◌, ◌⊎◌, inl, inr, true, false, Option, none, some, [], ◌∷◌,
  ◌++◌, length, length-append, take, drop, ltb, ◌==◌, arith, Bool-cases,
}
use nflow_runtime.Security.{Bytes}
use nflow_runtime.Security.Encryption.{
  Crypto, CryptoLaws, EncryptionError, Result, failed, done, invalid_key_size, EncryptionService,
  new_encryption_service_with_bytes, new_encryption_service, key_bytes, count_encrypt,
  count_decrypt, encrypt, decrypt, unseal_data, encrypt_bytes, decrypt_bytes, is_encrypted,
  generate_key_string,
}

take-append : (xs ys : Bytes) → take (length xs) (xs ++ ys) ≡ xs
take-append [] ys = refl
take-append (x ∷ xs) ys = ap (λ zs. x ∷ zs) (take-append xs ys)

drop-append : (xs ys : Bytes) → drop (length xs) (xs ++ ys) ≡ ys
drop-append [] ys = refl
drop-append (x ∷ xs) ys = drop-append xs ys

List-cases : (s : Bytes) → (s ≡ []) ⊎ ((b : ℕ) × (bs : Bytes) × (s ≡ b ∷ bs))
List-cases [] = inl refl
List-cases (b ∷ bs) = inr (b, bs, refl)

pub Result-cases :
    {A : Type 0} (r : Result A)
    → ((e : EncryptionError) × (r ≡ failed e)) ⊎ ((a : A) × (r ≡ done a))
Result-cases (failed e) = inl (e, refl)
Result-cases (done a) = inr (a, refl)

module _ (c : Crypto) where
  -- The service that is left has the same key.
  pub encrypt-key :
      (es es1 : EncryptionService) (random : Option Bytes) (s ciphertext : Bytes)
      → encrypt c es random s ≡ done (es1, ciphertext)
      → es1.key ≡ es.key
  unfolding encrypt count_encrypt
  encrypt-key es es1 random [] ciphertext e =
      let same : es ≡ es1 = ground (arith, e) in rw (same) refl
  encrypt-key es es1 none (b ∷ bs) ciphertext e = absurd (ground (arith, e))
  encrypt-key es es1 (some nonce) (b ∷ bs) ciphertext e =
      let same : count_encrypt es ≡ es1 = ground (arith, e) in
      ap (λ (x : EncryptionService). x.key) (sym same)

abbrev fresh : Bytes → EncryptionService
fresh key = record { key = key; encrypt_count = 0; decrypt_count = 0 }

module _ (c : Crypto) (laws : CryptoLaws c) where
  unseal_data-sealed :
      (es : EncryptionService) (nonce s : Bytes)
      → length nonce ≡ 12
      → unseal_data c es (nonce ++ c.seal es.key nonce s) ≡ done (count_decrypt es, s)
  unfolding unseal_data
  unseal_data-sealed es nonce s sized =
      let size : c.nonce_size ≡ length nonce = laws.nonce ∙ sym sized in
      let sealed = c.seal es.key nonce s in
      let long : ltb (length (nonce ++ sealed)) (length nonce) ≡ false =
        ground (arith, length-append nonce sealed) in
      rw
        (
          size,
          take-append nonce sealed,
          drop-append nonce sealed,
          laws.unseal-seal es.key nonce s,
          long,
        )
        refl

  length-sealed :
      (key nonce s : Bytes)
      → length nonce ≡ 12
      → length (nonce ++ c.seal key nonce s) ≡ length s + 28
  length-sealed key nonce s sized =
      omega (arith, sized, length-append nonce (c.seal key nonce s), laws.length-seal key nonce s)

  -- The encoding of bytes is empty only if they are.
  decrypt-encode :
      (es : EncryptionService) (s : Bytes)
      → 0 < length s
      → decrypt c es (c.encode s) ≡ unseal_data c es s
  unfolding decrypt
  decrypt-encode es s long = elim (List-cases (c.encode s)) [
    | inl e ↦
        let empty : s ≡ [] = ground (arith, laws.decode-nil, laws.decode-encode s, ap c.decode e) in
        absurd (ground (arith, long, ap length empty))
    | inr (d, ds, e) ↦
        let read : c.decode (d ∷ ds) ≡ some s = ap c.decode (sym e) ∙ laws.decode-encode s in
        rw (e) (rw (decrypt, read) refl)
  ]

  decrypt_bytes-long :
      (es : EncryptionService) (s : Bytes)
      → 0 < length s
      → decrypt_bytes c es s ≡ unseal_data c es s
  unfolding decrypt_bytes
  decrypt_bytes-long es [] long = absurd (ground (arith, long))
  decrypt_bytes-long es (b ∷ bs) long = refl

  unseal_data-same :
      (es es2 : EncryptionService) (nonce s : Bytes)
      → length nonce ≡ 12
      → es2.key ≡ es.key
      → unseal_data c es2 (nonce ++ c.seal es.key nonce s) ≡ done (count_decrypt es2, s)
  unseal_data-same es es2 nonce s sized same = rw⁻¹ (same) (unseal_data-sealed es2 nonce s sized)

  sealed-long : (key nonce s : Bytes) → length nonce ≡ 12 → 0 < length (nonce ++ c.seal key nonce s)
  sealed-long key nonce s sized = omega (arith, length-sealed key nonce s sized)

  -- What `Encrypt` gives, with a nonce of 12 bytes, `Decrypt` of any service with the same key turns
  -- back into the text, also where the text is empty.
  pub decrypt-encrypt :
      (es es1 es2 : EncryptionService) (nonce s ciphertext : Bytes)
      → length nonce ≡ 12
      → encrypt c es (some nonce) s ≡ done (es1, ciphertext)
      → es2.key ≡ es.key
      → (es3 : EncryptionService) × (decrypt c es2 ciphertext ≡ done (es3, s))
  unfolding encrypt decrypt
  decrypt-encrypt es es1 es2 nonce [] ciphertext sized e same =
      let nothing : [] ≡ ciphertext = ground (arith, e) in (es2, rw⁻¹ (nothing) refl)
  decrypt-encrypt es es1 es2 nonce (b ∷ bs) ciphertext sized e same =
      let sealed = nonce ++ c.seal es.key nonce (b ∷ bs) in
      let written : c.encode sealed ≡ ciphertext = ground (arith, e) in
      let opened : decrypt c es2 (c.encode sealed) ≡ done (count_decrypt es2, b ∷ bs) =
        decrypt-encode es2 sealed (sealed-long es.key nonce (b ∷ bs) sized)
        ∙ unseal_data-same es es2 nonce (b ∷ bs) sized same in
      (count_decrypt es2, rw⁻¹ (written) opened)

  -- So do the operations on bytes.
  pub decrypt_bytes-encrypt_bytes :
      (es es1 es2 : EncryptionService) (nonce s ciphertext : Bytes)
      → length nonce ≡ 12
      → encrypt_bytes c es (some nonce) s ≡ done (es1, ciphertext)
      → es2.key ≡ es.key
      → (es3 : EncryptionService) × (decrypt_bytes c es2 ciphertext ≡ done (es3, s))
  unfolding encrypt_bytes decrypt_bytes
  decrypt_bytes-encrypt_bytes es es1 es2 nonce [] ciphertext sized e same =
      let nothing : [] ≡ ciphertext = ground (arith, e) in (es2, rw⁻¹ (nothing) refl)
  decrypt_bytes-encrypt_bytes es es1 es2 nonce (b ∷ bs) ciphertext sized e same =
      let sealed = nonce ++ c.seal es.key nonce (b ∷ bs) in
      let written : sealed ≡ ciphertext = ground (arith, e) in
      let opened : decrypt_bytes c es2 sealed ≡ done (count_decrypt es2, b ∷ bs) =
        decrypt_bytes-long es2 sealed (sealed-long es.key nonce (b ∷ bs) sized)
        ∙ unseal_data-same es es2 nonce (b ∷ bs) sized same in
      (count_decrypt es2, rw⁻¹ (written) opened)

  -- `IsEncrypted` holds of what `Encrypt` gives for a text that is not empty.
  pub is_encrypted-encrypt :
      (es es1 : EncryptionService) (nonce ciphertext : Bytes) (b : ℕ) (bs : Bytes)
      → length nonce ≡ 12
      → encrypt c es (some nonce) (b ∷ bs) ≡ done (es1, ciphertext)
      → is_encrypted c ciphertext ≡ true
  unfolding encrypt is_encrypted
  is_encrypted-encrypt es es1 nonce ciphertext b bs sized e =
      let sealed = nonce ++ c.seal es.key nonce (b ∷ bs) in
      let written : c.encode sealed ≡ ciphertext = ground (arith, e) in
      rw⁻¹ (written) (
        rw (is_encrypted, laws.decode-encode sealed)
          (ground (arith, length-sealed es.key nonce (b ∷ bs) sized)))

  -- A key that `GenerateKeyString` made of 32 random bytes is the key of the service that is made
  -- with it.
  pub new_encryption_service-generate_key_string :
      (random key : Bytes)
      → length random ≡ 32
      → generate_key_string c (some random) ≡ some key
      → new_encryption_service c key
        ≡ done (record { key = random; encrypt_count = 0; decrypt_count = 0 })
  unfolding new_encryption_service key_bytes generate_key_string new_encryption_service_with_bytes
  new_encryption_service-generate_key_string random key sized e =
      let written : c.encode random ≡ key = ground (arith, e) in
      let raw : key_bytes c (c.encode random) ≡ random =
        rw (key_bytes, laws.decode-encode random) refl in
      rw⁻¹ (written) (rw (raw, sized) refl)

  -- A service is refused exactly for a key without bytes, and any other has a key of 32 bytes.
  pub new_encryption_service-sized :
      (key : Bytes)
      → ((key_bytes c key ≡ []) × (new_encryption_service c key ≡ failed invalid_key_size))
        ⊎ ((es : EncryptionService) × (new_encryption_service c key ≡ done es)
            × (length es.key ≡ 32))
  unfolding new_encryption_service new_encryption_service_with_bytes
  new_encryption_service-sized key = elim (Bool-cases (length (key_bytes c key) == 32)) [
    | inl e ↦ inr (fresh (key_bytes c key), rw (e) refl, ground (arith, e))
    | inr e ↦ elim (List-cases (key_bytes c key)) [
      | inl f ↦ inl (f, rw (f) refl)
      | inr (b, bs, f) ↦
          let hashed = laws.length-sum256 (key_bytes c key) in
          let long : (length (key_bytes c key) == 0) ≡ false = ground (arith, ap length f) in
          inr (fresh (c.sum256 (key_bytes c key)), rw (e, long, hashed) refl, hashed)
    ]
  ]
