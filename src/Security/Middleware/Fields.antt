-- ===== src/Security/Middleware/Fields.antt =====
-- Fields that are encrypted and decrypted by the middleware.
use nflow_runtime.Common.{
  ℕ, ◌≡◌, refl, inl, inr, true, false, Option, some, ◌∷◌, length, String, arith, Option-cases,
}
use nflow_runtime.Security.{Bytes}
use nflow_runtime.Security.Encryption.{
  Crypto, CryptoLaws, EncryptionService, done, encrypt, is_encrypted,
}
use nflow_runtime.Security.Encryption.RoundTrip.{
  decrypt-encrypt, is_encrypted-encrypt, encrypt-key, Result-cases,
}
use nflow_runtime.Security.Middleware.{
  SecurityMiddleware, is_field, with_service, with_result, encrypt_field, decrypt_field,
}

module _ {R : Type 0} (c : Crypto) (laws : CryptoLaws c) where
  decrypt_field-sealed :
      (sm : SecurityMiddleware R) (es es1 es2 : EncryptionService) (nonce sealed : Bytes) (b : ℕ)
      (bs : Bytes)
      → length nonce ≡ 12
      → encrypt c es (some nonce) (b ∷ bs) ≡ done (es1, sealed)
      → es2.key ≡ es.key
      → sm.encryption ≡ some es2
      → (sm2 : SecurityMiddleware R) × (decrypt_field c sm sealed ≡ done (sm2, b ∷ bs))
  unfolding decrypt_field with_result
  decrypt_field-sealed sm es es1 es2 nonce sealed b bs sized e same there =
      let (es3, opened) = decrypt-encrypt c laws es es1 es2 nonce (b ∷ bs) sealed sized e same in
      let marked = is_encrypted-encrypt c laws es es1 nonce sealed b bs sized e in
      (with_service sm es3, ground (arith, there, marked, opened))

  -- A field that the configuration lists, encrypted with a nonce of 12 bytes and not empty, is
  -- decrypted by the middleware that is left to what it was.
  pub decrypt_field-encrypt_field :
      (sm sm1 : SecurityMiddleware R) (es : EncryptionService) (nonce sealed : Bytes)
      (name : String) (b : ℕ) (bs : Bytes)
      → sm.encryption ≡ some es
      → is_field name sm.config.always_encrypt_fields ≡ true
      → length nonce ≡ 12
      → encrypt_field c sm (some nonce) name (b ∷ bs) ≡ done (sm1, sealed)
      → (sm2 : SecurityMiddleware R) × (decrypt_field c sm1 sealed ≡ done (sm2, b ∷ bs))
  unfolding encrypt_field with_result with_service
  decrypt_field-encrypt_field sm sm1 es nonce sealed name b bs there listed sized e =
      elim (Result-cases (encrypt c es (some nonce) (b ∷ bs))) [
        | inl (error, f) ↦ absurd (ground (arith, e, there, listed, f))
        | inr ((es1, value), f) ↦
            let left : with_service sm es1 ≡ sm1 = ground (arith, e, there, listed, f) in
            let same : value ≡ sealed = ground (arith, e, there, listed, f) in
            let opened =
              decrypt_field-sealed (with_service sm es1) es es1 es1 nonce value b bs sized f
                (encrypt-key c es es1 (some nonce) (b ∷ bs) value f) refl in
            rw⁻¹ (left, same) opened
      ]

  -- A field that the configuration does not list, and whose value does not look encrypted, passes
  -- unchanged through both.
  pub decrypt_field-plain :
      (sm : SecurityMiddleware R) (random : Option Bytes) (name : String) (value : Bytes)
      → is_field name sm.config.always_encrypt_fields ≡ false
      → is_encrypted c value ≡ false
      → (encrypt_field c sm random name value ≡ done (sm, value))
        × (decrypt_field c sm value ≡ done (sm, value))
  unfolding encrypt_field decrypt_field
  decrypt_field-plain sm random name value unlisted plain = elim (Option-cases sm.encryption) [
    | inl e ↦ (ground (arith, e), ground (arith, e))
    | inr (es, e) ↦ (ground (arith, e, unlisted), ground (arith, e, plain))
  ]
