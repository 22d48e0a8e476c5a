-- ===== src/Security/Interceptor/Metadata.antt =====
-- The entries of the metadata.
use nflow_runtime.Common.{
  ℕ, ◌≡◌, refl, sym, ◌∙◌, inl, inr, Option, none, some, List, [], ◌∷◌, length, arith, All,
}
use nflow_runtime.Security.{Bytes}
use nflow_runtime.Security.Encryption.{
  Crypto, CryptoLaws, EncryptionService, done, encrypt, decrypt,
}
use nflow_runtime.Security.Encryption.RoundTrip.{decrypt-encrypt, encrypt-key, Result-cases}
use nflow_runtime.Security.Interceptor.{Detection, Interceptor, count_encrypted, encrypt_detections}

-- Where the reader of random bytes works, it gives a nonce of 12 bytes.
abbrev pub SizedNonce : Option Bytes → Type 0
SizedNonce none = Unit
SizedNonce (some nonce) = length nonce ≡ 12

module _ (c : Crypto) (laws : CryptoLaws c) where
  decrypt-encrypt_any :
      (es es1 es2 : EncryptionService) (random : Option Bytes) (s ciphertext : Bytes)
      → SizedNonce random
      → encrypt c es random s ≡ done (es1, ciphertext)
      → es2.key ≡ es.key
      → (es3 : EncryptionService) × (decrypt c es2 ciphertext ≡ done (es3, s))
  unfolding encrypt decrypt
  decrypt-encrypt_any es es1 es2 none [] ciphertext sized e same =
      let nothing : [] ≡ ciphertext = ground (arith, e) in (es2, rw⁻¹ (nothing) refl)
  decrypt-encrypt_any es es1 es2 none (b ∷ bs) ciphertext sized e same = absurd (ground (arith, e))
  decrypt-encrypt_any es es1 es2 (some nonce) s ciphertext sized e same =
      decrypt-encrypt c laws es es1 es2 nonce s ciphertext sized e same

  -- The service decrypts what the metadata says is encrypted to the value that was detected.
  abbrev pub Opens : EncryptionService → Detection → Type 0
  Opens es d = (es1 : EncryptionService) × (decrypt c es d.encrypted ≡ done (es1, d.value))

  module _ {R : Type 0} (random : ℕ → Option Bytes) (sized : (n : ℕ) → SizedNonce (random n))
      (es : EncryptionService) where
    -- Each entry of the metadata is decrypted, by any service with the key of the interceptor's, to
    -- the value that was detected, whichever reads of random bytes fail.
    pub encrypt_detections-Opens :
        (ds : List Detection) (sdi : Interceptor R)
        → es.key ≡ sdi.encryption_service.key
        → All (Opens es) (encrypt_detections c sdi random ds).1
    unfolding encrypt_detections count_encrypted
    encrypt_detections-Opens [] sdi same = tt
    encrypt_detections-Opens (d ∷ ds) sdi same =
        elim (Result-cases (encrypt c sdi.encryption_service (random (length ds)) d.value)) [
          | inl (e, f) ↦ rw (encrypt_detections, f) (encrypt_detections-Opens ds sdi same)
          | inr ((service, sealed), f) ↦
              let opened =
                decrypt-encrypt_any sdi.encryption_service service es (random (length ds)) d.value
                  sealed (sized (length ds)) f same in
              let kept =
                encrypt-key c sdi.encryption_service service (random (length ds)) d.value sealed
                  f in
              rw (encrypt_detections, f)
                (
                  opened,
                  encrypt_detections-Opens ds (count_encrypted sdi service) (same ∙ sym kept),
                )
        ]
