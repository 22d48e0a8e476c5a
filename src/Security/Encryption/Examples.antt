-- ===== src/Security/Encryption/Examples.antt =====
-- The theorems about encryption with a cipher that puts sixteen bytes before the text.
use nflow_runtime.Common.{◌≡◌, refl, some, [], ◌∷◌, ◌++◌, drop, arith}
use nflow_runtime.Security.{Bytes}
use nflow_runtime.Security.Encryption.{
  Crypto, CryptoLaws, done, EncryptionService, count_encrypt, encrypt, decrypt,
}
use nflow_runtime.Security.Encryption.RoundTrip.{decrypt-encrypt}

abbrev pub sixteen : Bytes
sixteen = 1 ∷ 2 ∷ 3 ∷ 4 ∷ 5 ∷ 6 ∷ 7 ∷ 8 ∷ 1 ∷ 2 ∷ 3 ∷ 4 ∷ 5 ∷ 6 ∷ 7 ∷ 8 ∷ []

abbrev pub twelve : Bytes
twelve = 9 ∷ 8 ∷ 7 ∷ 6 ∷ 5 ∷ 4 ∷ 3 ∷ 2 ∷ 1 ∷ 0 ∷ 1 ∷ 2 ∷ []

abbrev pub toy : Crypto
toy = record {
  seal = λ key nonce s. sixteen ++ s;
  unseal = λ key nonce s. some (drop 16 s);
  nonce_size = 12;
  encode = λ s. s;
  decode = λ s. some s;
  sum256 = λ s. sixteen ++ sixteen;
}

pub toy-laws : CryptoLaws toy
toy-laws = record {
  unseal-seal = λ key nonce s. refl;
  length-seal = λ key nonce s. omega arith;
  nonce = refl;
  decode-encode = λ s. refl;
  decode-nil = refl;
  length-sum256 = λ s. refl;
}

abbrev pub service : EncryptionService
service = record { key = sixteen ++ sixteen; encrypt_count = 0; decrypt_count = 0 }

abbrev counted : EncryptionService
counted = record service { encrypt_count = 1 }

decrypt-encrypt_example :
    (es : EncryptionService) × (decrypt toy counted (twelve ++ sixteen ++ (65 ∷ []))
      ≡ done (es, 65 ∷ []))
unfolding encrypt count_encrypt
decrypt-encrypt_example =
    decrypt-encrypt toy toy-laws service counted counted twelve (65 ∷ [])
      (twelve ++ sixteen ++ (65 ∷ [])) refl refl refl
