-- ===== src/Crypto/OpenSsl.antt =====
-- The calls of OpenSSL that the program makes, as a parameter. The record holds the operations; the
-- laws state what OpenSSL documents of them.
use meshcore_cpp_decoder.Common.{◌%◌, ◌≡◌, Bool, length, Bytes, IsBytes, Outcome, range}

pub record OpenSsl : Type 0 where
  -- SHA256(data)
  pub sha256 : Bytes → Bytes
  -- HMAC(EVP_sha256(), key, data)
  pub hmac_sha256 : Bytes → Bytes → Bytes
  -- EVP_EncryptUpdate and EVP_EncryptFinal_ex with EVP_aes_128_ecb and no padding, on a key of 16
  -- bytes; and the same of decryption.
  pub aes128_ecb_encrypt : Bytes → Bytes → Bytes
  pub aes128_ecb_decrypt : Bytes → Bytes → Bytes
  -- Whether EVP_CIPHER_CTX_new returns a context.
  pub cipher_ctx_new : Bool

-- Digests of 32 bytes; decryption undoes encryption on whole blocks, which keeps the length.
pub record Laws (o : OpenSsl) : Type 0 where
  pub sha256-length : (d : Bytes) → length (o.sha256 d) ≡ 32
  pub sha256-IsBytes : (d : Bytes) → IsBytes (o.sha256 d)
  pub hmac-length : (k d : Bytes) → length (o.hmac_sha256 k d) ≡ 32
  pub hmac-IsBytes : (k d : Bytes) → IsBytes (o.hmac_sha256 k d)
  pub encrypt-length :
      (k d : Bytes)
      → length k ≡ 16
      → length d % 16 ≡ 0
      → length (o.aes128_ecb_encrypt k d) ≡ length d
  pub encrypt-IsBytes : (k d : Bytes) → IsBytes (o.aes128_ecb_encrypt k d)
  pub decrypt-encrypt :
      (k d : Bytes)
      → length k ≡ 16
      → IsBytes d
      → length d % 16 ≡ 0
      → o.aes128_ecb_decrypt k (o.aes128_ecb_encrypt k d) ≡ d

-- EVP_EncryptInit_ex and EVP_DecryptInit_ex read 16 bytes of key.
unfoldable pub aes_key : Bytes → Outcome Bytes
aes_key key = range key 0 16
