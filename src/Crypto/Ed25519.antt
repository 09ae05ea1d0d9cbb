-- ===== src/Crypto/Ed25519.antt =====
-- src/crypto/ed25519.cpp. The EVP calls of OpenSSL that it makes are a parameter: a raw private key is
-- its seed of 32 bytes.
pub mod Verdict
use meshcore_cpp_decoder.Common.{
  ℕ, ◌≡◌, Bool, true, false, not, ◌&&◌, Option, none, some, ◌++◌, map, ◌==◌, length, Bytes, Text,
  IsBytes, text, Outcome, ok, throws, ◌>>=◌, ◌>>◌, throw_if, catch, range,
}
use meshcore_cpp_decoder.Hex.{hex_to_bytes, bytes_to_hex, to_upper}
use meshcore_cpp_decoder.Decoders.Words.{uint32_le}
use meshcore_cpp_decoder.Crypto.KeyStore.{text_eq}

pub record Ed25519Evp : Type 0 where
  -- Whether EVP_PKEY_new_raw_private_key returns a key for a seed, and EVP_PKEY_new_raw_public_key for a
  -- public key.
  pub raw_private_key : Bytes → Bool
  pub raw_public_key : Bytes → Bool
  -- EVP_PKEY_get_raw_public_key of the key of a seed; `none` where it does not return 1.
  pub get_raw_public_key : Bytes → Option Bytes
  -- Whether EVP_MD_CTX_new returns a context, and EVP_DigestSignInit and EVP_DigestVerifyInit return 1
  -- for a seed and for a public key.
  pub md_ctx_new : Bool
  pub digest_sign_init : Bytes → Bool
  pub digest_verify_init : Bytes → Bool
  -- EVP_DigestSign with a seed of a message; `none` where it does not return 1.
  pub digest_sign : Bytes → Bytes → Option Bytes
  -- Whether EVP_DigestVerify with a public key returns 1 for a signature and a message.
  pub digest_verify : Bytes → Bytes → Bytes → Bool

-- A public key has 32 bytes and a signature 64, and what a key signs is verified with its public key.
pub record Ed25519Laws (evp : Ed25519Evp) : Type 0 where
  pub sign-length : (seed message s : Bytes) → evp.digest_sign seed message ≡ some s → length s ≡ 64
  pub sign-IsBytes : (seed message s : Bytes) → evp.digest_sign seed message ≡ some s → IsBytes s
  pub verify-sign :
      (seed key message s : Bytes)
      → evp.get_raw_public_key seed ≡ some key
      → evp.digest_sign seed message ≡ some s
      → evp.digest_verify key s message ≡ true

-- `throw std::runtime_error(message)` where a call fails.
unfoldable pub or_throw : Text → Option Bytes → Outcome Bytes
or_throw what none = throws what
or_throw what (some bs) = ok bs

-- `Ed25519::constructAdvertSignedMessage`
unfoldable pub construct_advert_signed_message : Text → ℕ → Bytes → Outcome Bytes
construct_advert_signed_message public_key_hex timestamp app_data = do
  public_key ← hex_to_bytes public_key_hex
  ok (public_key ++ (uint32_le timestamp ++ app_data))

module _ (evp : Ed25519Evp) where
  -- `Ed25519::derivePublicKey`
  unfoldable pub derive_public_key : Text → Outcome Text
  unfolding or_throw
  derive_public_key private_key_hex = do
    bytes ← hex_to_bytes private_key_hex
    throw_if (not (length bytes == 64)) (text "Invalid private key length: expected 64 bytes")
    seed ← range bytes 0 32
    throw_if (not (evp.raw_private_key seed)) (text "Failed to create ED25519 key from seed")
    key ← or_throw (text "Failed to derive public key") (evp.get_raw_public_key seed)
    ok (bytes_to_hex key)

  -- `Ed25519::validateKeyPair`: texts are compared in upper case.
  unfoldable pub validate_key_pair : Text → Text → Outcome Bool
  unfolding derive_public_key
  validate_key_pair private_key_hex expected =
      catch
        (do
          derived ← derive_public_key private_key_hex
          ok (text_eq (map to_upper derived) (map to_upper expected)))
        (λ what. ok false)

  -- `Ed25519::sign`; the public key is not used.
  unfoldable pub sign : Text → Text → Text → Outcome Text
  unfolding or_throw
  sign message_hex private_key_hex public_key_hex = do
    bytes ← hex_to_bytes private_key_hex
    message ← hex_to_bytes message_hex
    throw_if (not (length bytes == 64)) (text "Invalid private key length: expected 64 bytes")
    seed ← range bytes 0 32
    throw_if (not (evp.raw_private_key seed)) (text "Failed to create ED25519 key")
    throw_if (not evp.md_ctx_new) (text "Failed to create MD context")
    throw_if (not (evp.digest_sign_init seed)) (text "Failed to init signing")
    signature ← or_throw (text "Failed to sign message") (evp.digest_sign seed message)
    ok (bytes_to_hex signature)

  -- The verdict on a signature, a message and a public key of any lengths.
  unfoldable pub verdict : Bytes → Bytes → Bytes → Bool
  verdict signature message key =
      length signature == 64
      && length key == 32
      && evp.raw_public_key key
      && evp.md_ctx_new
      && evp.digest_verify_init key
      && evp.digest_verify key signature message

  -- `Ed25519::verify`
  unfoldable pub verify : Text → Text → Text → Outcome Bool
  verify signature_hex message_hex public_key_hex =
      catch
        (do
          signature ← hex_to_bytes signature_hex
          message ← hex_to_bytes message_hex
          key ← hex_to_bytes public_key_hex
          ok (verdict signature message key))
        (λ what. ok false)

  -- `Ed25519::verifyAdvertisementSignature`
  unfoldable pub verify_advertisement_signature : Text → Text → ℕ → Text → Outcome Bool
  verify_advertisement_signature public_key_hex signature_hex timestamp app_data_hex =
      catch
        (do
          app_data ← hex_to_bytes app_data_hex
          message ← construct_advert_signed_message public_key_hex timestamp app_data
          verify signature_hex (bytes_to_hex message) public_key_hex)
        (λ what. ok false)
