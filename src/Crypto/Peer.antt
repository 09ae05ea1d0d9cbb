-- ===== src/Crypto/Peer.antt =====
-- include/meshcore/crypto/peer_crypto.h and src/crypto/peer_crypto.cpp: the messages between two nodes,
-- from the shared secret on; the key exchange is in Exchange.
pub mod RoundTrip
pub mod Exchange
pub mod Montgomery
pub mod Agreement
use meshcore_cpp_decoder.Common.{
  ℕ, ◌+◌, ◌*◌, ◌%◌, ◌^◌, not, ◌||◌, Option, none, some, ◌∷◌, ◌++◌, ltb, leb, ◌==◌, if◌then◌else◌,
  shr, low_bits, length, drop, Bytes, Text, text, Outcome, ok, ◌>>=◌, ◌>>◌, throw_if, get_or,
}
use meshcore_cpp_decoder.Hex.{hex_to_bytes}
use meshcore_cpp_decoder.Decoders.Words.{uint32_le, word_at}
use meshcore_cpp_decoder.Decoders.Advert.{until_nul}
use meshcore_cpp_decoder.Crypto.OpenSsl.{OpenSsl, aes_key}
use meshcore_cpp_decoder.Crypto.Channel.{mac_matches}
use meshcore_cpp_decoder.Encoder.Group.{pad}

pub record DecryptedTextMessage : Type 0 where
  pub timestamp : ℕ
  pub txt_type : ℕ
  pub attempt : ℕ
  pub message_text : Text

-- `(uint8_t)((txtType << 2) | (attempt & 3))`
unfoldable pub type_byte : ℕ → ℕ → ℕ
type_byte txt_type attempt = (txt_type * 2 ^ 2 + attempt % 4) % 256

-- What `decryptTextMessage` makes of the plaintext.
unfoldable pub message_of : Option Bytes → Option DecryptedTextMessage
message_of none = none
message_of (some plain) =
    if ltb (length plain) 5
    then none
    else some (record {
      timestamp = word_at plain 0;
      txt_type = shr (get_or plain 4) 2;
      attempt = low_bits (get_or plain 4) 2;
      message_text = until_nul (drop 5 plain);
    })

module _ (ssl : OpenSsl) where
  -- `PeerCrypto::encryptThenMac`
  unfoldable pub encrypt_then_mac : Text → Bytes → Outcome Bytes
  encrypt_then_mac secret_hex plain = do
    secret ← hex_to_bytes secret_hex
    throw_if (not (length secret == 32)) (text "secret must be 32 bytes")
    throw_if (not ssl.cipher_ctx_new) (text "cipher context")
    k ← aes_key secret
    let cipher = ssl.aes128_ecb_encrypt k (pad plain)
    let mac = ssl.hmac_sha256 secret cipher
    ok (get_or mac 0 ∷ get_or mac 1 ∷ cipher)

  -- `PeerCrypto::macThenDecrypt`
  unfoldable pub mac_then_decrypt : Text → Bytes → Outcome (Option Bytes)
  mac_then_decrypt secret_hex mac_and_cipher = do
    secret ← hex_to_bytes secret_hex
    if not (length secret == 32) || leb (length mac_and_cipher) 2 then ok none else (do
      let cipher = drop 2 mac_and_cipher
      agrees ← mac_matches ssl (ssl.hmac_sha256 secret cipher) mac_and_cipher
      if not agrees
          then ok none
          else if not ssl.cipher_ctx_new
          then ok none
          else (aes_key secret >>= (λ k. ok (some (ssl.aes128_ecb_decrypt k cipher)))))

  -- `PeerCrypto::buildTextMessagePayload`
  unfoldable pub build_text_message_payload : Text → ℕ → ℕ → ℕ → ℕ → Text → ℕ → Outcome Bytes
  build_text_message_payload secret_hex dest_hash src_hash timestamp attempt message txt_type = do
    mac_and_cipher ←
        encrypt_then_mac secret_hex (uint32_le timestamp ++ (type_byte txt_type attempt ∷ message))
    ok (dest_hash ∷ src_hash ∷ mac_and_cipher)

  -- `PeerCrypto::decryptTextMessage`
  unfoldable pub decrypt_text_message : Text → Bytes → Outcome (Option DecryptedTextMessage)
  decrypt_text_message secret_hex payload =
      if ltb (length payload) 20
      then ok none
      else (mac_then_decrypt secret_hex (drop 2 payload) >>= (λ plain. ok (message_of plain)))

  -- `PeerCrypto::calcAckHash`
  unfoldable pub calc_ack_hash : ℕ → ℕ → Text → Text → Outcome ℕ
  calc_ack_hash timestamp attempt message sender_public_key_hex = do
    pub_key ← hex_to_bytes sender_public_key_hex
    let hash = ssl.sha256 (uint32_le timestamp ++ ((attempt % 4) ∷ (message ++ pub_key)))
    ok (word_at hash 0)
