-- ===== src/Crypto/Channel.antt =====
-- include/meshcore/crypto/channel_crypto.h and src/crypto/channel_crypto.cpp.
pub mod Parse
pub mod Safety
use meshcore_cpp_decoder.Common.{
  ℕ, ◌-◌, Bool, true, false, not, ◌&&◌, ◌||◌, Option, none, some, [], ◌∷◌, ◌++◌, ltb, leb, ◌==◌,
  if◌then◌else◌, length, drop, replicate, Bytes, Text, text, Outcome, ok, fault, ◌>>=◌, ◌>>◌, catch,
  read, get_or,
}
use meshcore_cpp_decoder.Hex.{byte_to_hex, hex_to_bytes}
use meshcore_cpp_decoder.Decoders.Words.{word_at}
use meshcore_cpp_decoder.Decoders.Advert.{until_nul}
use meshcore_cpp_decoder.Crypto.OpenSsl.{OpenSsl, aes_key}

pub record DecryptionResult : Type 0 where
  pub success : Bool
  pub timestamp : ℕ
  pub flags : ℕ
  pub sender : Option Text
  pub message : Text
  pub error : Text

unfoldable pub no_result : Text → DecryptionResult
no_result e = record {
  success = false;
  timestamp = 0;
  flags = 0;
  sender = none;
  message = [];
  error = e;
}

-- `vector<uint8_t> channelSecret(32, 0)` and `std::copy` of the key to its front: a key of more than
-- 32 bytes is written past the vector's end.
unfoldable pub channel_secret : Bytes → Outcome Bytes
channel_secret key =
    if leb (length key) 32 then ok (key ++ replicate (32 - length key) 0) else fault

unfoldable pub has_char : ℕ → Text → Bool
has_char c [] = false
has_char c (d ∷ s) = d == c || has_char c s

-- `find(": ")`: the text before its first occurrence, and the text behind it.
unfoldable pub split_colon : Text → Option (Text × Text)
split_colon [] = none
split_colon (c ∷ []) = none
split_colon (c ∷ d ∷ s) =
    let rest : Option (Text × Text) = elim (split_colon (d ∷ s)) [
      | none ↦ none
      | some (a, b) ↦ some (c ∷ a, b)
    ] in
    if c == b':' && d == b' ' then some ([], s) else rest

-- The test of `potentialSender`: not empty, fewer than 50 bytes, no colon and no bracket.
unfoldable pub is_sender : Text → Bool
is_sender s =
    ltb 0 (length s)
    && ltb (length s) 50
    && not (has_char b':' s)
    && not (has_char b'[' s)
    && not (has_char b']' s)

-- What a colon found in the text means.
unfoldable pub sender_at : Text → Option (Text × Text) → Option Text × Text
sender_at s none = (none, s)
sender_at s (some (front, back)) = if is_sender front then (some front, back) else (none, s)

-- The sender and the message in "sender: message".
unfoldable pub parse_sender : Text → Option Text × Text
parse_sender s = sender_at s (split_colon s)

-- What follows the decryption: timestamp, flags and text.
unfoldable pub parse_plain : Bytes → DecryptionResult
parse_plain plain =
    if ltb (length plain) 5
    then no_result (text "Decrypted content too short")
    else let (who, what) = parse_sender (until_nul (drop 5 plain)) in
      record {
        success = true;
        timestamp = word_at plain 0;
        flags = get_or plain 4;
        sender = who;
        message = what;
        error = [];
      }

module _ (ssl : OpenSsl) where
  -- The comparison of the first two bytes of the HMAC with the packet's; `||` reads the second only
  -- if the first agrees.
  unfoldable pub mac_matches : Bytes → Bytes → Outcome Bool
  mac_matches hmac mac = do
    m0 ← read mac 0
    if get_or hmac 0 == m0 then (read mac 1 >>= (λ m1. ok (get_or hmac 1 == m1))) else ok false

  -- The `try` block of `decryptGroupTextMessage`.
  unfoldable pub decrypt_body : Text → Text → Text → Outcome DecryptionResult
  decrypt_body ciphertext_hex mac_hex key_hex = do
    key ← hex_to_bytes key_hex
    mac ← hex_to_bytes mac_hex
    cipher ← hex_to_bytes ciphertext_hex
    secret ← channel_secret key
    agrees ← mac_matches (ssl.hmac_sha256 secret cipher) mac
    if not agrees
        then ok (no_result (text "MAC verification failed"))
        else if not ssl.cipher_ctx_new
        then ok (no_result (text "Failed to create cipher context"))
        else (aes_key key >>= (λ k. ok (parse_plain (ssl.aes128_ecb_decrypt k cipher))))

  -- `ChannelCrypto::decryptGroupTextMessage`
  unfoldable pub decrypt_group_text_message : Text → Text → Text → Outcome DecryptionResult
  decrypt_group_text_message ciphertext_hex mac_hex key_hex =
      catch (decrypt_body ciphertext_hex mac_hex key_hex) (λ what. ok (no_result what))

  -- The `try` block of `decryptRaw`.
  unfoldable pub decrypt_raw_body : Text → Text → Text → Outcome (Option Bytes)
  decrypt_raw_body ciphertext_hex mac_hex key_hex = do
    key ← hex_to_bytes key_hex
    mac ← hex_to_bytes mac_hex
    cipher ← hex_to_bytes ciphertext_hex
    if not (length key == 16) || ltb (length mac) 2 || length cipher == 0 then ok none else (do
      secret ← channel_secret key
      agrees ← mac_matches (ssl.hmac_sha256 secret cipher) mac
      if not agrees || not ssl.cipher_ctx_new
          then ok none
          else (aes_key key >>= (λ k. ok (some (ssl.aes128_ecb_decrypt k cipher)))))

  -- `ChannelCrypto::decryptRaw`
  unfoldable pub decrypt_raw : Text → Text → Text → Outcome (Option Bytes)
  decrypt_raw ciphertext_hex mac_hex key_hex =
      catch (decrypt_raw_body ciphertext_hex mac_hex key_hex) (λ what. ok none)

  -- `ChannelCrypto::calculateChannelHash`
  unfoldable pub calculate_channel_hash : Text → Outcome Text
  calculate_channel_hash secret_key_hex = do
    secret ← hex_to_bytes secret_key_hex
    ok (byte_to_hex (get_or (ssl.sha256 secret) 0))
