-- ===== src/Decoders/GroupText.antt =====
-- src/decoder/payload_decoders/group_text.cpp, `decode`.
pub mod Safety
use meshcore_cpp_decoder.Common.{
  ◌-◌, ◌&&◌, Option, none, some, List, [], ◌∷◌, ltb, if◌then◌else◌, length, Bytes, Text, text,
  Outcome, ok, throws, ◌>>=◌, ◌>>◌, read, range,
}
use meshcore_cpp_decoder.Hex.{byte_to_hex, bytes_to_hex}
use meshcore_cpp_decoder.Enums.{group_text}
use meshcore_cpp_decoder.Payloads.{GroupTextPayload, GroupTextDecrypted, valid_base, failed_base}
use meshcore_cpp_decoder.Crypto.OpenSsl.{OpenSsl}
use meshcore_cpp_decoder.Crypto.Channel.{DecryptionResult, decrypt_group_text_message}
use meshcore_cpp_decoder.Crypto.KeyStore.{MeshCoreKeyStore, has_channel_key, get_channel_keys}

unfoldable pub failed : GroupTextPayload
failed = record {
  base = failed_base group_text (text "GroupText payload too short");
  channel_hash = [];
  cipher_mac = [];
  ciphertext = [];
  ciphertext_length = 0;
  decrypted = none;
}

unfoldable pub decrypted_of : DecryptionResult → GroupTextDecrypted
decrypted_of r = record {
  timestamp = r.timestamp;
  flags = r.flags;
  sender = r.sender;
  message = r.message;
}

module _ (ssl : OpenSsl) where
  -- The loop over the keys ends at the first that decrypts the message.
  unfoldable pub try_keys : Text → Text → List Text → Outcome (Option GroupTextDecrypted)
  try_keys cipher mac [] = ok none
  try_keys cipher mac (key ∷ keys) = do
    result ← decrypt_group_text_message ssl cipher mac key
    let rest = try_keys cipher mac keys
    if result.success then ok (some (decrypted_of result)) else rest

  -- `if (keyStore && keyStore->hasChannelKey(...))`
  unfoldable pub decrypt_with :
      Option MeshCoreKeyStore → Text → Text → Text → Outcome (Option GroupTextDecrypted)
  decrypt_with none channel_hash cipher mac = ok none
  decrypt_with (some store) channel_hash cipher mac =
      if has_channel_key store channel_hash
      then try_keys cipher mac (get_channel_keys store channel_hash)
      else ok none

  -- `GroupTextPayloadDecoder::decode`. Nothing in its `try` block throws: `decryptGroupTextMessage`
  -- catches what it throws.
  unfoldable pub decode : Bytes → Option MeshCoreKeyStore → Outcome GroupTextPayload
  decode payload key_store = if ltb (length payload) 3 then ok failed else do
    hash ← read payload 0
    mac ← range payload 1 2
    cipher ← range payload 3 (length payload - 3)
    found ← decrypt_with key_store (byte_to_hex hash) (bytes_to_hex cipher) (bytes_to_hex mac)
    ok (record {
      base = valid_base group_text;
      channel_hash = byte_to_hex hash;
      cipher_mac = bytes_to_hex mac;
      ciphertext = bytes_to_hex cipher;
      ciphertext_length = length payload - 3;
      decrypted = found;
    })
