-- ===== src/Encoder/Group.antt =====
-- src/encoder/packet_encoder.cpp: the payloads of a channel.
use meshcore_cpp_decoder.Common.{
  ℕ, zero, suc, ◌/◌, ◌%◌, ◌^◌, false, not, [], ◌∷◌, ◌++◌, ltb, ◌==◌, if◌then◌else◌, length, Bytes,
  Text, Outcome, ok, ◌>>=◌, catch, read, get_or,
}
use meshcore_cpp_decoder.Hex.{hex_to_bytes}
use meshcore_cpp_decoder.Decoders.Words.{uint32_le}
use meshcore_cpp_decoder.Crypto.OpenSsl.{OpenSsl, aes_key}
use meshcore_cpp_decoder.Crypto.Channel.{channel_secret, calculate_channel_hash}
use meshcore_cpp_decoder.Encoder.{EncodeResult, refused, built}

-- `while (plain.size() % 16 != 0) plain.push_back(0)`, on fuel: fifteen rounds are enough.
unfoldable pub pad_loop : ℕ → Bytes → Bytes
pad_loop zero plain = plain
pad_loop (suc f) plain =
    let more = pad_loop f (plain ++ (0 ∷ [])) in if length plain % 16 == 0 then plain else more

unfoldable pub pad : Bytes → Bytes
pad plain = pad_loop 16 plain

-- `catch (const std::exception& ex) { result.error = ex.what(); }`
unfoldable pub refused_with : Text → Outcome EncodeResult
refused_with what = ok (record { success = false; bytes = []; error = what })

-- The text of a message: `sender.empty() ? message : sender + ": " + message`.
unfoldable pub group_text_of : Text → Text → Text
group_text_of [] message = message
group_text_of (c ∷ s) message = (c ∷ s) ++ (b':' ∷ b' ' ∷ message)

module _ (ssl : OpenSsl) where
  -- Encryption, MAC and channel hash, which `buildGroupPayload` and `buildGroupTextPayload` share
  -- word for word. The key has 16 bytes.
  unfoldable pub seal : Text → Bytes → Bytes → Outcome EncodeResult
  seal key_hex key plain =
      if not ssl.cipher_ctx_new then ok (refused "failed to create cipher context") else do
        k ← aes_key key
        let cipher = ssl.aes128_ecb_encrypt k plain
        secret ← channel_secret key
        let mac = ssl.hmac_sha256 secret cipher
        hash_hex ← calculate_channel_hash ssl key_hex
        hash_bytes ← hex_to_bytes hash_hex
        h ← read hash_bytes 0
        ok (built (h ∷ get_or mac 0 ∷ get_or mac 1 ∷ cipher))

  -- `MeshCorePacketEncoder::buildGroupPayload`
  unfoldable pub build_group_payload : Text → Bytes → Outcome EncodeResult
  build_group_payload key_hex plain =
      catch
        (do
          key ← hex_to_bytes key_hex
          if not (length key == 16)
              then ok (refused "channel key must be 16 bytes")
              else seal key_hex key (pad plain))
        refused_with

  -- `MeshCorePacketEncoder::buildGroupDataPayload`
  unfoldable pub build_group_data_payload : Text → ℕ → Bytes → Outcome EncodeResult
  build_group_data_payload key_hex data_type content =
      if ltb 255 (length content)
      then ok (refused "group data payload is limited to 255 bytes")
      else build_group_payload key_hex
          ((data_type % 256) ∷ (data_type / 2 ^ 8 % 256) ∷ (length content % 256) ∷ content)

  -- `MeshCorePacketEncoder::buildGroupTextPayload`
  unfoldable pub build_group_text_payload : Text → Text → Text → ℕ → ℕ → Outcome EncodeResult
  build_group_text_payload key_hex sender message timestamp flags =
      catch
        (do
          key ← hex_to_bytes key_hex
          if not (length key == 16)
              then ok (refused "channel key must be 16 bytes")
              else seal key_hex key
                  (pad (uint32_le timestamp ++ (flags ∷ group_text_of sender message))))
        refused_with
