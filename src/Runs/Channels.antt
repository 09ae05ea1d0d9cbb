-- ===== src/Runs/Channels.antt =====
-- Channel messages and the key store.
use meshcore_cpp_decoder.Common.{
  ℕ, ◌%◌, ◌<◌, ◌≡◌, refl, true, some, [], ◌∷◌, ◌++◌, arith, length, take, drop, replicate, Text,
  text, ok,
}
use meshcore_cpp_decoder.Hex.{bytes_to_hex, hex_to_bytes}
use meshcore_cpp_decoder.Enums.{group_text}
use meshcore_cpp_decoder.Payloads.{GroupTextPayload, valid_base}
use meshcore_cpp_decoder.Crypto.Channel.{
  decrypt_raw, DecryptionResult, has_char, is_sender, decrypt_group_text_message,
}
use meshcore_cpp_decoder.Crypto.Channel.Safety.{decrypt_group_text_message-returns}
use meshcore_cpp_decoder.Crypto.KeyStore.{no_keys, get_channel_keys, add_channel_secrets}
use meshcore_cpp_decoder.Crypto.KeyStore.Lookup.{keys_for, get_channel_keys-add_channel_secrets}
use meshcore_cpp_decoder.Decoders.GroupText.{decode}
use meshcore_cpp_decoder.Encoder.{EncodeResult}
use meshcore_cpp_decoder.Encoder.DataRoundTrip.{data_plain, decrypt_raw-build_group_data_payload}
use meshcore_cpp_decoder.Encoder.Group.{pad, build_group_data_payload, build_group_text_payload}
use meshcore_cpp_decoder.Encoder.Padding.{zeros_for, pad_lem}
use meshcore_cpp_decoder.Encoder.Message.{Message}
use meshcore_cpp_decoder.Encoder.GroupRoundTrip.{decode-build_group_text_payload}
use meshcore_cpp_decoder.Runs.Sample.{sample_ssl, sample-Laws, sixteen, key_text, sixteen_fits}

abbrev ann : Text
ann = 65 ∷ 110 ∷ 110 ∷ []

abbrev hello : Text
hello = 72 ∷ 58 ∷ 32 ∷ 105 ∷ []

ann-hello : Message ann hello 1700000000 1
unfolding is_sender has_char
ann-hello = record {
  sender_fits = refl;
  sender_bytes = omega arith;
  sender_no_nul = refl;
  message_bytes = omega arith;
  message_no_nul = refl;
  timestamp_small = omega arith;
  flags_small = omega arith;
}

pad_lem_example :
    (pad (1 ∷ 2 ∷ []) ≡ 1 ∷ 2 ∷ replicate 14 0)
    × (zeros_for (1 ∷ 2 ∷ []) < 16)
    × (length (pad (1 ∷ 2 ∷ [])) % 16 ≡ 0)
pad_lem_example = pad_lem (1 ∷ 2 ∷ [])

get_channel_keys-add_channel_secrets_example :
    get_channel_keys
      (add_channel_secrets sample_ssl (text "07" ∷ text "0g" ∷ []) no_keys)
      (text "00")
    ≡ get_channel_keys no_keys (text "00")
      ++ keys_for sample_ssl (text "00") (text "07" ∷ text "0g" ∷ [])
get_channel_keys-add_channel_secrets_example =
    get_channel_keys-add_channel_secrets sample_ssl (text "07" ∷ text "0g" ∷ []) (text "00") no_keys

decode-build_group_text_payload_example :
    (r : EncodeResult) × (p : GroupTextPayload) × (build_group_text_payload sample_ssl
        (text "07070707070707070707070707070707")
        ann
        hello
        1700000000
        1
      ≡ ok r)
    × (r.success ≡ true)
    × (decode sample_ssl r.bytes (
          some (
            add_channel_secrets sample_ssl
              (text "07070707070707070707070707070707" ∷ text "08" ∷ [])
              no_keys))
        ≡ ok p)
    × (p.base ≡ valid_base group_text)
    × (p.decrypted
        ≡ some (record { timestamp = 1700000000; flags = 1; sender = some ann; message = hello }))
decode-build_group_text_payload_example =
    decode-build_group_text_payload sample_ssl sample-Laws refl
      (text "07070707070707070707070707070707") sixteen key_text refl (text "08" ∷ []) ann hello
      1700000000 1 ann-hello

mac_text : hex_to_bytes (text "0000") ≡ ok (0 ∷ 0 ∷ [])
unfolding hex_to_bytes text
mac_text = refl

decrypt_group_text_message-returns_example :
    (r : DecryptionResult) × (decrypt_group_text_message sample_ssl
        (text "zz")
        (text "0000")
        (text "07070707070707070707070707070707")
      ≡ ok r)
decrypt_group_text_message-returns_example =
    decrypt_group_text_message-returns sample_ssl (text "zz") (text "0000")
      (text "07070707070707070707070707070707") (0 ∷ 0 ∷ []) mac_text (omega arith) sixteen_fits

decrypt_raw-build_group_data_payload_example :
    (r : EncodeResult) × (n : ℕ) × (build_group_data_payload sample_ssl
        (text "07070707070707070707070707070707")
        258
        (1 ∷ 2 ∷ [])
      ≡ ok r)
    × (r.success ≡ true)
    × (n < 16)
    × (decrypt_raw sample_ssl
          (bytes_to_hex (drop 3 r.bytes))
          (bytes_to_hex (take 2 (drop 1 r.bytes)))
          (text "07070707070707070707070707070707")
        ≡ ok (some (data_plain 258 (1 ∷ 2 ∷ []) ++ replicate n 0)))
decrypt_raw-build_group_data_payload_example =
    decrypt_raw-build_group_data_payload sample_ssl sample-Laws refl
      (text "07070707070707070707070707070707") sixteen key_text refl 258 (1 ∷ 2 ∷ []) (omega arith)
      (omega arith)
