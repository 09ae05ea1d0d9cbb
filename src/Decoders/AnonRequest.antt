-- ===== src/Decoders/AnonRequest.antt =====
-- src/decoder/payload_decoders/anon_request.cpp, `decode`. Its `try` block only reads the
-- payload, so the model has no handler.
use meshcore_cpp_decoder.Common.{
  ◌+◌, ◌-◌, ◌≤◌, ◌<◌, ◌≡◌, refl, ◌⊎◌, inl, inr, [], ◌++◌, arith, ltb, if◌then◌else◌, ltb→lt, lt→ltb,
  ltb→le, le→ltb, Bool-cases, length, take, drop, Bytes, IsBytes, text, Outcome, ok, ◌>>=◌, read,
  range, get_or, read_lem, range_lem,
}
use meshcore_cpp_decoder.Hex.{byte_to_hex, bytes_to_hex, hex_to_bytes}
use meshcore_cpp_decoder.Enums.{anon_request}
use meshcore_cpp_decoder.Payloads.{AnonRequestPayload, valid_base, failed_base}
use meshcore_cpp_decoder.Decoders.Layout.{hex_field, hex_byte, hex_last, hex_whole}

unfoldable pub failed : AnonRequestPayload
failed = record {
  base = failed_base anon_request (text "AnonRequest payload too short");
  destination_hash = [];
  sender_public_key = [];
  cipher_mac = [];
  ciphertext = [];
  ciphertext_length = 0;
}

-- `AnonRequestPayloadDecoder::decode`
unfoldable pub decode : Bytes → Outcome AnonRequestPayload
unfolding failed
decode payload = if ltb (length payload) 35 then ok failed else do
  destination ← read payload 0
  sender ← range payload 1 32
  mac ← range payload 33 2
  cipher ← range payload 35 (length payload - 35)
  ok (record {
    base = valid_base anon_request;
    destination_hash = byte_to_hex destination;
    sender_public_key = bytes_to_hex sender;
    cipher_mac = bytes_to_hex mac;
    ciphertext = bytes_to_hex cipher;
    ciphertext_length = length payload - 35;
  })

-- What `decode` returns where the payload is long enough.
abbrev pub decoded : Bytes → AnonRequestPayload
decoded payload = record {
  base = valid_base anon_request;
  destination_hash = byte_to_hex (get_or payload 0);
  sender_public_key = bytes_to_hex (take 32 (drop 1 payload));
  cipher_mac = bytes_to_hex (take 2 (drop 33 payload));
  ciphertext = bytes_to_hex (take (length payload - 35) (drop 35 payload));
  ciphertext_length = length payload - 35;
}

decode_long : (payload : Bytes) → 35 ≤ length payload → decode payload ≡ ok (decoded payload)
unfolding decode
decode_long payload h = rw (
  le→ltb (length payload) 35 h,
  read_lem payload 0 (omega arith),
  range_lem payload 1 32 (omega arith),
  range_lem payload 33 2 (omega arith),
  range_lem payload 35 (length payload - 35) (omega arith),
)

-- A payload of fewer than 35 bytes is refused with an error, and the fields of any other spell its
-- bytes in order, none lost, with the count of the encrypted ones; the decoder never reads out of
-- bounds.
pub anon_request_decode-lossless :
    (payload : Bytes)
    → IsBytes payload
    → ((length payload < 35) × (decode payload ≡ ok failed))
      ⊎ ((35 ≤ length payload)
          × ((p : AnonRequestPayload) × (decode payload ≡ ok p)
              × (p.base ≡ valid_base anon_request)
              × (p.ciphertext_length + 35 ≡ length payload)
              × (hex_to_bytes
                    (p.destination_hash ++ (p.sender_public_key ++ (p.cipher_mac ++ p.ciphertext)))
                  ≡ ok payload)))
unfolding decode
anon_request_decode-lossless payload bytes = elim (Bool-cases (ltb (length payload) 35)) [
  | inl few ↦
      let short : length payload < 35 = ltb→lt (length payload) 35 few in
      inl (short, rw (lt→ltb (length payload) 35 short))
  | inr enough ↦
      let long : 35 ≤ length payload = ltb→le (length payload) 35 enough in
      inr (
        long,
        (
          decoded payload,
          decode_long payload long,
          refl,
          omega arith,
          hex_whole payload _ bytes (
              hex_byte payload 0 _ 1 (omega arith) refl (
                hex_field payload 1 32 _ 33 refl
                  (hex_field payload 33 2 _ 35 refl (hex_last payload 35)))),
        ),
      )
]

pub decode-total : (payload : Bytes) → (p : AnonRequestPayload) × (decode payload ≡ ok p)
unfolding decode
decode-total payload = elim (Bool-cases (ltb (length payload) 35)) [
  | inl short ↦ (failed, rw short)
  | inr long ↦ (decoded payload, decode_long payload (ltb→le (length payload) 35 long))
]
