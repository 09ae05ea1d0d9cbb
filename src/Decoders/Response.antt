-- ===== src/Decoders/Response.antt =====
-- src/decoder/payload_decoders/response.cpp, `decode`. Its `try` block only reads the
-- payload, so the model has no handler.
use meshcore_cpp_decoder.Common.{
  ◌+◌, ◌-◌, ◌≤◌, ◌<◌, ◌≡◌, refl, ◌⊎◌, inl, inr, [], ◌++◌, arith, ltb, if◌then◌else◌, ltb→lt, lt→ltb,
  ltb→le, le→ltb, Bool-cases, length, take, drop, Bytes, IsBytes, text, Outcome, ok, ◌>>=◌, read,
  range, get_or, read_lem, range_lem,
}
use meshcore_cpp_decoder.Hex.{byte_to_hex, bytes_to_hex, hex_to_bytes}
use meshcore_cpp_decoder.Enums.{response}
use meshcore_cpp_decoder.Payloads.{ResponsePayload, valid_base, failed_base}
use meshcore_cpp_decoder.Decoders.Layout.{hex_field, hex_byte, hex_last, hex_whole}

unfoldable pub failed : ResponsePayload
failed = record {
  base = failed_base response (text "Response payload too short");
  destination_hash = [];
  source_hash = [];
  cipher_mac = [];
  ciphertext = [];
  ciphertext_length = 0;
}

-- `ResponsePayloadDecoder::decode`
unfoldable pub decode : Bytes → Outcome ResponsePayload
unfolding failed
decode payload = if ltb (length payload) 4 then ok failed else do
  destination ← read payload 0
  source ← read payload 1
  mac ← range payload 2 2
  cipher ← range payload 4 (length payload - 4)
  ok (record {
    base = valid_base response;
    destination_hash = byte_to_hex destination;
    source_hash = byte_to_hex source;
    cipher_mac = bytes_to_hex mac;
    ciphertext = bytes_to_hex cipher;
    ciphertext_length = length payload - 4;
  })

-- What `decode` returns where the payload is long enough.
abbrev pub decoded : Bytes → ResponsePayload
decoded payload = record {
  base = valid_base response;
  destination_hash = byte_to_hex (get_or payload 0);
  source_hash = byte_to_hex (get_or payload 1);
  cipher_mac = bytes_to_hex (take 2 (drop 2 payload));
  ciphertext = bytes_to_hex (take (length payload - 4) (drop 4 payload));
  ciphertext_length = length payload - 4;
}

decode_long : (payload : Bytes) → 4 ≤ length payload → decode payload ≡ ok (decoded payload)
unfolding decode
decode_long payload h = rw (
  le→ltb (length payload) 4 h,
  read_lem payload 0 (omega arith),
  read_lem payload 1 (omega arith),
  range_lem payload 2 2 (omega arith),
  range_lem payload 4 (length payload - 4) (omega arith),
)

-- A payload of fewer than four bytes is refused with an error, and the fields of any other spell its
-- bytes in order, none lost, with the count of the encrypted ones; the decoder never reads out of
-- bounds.
pub response_decode-lossless :
    (payload : Bytes)
    → IsBytes payload
    → ((length payload < 4) × (decode payload ≡ ok failed))
      ⊎ ((4 ≤ length payload)
          × ((p : ResponsePayload) × (decode payload ≡ ok p)
              × (p.base ≡ valid_base response)
              × (p.ciphertext_length + 4 ≡ length payload)
              × (hex_to_bytes
                    (p.destination_hash ++ (p.source_hash ++ (p.cipher_mac ++ p.ciphertext)))
                  ≡ ok payload)))
unfolding decode
response_decode-lossless payload bytes = elim (Bool-cases (ltb (length payload) 4)) [
  | inl few ↦
      let short : length payload < 4 = ltb→lt (length payload) 4 few in
      inl (short, rw (lt→ltb (length payload) 4 short))
  | inr enough ↦
      let long : 4 ≤ length payload = ltb→le (length payload) 4 enough in
      inr (
        long,
        (
          decoded payload,
          decode_long payload long,
          refl,
          omega arith,
          hex_whole payload _ bytes (
              hex_byte payload 0 _ 1 (omega arith) refl (
                hex_byte payload 1 _ 2 (omega arith) refl
                  (hex_field payload 2 2 _ 4 refl (hex_last payload 4)))),
        ),
      )
]

pub decode-total : (payload : Bytes) → (p : ResponsePayload) × (decode payload ≡ ok p)
unfolding decode
decode-total payload = elim (Bool-cases (ltb (length payload) 4)) [
  | inl short ↦ (failed, rw short)
  | inr long ↦ (decoded payload, decode_long payload (ltb→le (length payload) 4 long))
]
