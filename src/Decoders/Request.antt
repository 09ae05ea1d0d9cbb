-- ===== src/Decoders/Request.antt =====
-- src/decoder/payload_decoders/request.cpp, `decode`. Its `try` block only reads the
-- payload, so the model has no handler.
use meshcore_cpp_decoder.Common.{
  ◌-◌, ◌≤◌, ◌<◌, ◌≡◌, refl, ◌⊎◌, inl, inr, [], ◌++◌, arith, ltb, if◌then◌else◌, ltb→lt, lt→ltb,
  ltb→le, le→ltb, Bool-cases, length, take, drop, Bytes, IsBytes, text, Outcome, ok, ◌>>=◌, range,
  range_lem,
}
use meshcore_cpp_decoder.Hex.{bytes_to_hex, hex_to_bytes}
use meshcore_cpp_decoder.Enums.{request, get_stats}
use meshcore_cpp_decoder.Payloads.{RequestPayload, valid_base, failed_base}
use meshcore_cpp_decoder.Decoders.Layout.{hex_field, hex_last, hex_whole}

unfoldable pub failed : RequestPayload
failed = record {
  base = failed_base request (text "Request payload too short");
  destination_hash = [];
  source_hash = [];
  cipher_mac = [];
  ciphertext = [];
  timestamp = 0;
  request_type = get_stats;
  request_data = [];
}

-- `RequestPayloadDecoder::decode`
unfoldable pub decode : Bytes → Outcome RequestPayload
unfolding failed
decode payload = if ltb (length payload) 4 then ok failed else do
  destination ← range payload 0 1
  source ← range payload 1 1
  mac ← range payload 2 2
  cipher ← range payload 4 (length payload - 4)
  ok (record {
    base = valid_base request;
    destination_hash = bytes_to_hex destination;
    source_hash = bytes_to_hex source;
    cipher_mac = bytes_to_hex mac;
    ciphertext = bytes_to_hex cipher;
    timestamp = 0;
    request_type = get_stats;
    request_data = [];
  })

-- What `decode` returns where the payload is long enough.
abbrev pub decoded : Bytes → RequestPayload
decoded payload = record {
  base = valid_base request;
  destination_hash = bytes_to_hex (take 1 (drop 0 payload));
  source_hash = bytes_to_hex (take 1 (drop 1 payload));
  cipher_mac = bytes_to_hex (take 2 (drop 2 payload));
  ciphertext = bytes_to_hex (take (length payload - 4) (drop 4 payload));
  timestamp = 0;
  request_type = get_stats;
  request_data = [];
}

decode_long : (payload : Bytes) → 4 ≤ length payload → decode payload ≡ ok (decoded payload)
unfolding decode
decode_long payload h = rw (
  le→ltb (length payload) 4 h,
  range_lem payload 0 1 (omega arith),
  range_lem payload 1 1 (omega arith),
  range_lem payload 2 2 (omega arith),
  range_lem payload 4 (length payload - 4) (omega arith),
)

-- A payload of fewer than four bytes is refused with an error, and the fields of any other spell its
-- bytes in order, none lost; the decoder never reads out of bounds.
pub request_decode-lossless :
    (payload : Bytes)
    → IsBytes payload
    → ((length payload < 4) × (decode payload ≡ ok failed))
      ⊎ ((4 ≤ length payload)
          × ((p : RequestPayload) × (decode payload ≡ ok p)
              × (p.base ≡ valid_base request)
              × (hex_to_bytes
                    (p.destination_hash ++ (p.source_hash ++ (p.cipher_mac ++ p.ciphertext)))
                  ≡ ok payload)))
unfolding decode
request_decode-lossless payload bytes = elim (Bool-cases (ltb (length payload) 4)) [
  | inl few ↦
      let short : length payload < 4 = ltb→lt (length payload) 4 few in
      inl (short, rw (lt→ltb (length payload) 4 short))
  | inr enough ↦
      let long : 4 ≤ length payload = ltb→le (length payload) 4 enough in
      inr (
        long,
        (
          decoded payload,
          decode_long payload long,
          refl,
          hex_whole payload _ bytes (
              hex_field payload 0 1 _ 1 refl (
                hex_field payload 1 1 _ 2 refl
                  (hex_field payload 2 2 _ 4 refl (hex_last payload 4)))),
        ),
      )
]

pub decode-total : (payload : Bytes) → (p : RequestPayload) × (decode payload ≡ ok p)
unfolding decode
decode-total payload = elim (Bool-cases (ltb (length payload) 4)) [
  | inl short ↦ (failed, rw short)
  | inr long ↦ (decoded payload, decode_long payload (ltb→le (length payload) 4 long))
]
