-- ===== src/Decoders/Ack.antt =====
-- src/decoder/payload_decoders/ack.cpp, `decode`.
use meshcore_cpp_decoder.Common.{
  ◌≤◌, ◌<◌, ◌≡◌, refl, ◌⊎◌, inl, inr, [], ltb, if◌then◌else◌, ltb→lt, lt→ltb, ltb→le, le→ltb,
  Bool-cases, length, take, All-take, Bytes, IsByte, IsBytes, text, Outcome, ok, ◌>>=◌, range,
  range_lem,
}
use meshcore_cpp_decoder.Hex.{bytes_to_hex, hex_to_bytes}
use meshcore_cpp_decoder.Hex.RoundTrip.{hex_to_bytes-bytes_to_hex}
use meshcore_cpp_decoder.Enums.{ack}
use meshcore_cpp_decoder.Payloads.{AckPayload, valid_base, failed_base}

unfoldable pub failed : AckPayload
failed = record { base = failed_base ack (text "Ack payload too short"); checksum = [] }

-- `AckPayloadDecoder::decode`
unfoldable pub decode : Bytes → Outcome AckPayload
unfolding failed
decode payload = if ltb (length payload) 4 then ok failed else do
  sum ← range payload 0 4
  ok (record { base = valid_base ack; checksum = bytes_to_hex sum })

-- A payload of fewer than four bytes is refused with an error; of any other the checksum spells the
-- first four bytes, whatever follows them.
pub ack_decode-checksum :
    (payload : Bytes)
    → IsBytes payload
    → ((length payload < 4) × (decode payload ≡ ok failed))
      ⊎ ((4 ≤ length payload)
          × ((p : AckPayload) × (decode payload ≡ ok p)
              × (p.base ≡ valid_base ack)
              × (hex_to_bytes p.checksum ≡ ok (take 4 payload))))
unfolding decode
ack_decode-checksum payload bytes = elim (Bool-cases (ltb (length payload) 4)) [
  | inl few ↦
      let short : length payload < 4 = ltb→lt (length payload) 4 few in
      inl (short, rw (lt→ltb (length payload) 4 short))
  | inr enough ↦
      let long : 4 ≤ length payload = ltb→le (length payload) 4 enough in
      inr (
        long,
        (
          record { base = valid_base ack; checksum = bytes_to_hex (take 4 payload) },
          rw (le→ltb (length payload) 4 long, range_lem payload 0 4 long),
          refl,
          hex_to_bytes-bytes_to_hex (take 4 payload) (All-take IsByte 4 payload bytes),
        ),
      )
]

pub decode-total : (payload : Bytes) → (p : AckPayload) × (decode payload ≡ ok p)
unfolding decode
decode-total payload = elim (Bool-cases (ltb (length payload) 4)) [
  | inl short ↦ (failed, rw short)
  | inr long ↦ (
    record { base = valid_base ack; checksum = bytes_to_hex (take 4 payload) },
    rw (long, range_lem payload 0 4 (ltb→le (length payload) 4 long)),
  )
]
