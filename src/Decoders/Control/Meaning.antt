-- ===== src/Decoders/Control/Meaning.antt =====
-- The decoder of control payloads gives exactly what the shape of the payload says.
use meshcore_cpp_decoder.Common.{
  ℕ, ◌-◌, ◌*◌, ◌/◌, ◌%◌, ◌≤◌, ◌<◌, ◌≡◌, refl, sym, ap, ◌∙◌, ◌⊎◌, inl, inr, [], ◌∷◌, ◌++◌, arith,
  ltb, leb, ◌==◌, if◌then◌else◌, ltb→lt, ltb→le, leb→le, Bool-cases, length, drop, length-drop,
  take-length, Bytes, Text, IsBytes, ok, get_or, get_or-IsByte, drop-get_or,
}
use meshcore_cpp_decoder.Common.Int.{signed8, unsigned8-signed8}
use meshcore_cpp_decoder.Hex.{bytes_to_hex}
use meshcore_cpp_decoder.Payloads.{ControlPayload, failed_base}
use meshcore_cpp_decoder.Decoders.Words.{chunk, uint32_le, word_at, uint32_le-word_at}
use meshcore_cpp_decoder.Decoders.Control.{failed_req, failed_resp, decode}
use meshcore_cpp_decoder.Decoders.Control.Fields.{
  request_of, response_of, decoded, control_decode_lem,
}
use meshcore_cpp_decoder.Decoders.Control.Shape.{
  parse_type_filter-Selected, device_role_of-NodeIs, signed8-IsInt8, RequestReads, ResponseReads,
  RefusedReq, RefusedResp, Reads, nothing, short_request, whole_request, short_response,
  whole_response, neither,
}

failed_req-RefusedReq : (message : Text) (raw : ℕ) → RefusedReq message raw (failed_req message raw)
unfolding failed_req failed_base
failed_req-RefusedReq message raw = (refl, refl, refl, refl)

failed_resp-RefusedResp :
    (message : Text) (raw : ℕ) → RefusedResp message raw (failed_resp message raw)
unfolding failed_resp failed_base
failed_resp-RefusedResp message raw = (refl, refl, refl, refl)

-- Two bytes and a word in front of what stands behind them.
opening :
    (payload : Bytes)
    → IsBytes payload
    → 6 ≤ length payload
    → payload
      ≡ get_or payload 0 ∷ get_or payload 1 ∷ (uint32_le (word_at payload 2) ++ drop 6 payload)
opening payload hb room =
    drop-get_or payload 0 (omega arith)
    ∙ ap (λ t. get_or payload 0 ∷ t)
        (drop-get_or payload 1 (omega arith)
          ∙ ap (λ t. get_or payload 1 ∷ t)
              (chunk payload 2 4 6 refl
                ∙ ap (λ t. t ++ drop 6 payload)
                    (sym (uint32_le-word_at payload 2 hb (omega arith)))))

since_lem :
    (payload : Bytes)
    → IsBytes payload
    → ((rest : Bytes) × (drop 6 payload
          ≡ uint32_le (if leb 10 (length payload) then word_at payload 6 else 0) ++ rest))
      ⊎ ((length (drop 6 payload) < 4)
          × ((if leb 10 (length payload) then word_at payload 6 else 0) ≡ 0))
since_lem payload hb = elim (Bool-cases (leb 10 (length payload))) [
  | inl more ↦
      let room : 10 ≤ length payload = leb→le 10 (length payload) more in
      rw more (
        inl (
          drop 10 payload,
          chunk payload 6 4 10 refl
              ∙ ap (λ t. t ++ drop 10 payload) (sym (uint32_le-word_at payload 6 hb room)),
        ))
  | inr less ↦
      let few : length payload < 10 = ground arith in
      rw less (inr (omega (arith, length-drop 6 payload), refl))
]

request_of-RequestReads :
    (payload : Bytes)
    → IsBytes payload
    → 6 ≤ length payload
    → RequestReads payload (request_of payload)
request_of-RequestReads payload hb room =
    let flag : ℕ = get_or payload 0 in
    let whole : flag / 1 ≡ flag = omega arith in
    (
      flag,
      get_or payload 1,
      drop 6 payload,
      opening payload hb room,
      refl,
      refl,
      refl,
      ap (λ n. n % 2 == 1) whole,
      refl,
      parse_type_filter-Selected (get_or payload 1),
      since_lem payload hb,
    )

response_of-ResponseReads :
    (payload : Bytes)
    → IsBytes payload
    → 14 ≤ length payload
    → ResponseReads payload (response_of payload)
response_of-ResponseReads payload hb room =
    let snr : ℕ = get_or payload 1 in
    let size = length-drop 6 payload in
    let byte = get_or-IsByte payload 1 hb in
    (
      get_or payload 0,
      signed8 snr,
      drop 6 payload,
      rw (unsigned8-signed8 snr byte) (opening payload hb (omega arith)),
      refl,
      refl,
      refl,
      device_role_of-NodeIs (get_or payload 0 % 16),
      signed8-IsInt8 snr byte,
      refl,
      ap bytes_to_hex (take-length (length payload - 6) (drop 6 payload) (omega arith)),
      sym size,
    )

-- The decoder returns on every payload and never reads out of bounds. By the high four bits of the first
-- byte it returns a request, of a payload of at least six bytes, with its flags, filter, tag and, if
-- there are four bytes more, its time, and with the names of the roles whose bits the filter has; or a
-- response, of at least fourteen, with its role and the role's name, its signal-to-noise ratio, tag
-- and public key. What is shorter, or is neither, has an error.
pub control_decode-Reads :
    (payload : Bytes)
    → IsBytes payload
    → (c : ControlPayload) × (decode payload ≡ ok c) × Reads payload c
control_decode-Reads payload hb =
    (decoded payload, control_decode_lem payload, decoded-Reads payload hb)
  where
    decoded-Reads : (payload : Bytes) → IsBytes payload → Reads payload (decoded payload)
    decoded-Reads [] hb = nothing _ (failed_req-RefusedReq _ 0)
    decoded-Reads (raw ∷ rest) hb = elim (Bool-cases (raw - raw % 16 == 0x80)) [
      | inl req ↦
          let eight : raw / 16 ≡ 8 = ground arith in
          elim (Bool-cases (ltb (length (raw ∷ rest)) 6)) [
            | inl short ↦
                rw (req, short)
                  (short_request raw rest _ eight (ltb→lt (length (raw ∷ rest)) 6 short)
                    (failed_req-RefusedReq _ raw))
            | inr long ↦
                let room : 6 ≤ length (raw ∷ rest) = ltb→le (length (raw ∷ rest)) 6 long in
                rw (req, long)
                  (whole_request raw rest (request_of (raw ∷ rest)) eight room
                    (request_of-RequestReads (raw ∷ rest) hb room))
          ]
      | inr other ↦ elim (Bool-cases (raw - raw % 16 == 0x90)) [
        | inl resp ↦
            let nine : raw / 16 ≡ 9 = ground arith in
            elim (Bool-cases (ltb (length (raw ∷ rest)) 14)) [
              | inl short ↦
                  rw (other, resp, short)
                    (short_response raw rest _ nine (ltb→lt (length (raw ∷ rest)) 14 short)
                      (failed_resp-RefusedResp _ raw))
              | inr long ↦
                  let room : 14 ≤ length (raw ∷ rest) = ltb→le (length (raw ∷ rest)) 14 long in
                  rw (other, resp, long)
                    (whole_response raw rest (response_of (raw ∷ rest)) nine room
                      (response_of-ResponseReads (raw ∷ rest) hb room))
            ]
        | inr bad ↦
            let high : raw - raw % 16 ≡ raw / 16 * 16 = omega arith in
            rw (other, bad, high)
              (neither raw rest _ (ground arith) (ground arith) (failed_req-RefusedReq _ raw))
      ]
    ]
