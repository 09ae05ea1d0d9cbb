-- ===== src/Decoders/Control/Fields.antt =====
-- The fields that the control decoder fills.
use meshcore_cpp_decoder.Common.{
  ◌-◌, ◌%◌, ◌≤◌, ◌≡◌, refl, inl, inr, [], ◌∷◌, ◌++◌, arith, ltb, leb, ◌==◌, if◌then◌else◌, lt→ltb,
  ltb→le, le→ltb, leb→le, Bool-cases, low_bits, has_bit, length, take, drop, Bytes, text, ok,
  get_or, read_lem, range_lem,
}
use meshcore_cpp_decoder.Common.Int.{signed8}
use meshcore_cpp_decoder.Hex.{bytes_to_hex}
use meshcore_cpp_decoder.Format.{to_hex_stream}
use meshcore_cpp_decoder.Enums.{control, node_discover_req, node_discover_resp, device_role_of}
use meshcore_cpp_decoder.Enums.Names.{get_device_role_name}
use meshcore_cpp_decoder.Payloads.{
  ControlDiscoverReqPayload, ControlDiscoverRespPayload, ControlPayload, discover_req,
  discover_resp, valid_base,
}
use meshcore_cpp_decoder.Decoders.Words.{read_uint32_le_lem, word_at}
use meshcore_cpp_decoder.Decoders.Control.{
  parse_type_filter, failed_req, failed_resp, first_or_zero, decode_discover_req,
  decode_discover_resp, dispatch, decode,
}

first_or_zero_lem : (payload : Bytes) → first_or_zero payload ≡ ok (get_or payload 0)
unfolding first_or_zero
first_or_zero_lem [] = refl
first_or_zero_lem (b ∷ bs) =
    rw (lt→ltb 0 (length (b ∷ bs)) (omega arith), read_lem (b ∷ bs) 0 (omega arith))

-- The request that a payload holds; `since` is 0 where the payload ends before it.
abbrev pub request_of : Bytes → ControlDiscoverReqPayload
request_of payload = record {
  base = valid_base control;
  sub_type = node_discover_req;
  raw_flags = get_or payload 0;
  prefix_only = has_bit (get_or payload 0) 0;
  type_filter = get_or payload 1;
  type_filter_names = parse_type_filter (get_or payload 1);
  tag = word_at payload 2;
  since = if leb 10 (length payload) then word_at payload 6 else 0;
}

decode_req_lem :
    (payload : Bytes)
    → decode_discover_req payload
      ≡ ok (
          if ltb (length payload) 6
          then failed_req (text "DISCOVER_REQ payload too short") (get_or payload 0)
          else request_of payload)
unfolding decode_discover_req
decode_req_lem payload = elim (Bool-cases (ltb (length payload) 6)) [
  | inl short ↦ rw (short, first_or_zero_lem payload)
  | inr long ↦
      let le : 6 ≤ length payload = ltb→le (length payload) 6 long in
      let r0 = read_lem payload 0 (omega arith) in
      let r1 = read_lem payload 1 (omega arith) in
      let w = read_uint32_le_lem payload 2 (omega arith) in
      elim (Bool-cases (leb 10 (length payload))) [
        | inl more ↦
            rw (
              long,
              r0,
              r1,
              w,
              more,
              read_uint32_le_lem payload 6 (leb→le 10 (length payload) more),
            )
        | inr less ↦ rw (long, r0, r1, w, less)
      ]
]

abbrev pub response_of : Bytes → ControlDiscoverRespPayload
response_of payload = record {
  base = valid_base control;
  sub_type = node_discover_resp;
  raw_flags = get_or payload 0;
  node_type = device_role_of (low_bits (get_or payload 0) 4);
  node_type_name = get_device_role_name (device_role_of (low_bits (get_or payload 0) 4));
  snr = record { num = signed8 (get_or payload 1); den = 4 };
  tag = word_at payload 2;
  public_key = bytes_to_hex (take (length payload - 6) (drop 6 payload));
  public_key_length = length payload - 6;
}

decode_resp_lem :
    (payload : Bytes)
    → decode_discover_resp payload
      ≡ ok (
          if ltb (length payload) 14
          then failed_resp (text "DISCOVER_RESP payload too short") (get_or payload 0)
          else response_of payload)
unfolding decode_discover_resp
decode_resp_lem payload = elim (Bool-cases (ltb (length payload) 14)) [
  | inl short ↦ rw (short, first_or_zero_lem payload)
  | inr long ↦
      let le : 14 ≤ length payload = ltb→le (length payload) 14 long in
      rw (
        long,
        read_lem payload 0 (omega arith),
        read_lem payload 1 (omega arith),
        read_uint32_le_lem payload 2 (omega arith),
        range_lem payload 6 (length payload - 6) (omega arith),
      )
]

-- What the control decoder returns: by the high four bits of the first byte, a request of at least
-- six bytes, a response of at least fourteen, or a request that holds an error.
abbrev pub decoded : Bytes → ControlPayload
decoded [] = discover_req (failed_req (text "Control payload too short") 0)
decoded (raw ∷ rest) =
    if raw - raw % 16 == 0x80
    then discover_req (
        if ltb (length (raw ∷ rest)) 6
        then failed_req (text "DISCOVER_REQ payload too short") raw
        else request_of (raw ∷ rest))
    else if raw - raw % 16 == 0x90
    then discover_resp (
        if ltb (length (raw ∷ rest)) 14
        then failed_resp (text "DISCOVER_RESP payload too short") raw
        else response_of (raw ∷ rest))
    else discover_req
        (failed_req (text "Unknown control sub-type: 0x" ++ to_hex_stream (raw - raw % 16)) raw)

-- The control decoder returns on every payload, by its sub-type and its length, and never reads out
-- of bounds.
pub control_decode_lem : (payload : Bytes) → decode payload ≡ ok (decoded payload)
unfolding decode dispatch
control_decode_lem [] = refl
control_decode_lem (raw ∷ rest) =
    let long = le→ltb (length (raw ∷ rest)) 1 (omega arith) in
    let here = read_lem (raw ∷ rest) 0 (omega arith) in
    elim (Bool-cases (raw - raw % 16 == 0x80)) [
      | inl req ↦ rw (long, here, req, decode_req_lem (raw ∷ rest))
      | inr other ↦ elim (Bool-cases (raw - raw % 16 == 0x90)) [
        | inl resp ↦ rw (long, here, other, resp, decode_resp_lem (raw ∷ rest))
        | inr bad ↦ rw (long, here, other, bad)
      ]
    ]
