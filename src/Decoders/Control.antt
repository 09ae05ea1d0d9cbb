-- ===== src/Decoders/Control.antt =====
-- src/decoder/payload_decoders/control.cpp, the decoders.
pub mod Shape
pub mod Fields
pub mod Meaning
use meshcore_cpp_decoder.Common.{
  ℕ, ◌-◌, ◌%◌, false, List, [], ◌∷◌, ◌++◌, ltb, leb, ◌==◌, if◌then◌else◌, low_bits, has_bit, length,
  Bytes, Text, text, Outcome, ok, ◌>>=◌, ◌>>◌, read, range,
}
use meshcore_cpp_decoder.Common.Int.{pos, signed8}
use meshcore_cpp_decoder.Hex.{bytes_to_hex}
use meshcore_cpp_decoder.Format.{to_hex_stream}
use meshcore_cpp_decoder.Enums.{
  control, node_discover_req, node_discover_resp, unknown, device_role_of,
}
use meshcore_cpp_decoder.Enums.Names.{get_device_role_name}
use meshcore_cpp_decoder.Payloads.{
  ControlDiscoverReqPayload, ControlDiscoverRespPayload, ControlPayload, discover_req,
  discover_resp, valid_base, failed_base,
}
use meshcore_cpp_decoder.Decoders.Words.{read_uint32_le}

-- `parseTypeFilter`: bit r of the filter stands for the role of value r.
unfoldable pub parse_type_filter : ℕ → List Text
parse_type_filter filter =
    (if has_bit filter 1 then text "Chat" ∷ [] else [])
    ++ ((if has_bit filter 2 then text "Repeater" ∷ [] else [])
        ++ ((if has_bit filter 3 then text "Room" ∷ [] else [])
            ++ (if has_bit filter 4 then text "Sensor" ∷ [] else [])))

unfoldable pub failed_req : Text → ℕ → ControlDiscoverReqPayload
failed_req message raw = record {
  base = failed_base control message;
  sub_type = node_discover_req;
  raw_flags = raw;
  prefix_only = false;
  type_filter = 0;
  type_filter_names = [];
  tag = 0;
  since = 0;
}

unfoldable pub failed_resp : Text → ℕ → ControlDiscoverRespPayload
failed_resp message raw = record {
  base = failed_base control message;
  sub_type = node_discover_resp;
  raw_flags = raw;
  node_type = unknown;
  node_type_name = [];
  snr = record { num = pos 0; den = 1 };
  tag = 0;
  public_key = [];
  public_key_length = 0;
}

-- `len > 0 ? payload[0] : 0`
unfoldable pub first_or_zero : Bytes → Outcome ℕ
first_or_zero payload = if ltb 0 (length payload) then read payload 0 else ok 0

unfoldable pub decode_discover_req : Bytes → Outcome ControlDiscoverReqPayload
decode_discover_req payload =
    if ltb (length payload) 6
    then (do
      raw ← first_or_zero payload
      ok (failed_req (text "DISCOVER_REQ payload too short") raw))
    else do
      raw ← read payload 0
      filter ← read payload 1
      word ← read_uint32_le payload 2
      stamp ← (if leb 10 (length payload) then read_uint32_le payload 6 else ok 0)
      ok (record {
        base = valid_base control;
        sub_type = node_discover_req;
        raw_flags = raw;
        prefix_only = has_bit raw 0;
        type_filter = filter;
        type_filter_names = parse_type_filter filter;
        tag = word;
        since = stamp;
      })

unfoldable pub decode_discover_resp : Bytes → Outcome ControlDiscoverRespPayload
decode_discover_resp payload =
    if ltb (length payload) 14
    then (do
      raw ← first_or_zero payload
      ok (failed_resp (text "DISCOVER_RESP payload too short") raw))
    else do
      raw ← read payload 0
      snr_raw ← read payload 1
      word ← read_uint32_le payload 2
      key ← range payload 6 (length payload - 6)
      ok (record {
        base = valid_base control;
        sub_type = node_discover_resp;
        raw_flags = raw;
        node_type = device_role_of (low_bits raw 4);
        node_type_name = get_device_role_name (device_role_of (low_bits raw 4));
        snr = record { num = signed8 snr_raw; den = 4 };
        tag = word;
        public_key = bytes_to_hex key;
        public_key_length = length payload - 6;
      })

-- The switch over the sub-type; `payload[0] & 0xF0` is `raw - raw % 16`.
unfoldable pub dispatch : ℕ → Bytes → Outcome ControlPayload
dispatch raw payload =
    let sub_type = raw - raw % 16 in
    if sub_type == 0x80
    then decode_discover_req payload >>= (λ p. ok (discover_req p))
    else if sub_type == 0x90
    then decode_discover_resp payload >>= (λ p. ok (discover_resp p))
    else ok (
        discover_req
          (failed_req (text "Unknown control sub-type: 0x" ++ to_hex_stream sub_type) raw))

-- `ControlPayloadDecoder::decode`
unfoldable pub decode : Bytes → Outcome ControlPayload
decode payload =
    if ltb (length payload) 1
    then ok (discover_req (failed_req (text "Control payload too short") 0))
    else do raw ← read payload 0; dispatch raw payload
