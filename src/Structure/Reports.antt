-- ===== src/Structure/Reports.antt =====
-- `generateSegments` of src/decoder/payload_decoders/trace.cpp and control.cpp. `base` is
-- `segmentOffset`.
use meshcore_cpp_decoder.Common.{
  ℕ, ◌+◌, ◌-◌, ◌%◌, ◌&&◌, List, [], ◌∷◌, ◌++◌, ltb, leb, ◌==◌, if◌then◌else◌, low_bits, has_bit,
  length, Bytes, Text, text, Outcome, ok, ◌>>=◌, read, range,
}
use meshcore_cpp_decoder.Common.Int.{pos}
use meshcore_cpp_decoder.Hex.{byte_to_hex, bytes_to_hex}
use meshcore_cpp_decoder.Format.{to_string, to_hex_stream, quarter_digits, print_quarters}
use meshcore_cpp_decoder.Enums.{device_role_of}
use meshcore_cpp_decoder.Enums.Names.{get_device_role_name}
use meshcore_cpp_decoder.Decoders.Words.{read_uint32_le}
use meshcore_cpp_decoder.Decoders.Trace.{snr_of_byte}
use meshcore_cpp_decoder.Decoders.Control.{parse_type_filter}
use meshcore_cpp_decoder.Structure.Segment.{
  PayloadSegment, segment, last_byte, too_short, remainder,
}

unfoldable pub trace_segments : Bytes → ℕ → Outcome (List PayloadSegment)
trace_segments payload base =
    if ltb (length payload) 9
    then too_short (text "Invalid Trace Data") (text "Trace payload too short") payload base
    else do
      tag ← read_uint32_le payload 0
      tag_bytes ← range payload 0 4
      auth ← read_uint32_le payload 4
      auth_bytes ← range payload 4 4
      flags ← read payload 8
      rest ← remainder (text "Path Hashes") (text "Node hashes in trace path") payload base 9
      ok (
          segment (text "Trace Tag") (text "Unique identifier: 0x" ++ to_hex_stream tag) (base + 0)
            (pos (base + 0 + 3)) (bytes_to_hex tag_bytes)
          ∷ segment (text "Auth Code") (text "Authentication code: " ++ to_string auth) (base + 4)
              (pos (base + 4 + 3)) (bytes_to_hex auth_bytes)
          ∷ segment (text "Flags") (text "Flags: 0x" ++ to_hex_stream flags) (base + 8)
              (pos (base + 8)) (byte_to_hex flags)
          ∷ rest)

-- The names of a type filter with ", " between them.
unfoldable pub join_names : List Text → Text
join_names [] = []
join_names (n ∷ []) = n
join_names (n ∷ m ∷ ns) = n ++ (text ", " ++ join_names (m ∷ ns))

unfoldable pub filter_text : List Text → Text
filter_text [] = text "None"
filter_text (n ∷ ns) = join_names (n ∷ ns)

-- `if (len >= offset + 4)`: the timestamp behind the tag.
unfoldable pub since_segment : Bytes → ℕ → Outcome (List PayloadSegment)
since_segment payload base =
    if leb (6 + 4) (length payload)
    then (do
      since ← read_uint32_le payload 6
      stamp_bytes ← range payload 6 4
      ok (
          segment (text "Since") (text "Filter timestamp: " ++ to_string since) (base + 6)
            (pos (base + 6 + 3)) (bytes_to_hex stamp_bytes)
          ∷ []))
    else ok []

unfoldable pub discover_req_segments : Bytes → ℕ → Outcome (List PayloadSegment)
discover_req_segments payload base = do
  flags ← read payload 0
  filter ← read payload 1
  tag ← read_uint32_le payload 2
  tag_bytes ← range payload 2 4
  rest ← since_segment payload base
  ok (
      segment (text "Flags")
        (text "Sub-type: DISCOVER_REQ | Prefix Only: "
          ++ (if has_bit flags 0 then text "true" else text "false"))
        (base + 0) (pos (base + 0)) (byte_to_hex flags)
      ∷ segment (text "Type Filter") (text "Filter: " ++ filter_text (parse_type_filter filter))
          (base + 1) (pos (base + 1)) (byte_to_hex filter)
      ∷ segment (text "Tag") (text "Tag: 0x" ++ to_hex_stream tag) (base + 2) (pos (base + 2 + 3))
          (bytes_to_hex tag_bytes)
      ∷ rest)

-- The name of the last segment of a response, by the length of the key.
unfoldable pub key_type : ℕ → Text
key_type len = if len == 32 then text "Full Public Key" else text "Public Key Prefix"

unfoldable pub discover_resp_segments : Bytes → ℕ → Outcome (List PayloadSegment)
unfolding key_type
discover_resp_segments payload base = do
  flags ← read payload 0
  snr ← read payload 1
  tag ← read_uint32_le payload 2
  tag_bytes ← range payload 2 4
  key ← range payload 6 (length payload - 6)
  ok (
      segment (text "Flags")
        (text "Sub-type: DISCOVER_RESP | Node Type: "
          ++ get_device_role_name (device_role_of (low_bits flags 4)))
        (base + 0) (pos (base + 0)) (byte_to_hex flags)
      ∷ segment (text "SNR")
          (text "Inbound SNR: "
            ++ (print_quarters quarter_digits (snr_of_byte snr).num ++ text " dB"))
          (base + 1) (pos (base + 1)) (byte_to_hex snr)
      ∷ segment (text "Tag") (text "Tag: 0x" ++ to_hex_stream tag) (base + 2) (pos (base + 2 + 3))
          (bytes_to_hex tag_bytes)
      ∷ segment (key_type (length payload - 6))
          (key_type (length payload - 6)
            ++ (text " (" ++ (to_string (length payload - 6) ++ text " bytes)")))
          (base + 6) (last_byte (base + length payload)) (bytes_to_hex key)
      ∷ [])

-- Nothing is shown of another sub-type, or of a payload that is too short for its own.
unfoldable pub control_segments : Bytes → ℕ → Outcome (List PayloadSegment)
control_segments payload base = if ltb (length payload) 1 then ok [] else do
  raw ← read payload 0
  let sub_type = raw - raw % 16
  if sub_type == 0x80 && leb 6 (length payload)
      then discover_req_segments payload base
      else if sub_type == 0x90 && leb 14 (length payload)
      then discover_resp_segments payload base
      else ok []
