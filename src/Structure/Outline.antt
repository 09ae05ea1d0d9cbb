-- ===== src/Structure/Outline.antt =====
-- src/decoder/packet_decoder.cpp: the segments of a packet that `analyzeStructure` shows.
use meshcore_cpp_decoder.Common.{
  ℕ, zero, suc, ◌+◌, ◌-◌, none, some, List, [], ◌∷◌, ◌++◌, ltb, if◌then◌else◌, shr, low_bits,
  length, replicate, Bytes, Text, text, Outcome, ok, ◌>>=◌, read, range,
}
use meshcore_cpp_decoder.Common.Int.{ℤ, pos}
use meshcore_cpp_decoder.Hex.{byte_to_hex, bytes_to_hex}
use meshcore_cpp_decoder.Format.{
  to_string, to_hex_stream, binary, fixed_quarter_digits, print_quarters,
}
use meshcore_cpp_decoder.Enums.{
  RouteType, flood, direct, transport_flood, transport_direct, PayloadType, trace, route_type_of,
  payload_type_of, is_transport,
}
use meshcore_cpp_decoder.Enums.Names.{get_route_type_name, get_payload_type_name}
use meshcore_cpp_decoder.Decoders.Hashes.{hash_size, hash_count}
use meshcore_cpp_decoder.Decoders.Words.{read_uint32_le}
use meshcore_cpp_decoder.Decoders.Trace.{snr_of_byte}
use meshcore_cpp_decoder.Structure.Segment.{PacketSegment, PayloadSegment, segment, last_byte}

-- The part of the structure that is about the payload.
pub record PayloadStructure : Type 0 where
  pub segments : List PayloadSegment
  pub hex : Text
  pub start_byte : ℕ
  pub type_name : Text

pub record PacketStructure : Type 0 where
  pub segments : List PacketSegment
  pub total_bytes : ℕ
  pub raw_hex : Text
  pub message_hash : Text
  pub payload : PayloadStructure

unfoldable pub new_structure : PacketStructure
new_structure = record {
  segments = [];
  total_bytes = 0;
  raw_hex = [];
  message_hash = [];
  payload = record { segments = []; hex = []; start_byte = 0; type_name = [] };
}

-- `structure.segments.push_back({name, description, first, last, value})`
unfoldable pub packet_segment : Text → Text → ℕ → ℤ → Text → PacketSegment
packet_segment label what first last shown = record {
  name = label;
  description = what;
  start_byte = first;
  end_byte = last;
  value = shown;
  header_breakdown = none;
}

unfoldable pub header_segment : ℕ → PacketSegment
header_segment header =
    let route = low_bits header 2 in
    let kind = low_bits (shr header 2) 4 in
    let version = low_bits (shr header 6) 2 in
    record {
      name = text "Header";
      description = text "Header byte breakdown";
      start_byte = 0;
      end_byte = pos 0;
      value = text "0x" ++ byte_to_hex header;
      header_breakdown = some (record {
        full_binary = binary 8 header;
        fields =
            record {
              bits = text "0-1";
              field = text "Route Type";
              value = get_route_type_name (route_type_of route);
              digits = binary 2 route;
            }
            ∷ record {
              bits = text "2-5";
              field = text "Payload Type";
              value = get_payload_type_name (payload_type_of kind);
              digits = binary 4 kind;
            }
            ∷ record {
              bits = text "6-7";
              field = text "Version";
              value = to_string version;
              digits = binary 2 version;
            }
            ∷ [];
      });
    }

-- `<< std::hex << std::setfill('0') << std::setw(8) << code`
unfoldable pub eight_hex_digits : ℕ → Text
eight_hex_digits n = replicate (8 - length (to_hex_stream n)) b'0' ++ to_hex_stream n

unfoldable pub transport_segments : RouteType → Bytes → Outcome (List PacketSegment)
unfolding eight_hex_digits
transport_segments route bytes =
    if is_transport route
    then (do
      code ← read_uint32_le bytes 1
      ok (
          packet_segment (text "Transport Code") (text "Used for Direct/Response routing") 1
            (pos (1 + 3)) (text "0x" ++ eight_hex_digits code)
          ∷ []))
    else ok []

unfoldable pub path_purpose : RouteType → Text
path_purpose direct = text " of routing instructions"
path_purpose transport_direct = text " of routing instructions"
path_purpose flood = text " showing route taken"
path_purpose transport_flood = text " showing route taken"

unfoldable pub path_length_segment : RouteType → ℕ → ℕ → PacketSegment
unfolding path_purpose
path_length_segment route offset path_len_byte =
    packet_segment (text "Path Length")
      (to_string (hash_count path_len_byte)
        ++ (text " hops x "
            ++ (to_string (hash_size path_len_byte)
                ++ (text "-byte hashes" ++ path_purpose route))))
      offset (pos offset) (text "0x" ++ byte_to_hex path_len_byte)

-- The loop over the path of a trace packet: `rounds` bytes are left from the `i`th on.
unfoldable pub snr_text : Bytes → ℕ → ℕ → ℕ → Outcome Text
snr_text bytes offset zero i = ok []
snr_text bytes offset (suc rounds) i = do
  raw ← read bytes (offset + i)
  rest ← snr_text bytes offset rounds (i + 1)
  ok (
      (if ltb 0 i then text ", " else [])
      ++ (print_quarters fixed_quarter_digits (snr_of_byte raw).num ++ (text "dB" ++ rest)))

-- The segment of a path of `path_length` bytes, if it has any.
unfoldable pub path_segments : PayloadType → Bytes → ℕ → ℕ → Outcome (List PacketSegment)
path_segments trace bytes path_length offset =
    if ltb 0 path_length
    then (do
      values ← snr_text bytes offset path_length 0
      raw ← range bytes offset path_length
      ok (
          packet_segment (text "Path SNR Data") (text "SNR values: " ++ values) offset
            (last_byte (offset + path_length)) (bytes_to_hex raw)
          ∷ []))
    else ok []
path_segments other bytes path_length offset =
    if ltb 0 path_length
    then (do
      raw ← range bytes offset path_length
      ok (
          packet_segment (text "Path Data") (text "Routing path information") offset
            (last_byte (offset + path_length)) (bytes_to_hex raw)
          ∷ []))
    else ok []

-- The segment of the payload, if there is one.
unfoldable pub payload_segment : PayloadType → Bytes → ℕ → Outcome (List PacketSegment)
payload_segment kind bytes offset =
    if ltb offset (length bytes)
    then (do
      raw ← range bytes offset (length bytes - offset)
      ok (
          packet_segment (text "Payload") (get_payload_type_name kind ++ text " payload data")
            offset (last_byte (length bytes)) (bytes_to_hex raw)
          ∷ []))
    else ok []

-- The `default` of the switch.
unfoldable pub raw_segments : PayloadType → Bytes → Outcome (List PayloadSegment)
raw_segments kind payload =
    if ltb 0 (length payload)
    then (do
      whole ← range payload 0 (length payload)
      ok (
          segment (get_payload_type_name kind ++ text " Payload")
            (text "Raw payload data (" ++ (to_string (length payload) ++ text " bytes)")) 0
            (last_byte (length payload)) (bytes_to_hex whole)
          ∷ []))
    else ok []
