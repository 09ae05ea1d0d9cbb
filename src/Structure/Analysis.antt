-- ===== src/Structure/Analysis.antt =====
-- src/decoder/packet_decoder.cpp, `analyzeStructure`. Nothing in its `try` block throws, so the model
-- has no handler. The key store that it takes is not used.
pub mod Parts
pub mod Envelope
use meshcore_cpp_decoder.Common.{
  ◌+◌, ◌-◌, ◌*◌, ◌%◌, ◌^◌, not, Option, List, ◌∷◌, ◌++◌, map, ltb, if◌then◌else◌, shr, low_bits,
  length, Bytes, Text, text, Outcome, ok, throws, fault, ◌>>=◌, ◌>>◌, read, range,
}
use meshcore_cpp_decoder.Common.Int.{ℤ, pos, Double}
use meshcore_cpp_decoder.Hex.{byte_to_hex, bytes_to_hex, hex_to_bytes, to_upper}
use meshcore_cpp_decoder.Format.{
  to_string, to_hex_stream, binary, fixed_quarter_digits, print_quarters,
}
use meshcore_cpp_decoder.Enums.{
  RouteType, flood, direct, transport_flood, transport_direct, PayloadType, advert, trace,
  group_text, request, response, text_message, anon_request, ack, control, route_type_of,
  payload_type_of, is_transport,
}
use meshcore_cpp_decoder.Enums.Names.{get_route_type_name, get_payload_type_name}
use meshcore_cpp_decoder.Decoders.Hashes.{hash_size, hash_count}
use meshcore_cpp_decoder.Decoders.Words.{read_uint32_le}
use meshcore_cpp_decoder.Decoders.Trace.{snr_of_byte}
use meshcore_cpp_decoder.Crypto.KeyStore.{MeshCoreKeyStore}
use meshcore_cpp_decoder.Packet.Hash.{path_offset, calculate_message_hash}
use meshcore_cpp_decoder.Structure.Segment.{
  HeaderField, HeaderBreakdown, PacketSegment, PayloadSegment, segment, last_byte,
}
use meshcore_cpp_decoder.Structure.Ciphered.{
  ack_segments, request_segments, response_segments, text_message_segments, anon_request_segments,
  group_text_segments,
}
use meshcore_cpp_decoder.Structure.Reports.{trace_segments, control_segments}
use meshcore_cpp_decoder.Structure.Advert.{advert_segments}
use meshcore_cpp_decoder.Structure.Outline.{
  PacketStructure, new_structure, header_segment, transport_segments, path_length_segment,
  path_segments, payload_segment, raw_segments,
}

module _ (print_degrees : Double → Text) where
  -- The switch over the payload type, with `segmentOffset` 0.
  unfoldable pub payload_segments : PayloadType → Bytes → Outcome (List PayloadSegment)
  payload_segments advert payload = advert_segments print_degrees payload 0
  payload_segments trace payload = trace_segments payload 0
  payload_segments group_text payload = group_text_segments payload 0
  payload_segments request payload = request_segments payload 0
  payload_segments response payload = response_segments payload 0
  payload_segments text_message payload = text_message_segments payload 0
  payload_segments anon_request payload = anon_request_segments payload 0
  payload_segments ack payload = ack_segments payload 0
  payload_segments control payload = control_segments payload 0
  payload_segments other payload = raw_segments other payload

  -- The `try` block, for a buffer of two bytes at least. The path length is a uint8_t.
  unfoldable pub analyze_bytes : Bytes → Text → Outcome PacketStructure
  analyze_bytes bytes raw = do
    header ← read bytes 0
    let route = route_type_of (low_bits header 2)
    let kind = payload_type_of (low_bits (shr header 2) 4)
    codes ← transport_segments route bytes
    path_len_byte ← read bytes (path_offset route)
    let path_length = hash_count path_len_byte * hash_size path_len_byte % 2 ^ 8
    let offset = path_offset route + 1 + path_length
    hops ← path_segments kind bytes path_length (path_offset route + 1)
    shown ← payload_segment kind bytes offset
    payload ← range bytes offset (length bytes - offset)
    parts ← payload_segments kind payload
    hash ←
        calculate_message_hash bytes route (low_bits (shr header 2) 4) (low_bits (shr header 6) 2)
    ok (record {
      segments =
          header_segment header
          ∷ (codes
              ++ (path_length_segment route (path_offset route) path_len_byte ∷ (hops ++ shown)));
      total_bytes = length bytes;
      raw_hex = raw;
      message_hash = hash;
      payload = record {
        segments = parts;
        hex = bytes_to_hex payload;
        start_byte = offset;
        type_name = get_payload_type_name kind;
      };
    })

  -- What `analyzeStructure` makes of the result of `hexToBytes`, with the text in upper case.
  unfoldable pub analyze_from : Outcome Bytes → Text → Outcome PacketStructure
  analyze_from (throws what) raw = ok new_structure
  analyze_from fault raw = fault
  analyze_from (ok bytes) raw =
      if ltb (length bytes) 2
      then ok (record new_structure { raw_hex = raw; total_bytes = length bytes })
      else analyze_bytes bytes raw

  -- `MeshCorePacketDecoder::analyzeStructure`
  unfoldable pub analyze_structure : Text → Option MeshCoreKeyStore → Outcome PacketStructure
  unfolding analyze_from
  analyze_structure hex_data store = analyze_from (hex_to_bytes hex_data) (map to_upper hex_data)

  -- `MeshCorePacketDecoder::analyzeStructureWithVerification`
  unfoldable pub analyze_structure_with_verification :
      Text → Option MeshCoreKeyStore → Outcome PacketStructure
  unfolding analyze_structure
  analyze_structure_with_verification hex_data store = analyze_structure hex_data store
