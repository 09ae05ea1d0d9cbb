-- ===== src/Packet/TraceHash.antt =====
-- The hash of the trace packets that `buildPacket` builds.
use meshcore_cpp_decoder.Common.{
  ℕ, ◌+◌, ◌*◌, ◌≤◌, ◌≡◌, sym, Option, ◌++◌, arith, lt→ltb, le→leb, length, drop, Bytes, ok,
}
use meshcore_cpp_decoder.Hex.{number_to_hex}
use meshcore_cpp_decoder.Enums.{RouteType, PayloadVersion, payload_type_of}
use meshcore_cpp_decoder.Decoders.Hashes.{hash_size, hash_count}
use meshcore_cpp_decoder.Decoders.Words.{word_at, word_at-drop, read_uint32_le_lem}
use meshcore_cpp_decoder.Packet.Hash.{path_offset, trace_offset, calculate_message_hash}
use meshcore_cpp_decoder.Packet.Layout.{read-drop, drop-next, drop-past}
use meshcore_cpp_decoder.Packet.Fields.{Fits, path_offset_pos}
use meshcore_cpp_decoder.Packet.Frame.{
  frame, build_packet_lem, len_byte, drop-frame, length-frame, count-len_byte, size-len_byte,
}
use meshcore_cpp_decoder.Encoder.{EncodeResult, built, build_packet}

module _ (route : RouteType) (payload path : Bytes) (size count : ℕ) (codes : Option (ℕ × ℕ))
    (version : PayloadVersion) (fits : Fits route 9 payload path size count codes) where
  -- The message hash of a trace packet that `buildPacket` accepts, with eleven bytes of payload or
  -- more, is its tag, the first word of the payload, whatever its route, its path and their sizes.
  pub calculate_message_hash-build_trace :
      (version_bits : ℕ)
      → 11 ≤ length payload
      → (r : EncodeResult) × (build_packet route (payload_type_of 9) payload path size codes version
          ≡ r)
        × (calculate_message_hash r.bytes route 9 version_bits
            ≡ ok (number_to_hex (word_at payload 0) 8))
  unfolding calculate_message_hash trace_offset built
  calculate_message_hash-build_trace version_bits eleven =
      let f : Bytes = frame route 9 payload path size count codes version fits in
      let b : ℕ = len_byte route 9 payload path size count codes version fits in
      let o : ℕ = path_offset route in
      let placed = drop-frame route 9 payload path size count codes version fits in
      let count_b = count-len_byte route 9 payload path size count codes version fits in
      let size_b = size-len_byte route 9 payload path size count codes version fits in
      let len : length f ≡ o + 1 + count * size + length payload =
        length-frame route 9 payload path size count codes version fits in
      let long = le→leb 13 (length f) (omega (arith, len, path_offset_pos route)) in
      let inside = lt→ltb o (length f) (omega (arith, len)) in
      let here = read-drop f o b (path ++ payload) placed in
      let place : o + (1 + hash_count b * hash_size b) ≡ o + 1 + count * size =
        rw (count_b, size_b) (omega arith) in
      let behind : drop (o + 1 + count * size) f ≡ payload =
        drop-past f (o + 1) (count * size) path payload (drop-next f o b (path ++ payload) placed)
          (sym fits.whole) in
      let fits_tag : o + 1 + count * size + 4 ≤ length f = omega (arith, len) in
      let room = le→leb (o + 1 + count * size + 4) (length f) fits_tag in
      let tag = read_uint32_le_lem f (o + 1 + count * size) fits_tag in
      (
        built f,
        build_packet_lem route 9 payload path size count codes version fits,
        rw (
          long,
          inside,
          here,
          place,
          room,
          tag,
          word_at-drop f payload (o + 1 + count * size) behind,
        ),
      )
