-- ===== src/Runs/Packets.antt =====
-- Whole packets.
use meshcore_cpp_decoder.Common.{
  ◌%◌, ◌^◌, ◌≡◌, refl, ◌↔◌, true, none, some, [], ◌∷◌, arith, ltb, length, drop, Bytes, text, ok,
}
use meshcore_cpp_decoder.Hex.{bytes_to_hex, hex_to_bytes}
use meshcore_cpp_decoder.Enums.{
  flood, transport_flood, ack, version1, payload_type_of, is_transport, version_value,
}
use meshcore_cpp_decoder.Packet.{DecodedPacket, decode_payload, decode}
use meshcore_cpp_decoder.Packet.Hash.{hash_loop, calculate_message_hash}
use meshcore_cpp_decoder.Packet.Digest.{base_31, hash_loop-base_31, message_digest}
use meshcore_cpp_decoder.Packet.Fields.{Fits, hops}
use meshcore_cpp_decoder.Packet.RoundTrip.{decode-build_packet, calculate_message_hash-build_packet}
use meshcore_cpp_decoder.Packet.Safety.{Judged, size_of, decode-returns}
use meshcore_cpp_decoder.Hex.{number_to_hex}
use meshcore_cpp_decoder.Decoders.Words.{word_at}
use meshcore_cpp_decoder.Packet.TraceHash.{calculate_message_hash-build_trace}
use meshcore_cpp_decoder.Packet.Validate.{ValidationResult, validate}
use meshcore_cpp_decoder.Packet.Agreement.{validate-build_packet}
use meshcore_cpp_decoder.Encoder.{EncodeResult, build_packet}
use meshcore_cpp_decoder.Encoder.Checks.{Accepts, build_packet-success_iff}
use meshcore_cpp_decoder.Crypto.KeyStore.{MeshCoreKeyStore}
use meshcore_cpp_decoder.Runs.Sample.{sample_ssl, sixteen_fits}

-- An acknowledgement with a path of two hashes of two bytes, behind transport codes.
abbrev checksum : Bytes
checksum = 0xDE ∷ 0xAD ∷ 0xBE ∷ 0xEF ∷ []

abbrev two_hops : Bytes
two_hops = 1 ∷ 2 ∷ 3 ∷ 4 ∷ []

sample-Fits : Fits transport_flood 3 checksum two_hops 2 2 (some (500, 7))
unfolding is_transport
sample-Fits = record {
  kind_small = omega arith;
  size_pos = omega arith;
  size_small = omega arith;
  count_small = omega arith;
  whole = refl;
  codes_fit = omega arith;
}

decode-build_packet_example :
    (r : EncodeResult) × (p : DecodedPacket) × (build_packet transport_flood
        (payload_type_of 3)
        checksum
        two_hops
        2
        (some (500, 7))
        version1
      ≡ r)
    × (r.success ≡ true)
    × (decode sample_ssl (bytes_to_hex r.bytes) none ≡ ok p)
    × (p.is_valid ≡ true)
    × (p.errors ≡ [])
    × (p.route_type ≡ transport_flood)
    × (p.payload_type ≡ payload_type_of 3)
    × (p.payload_version ≡ version1)
    × (p.transport_codes ≡ some (500, 7))
    × (p.path_length ≡ 2)
    × (p.path ≡ hops 2 2 two_hops)
    × (p.payload_raw ≡ bytes_to_hex checksum)
    × (decode_payload sample_ssl (payload_type_of 3) checksum (hops 2 2 two_hops) none
        ≡ ok p.payload_decoded)
    × (p.total_bytes ≡ length r.bytes)
    × (calculate_message_hash r.bytes transport_flood 3 (version_value version1)
        ≡ ok p.message_hash)
unfolding is_transport
decode-build_packet_example =
    decode-build_packet transport_flood 3 checksum two_hops 2 2 (some (500, 7)) version1 sample-Fits
      sample_ssl none (omega arith) (omega arith) tt

calculate_message_hash-build_packet_example :
    (r : EncodeResult) × (build_packet transport_flood
        (payload_type_of 3)
        checksum
        two_hops
        2
        (some (500, 7))
        version1
      ≡ r)
    × (calculate_message_hash r.bytes transport_flood 3 (version_value version1)
        ≡ ok (message_digest 3 (version_value version1) (drop 62 checksum)))
calculate_message_hash-build_packet_example =
    calculate_message_hash-build_packet transport_flood 3 checksum two_hops 2 2 (some (500, 7))
      version1 sample-Fits (omega arith)

-- A store with one key, and a channel message under its hash.
abbrev one_key : MeshCoreKeyStore
one_key = record {
  channel_hash_to_keys = (text "00", text "07070707070707070707070707070707" ∷ []) ∷ [];
  node_keys = [];
}

decode-returns_example :
    (p : DecodedPacket) × (decode sample_ssl (text "15000000000102") (some one_key) ≡ ok p)
    × (p.total_bytes ≡ size_of (hex_to_bytes (text "15000000000102")))
    × Judged p
decode-returns_example =
    decode-returns sample_ssl (some one_key) ((sixteen_fits, tt), tt) (text "15000000000102")

hash_loop-base_31_example : hash_loop checksum 2 1 7 ≡ ok (base_31 7 (0xAD ∷ 0xBE ∷ []) % 2 ^ 32)
hash_loop-base_31_example = hash_loop-base_31 checksum 2 1 7 (omega arith) (omega arith)

build_packet-success_iff_example :
    ((build_packet transport_flood ack checksum two_hops 3 none version1).success ≡ true)
    ↔ Accepts transport_flood two_hops 3 none
build_packet-success_iff_example =
    build_packet-success_iff transport_flood ack checksum two_hops 3 none version1

validate-build_packet_example :
    (r : EncodeResult) × (v : ValidationResult) × (build_packet transport_flood
        (payload_type_of 3)
        checksum
        two_hops
        2
        (some (500, 7))
        version1
      ≡ r)
    × (r.success ≡ true)
    × (validate (bytes_to_hex r.bytes) ≡ ok v)
    × (v.is_valid ≡ ltb 62 4)
validate-build_packet_example =
    validate-build_packet transport_flood 3 checksum two_hops 2 2 (some (500, 7)) version1
      sample-Fits (omega arith) (omega arith)

-- A trace with two hashes of two bytes.
abbrev traced : Bytes
traced = 1 ∷ 2 ∷ 3 ∷ 4 ∷ 5 ∷ 6 ∷ 7 ∷ 8 ∷ 9 ∷ 10 ∷ 11 ∷ []

trace-Fits : Fits flood 9 traced two_hops 2 2 none
unfolding is_transport
trace-Fits = record {
  kind_small = omega arith;
  size_pos = omega arith;
  size_small = omega arith;
  count_small = omega arith;
  whole = refl;
  codes_fit = tt;
}

calculate_message_hash-build_trace_example :
    (r : EncodeResult) × (build_packet flood (payload_type_of 9) traced two_hops 2 none version1
      ≡ r)
    × (calculate_message_hash r.bytes flood 9 0 ≡ ok (number_to_hex (word_at traced 0) 8))
calculate_message_hash-build_trace_example =
    calculate_message_hash-build_trace flood traced two_hops 2 2 none version1 trace-Fits 0
      (omega arith)
