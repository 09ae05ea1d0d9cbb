-- ===== src/Packet.antt =====
-- include/meshcore/types/packet.h and src/decoder/packet_decoder.cpp: the packet around a payload.
pub mod Hash
pub mod Validate
pub mod Layout
pub mod Digest
pub mod Fields
pub mod Frame
pub mod RoundTrip
pub mod Safety
pub mod Agreement
pub mod Verification
pub mod TraceHash
use meshcore_cpp_decoder.Common.{
  ℕ, ◌+◌, ◌-◌, ◌*◌, ◌^◌, Bool, true, false, Option, none, some, List, [], ◌∷◌, ltb, if◌then◌else◌,
  shr, low_bits, length, Bytes, Text, text, Outcome, ok, throws, fault, ◌>>=◌, ◌>>◌, catch, read,
  range,
}
use meshcore_cpp_decoder.Hex.{bytes_to_hex, hex_to_bytes}
use meshcore_cpp_decoder.Enums
use meshcore_cpp_decoder.Enums.{
  RouteType, flood, PayloadType, advert, trace, group_text, request, response, text_message,
  anon_request, ack, path, control, raw_custom, PayloadVersion, version1, route_type_of,
  payload_type_of, payload_version_of, is_transport, route_value,
}
use meshcore_cpp_decoder.Payloads.{
  PayloadData, ControlPayload, discover_req, discover_resp, of_advert, of_trace, of_group_text,
  of_request, of_text_message, of_anon_request, of_ack, of_path, of_response, of_discover_req,
  of_discover_resp,
}
use meshcore_cpp_decoder.Decoders.Hashes.{hash_size, hash_count, read_hashes}
use meshcore_cpp_decoder.Decoders.Request
use meshcore_cpp_decoder.Decoders.Response
use meshcore_cpp_decoder.Decoders.TextMessage
use meshcore_cpp_decoder.Decoders.AnonRequest
use meshcore_cpp_decoder.Decoders.Ack
use meshcore_cpp_decoder.Decoders.Path
use meshcore_cpp_decoder.Decoders.Trace
use meshcore_cpp_decoder.Decoders.Control
use meshcore_cpp_decoder.Decoders.Advert
use meshcore_cpp_decoder.Decoders.GroupText
use meshcore_cpp_decoder.Crypto.OpenSsl.{OpenSsl}
use meshcore_cpp_decoder.Crypto.KeyStore.{MeshCoreKeyStore}
use Hash.{calculate_message_hash}

pub record DecodedPacket : Type 0 where
  pub message_hash : Text
  pub route_type : RouteType
  pub payload_type : PayloadType
  pub payload_version : PayloadVersion
  pub transport_codes : Option (ℕ × ℕ)
  pub path_length : ℕ
  pub path : Option (List Text)
  pub payload_raw : Text
  pub payload_decoded : Option PayloadData
  pub total_bytes : ℕ
  pub is_valid : Bool
  pub errors : List Text

-- The packet as it is constructed.
unfoldable pub new_packet : DecodedPacket
new_packet = record {
  message_hash = [];
  route_type = flood;
  payload_type = raw_custom;
  payload_version = version1;
  transport_codes = none;
  path_length = 0;
  path = none;
  payload_raw = [];
  payload_decoded = none;
  total_bytes = 0;
  is_valid = false;
  errors = [];
}

-- How a part of the `try` block of `decode` ends, with the packet as it is then: it goes on at an
-- offset, it throws, or it reads out of bounds.
pub data Step : Type 0 where
  goes_on : DecodedPacket → ℕ → Step
  raised : DecodedPacket → Text → Step
  crashed : Step

-- What `m` throws leaves the packet as it is.
unfoldable pub lift : DecodedPacket → Outcome Step → Step
lift p (ok s) = s
lift p (throws e) = raised p e
lift p fault = crashed

-- A part after another.
unfoldable pub and_then : Step → (DecodedPacket → ℕ → Step) → Step
and_then (goes_on p offset) f = f p offset
and_then (raised p e) f = raised p e
and_then crashed f = crashed

-- `uint16_t code = bytes[offset] | (bytes[offset + 1] << 8)`
unfoldable pub read_uint16_le : Bytes → ℕ → Outcome ℕ
read_uint16_le bytes offset = do
  low ← read bytes offset
  high ← read bytes (offset + 1)
  ok (low + high * 2 ^ 8)

-- The header byte: bits 0-1 route type, 2-5 payload type, 6-7 version.
unfoldable pub parse_header : ℕ → DecodedPacket → DecodedPacket
parse_header header p = record p {
  route_type = route_type_of (low_bits header 2);
  payload_type = payload_type_of (low_bits (shr header 2) 4);
  payload_version = payload_version_of (low_bits (shr header 6) 2);
}

unfoldable pub parse_transport : Bytes → DecodedPacket → ℕ → Step
parse_transport bytes p offset =
    if is_transport p.route_type
    then if ltb (length bytes) (offset + 4)
      then raised p (text "Packet too short for transport codes")
      else lift p (do
        code1 ← read_uint16_le bytes offset
        code2 ← read_uint16_le bytes (offset + 2)
        ok (goes_on (record p { transport_codes = some (code1, code2) }) (offset + 4)))
    else goes_on p offset

unfoldable pub parse_path : Bytes → DecodedPacket → ℕ → Step
parse_path bytes p offset =
    if ltb (length bytes) (offset + 1)
    then raised p (text "Packet too short for path length")
    else lift p (do
      path_len_byte ← read bytes offset
      let count = hash_count path_len_byte
      let size = hash_size path_len_byte
      let p' = record p { path_length = count }
      if ltb (length bytes) (offset + 1 + count * size)
          then ok (raised p' (text "Packet too short for path data"))
          else if ltb 0 count
          then (do
            hashes ← read_hashes bytes size count (offset + 1)
            ok (goes_on (record p' { path = some hashes }) (offset + 1 + count * size)))
          else ok (goes_on p' (offset + 1 + count * size)))

-- The alternatives of `std::visit` on the result of the control decoder.
unfoldable pub of_control : ControlPayload → PayloadData
of_control (discover_req r) = of_discover_req r
of_control (discover_resp r) = of_discover_resp r

-- `m` and then `some (f x)` for its result `x`.
unfoldable pub decoded_as :
    {A : Type 0} → (A → PayloadData) → Outcome A → Outcome (Option PayloadData)
decoded_as f m = m >>= (λ x. ok (some (f x)))

module _ (ssl : OpenSsl) where
  -- The switch over the payload type.
  unfoldable pub decode_payload :
      PayloadType
      → Bytes
      → Option (List Text)
      → Option MeshCoreKeyStore
      → Outcome (Option PayloadData)
  decode_payload advert payload hashes store = decoded_as of_advert (Advert.decode payload)
  decode_payload trace payload hashes store = decoded_as of_trace (Trace.decode payload hashes)
  decode_payload group_text payload hashes store =
      decoded_as of_group_text (GroupText.decode ssl payload store)
  decode_payload request payload hashes store = decoded_as of_request (Request.decode payload)
  decode_payload response payload hashes store = decoded_as of_response (Response.decode payload)
  decode_payload text_message payload hashes store =
      decoded_as of_text_message (TextMessage.decode payload)
  decode_payload anon_request payload hashes store =
      decoded_as of_anon_request (AnonRequest.decode payload)
  decode_payload ack payload hashes store = decoded_as of_ack (Ack.decode payload)
  decode_payload path payload hashes store = decoded_as of_path (Path.decode payload)
  decode_payload control payload hashes store = decoded_as of_control (Control.decode payload)
  decode_payload other payload hashes store = ok none

  -- The rest of the `try` block, behind `payloadRaw`.
  unfoldable pub parse_payload :
      ℕ → Bytes → Option MeshCoreKeyStore → DecodedPacket → Bytes → Outcome DecodedPacket
  parse_payload header bytes store p payload = do
    decoded ← decode_payload p.payload_type payload p.path store
    hash ←
        calculate_message_hash bytes p.route_type (low_bits (shr header 2) 4)
          (low_bits (shr header 6) 2)
    ok (record p {
      payload_decoded = decoded;
      message_hash = hash;
      total_bytes = length bytes;
      is_valid = true;
    })

  -- The packet when the `try` block has ended or has been left by an exception.
  unfoldable pub caught : Bytes → DecodedPacket → Text → Outcome DecodedPacket
  caught bytes p what = ok (record p { total_bytes = length bytes; errors = what ∷ [] })

  unfoldable pub finish : ℕ → Bytes → Option MeshCoreKeyStore → Step → Outcome DecodedPacket
  unfolding caught
  finish header bytes store (goes_on p offset) = do
    payload ← range bytes offset (length bytes - offset)
    let p' = record p { payload_raw = bytes_to_hex payload }
    catch (parse_payload header bytes store p' payload) (caught bytes p')
  finish header bytes store (raised p what) = caught bytes p what
  finish header bytes store crashed = fault

  -- `decode` from the bytes on.
  unfoldable pub decode_bytes : Bytes → Option MeshCoreKeyStore → Outcome DecodedPacket
  decode_bytes bytes store =
      if ltb (length bytes) 2
      then ok (record new_packet {
        errors = text "Packet too short (minimum 2 bytes required)" ∷ [];
        total_bytes = length bytes;
      })
      else do
        header ← read bytes 0
        let opened = parse_transport bytes (parse_header header new_packet) 1
        finish header bytes store (and_then opened (parse_path bytes))

  -- What `decode` makes of the result of `hexToBytes`, which its `try` block begins with.
  unfoldable pub decode_from : Outcome Bytes → Option MeshCoreKeyStore → Outcome DecodedPacket
  decode_from (ok bytes) store = decode_bytes bytes store
  decode_from (throws what) store = ok (record new_packet { errors = what ∷ [] })
  decode_from fault store = fault

  -- `MeshCorePacketDecoder::decode`
  unfoldable pub decode : Text → Option MeshCoreKeyStore → Outcome DecodedPacket
  decode hex_data store = decode_from (hex_to_bytes hex_data) store
