-- ===== src/Packet/Verification.antt =====
-- src/decoder/packet_decoder.cpp, `decodeWithVerification`.
pub mod Verdict
pub mod Safety
use meshcore_cpp_decoder.Common.{
  ◌+◌, ◌-◌, ◌*◌, false, not, Option, some, if◌then◌else◌, low_bits, length, Text, Outcome, ok,
  ◌>>=◌, ◌>>◌, catch, read, range,
}
use meshcore_cpp_decoder.Hex.{hex_to_bytes}
use meshcore_cpp_decoder.Enums.{PayloadType, advert, route_type_of}
use meshcore_cpp_decoder.Payloads.{PayloadData, AdvertPayload, of_advert}
use meshcore_cpp_decoder.Decoders.Hashes.{hash_size, hash_count}
use meshcore_cpp_decoder.Decoders.Advert.Signature as Signature
use meshcore_cpp_decoder.Crypto.OpenSsl.{OpenSsl}
use meshcore_cpp_decoder.Crypto.Ed25519.{Ed25519Evp}
use meshcore_cpp_decoder.Crypto.KeyStore.{MeshCoreKeyStore}
use meshcore_cpp_decoder.Packet.{DecodedPacket, decode}
use meshcore_cpp_decoder.Packet.Hash.{path_offset}

-- The packet with the advert that has been verified.
unfoldable pub with_advert : DecodedPacket → AdvertPayload → DecodedPacket
with_advert p a =
    if not a.base.is_valid
    then record p { payload_decoded = some (of_advert a); is_valid = false; errors = a.base.errors }
    else record p { payload_decoded = some (of_advert a) }

module _ (ssl : OpenSsl) (evp : Ed25519Evp) where
  -- The `try` block: the payload is found a second time, and decoded again.
  unfoldable pub verify_packet : Text → DecodedPacket → Outcome DecodedPacket
  unfolding with_advert
  verify_packet hex_data p = do
    bytes ← hex_to_bytes hex_data
    header ← read bytes 0
    let at = path_offset (route_type_of (low_bits header 2))
    path_len_byte ← read bytes at
    let offset = at + (1 + hash_count path_len_byte * hash_size path_len_byte)
    payload ← range bytes offset (length bytes - offset)
    a ← Signature.decode_with_verification evp payload
    ok (with_advert p a)

  -- Only the advert of a packet whose payload was decoded is verified; an exception keeps the packet.
  unfoldable pub verify_decoded :
      Text → DecodedPacket → PayloadType → Option PayloadData → Outcome DecodedPacket
  verify_decoded hex_data p advert (some d) = catch (verify_packet hex_data p) (λ what. ok p)
  verify_decoded hex_data p kind d = ok p

  -- `MeshCorePacketDecoder::decodeWithVerification`
  unfoldable pub decode_with_verification : Text → Option MeshCoreKeyStore → Outcome DecodedPacket
  decode_with_verification hex_data store = do
    p ← decode ssl hex_data store
    verify_decoded hex_data p p.payload_type p.payload_decoded
