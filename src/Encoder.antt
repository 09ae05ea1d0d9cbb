-- ===== src/Encoder.antt =====
-- include/meshcore/encoder/packet_encoder.h and src/encoder/packet_encoder.cpp.
pub mod Group
pub mod Checks
pub mod Padding
pub mod Message
pub mod GroupRoundTrip
pub mod DataRoundTrip
pub mod Advert
pub mod AdvertLayout
pub mod AdvertRoundTrip
use meshcore_cpp_decoder.Common.{
  ℕ, ◌+◌, ◌-◌, ◌*◌, ◌/◌, ◌%◌, ◌^◌, String, Bool, true, false, not, ◌&&◌, ◌||◌, Option, none, some,
  [], ◌∷◌, ◌++◌, ltb, ◌==◌, if◌then◌else◌, length, Bytes, Text, text,
}
use meshcore_cpp_decoder.Enums.{
  RouteType, PayloadType, PayloadVersion, route_value, payload_value, version_value, is_transport,
}

pub record EncodeResult : Type 0 where
  pub success : Bool
  pub bytes : Bytes
  pub error : Text

unfoldable pub refused : String → EncodeResult
refused message = record { success = false; bytes = []; error = text message }

unfoldable pub built : Bytes → EncodeResult
built bs = record { success = true; bytes = bs; error = [] }

-- The header byte; its three fields are disjoint, so `|` is a sum.
unfoldable pub header_byte : RouteType → PayloadType → PayloadVersion → ℕ
header_byte route kind version =
    route_value route % 4 + payload_value kind % 16 * 2 ^ 2 + version_value version % 4 * 2 ^ 6

-- A uint16_t, low byte first.
unfoldable pub uint16_le : ℕ → Bytes
uint16_le v = (v % 256) ∷ (v / 2 ^ 8) ∷ []

unfoldable pub transport_bytes : Option (ℕ × ℕ) → Bytes
transport_bytes none = []
transport_bytes (some (code1, code2)) = uint16_le code1 ++ uint16_le code2

-- `(hashCount & 63) | ((pathHashSize - 1) << 6)`
unfoldable pub path_len_byte : ℕ → ℕ → ℕ
path_len_byte count size = count % 64 + (size - 1) * 2 ^ 6

-- The bytes of a packet whose arguments have passed the checks.
unfoldable pub assemble :
    RouteType → PayloadType → Bytes → Bytes → ℕ → Option (ℕ × ℕ) → PayloadVersion → Bytes
assemble route kind payload path size codes version =
    header_byte route kind version
    ∷ ((if is_transport route then transport_bytes codes else [])
        ++ (path_len_byte (length path / size) size ∷ (path ++ payload)))

-- `MeshCorePacketEncoder::buildPacket`
unfoldable pub build_packet :
    RouteType → PayloadType → Bytes → Bytes → ℕ → Option (ℕ × ℕ) → PayloadVersion → EncodeResult
build_packet route kind payload path size codes version =
    if ltb size 1 || ltb 4 size
    then refused "path hash size must be 1-4 bytes"
    else if not (length path % size == 0)
    then refused "path length is not a multiple of the hash size"
    else if ltb 63 (length path / size)
    then refused "path holds at most 63 hashes"
    else if is_transport route && elim codes [ none ↦ true | some c ↦ false ]
    then refused "transport route types need transport codes"
    else built (assemble route kind payload path size codes version)
