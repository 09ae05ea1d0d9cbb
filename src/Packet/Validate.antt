-- ===== src/Packet/Validate.antt =====
-- src/decoder/packet_decoder.cpp, `validate`.
use meshcore_cpp_decoder.Common.{
  ℕ, ◌+◌, String, Bool, true, false, ◌&&◌, List, [], ◌∷◌, ◌++◌, ltb, leb, if◌then◌else◌, low_bits,
  length, Bytes, Text, text, Outcome, ok, throws, fault, ◌>>=◌, read,
}
use meshcore_cpp_decoder.Hex.{hex_to_bytes}
use meshcore_cpp_decoder.Enums.{route_type_of, is_transport}

pub record ValidationResult : Type 0 where
  pub is_valid : Bool
  pub errors : List Text

-- One check: the error it adds, if any.
unfoldable pub error_if : Bool → String → List Text
error_if b message = if b then text message ∷ [] else []

-- The checks from the path-length byte on; the byte counts as the length of the path in bytes.
unfoldable pub validate_path : Bytes → ℕ → Outcome (List Text)
validate_path bytes offset =
    if ltb (length bytes) (offset + 1)
    then ok (
        text "Packet too short for path length"
        ∷ error_if (leb (length bytes) offset) "No payload data found")
    else do
      path_length ← read bytes offset
      ok (
          error_if (ltb (length bytes) (offset + 1 + path_length)) "Packet too short for path data"
          ++ error_if (leb (length bytes) (offset + 1 + path_length)) "No payload data found")

-- `result.errors.empty()`
unfoldable pub verdict : List Text → Bool
verdict [] = true
verdict (e ∷ es) = false

-- `validate` from the bytes on.
unfoldable pub validate_bytes : Bytes → Outcome ValidationResult
validate_bytes bytes =
    if ltb (length bytes) 2
    then ok (record {
      is_valid = false;
      errors = text "Packet too short (minimum 2 bytes required)" ∷ [];
    })
    else do
      header ← read bytes 0
      let transport = is_transport (route_type_of (low_bits header 2))
      rest ← validate_path bytes (if transport then 5 else 1)
      let found =
          error_if (transport && ltb (length bytes) 5) "Packet too short for transport codes"
          ++ rest
      ok (record { is_valid = verdict found; errors = found })

-- What `validate` makes of the result of `hexToBytes`.
unfoldable pub validate_from : Outcome Bytes → Outcome ValidationResult
validate_from (ok bytes) = validate_bytes bytes
validate_from (throws what) = ok (record { is_valid = false; errors = what ∷ [] })
validate_from fault = fault

-- `MeshCorePacketDecoder::validate`
unfoldable pub validate : Text → Outcome ValidationResult
validate hex_data = validate_from (hex_to_bytes hex_data)
