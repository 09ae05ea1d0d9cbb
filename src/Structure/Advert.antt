-- ===== src/Structure/Advert.antt =====
-- `generateSegments` of src/decoder/payload_decoders/advert.cpp. `base` is `segmentOffset`, and
-- `print_degrees` is what `<<` makes of the double of a coordinate.
use meshcore_cpp_decoder.Common.{
  ℕ, ◌+◌, ◌-◌, Bool, ◌&&◌, List, [], ◌∷◌, ◌++◌, ltb, leb, if◌then◌else◌, has_bit, length, Bytes,
  Text, text, Outcome, ok, ◌>>=◌, read, range,
}
use meshcore_cpp_decoder.Common.Int.{pos, Double, signed32}
use meshcore_cpp_decoder.Hex.{byte_to_hex, bytes_to_hex}
use meshcore_cpp_decoder.Format.{to_string, binary}
use meshcore_cpp_decoder.Enums.{has_location_bit, has_name_bit}
use meshcore_cpp_decoder.Enums.Names.{get_device_role_name}
use meshcore_cpp_decoder.Decoders.Words.{read_uint32_le}
use meshcore_cpp_decoder.Decoders.Advert.{parse_device_role, skip_features, until_nul}
use meshcore_cpp_decoder.Structure.Segment.{PayloadSegment, segment, last_byte, too_short}

unfoldable pub yes_or_no : Bool → Text
yes_or_no b = if b then text "Yes" else text "No"

unfoldable pub flags_text : ℕ → Text
unfolding yes_or_no
flags_text flags =
    text "Binary: "
    ++ (binary 8 flags
        ++ (text " | Role: "
            ++ (get_device_role_name (parse_device_role flags)
                ++ (text " | Location: "
                    ++ (yes_or_no (has_bit flags has_location_bit)
                        ++ (text " | Name: " ++ yes_or_no (has_bit flags has_name_bit)))))))

-- The name, where the flag is set and bytes are left; the quotes show it up to a NUL.
unfoldable pub name_segment : Bytes → ℕ → ℕ → ℕ → Outcome (List PayloadSegment)
name_segment payload base flags offset =
    if has_bit flags has_name_bit && ltb offset (length payload)
    then (do
      raw ← range payload offset (length payload - offset)
      ok (
          segment (text "Node Name") (text "Node name: \"" ++ (until_nul raw ++ text "\""))
            (base + offset) (last_byte (base + length payload)) (bytes_to_hex raw)
          ∷ []))
    else ok []

module _ (print_degrees : Double → Text) where
  -- A coordinate in millionths of a degree, with the degree sign in UTF-8.
  unfoldable pub degrees_text : ℕ → Text
  degrees_text word =
      print_degrees (record { num = signed32 word; den = 1000000 }) ++ (0xC2 ∷ 0xB0 ∷ [])

  -- The location, where the flag is set and eight bytes are left, and the offset behind it.
  unfoldable pub location_segments : Bytes → ℕ → ℕ → ℕ → Outcome (List PayloadSegment × ℕ)
  location_segments payload base flags offset =
      if has_bit flags has_location_bit && leb (offset + 8) (length payload)
      then (do
        lat ← read_uint32_le payload offset
        lon ← read_uint32_le payload (offset + 4)
        lat_bytes ← range payload offset 4
        lon_bytes ← range payload (offset + 4) 4
        ok (
          segment (text "Latitude") (degrees_text lat) (base + offset) (pos (base + offset + 3))
                (bytes_to_hex lat_bytes)
              ∷ segment (text "Longitude") (degrees_text lon) (base + offset + 4)
                  (pos (base + offset + 7)) (bytes_to_hex lon_bytes)
              ∷ [],
          offset + 8,
        ))
      else ok ([], offset)

  unfoldable pub advert_segments : Bytes → ℕ → Outcome (List PayloadSegment)
  advert_segments payload base =
      if ltb (length payload) 101
      then too_short (text "Invalid Advert Data")
          (text "Advert payload too short (minimum 101 bytes required)") payload base
      else do
        key ← range payload 0 32
        stamp ← read_uint32_le payload 32
        stamp_bytes ← range payload 32 4
        sign ← range payload 36 64
        flags ← read payload 100
        (place, behind) ← location_segments payload base flags 101
        label ← name_segment payload base flags (skip_features flags behind)
        ok (
            segment (text "Public Key") (text "Ed25519 public key") (base + 0) (pos (base + 0 + 31))
              (bytes_to_hex key)
            ∷ segment (text "Timestamp") (to_string stamp ++ text " (timestamp)") (base + 32)
                (pos (base + 32 + 3)) (bytes_to_hex stamp_bytes)
            ∷ segment (text "Signature") (text "Ed25519 signature") (base + 36)
                (pos (base + 36 + 63)) (bytes_to_hex sign)
            ∷ segment (text "App Flags") (flags_text flags) (base + 100) (pos (base + 100))
                (byte_to_hex flags)
            ∷ (place ++ label))
