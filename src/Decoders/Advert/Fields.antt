-- ===== src/Decoders/Advert/Fields.antt =====
-- The fields that the advert decoder fills.
use meshcore_cpp_decoder.Common.{
  ℕ, ◌+◌, ◌-◌, ◌≤◌, ◌<◌, ◌≡◌, inl, inr, Bool, ◌&&◌, Option, none, some, arith, ltb, leb,
  if◌then◌else◌, ltb→le, Bool-cases, has_bit, length, take, drop, length-drop, take-length, Bytes,
  Text, ok, get_or, read_lem, range_lem,
}
use meshcore_cpp_decoder.Common.Int.{Double, signed32}
use meshcore_cpp_decoder.Enums.{advert, has_location_bit, has_name_bit}
use meshcore_cpp_decoder.Payloads.{AdvertPayload, valid_base, AdvertAppData}
use meshcore_cpp_decoder.Hex.{bytes_to_hex}
use meshcore_cpp_decoder.Decoders.Words.{read_uint32_le_lem, word_at}
use meshcore_cpp_decoder.Decoders.Advert.{
  failed, parse_device_role, decode, name_of, read_location, skip_features, read_name,
  read_app_data,
}

-- The location that stands at an offset.
abbrev pub location_at : Bytes → ℕ → Double × Double
location_at payload o = (
  record { num = signed32 (word_at payload o); den = 1000000 },
  record { num = signed32 (word_at payload (o + 4)); den = 1000000 },
)

abbrev pub has_room : Bytes → ℕ → ℕ → Bool
has_room payload flag_byte o = has_bit flag_byte has_location_bit && leb (o + 8) (length payload)

-- The location of a payload whose flags ask for one and have room for it, and the offset behind it.
unfoldable pub place_of : Bytes → ℕ → Option (Double × Double)
place_of payload flag_byte =
    if has_room payload flag_byte 101 then some (location_at payload 101) else none

unfoldable pub behind_place : Bytes → ℕ → ℕ
behind_place payload flag_byte = if has_room payload flag_byte 101 then 109 else 101

read_location_lem :
    (payload : Bytes) (flag_byte : ℕ)
    → read_location payload flag_byte 101
      ≡ ok (place_of payload flag_byte, behind_place payload flag_byte)
unfolding read_location place_of behind_place
read_location_lem payload flag_byte = elim (Bool-cases (has_room payload flag_byte 101)) [
  | inl room ↦
      let le : 101 + 8 ≤ length payload = ground arith in
      rw (
        room,
        read_uint32_le_lem payload 101 (omega arith),
        read_uint32_le_lem payload 105 (omega arith),
      )
  | inr cut ↦ rw cut
]

-- The name, from an offset on.
unfoldable pub name_at : Bytes → ℕ → ℕ → Option Text
name_at payload flag_byte o =
    if has_bit flag_byte has_name_bit && ltb o (length payload)
    then some (name_of (drop o payload))
    else none

read_name_lem :
    (payload : Bytes) (flag_byte o : ℕ)
    → read_name payload flag_byte o ≡ ok (name_at payload flag_byte o)
unfolding read_name name_at
read_name_lem payload flag_byte o =
    elim (Bool-cases (has_bit flag_byte has_name_bit && ltb o (length payload))) [
      | inl named ↦
          let lt : o < length payload = ground arith in
          rw (
            named,
            range_lem payload o (length payload - o) (omega arith),
            take-length (length payload - o) (drop o payload)
                (omega (arith, length-drop o payload)),
          )
      | inr unnamed_node ↦ rw unnamed_node
    ]

-- The application data of a payload, by its flags.
abbrev pub app_data_of : Bytes → ℕ → AdvertAppData
app_data_of payload flag_byte = record {
  flags = flag_byte;
  device_role = parse_device_role flag_byte;
  has_location = has_bit flag_byte has_location_bit;
  has_name = has_bit flag_byte has_name_bit;
  latitude = elim (place_of payload flag_byte) [ none ↦ none | some (lat, lon) ↦ some lat ];
  longitude = elim (place_of payload flag_byte) [ none ↦ none | some (lat, lon) ↦ some lon ];
  name = name_at payload flag_byte (skip_features flag_byte (behind_place payload flag_byte));
}

read_app_data_lem :
    (payload : Bytes) (flag_byte : ℕ)
    → read_app_data payload flag_byte ≡ ok (app_data_of payload flag_byte)
unfolding read_app_data
read_app_data_lem payload flag_byte = rw (
  read_location_lem payload flag_byte,
  read_name_lem payload flag_byte (skip_features flag_byte (behind_place payload flag_byte)),
)

-- The advert that a payload of at least 101 bytes holds.
abbrev pub advert_of : Bytes → AdvertPayload
advert_of payload = record {
  base = valid_base advert;
  public_key = bytes_to_hex (take 32 (drop 0 payload));
  timestamp = word_at payload 32;
  signature = bytes_to_hex (take 64 (drop 36 payload));
  signature_valid = none;
  signature_error = none;
  app_data = app_data_of payload (get_or payload 100);
}

-- The decoder returns on every payload, whatever its flags promise, and never reads out of bounds.
pub advert_decode_lem :
    (payload : Bytes)
    → decode payload ≡ ok (if ltb (length payload) 101 then failed else advert_of payload)
unfolding decode
advert_decode_lem payload = elim (Bool-cases (ltb (length payload) 101)) [
  | inl short ↦ rw short
  | inr long ↦
      let le : 101 ≤ length payload = ltb→le (length payload) 101 long in
      rw (
        long,
        range_lem payload 0 32 (omega arith),
        read_uint32_le_lem payload 32 (omega arith),
        range_lem payload 36 64 (omega arith),
        read_lem payload 100 (omega arith),
        read_app_data_lem payload (get_or payload 100),
      )
]
