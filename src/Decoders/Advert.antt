-- ===== src/Decoders/Advert.antt =====
-- src/decoder/payload_decoders/advert.cpp, the decoder. The `try` block of `decode`
-- only reads the payload, so the model has no handler.
pub mod Shape
pub mod Fields
pub mod Names
pub mod Signature
pub mod Shown
pub mod Meaning
use meshcore_cpp_decoder.Common.{
  ℕ, ◌+◌, ◌-◌, Bool, false, not, ◌&&◌, ◌||◌, Option, none, some, [], ◌∷◌, ltb, leb, ◌==◌,
  if◌then◌else◌, low_bits, has_bit, length, Bytes, Text, text, Outcome, ok, throws, ◌>>=◌, ◌>>◌,
  read, range,
}
use meshcore_cpp_decoder.Common.Int.{Double, signed32}
use meshcore_cpp_decoder.Hex.{bytes_to_hex}
use meshcore_cpp_decoder.Enums.{
  advert, DeviceRole, chat_node, repeater, room_server, sensor, has_location_bit, has_feature1_bit,
  has_feature2_bit, has_name_bit,
}
use meshcore_cpp_decoder.Payloads.{AdvertPayload, AdvertAppData, valid_base, failed_base}
use meshcore_cpp_decoder.Decoders.Words.{read_uint32_le}

-- `parseDeviceRole`
unfoldable pub parse_device_role : ℕ → DeviceRole
parse_device_role flag_byte =
    let role = low_bits flag_byte 4 in
    if role == 1
    then chat_node
    else if role == 2
    then repeater
    else if role == 3
    then room_server
    else if role == 4
    then sensor
    else chat_node

-- The characters that the loop of `sanitizeControlCharacters` keeps: `c >= 0x20 && c != 0x7F` as a
-- signed `char`, or the top bit set.
unfoldable pub keeps : ℕ → Bool
keeps c = leb 0x20 c && ltb c 128 && not (c == 0x7F) || leb 128 c

unfoldable pub keep_all : Text → Text
unfolding keeps
keep_all [] = []
keep_all (c ∷ s) = if keeps c then c ∷ keep_all s else keep_all s

-- The set " \t\r\n".
unfoldable pub is_blank : ℕ → Bool
is_blank c = c == 32 || c == 9 || c == 13 || c == 10

-- `find_first_not_of`, by dropping what stands in front of it.
unfoldable pub trim_left : Text → Text
unfolding is_blank
trim_left [] = []
trim_left (c ∷ s) = if is_blank c then trim_left s else c ∷ s

-- A character in front of what is left behind it.
unfoldable pub keep_right : ℕ → Text → Text
unfolding is_blank
keep_right c [] = if is_blank c then [] else c ∷ []
keep_right c (d ∷ s) = c ∷ d ∷ s

-- `find_last_not_of`, by dropping what stands behind it.
unfoldable pub trim_right : Text → Text
unfolding keep_right
trim_right [] = []
trim_right (c ∷ s) = keep_right c (trim_right s)

unfoldable pub trim : Text → Text
unfolding trim_left trim_right
trim s = trim_right (trim_left s)

-- `sanitizeControlCharacters`
unfoldable pub sanitize : Text → Text
unfolding keep_all trim
sanitize value = trim (keep_all value)

-- `find('\0')` and `substr(0, pos)`
unfoldable pub until_nul : Text → Text
until_nul [] = []
until_nul (c ∷ s) = if c == 0 then [] else c ∷ until_nul s

-- `sanitized.empty() ? rawName : sanitized`
unfoldable pub name_of : Text → Text
unfolding sanitize until_nul
name_of raw = elim (sanitize (until_nul raw)) [ [] ↦ until_nul raw | c ∷ s ↦ c ∷ s ]

-- The location, where the flag is set and eight bytes are left, and the offset behind it.
unfoldable pub read_location : Bytes → ℕ → ℕ → Outcome (Option (Double × Double) × ℕ)
read_location payload flag_byte offset =
    if has_bit flag_byte has_location_bit && leb (offset + 8) (length payload)
    then (do
      lat ← read_uint32_le payload offset
      lon ← read_uint32_le payload (offset + 4)
      ok (
        some (
          record { num = signed32 lat; den = 1000000 },
          record { num = signed32 lon; den = 1000000 },
        ),
        offset + 8,
      ))
    else ok (none, offset)

-- Two bytes for each feature flag, whether or not the payload has them.
unfoldable pub skip_features : ℕ → ℕ → ℕ
skip_features flag_byte offset =
    offset
    + (if has_bit flag_byte has_feature1_bit then 2 else 0)
    + (if has_bit flag_byte has_feature2_bit then 2 else 0)

-- The name reaches to the end of the payload.
unfoldable pub read_name : Bytes → ℕ → ℕ → Outcome (Option Text)
read_name payload flag_byte offset =
    if has_bit flag_byte has_name_bit && ltb offset (length payload)
    then (do raw ← range payload offset (length payload - offset); ok (some (name_of raw)))
    else ok none

unfoldable pub failed : AdvertPayload
failed = record {
  base = failed_base advert (text "Advertisement payload too short");
  public_key = [];
  timestamp = 0;
  signature = [];
  signature_valid = none;
  signature_error = none;
  app_data = record {
    flags = 0;
    device_role = chat_node;
    has_location = false;
    has_name = false;
    latitude = none;
    longitude = none;
    name = none;
  };
}

-- The application data from the flags on.
unfoldable pub read_app_data : Bytes → ℕ → Outcome AdvertAppData
read_app_data payload flag_byte = do
  (place, behind) ← read_location payload flag_byte 101
  label ← read_name payload flag_byte (skip_features flag_byte behind)
  ok (record {
    flags = flag_byte;
    device_role = parse_device_role flag_byte;
    has_location = has_bit flag_byte has_location_bit;
    has_name = has_bit flag_byte has_name_bit;
    latitude = elim place [ none ↦ none | some (lat, lon) ↦ some lat ];
    longitude = elim place [ none ↦ none | some (lat, lon) ↦ some lon ];
    name = label;
  })

-- `AdvertPayloadDecoder::decode`
unfoldable pub decode : Bytes → Outcome AdvertPayload
decode payload = if ltb (length payload) 101 then ok failed else do
  key ← range payload 0 32
  stamp ← read_uint32_le payload 32
  sign ← range payload 36 64
  flag_byte ← read payload 100
  app ← read_app_data payload flag_byte
  ok (record {
    base = valid_base advert;
    public_key = bytes_to_hex key;
    timestamp = stamp;
    signature = bytes_to_hex sign;
    signature_valid = none;
    signature_error = none;
    app_data = app;
  })
