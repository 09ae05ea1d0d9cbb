-- ===== src/Decoders/Advert/Shape.antt =====
-- What the fields of an advert say of its bytes, described without the functions that fill them.
use meshcore_cpp_decoder.Common.{
  ℕ, ◌+◌, ◌*◌, ◌/◌, ◌%◌, ◌^◌, ◌≤◌, ◌<◌, ◌≡◌, ◌⊎◌, inl, inr, Option, none, some, [], ◌∷◌, ◌++◌,
  arith, ◌==◌, if◌then◌else◌, ==_iff, Bool-cases, length, Bytes, Text,
}
use meshcore_cpp_decoder.Common.Int.{ℤ, pos, negsuc, Double, signed32, unsigned32}
use meshcore_cpp_decoder.Hex.{bytes_to_hex}
use meshcore_cpp_decoder.Enums.{advert, DeviceRole, chat_node, repeater, room_server, sensor}
use meshcore_cpp_decoder.Payloads.{AdvertPayload, AdvertAppData, valid_base}
use meshcore_cpp_decoder.Decoders.Words.{uint32_le}
use meshcore_cpp_decoder.Decoders.Advert.{parse_device_role}
use meshcore_cpp_decoder.Decoders.Advert.Shown.{IsShown}

-- The role of the low four bits of the flags: a number that stands for none is a chat node.
pub data RoleIs : ℕ → DeviceRole → Type 0 where
  one : RoleIs 1 chat_node
  two : RoleIs 2 repeater
  three : RoleIs 3 room_server
  four : RoleIs 4 sensor
  others : (n : ℕ) → (n ≡ 0) ⊎ (4 < n) → RoleIs n chat_node

pub parse_device_role-RoleIs : (flags : ℕ) → RoleIs (flags % 16) (parse_device_role flags)
unfolding parse_device_role
parse_device_role-RoleIs flags = by_role (flags % 16)
  where
    by_role :
        (n : ℕ)
        → RoleIs n (
            if n == 1
            then chat_node
            else if n == 2
            then repeater
            else if n == 3
            then room_server
            else if n == 4
            then sensor
            else chat_node)
    by_role n = elim (Bool-cases (n == 1)) [
      | inl h ↦ rw ((==_iff n 1).0 h) one
      | inr h1 ↦ elim (Bool-cases (n == 2)) [
        | inl h ↦ rw ((==_iff n 2).0 h) two
        | inr h2 ↦ elim (Bool-cases (n == 3)) [
          | inl h ↦ rw ((==_iff n 3).0 h) three
          | inr h3 ↦ elim (Bool-cases (n == 4)) [
            | inl h ↦ rw ((==_iff n 4).0 h) four
            | inr h4 ↦ rw (h1, h2, h3, h4) (others n (ground arith))
          ]
        ]
      ]
    ]

-- The range of an int32_t.
abbrev pub IsInt32 : ℤ → Type 0
IsInt32 (pos n) = n < 2 ^ 31
IsInt32 (negsuc n) = n < 2 ^ 31

pub signed32-IsInt32 : (v : ℕ) → v < 2 ^ 32 → IsInt32 (signed32 v)
unfolding signed32
signed32-IsInt32 v h = ground arith

-- The location: eight bytes, two int32_t in millionths of a degree, where bit 4 of the flags is set and
-- there are eight bytes, and otherwise none.
abbrev pub Placed : ℕ → Bytes → Bytes → Option Double → Option Double → Type 0
Placed flags place behind latitude longitude =
    ((flags / 16 % 2 ≡ 1)
      × ((x : ℤ) × (y : ℤ) × (place ≡ uint32_le (unsigned32 x) ++ uint32_le (unsigned32 y))
          × IsInt32 x
          × IsInt32 y
          × (latitude ≡ some (record { num = x; den = 1000000 }))
          × (longitude ≡ some (record { num = y; den = 1000000 }))))
    ⊎ ((place ≡ [])
        × (latitude ≡ none)
        × (longitude ≡ none)
        × ((flags / 16 % 2 ≡ 0) ⊎ (length behind < 8)))

-- The bytes of the two features that bits 5 and 6 of the flags announce.
abbrev pub feature_bytes : ℕ → ℕ
feature_bytes flags = 2 * (flags / 32 % 2) + 2 * (flags / 64 % 2)

-- The name: what stands behind the features, where bit 7 of the flags is set and anything stands there.
abbrev pub Named : ℕ → Bytes → Option Text → Type 0
Named flags behind name =
    ((flags / 128 % 2 ≡ 1)
      × ((features : Bytes) × (raw : Bytes) × (shown : Text) × (behind ≡ features ++ raw)
          × (length features ≡ feature_bytes flags)
          × (1 ≤ length raw)
          × (name ≡ some shown)
          × IsShown raw shown))
    ⊎ ((name ≡ none) × ((flags / 128 % 2 ≡ 0) ⊎ (length behind ≤ feature_bytes flags)))

-- The application data of the flags, the location and what stands behind it.
abbrev pub Means : ℕ → Bytes → Bytes → AdvertAppData → Type 0
Means flags place behind a =
    (a.flags ≡ flags)
    × RoleIs (flags % 16) a.device_role
    × (a.has_location ≡ (flags / 16 % 2 == 1))
    × (a.has_name ≡ (flags / 128 % 2 == 1))
    × Placed flags place behind a.latitude a.longitude
    × Named flags behind a.name

-- An advert and the bytes of its payload: the public key, the timestamp, the signature, the flags, the
-- location, and what stands behind it.
abbrev pub Reads : Bytes → AdvertPayload → Type 0
Reads payload a =
    (key : Bytes) × (signature : Bytes) × (flags : ℕ) × (place : Bytes) × (behind : Bytes)
    × (payload ≡ key ++ (uint32_le a.timestamp ++ (signature ++ (flags ∷ (place ++ behind)))))
    × (length key ≡ 32)
    × (length signature ≡ 64)
    × (a.base ≡ valid_base advert)
    × (a.public_key ≡ bytes_to_hex key)
    × (a.signature ≡ bytes_to_hex signature)
    × (a.signature_valid ≡ none)
    × Means flags place behind a.app_data
