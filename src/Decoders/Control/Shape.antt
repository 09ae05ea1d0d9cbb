-- ===== src/Decoders/Control/Shape.antt =====
-- What the fields of a control payload say of its bytes, described without the functions that fill them.
use meshcore_cpp_decoder.Common.{
  ℕ, ◌*◌, ◌/◌, ◌%◌, ◌^◌, ◌≤◌, ◌<◌, ◌≡◌, ◌⊎◌, inl, inr, false, List, [], ◌∷◌, ◌++◌, append-nil,
  arith, ◌==◌, if◌then◌else◌, ==_iff, Bool-cases, length, Bytes, Text, text,
}
use meshcore_cpp_decoder.Common.Int.{ℤ, pos, negsuc, signed8, unsigned8}
use meshcore_cpp_decoder.Hex.{bytes_to_hex}
use meshcore_cpp_decoder.Format.{to_string, to_hex_stream}
use meshcore_cpp_decoder.Enums.{
  DeviceRole, unknown, chat_node, repeater, room_server, sensor, control, node_discover_req,
  node_discover_resp, device_role_of,
}
use meshcore_cpp_decoder.Enums.Names.{get_device_role_name}
use meshcore_cpp_decoder.Payloads.{
  ControlDiscoverReqPayload, ControlDiscoverRespPayload, ControlPayload, discover_req,
  discover_resp, valid_base,
}
use meshcore_cpp_decoder.Decoders.Words.{uint32_le}
use meshcore_cpp_decoder.Decoders.Control.{parse_type_filter}

-- The names of a table whose bits are set in a filter, in the order of the table.
pub data Selected (filter : ℕ) : List (ℕ × Text) → List Text → Type 0 where
  ended : Selected filter [] []
  named :
      {rest : List (ℕ × Text)} {names : List Text} (r : ℕ) (name : Text)
      → filter / 2 ^ r % 2 ≡ 1
      → Selected filter rest names
      → Selected filter ((r, name) ∷ rest) (name ∷ names)
  left_out :
      {rest : List (ℕ × Text)} {names : List Text} (r : ℕ) (name : Text)
      → filter / 2 ^ r % 2 ≡ 0
      → Selected filter rest names
      → Selected filter ((r, name) ∷ rest) names

-- The bit of each role is its value.
abbrev pub role_bits : List (ℕ × Text)
role_bits = (1, text "Chat") ∷ (2, text "Repeater") ∷ (3, text "Room") ∷ (4, text "Sensor") ∷ []

select :
    (filter r : ℕ) (name : Text) (rest : List (ℕ × Text)) (names : List Text)
    → Selected filter rest names
    → Selected filter
        ((r, name) ∷ rest)
        ((if filter / 2 ^ r % 2 == 1 then name ∷ [] else []) ++ names)
select filter r name rest names h = elim (Bool-cases (filter / 2 ^ r % 2 == 1)) [
  | inl set ↦ rw set (named r name ((==_iff (filter / 2 ^ r % 2) 1).0 set) h)
  | inr unset ↦ rw unset (left_out r name (clear (filter / 2 ^ r) unset) h)
]
  where
    clear : (n : ℕ) → (n % 2 == 1) ≡ false → n % 2 ≡ 0
    clear n u = ground arith

pub parse_type_filter-Selected : (filter : ℕ) → Selected filter role_bits (parse_type_filter filter)
unfolding parse_type_filter
parse_type_filter-Selected filter =
    let last =
      rw (append-nil (if filter / 2 ^ 4 % 2 == 1 then text "Sensor" ∷ [] else [])) at
        (select filter 4 (text "Sensor") [] [] ended) in
    select filter 1 (text "Chat") _ _
      (select filter 2 (text "Repeater") _ _ (select filter 3 (text "Room") _ _ last))

-- The role of the low four bits of the flags, and its name.
pub data NodeIs : ℕ → DeviceRole → Text → Type 0 where
  zeroth : NodeIs 0 unknown (text "Unknown")
  one : NodeIs 1 chat_node (text "Chat Node")
  two : NodeIs 2 repeater (text "Repeater")
  three : NodeIs 3 room_server (text "Room Server")
  four : NodeIs 4 sensor (text "Sensor")
  others :
      (n : ℕ)
      → 4 < n
      → NodeIs n (DeviceRole.unnamed n) (text "Unknown (" ++ (to_string n ++ text ")"))

pub device_role_of-NodeIs :
    (n : ℕ) → NodeIs n (device_role_of n) (get_device_role_name (device_role_of n))
unfolding device_role_of get_device_role_name
device_role_of-NodeIs n = elim (Bool-cases (n == 0)) [
  | inl h ↦ rw ((==_iff n 0).0 h) zeroth
  | inr h0 ↦ elim (Bool-cases (n == 1)) [
    | inl h ↦ rw ((==_iff n 1).0 h) one
    | inr h1 ↦ elim (Bool-cases (n == 2)) [
      | inl h ↦ rw ((==_iff n 2).0 h) two
      | inr h2 ↦ elim (Bool-cases (n == 3)) [
        | inl h ↦ rw ((==_iff n 3).0 h) three
        | inr h3 ↦ elim (Bool-cases (n == 4)) [
          | inl h ↦ rw ((==_iff n 4).0 h) four
          | inr h4 ↦ rw (h0, h1, h2, h3, h4) (others n (ground arith))
        ]
      ]
    ]
  ]
]

-- The range of an int8_t.
abbrev pub IsInt8 : ℤ → Type 0
IsInt8 (pos n) = n < 2 ^ 7
IsInt8 (negsuc n) = n < 2 ^ 7

pub signed8-IsInt8 : (v : ℕ) → v < 256 → IsInt8 (signed8 v)
unfolding signed8
signed8-IsInt8 v h = ground arith

-- A request and the bytes of its payload: the flags, the filter, the tag, and the time if four bytes are
-- left for it.
abbrev pub RequestReads : Bytes → ControlDiscoverReqPayload → Type 0
RequestReads payload q =
    (flags : ℕ) × (filter : ℕ) × (behind : Bytes) × (payload
      ≡ flags ∷ filter ∷ (uint32_le q.tag ++ behind))
    × (q.base ≡ valid_base control)
    × (q.sub_type ≡ node_discover_req)
    × (q.raw_flags ≡ flags)
    × (q.prefix_only ≡ (flags % 2 == 1))
    × (q.type_filter ≡ filter)
    × Selected filter role_bits q.type_filter_names
    × (((rest : Bytes) × (behind ≡ uint32_le q.since ++ rest))
        ⊎ ((length behind < 4) × (q.since ≡ 0)))

-- A response and the bytes of its payload: the flags with the role, the signal-to-noise ratio in quarters,
-- the tag and the public key.
abbrev pub ResponseReads : Bytes → ControlDiscoverRespPayload → Type 0
ResponseReads payload r =
    (flags : ℕ) × (quarters : ℤ) × (key : Bytes) × (payload
      ≡ flags ∷ unsigned8 quarters ∷ (uint32_le r.tag ++ key))
    × (r.base ≡ valid_base control)
    × (r.sub_type ≡ node_discover_resp)
    × (r.raw_flags ≡ flags)
    × NodeIs (flags % 16) r.node_type r.node_type_name
    × IsInt8 quarters
    × (r.snr ≡ record { num = quarters; den = 4 })
    × (r.public_key ≡ bytes_to_hex key)
    × (r.public_key_length ≡ length key)

-- A request or a response that holds one error, and the flags.
abbrev pub RefusedReq : Text → ℕ → ControlDiscoverReqPayload → Type 0
RefusedReq message raw q =
    (q.base.is_valid ≡ false)
    × (q.base.errors ≡ message ∷ [])
    × (q.sub_type ≡ node_discover_req)
    × (q.raw_flags ≡ raw)

abbrev pub RefusedResp : Text → ℕ → ControlDiscoverRespPayload → Type 0
RefusedResp message raw r =
    (r.base.is_valid ≡ false)
    × (r.base.errors ≡ message ∷ [])
    × (r.sub_type ≡ node_discover_resp)
    × (r.raw_flags ≡ raw)

-- A control payload and what is returned for it. The high four bits of the first byte are 8 for a request
-- and 9 for a response; what is too short, or neither, is a request or a response with an error.
pub data Reads : Bytes → ControlPayload → Type 0 where
  nothing :
      (q : ControlDiscoverReqPayload)
      → RefusedReq (text "Control payload too short") 0 q
      → Reads [] (discover_req q)
  short_request :
      (raw : ℕ) (rest : Bytes) (q : ControlDiscoverReqPayload)
      → raw / 16 ≡ 8
      → length (raw ∷ rest) < 6
      → RefusedReq (text "DISCOVER_REQ payload too short") raw q
      → Reads (raw ∷ rest) (discover_req q)
  whole_request :
      (raw : ℕ) (rest : Bytes) (q : ControlDiscoverReqPayload)
      → raw / 16 ≡ 8
      → 6 ≤ length (raw ∷ rest)
      → RequestReads (raw ∷ rest) q
      → Reads (raw ∷ rest) (discover_req q)
  short_response :
      (raw : ℕ) (rest : Bytes) (r : ControlDiscoverRespPayload)
      → raw / 16 ≡ 9
      → length (raw ∷ rest) < 14
      → RefusedResp (text "DISCOVER_RESP payload too short") raw r
      → Reads (raw ∷ rest) (discover_resp r)
  whole_response :
      (raw : ℕ) (rest : Bytes) (r : ControlDiscoverRespPayload)
      → raw / 16 ≡ 9
      → 14 ≤ length (raw ∷ rest)
      → ResponseReads (raw ∷ rest) r
      → Reads (raw ∷ rest) (discover_resp r)
  neither :
      (raw : ℕ) (rest : Bytes) (q : ControlDiscoverReqPayload)
      → ¬ (raw / 16 ≡ 8)
      → ¬ (raw / 16 ≡ 9)
      → RefusedReq (text "Unknown control sub-type: 0x" ++ to_hex_stream (raw / 16 * 16)) raw q
      → Reads (raw ∷ rest) (discover_req q)
