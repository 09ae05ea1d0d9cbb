-- ===== src/Enums.antt =====
-- include/meshcore/types/enums.h: the wire values of a packet.
pub mod Names
use meshcore_cpp_decoder.Common.{ℕ, ◌<◌, ◌≡◌, refl, Bool, true, false, arith, ◌==◌, if◌then◌else◌}

pub data RouteType : Type 0 where
  transport_flood flood direct transport_direct : RouteType

-- A value that no enumerator names can be cast too, so `unnamed` keeps it.
pub data PayloadType : Type 0 where
  request response text_message ack advert group_text group_data anon_request path trace multipart
        control raw_custom :
      PayloadType
  unnamed : ℕ → PayloadType

pub data ControlSubType : Type 0 where
  node_discover_req node_discover_resp : ControlSubType

pub data PayloadVersion : Type 0 where
  version1 version2 version3 version4 : PayloadVersion

pub data DeviceRole : Type 0 where
  unknown chat_node repeater room_server sensor : DeviceRole
  unnamed : ℕ → DeviceRole

pub data RequestType : Type 0 where
  get_stats keepalive get_telemetry_data get_min_max_avg_data get_access_list : RequestType

-- `static_cast` from a value of two bits and back.
unfoldable pub route_type_of : ℕ → RouteType
route_type_of v =
    if v == 0
    then transport_flood
    else if v == 1
    then flood
    else if v == 2
    then direct
    else transport_direct

unfoldable pub route_value : RouteType → ℕ
route_value transport_flood = 0
route_value flood = 1
route_value direct = 2
route_value transport_direct = 3

unfoldable pub payload_version_of : ℕ → PayloadVersion
payload_version_of v =
    if v == 0 then version1 else if v == 1 then version2 else if v == 2 then version3 else version4

unfoldable pub version_value : PayloadVersion → ℕ
version_value version1 = 0
version_value version2 = 1
version_value version3 = 2
version_value version4 = 3

unfoldable pub payload_type_of : ℕ → PayloadType
payload_type_of v =
    if v == 0
    then request
    else if v == 1
    then response
    else if v == 2
    then text_message
    else if v == 3
    then ack
    else if v == 4
    then advert
    else if v == 5
    then group_text
    else if v == 6
    then group_data
    else if v == 7
    then anon_request
    else if v == 8
    then path
    else if v == 9
    then trace
    else if v == 10
    then multipart
    else if v == 11
    then control
    else if v == 15
    then raw_custom
    else PayloadType.unnamed v

unfoldable pub payload_value : PayloadType → ℕ
payload_value request = 0
payload_value response = 1
payload_value text_message = 2
payload_value ack = 3
payload_value advert = 4
payload_value group_text = 5
payload_value group_data = 6
payload_value anon_request = 7
payload_value path = 8
payload_value trace = 9
payload_value multipart = 10
payload_value control = 11
payload_value raw_custom = 15
payload_value (PayloadType.unnamed v) = v

unfoldable pub device_role_of : ℕ → DeviceRole
device_role_of v =
    if v == 0
    then unknown
    else if v == 1
    then chat_node
    else if v == 2
    then repeater
    else if v == 3
    then room_server
    else if v == 4
    then sensor
    else DeviceRole.unnamed v

unfoldable pub role_value : DeviceRole → ℕ
role_value unknown = 0
role_value chat_node = 1
role_value repeater = 2
role_value room_server = 3
role_value sensor = 4
role_value (DeviceRole.unnamed v) = v

-- The bits of `AdvertFlags`: HasLocation 0x10, HasFeature1 0x20, HasFeature2 0x40, HasName 0x80.
abbrev pub has_location_bit : ℕ
has_location_bit = 4

abbrev pub has_feature1_bit : ℕ
has_feature1_bit = 5

abbrev pub has_feature2_bit : ℕ
has_feature2_bit = 6

abbrev pub has_name_bit : ℕ
has_name_bit = 7

unfoldable pub is_transport : RouteType → Bool
is_transport transport_flood = true
is_transport flood = false
is_transport direct = false
is_transport transport_direct = true

-- The casts lose nothing.
pub route_type_of-route_value : (r : RouteType) → route_type_of (route_value r) ≡ r
unfolding route_type_of route_value
route_type_of-route_value transport_flood = refl
route_type_of-route_value flood = refl
route_type_of-route_value direct = refl
route_type_of-route_value transport_direct = refl

pub route_value-lt : (r : RouteType) → route_value r < 4
unfolding route_value
route_value-lt r = ground arith

pub payload_version_of-version_value :
    (v : PayloadVersion) → payload_version_of (version_value v) ≡ v
unfolding payload_version_of version_value
payload_version_of-version_value version1 = refl
payload_version_of-version_value version2 = refl
payload_version_of-version_value version3 = refl
payload_version_of-version_value version4 = refl

pub version_value-lt : (v : PayloadVersion) → version_value v < 4
unfolding version_value
version_value-lt v = ground arith

pub payload_value-payload_type_of : (v : ℕ) → payload_value (payload_type_of v) ≡ v
unfolding payload_type_of payload_value
payload_value-payload_type_of v = ground arith

pub role_value-device_role_of : (v : ℕ) → role_value (device_role_of v) ≡ v
unfolding device_role_of role_value
role_value-device_role_of v = ground arith
