-- ===== src/Enums/Names.antt =====
-- include/meshcore/utils/enum_names.h and src/utils/enum_names.cpp: names of the enumerators. A
-- `default` that no value of the type reaches has no clause.
use meshcore_cpp_decoder.Common.{◌++◌, Text, text}
use meshcore_cpp_decoder.Format.{to_string, to_hex_stream}
use meshcore_cpp_decoder.Enums.{
  RouteType, PayloadType, ControlSubType, PayloadVersion, DeviceRole, RequestType, transport_flood,
  flood, direct, transport_direct, request, response, text_message, ack, advert, group_text,
  group_data, anon_request, path, trace, multipart, control, raw_custom, node_discover_req,
  node_discover_resp, version1, version2, version3, version4, unknown, chat_node, repeater,
  room_server, sensor, get_stats, keepalive, get_telemetry_data, get_min_max_avg_data,
  get_access_list,
}

unfoldable pub get_route_type_name : RouteType → Text
get_route_type_name flood = text "Flood"
get_route_type_name direct = text "Direct"
get_route_type_name transport_flood = text "TransportFlood"
get_route_type_name transport_direct = text "TransportDirect"

unfoldable pub get_payload_type_name : PayloadType → Text
unfolding to_hex_stream
get_payload_type_name raw_custom = text "RawCustom"
get_payload_type_name trace = text "Trace"
get_payload_type_name advert = text "Advert"
get_payload_type_name group_text = text "GroupText"
get_payload_type_name group_data = text "GroupData"
get_payload_type_name request = text "Request"
get_payload_type_name response = text "Response"
get_payload_type_name text_message = text "TextMessage"
get_payload_type_name anon_request = text "AnonRequest"
get_payload_type_name ack = text "Ack"
get_payload_type_name path = text "Path"
get_payload_type_name multipart = text "Multipart"
get_payload_type_name control = text "Control"
get_payload_type_name (PayloadType.unnamed v) = text "Unknown (0x" ++ (to_hex_stream v ++ text ")")

unfoldable pub get_payload_version_name : PayloadVersion → Text
get_payload_version_name version1 = text "Version 1"
get_payload_version_name version2 = text "Version 2"
get_payload_version_name version3 = text "Version 3"
get_payload_version_name version4 = text "Version 4"

unfoldable pub get_device_role_name : DeviceRole → Text
unfolding to_string
get_device_role_name unknown = text "Unknown"
get_device_role_name chat_node = text "Chat Node"
get_device_role_name repeater = text "Repeater"
get_device_role_name room_server = text "Room Server"
get_device_role_name sensor = text "Sensor"
get_device_role_name (DeviceRole.unnamed v) = text "Unknown (" ++ (to_string v ++ text ")")

unfoldable pub get_request_type_name : RequestType → Text
get_request_type_name get_stats = text "Get Stats"
get_request_type_name keepalive = text "Keepalive (deprecated)"
get_request_type_name get_telemetry_data = text "Get Telemetry Data"
get_request_type_name get_min_max_avg_data = text "Get Min/Max/Avg Data"
get_request_type_name get_access_list = text "Get Access List"

unfoldable pub get_control_sub_type_name : ControlSubType → Text
get_control_sub_type_name node_discover_req = text "Node Discover Request"
get_control_sub_type_name node_discover_resp = text "Node Discover Response"
