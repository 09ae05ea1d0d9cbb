-- ===== src/Payloads.antt =====
-- include/meshcore/types/payloads.h: what the payload decoders return.
use meshcore_cpp_decoder.Common.{ℕ, Bool, true, false, Option, List, [], ◌∷◌, Text}
use meshcore_cpp_decoder.Common.Int.{Double}
use meshcore_cpp_decoder.Enums.{
  PayloadType, PayloadVersion, version1, ControlSubType, DeviceRole, RequestType,
}

pub record BasePayload : Type 0 where
  pub kind : PayloadType
  pub version : PayloadVersion
  pub is_valid : Bool
  pub errors : List Text

-- The base that a decoder leaves when it succeeds, and when it returns early with one error.
unfoldable pub valid_base : PayloadType → BasePayload
valid_base t = record { kind = t; version = version1; is_valid = true; errors = [] }

unfoldable pub failed_base : PayloadType → Text → BasePayload
failed_base t e = record { kind = t; version = version1; is_valid = false; errors = e ∷ [] }

pub record AdvertAppData : Type 0 where
  pub flags : ℕ
  pub device_role : DeviceRole
  pub has_location : Bool
  pub has_name : Bool
  pub latitude : Option Double
  pub longitude : Option Double
  pub name : Option Text

pub record AdvertPayload : Type 0 where
  pub base : BasePayload
  pub public_key : Text
  pub timestamp : ℕ
  pub signature : Text
  pub signature_valid : Option Bool
  pub signature_error : Option Text
  pub app_data : AdvertAppData

pub record TracePayload : Type 0 where
  pub base : BasePayload
  pub trace_tag : Text
  pub auth_code : ℕ
  pub flags : ℕ
  pub path_hashes : List Text
  pub snr_values : Option (List Double)

pub record GroupTextDecrypted : Type 0 where
  pub timestamp : ℕ
  pub flags : ℕ
  pub sender : Option Text
  pub message : Text

pub record GroupTextPayload : Type 0 where
  pub base : BasePayload
  pub channel_hash : Text
  pub cipher_mac : Text
  pub ciphertext : Text
  pub ciphertext_length : ℕ
  pub decrypted : Option GroupTextDecrypted

-- The fields `timestamp`, `requestType` and `requestData` keep their initial values in the program.
pub record RequestPayload : Type 0 where
  pub base : BasePayload
  pub destination_hash : Text
  pub source_hash : Text
  pub cipher_mac : Text
  pub ciphertext : Text
  pub timestamp : ℕ
  pub request_type : RequestType
  pub request_data : Text

pub record TextMessagePayload : Type 0 where
  pub base : BasePayload
  pub destination_hash : Text
  pub source_hash : Text
  pub cipher_mac : Text
  pub ciphertext : Text
  pub ciphertext_length : ℕ

pub record AnonRequestPayload : Type 0 where
  pub base : BasePayload
  pub destination_hash : Text
  pub sender_public_key : Text
  pub cipher_mac : Text
  pub ciphertext : Text
  pub ciphertext_length : ℕ

pub record AckPayload : Type 0 where
  pub base : BasePayload
  pub checksum : Text

pub record PathPayload : Type 0 where
  pub base : BasePayload
  pub path_length : ℕ
  pub path_hashes : List Text
  pub extra_type : ℕ
  pub extra_data : Text

pub record ResponsePayload : Type 0 where
  pub base : BasePayload
  pub destination_hash : Text
  pub source_hash : Text
  pub cipher_mac : Text
  pub ciphertext : Text
  pub ciphertext_length : ℕ

pub record ControlDiscoverReqPayload : Type 0 where
  pub base : BasePayload
  pub sub_type : ControlSubType
  pub raw_flags : ℕ
  pub prefix_only : Bool
  pub type_filter : ℕ
  pub type_filter_names : List Text
  pub tag : ℕ
  pub since : ℕ

pub record ControlDiscoverRespPayload : Type 0 where
  pub base : BasePayload
  pub sub_type : ControlSubType
  pub raw_flags : ℕ
  pub node_type : DeviceRole
  pub node_type_name : Text
  pub snr : Double
  pub tag : ℕ
  pub public_key : Text
  pub public_key_length : ℕ

pub data ControlPayload : Type 0 where
  discover_req : ControlDiscoverReqPayload → ControlPayload
  discover_resp : ControlDiscoverRespPayload → ControlPayload

-- The variant that a decoded packet holds.
pub data PayloadData : Type 0 where
  of_advert : AdvertPayload → PayloadData
  of_trace : TracePayload → PayloadData
  of_group_text : GroupTextPayload → PayloadData
  of_request : RequestPayload → PayloadData
  of_text_message : TextMessagePayload → PayloadData
  of_anon_request : AnonRequestPayload → PayloadData
  of_ack : AckPayload → PayloadData
  of_path : PathPayload → PayloadData
  of_response : ResponsePayload → PayloadData
  of_discover_req : ControlDiscoverReqPayload → PayloadData
  of_discover_resp : ControlDiscoverRespPayload → PayloadData
