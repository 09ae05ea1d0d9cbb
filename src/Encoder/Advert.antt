-- ===== src/Encoder/Advert.antt =====
-- src/encoder/packet_encoder.cpp, `buildAdvertPayload`. A location has coordinates of any type `D` of
-- doubles; `micro_degrees` is the bit pattern of `static_cast<int32_t>(v * 1000000.0)`.
use meshcore_cpp_decoder.Common.{
  ℕ, ◌+◌, ◌%◌, Bool, true, false, not, Option, none, some, [], ◌∷◌, ◌++◌, ◌==◌, if◌then◌else◌,
  length, Bytes, Text, Outcome, ok, ◌>>=◌, catch,
}
use meshcore_cpp_decoder.Hex.{hex_to_bytes, bytes_to_hex}
use meshcore_cpp_decoder.Enums.{DeviceRole, role_value}
use meshcore_cpp_decoder.Decoders.Words.{uint32_le}
use meshcore_cpp_decoder.Crypto.Ed25519.{Ed25519Evp, sign}
use meshcore_cpp_decoder.Encoder.{EncodeResult, refused, built}
use meshcore_cpp_decoder.Encoder.Group.{refused_with}

-- `role & 0x0F`, HasLocation and HasName; the bits are disjoint, so `|=` is a sum.
unfoldable pub advert_flags : DeviceRole → Bool → Bool → ℕ
advert_flags role located named =
    role_value role % 16 + (if located then 0x10 else 0) + (if named then 0x80 else 0)

unfoldable pub has_value {ℓ} : {A : Type ℓ} → Option A → Bool
has_value none = false
has_value (some a) = true

unfoldable pub is_empty : Text → Bool
is_empty [] = true
is_empty (c ∷ s) = false

module _ {D : Type 0} (micro_degrees : D → ℕ) where
  -- The loop over latitude and longitude.
  unfoldable pub location_bytes : Option (D × D) → Bytes
  location_bytes none = []
  location_bytes (some (lat, lon)) = uint32_le (micro_degrees lat) ++ uint32_le (micro_degrees lon)

  unfoldable pub app_data : Text → DeviceRole → Option (D × D) → Bytes
  unfolding advert_flags has_value is_empty location_bytes
  app_data name role lat_lon =
      advert_flags role (has_value lat_lon) (not (is_empty name)) ∷ (location_bytes lat_lon ++ name)

  -- `MeshCorePacketEncoder::buildAdvertPayload`
  unfoldable pub build_advert_payload :
      Ed25519Evp → Text → Text → ℕ → Text → DeviceRole → Option (D × D) → Outcome EncodeResult
  build_advert_payload evp private_key_hex public_key_hex timestamp name role lat_lon =
      catch
        (do
          public_key ← hex_to_bytes public_key_hex
          if not (length public_key == 32) then ok (refused "public key must be 32 bytes") else do
            let app = app_data name role lat_lon
            let message = public_key ++ (uint32_le timestamp ++ app)
            signature_hex ← sign evp (bytes_to_hex message) private_key_hex public_key_hex
            signature ← hex_to_bytes signature_hex
            if not (length signature == 64)
                then ok (refused "signing produced a non-64-byte signature")
                else ok (built (public_key ++ (uint32_le timestamp ++ (signature ++ app)))))
        refused_with
