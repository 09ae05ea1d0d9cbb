-- ===== src/Encoder/AdvertRoundTrip.antt =====
-- The advert that `buildAdvertPayload` builds, and what `decodeWithVerification` makes of it.
use meshcore_cpp_decoder.Common.{
  ℕ, ◌%◌, ◌^◌, ◌≤◌, ◌<◌, ◌≡◌, refl, ap, ◌∙◌, inl, inr, Bool, true, false, not, Option, none, some,
  [], ◌∷◌, ◌++◌, arith, length, take, drop, All-append, Bytes, Text, IsByte, IsBytes, ok, range_lem,
}
use meshcore_cpp_decoder.Hex.{hex_to_bytes, bytes_to_hex}
use meshcore_cpp_decoder.Hex.RoundTrip.{hex_to_bytes-bytes_to_hex}
use meshcore_cpp_decoder.Enums.{
  DeviceRole, unknown, chat_node, repeater, room_server, sensor, role_value, advert,
}
use meshcore_cpp_decoder.Payloads.{AdvertPayload, valid_base}
use meshcore_cpp_decoder.Decoders.Words.{uint32_le, uint32_le-IsBytes}
use meshcore_cpp_decoder.Decoders.Advert.{parse_device_role, name_of}
use meshcore_cpp_decoder.Decoders.Advert.Fields.{advert_of}
use meshcore_cpp_decoder.Decoders.Advert.Meaning.{latitude_of, longitude_of}
use meshcore_cpp_decoder.Decoders.Advert.Shape.{RoleIs, parse_device_role-RoleIs}
use meshcore_cpp_decoder.Decoders.Advert.Shown.{IsShown, name_of-IsShown}
use meshcore_cpp_decoder.Decoders.Advert.Signature.{
  with_verdict, signed_part, decode_with_verification, advert_decode_with_verification_lem,
}
use meshcore_cpp_decoder.Crypto.Ed25519.{Ed25519Evp, Ed25519Laws, sign, verdict}
use meshcore_cpp_decoder.Encoder.{EncodeResult, built}
use meshcore_cpp_decoder.Encoder.AdvertLayout.{
  laid_out, sent_place, sent_name, laid_out-key, laid_out-signature, drop_signature,
  length-laid_out, laid_out-signed_part, laid_out-timestamp, flags_lem, place_lem, name_lem,
  flag_role,
}
use meshcore_cpp_decoder.Encoder.Advert.{
  advert_flags, has_value, is_empty, app_data, build_advert_payload,
}

flags-IsByte : (role : DeviceRole) (located named : Bool) → advert_flags role located named < 256
unfolding advert_flags
flags-IsByte role located named = ground arith

app_data-pos :
    {D : Type 0} (micro_degrees : D → ℕ) (name : Text) (role : DeviceRole)
    (lat_lon : Option (D × D))
    → 1 ≤ length (app_data micro_degrees name role lat_lon)
unfolding app_data
app_data-pos micro_degrees name role lat_lon = omega arith

app_data-IsBytes :
    {D : Type 0} (micro_degrees : D → ℕ) (name : Text) (role : DeviceRole)
    (lat_lon : Option (D × D))
    → IsBytes name
    → IsBytes (app_data micro_degrees name role lat_lon)
unfolding app_data uint32_le
app_data-IsBytes micro_degrees name role none h = (flags-IsByte role false (not (is_empty name)), h)
app_data-IsBytes micro_degrees name role (some (lat, lon)) h =
    let f = flags-IsByte role true (not (is_empty name)) in
    (
      f,
      (
        omega arith,
        (
          omega arith,
          (
            omega arith,
            (omega arith, (omega arith, (omega arith, (omega arith, (omega arith, h))))),
          ),
        ),
      ),
    )

-- The role that an advert for a role shows: `Unknown` is shown as a chat node, and of a value that names
-- no role the low four bits count.
pub data ShownRole : DeviceRole → DeviceRole → Type 0 where
  unknowns : ShownRole unknown chat_node
  chat_nodes : ShownRole chat_node chat_node
  repeaters : ShownRole repeater repeater
  room_servers : ShownRole room_server room_server
  sensors : ShownRole sensor sensor
  others :
      (v : ℕ) (role : DeviceRole) → RoleIs (v % 16) role → ShownRole (DeviceRole.unnamed v) role

parse_device_role-ShownRole :
    (role : DeviceRole) → ShownRole role (parse_device_role (role_value role))
unfolding parse_device_role role_value
parse_device_role-ShownRole unknown = unknowns
parse_device_role-ShownRole chat_node = chat_nodes
parse_device_role-ShownRole repeater = repeaters
parse_device_role-ShownRole room_server = room_servers
parse_device_role-ShownRole sensor = sensors
parse_device_role-ShownRole (DeviceRole.unnamed v) =
    others v (parse_device_role v) (parse_device_role-RoleIs v)

-- The name that an advert for a name shows; an empty one is not sent.
abbrev pub ShownName : Text → Option Text → Type 0
ShownName [] name = name ≡ none
ShownName (c ∷ s) name = (shown : Text) × (name ≡ some shown) × IsShown (c ∷ s) shown

sent_name-ShownName : (name : Text) → ShownName name (sent_name name)
unfolding is_empty
sent_name-ShownName [] = refl
sent_name-ShownName (c ∷ s) = (name_of (c ∷ s), refl, name_of-IsShown (c ∷ s))

-- OpenSSL holds the pair of a seed and a public key, and none of its calls for them fails.
pub record Works (evp : Ed25519Evp) (seed key : Bytes) : Type 0 where
  pub pair : evp.get_raw_public_key seed ≡ some key
  pub private_key : evp.raw_private_key seed ≡ true
  pub public_key : evp.raw_public_key key ≡ true
  pub context : evp.md_ctx_new ≡ true
  pub sign_init : evp.digest_sign_init seed ≡ true
  pub verify_init : evp.digest_verify_init key ≡ true
  pub signs : (message : Bytes) → (s : Bytes) × (evp.digest_sign seed message ≡ some s)

module _ (evp : Ed25519Evp) (laws : Ed25519Laws evp) (private_key_hex : Text) (pair key : Bytes)
    (works : Works evp (take 32 pair) key) (private_lem : hex_to_bytes private_key_hex ≡ ok pair)
    (p64 : length pair ≡ 64) (hk : IsBytes key) (k32 : length key ≡ 32) where
  -- The signature of a message, which verifies.
  sign_lem :
      (message : Bytes) (public_key_hex : Text)
      → IsBytes message
      → (s : Bytes) × (sign evp (bytes_to_hex message) private_key_hex public_key_hex
          ≡ ok (bytes_to_hex s))
        × (length s ≡ 64)
        × IsBytes s
        × (verdict evp s message key ≡ true)
  unfolding sign verdict
  sign_lem message public_key_hex hm =
      let seed : Bytes = take 32 pair in
      let (s, e) = works.signs message in
      let s64 = laws.sign-length seed message s e in
      (
        s,
        rw (
          private_lem,
          hex_to_bytes-bytes_to_hex message hm,
          p64,
          range_lem pair 0 32 (omega arith),
          works.private_key,
          works.context,
          works.sign_init,
          e,
        ),
        s64,
        laws.sign-IsBytes seed message s e,
        rw (s64, k32, works.public_key, works.context, works.verify_init)
            (laws.verify-sign seed key message s works.pair e),
      )

  -- An advert that `buildAdvertPayload` builds with a private key of 64 bytes, whose first 32 are the
  -- seed of the public key of 32 bytes, is decoded by `decodeWithVerification` as valid, with a
  -- signature that is verified, to the public key, the timestamp, the role, the location in
  -- millionths of a degree and the name. OpenSSL is assumed to sign and verify for the pair, by its
  -- laws; the timestamp and the millionths fit 32 bits, and the name is bytes. What is left out is
  -- `none`, and the role `Unknown` is shown as `ChatNode`. The name is shown up to its first zero, without
  -- control characters and without blanks around them, or as it is where nothing is left of it.
  pub decode_with_verification-build_advert_payload :
      {D : Type 0} (micro_degrees : D → ℕ) (public_key_hex : Text) (timestamp : ℕ) (name : Text)
      (role : DeviceRole) (lat_lon : Option (D × D))
      → ((d : D) → micro_degrees d < 2 ^ 32)
      → hex_to_bytes public_key_hex ≡ ok key
      → timestamp < 2 ^ 32
      → IsBytes name
      → (r : EncodeResult) × (a : AdvertPayload) × (build_advert_payload micro_degrees evp
            private_key_hex public_key_hex timestamp name role lat_lon
          ≡ ok r)
        × (r.success ≡ true)
        × (decode_with_verification evp r.bytes ≡ ok a)
        × (a.base ≡ valid_base advert)
        × (a.signature_valid ≡ some true)
        × (a.public_key ≡ bytes_to_hex key)
        × (a.timestamp ≡ timestamp)
        × ShownRole role a.app_data.device_role
        × (a.app_data.latitude ≡ latitude_of (sent_place micro_degrees lat_lon))
        × (a.app_data.longitude ≡ longitude_of (sent_place micro_degrees lat_lon))
        × ShownName name a.app_data.name
  unfolding build_advert_payload built with_verdict valid_base
  decode_with_verification-build_advert_payload {D} micro_degrees public_key_hex timestamp name role
        lat_lon fit public_lem small hn =
      let app : Bytes = app_data micro_degrees name role lat_lon in
      let message : Bytes = key ++ (uint32_le timestamp ++ app) in
      let ha : IsBytes app = app_data-IsBytes micro_degrees name role lat_lon hn in
      let hm =
        All-append IsByte key (uint32_le timestamp ++ app) hk
          (All-append IsByte (uint32_le timestamp) app (uint32_le-IsBytes timestamp) ha) in
      let (s, es, s64, hs, good) = sign_lem message public_key_hex hm in
      let payload : Bytes = laid_out key timestamp s app in
      let hp : IsBytes payload = All-append IsByte key _ hk (
        All-append IsByte (uint32_le timestamp) _ (uint32_le-IsBytes timestamp)
          (All-append IsByte s app hs ha)) in
      let behind = drop_signature key s app timestamp k32 s64 in
      let long : 101 ≤ length payload = omega (
        arith,
        length-laid_out key s app timestamp k32 s64,
        app_data-pos micro_degrees name role lat_lon,
      ) in
      let v : Bool =
        verdict evp (take 64 (drop 36 payload)) (signed_part payload) (take 32 payload) in
      let yes_v : v ≡ true =
        rw
          (
            laid_out-signature key s app timestamp k32 s64,
            laid_out-signed_part key s app timestamp k32 s64,
            laid_out-key key s app timestamp k32 s64,
          )
          good in
      let decoded : decode_with_verification evp payload ≡ ok (with_verdict (advert_of payload) v) =
        elim (advert_decode_with_verification_lem evp payload hp) [
          | inl (short, e) ↦ absurd (omega arith)
          | inr (l, e) ↦ e
        ] in
      let flag = flags_lem micro_degrees fit payload name role lat_lon behind in
      (
        built payload,
        with_verdict (advert_of payload) true,
        rw (public_lem, k32, es, hex_to_bytes-bytes_to_hex s hs, s64),
        refl,
        decoded ∙ ap (λ b. ok (with_verdict (advert_of payload) b)) yes_v,
        refl,
        refl,
        ap bytes_to_hex (laid_out-key key s app timestamp k32 s64),
        laid_out-timestamp key s app timestamp k32 s64 small,
        rw flag (
            rw (flag_role role (has_value lat_lon) (not (is_empty name)))
              (parse_device_role-ShownRole role)),
        rw flag (ap latitude_of (place_lem micro_degrees fit payload name role lat_lon behind)),
        rw flag (ap longitude_of (place_lem micro_degrees fit payload name role lat_lon behind)),
        rw flag (
            rw (name_lem micro_degrees fit payload name role lat_lon behind)
              (sent_name-ShownName name)),
      )
