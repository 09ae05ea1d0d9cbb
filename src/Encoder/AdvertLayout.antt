-- ===== src/Encoder/AdvertLayout.antt =====
-- Where the parts of an advert that `buildAdvertPayload` builds stand.
use meshcore_cpp_decoder.Common.{
  ℕ, ◌+◌, ◌%◌, ◌^◌, ◌≤◌, ◌<◌, ◌≡◌, refl, sym, ap, ◌∙◌, Bool, true, false, not, Option, none, some,
  [], ◌∷◌, ◌++◌, append_assoc, arith, ltb, if◌then◌else◌, lt→ltb, le→leb, has_bit, length, take,
  drop, length-append, length-drop, take-append, drop-append, drop-drop, take_split, Bytes, Text,
  get_or, get_or-drop,
}
use meshcore_cpp_decoder.Common.Int.{Double, signed32}
use meshcore_cpp_decoder.Enums.{
  DeviceRole, role_value, has_location_bit, has_feature1_bit, has_feature2_bit, has_name_bit,
}
use meshcore_cpp_decoder.Decoders.Words.{uint32_le, word_at, word_at-drop, word_at-uint32_le}
use meshcore_cpp_decoder.Decoders.Advert.{name_of, parse_device_role, skip_features}
use meshcore_cpp_decoder.Decoders.Advert.Fields.{place_of, behind_place, name_at}
use meshcore_cpp_decoder.Decoders.Advert.Signature.{signed_part}
use meshcore_cpp_decoder.Encoder.Advert.{advert_flags, has_value, is_empty, app_data}

-- The payload, from its parts.
abbrev pub laid_out : Bytes → ℕ → Bytes → Bytes → Bytes
laid_out key timestamp signature app = key ++ (uint32_le timestamp ++ (signature ++ app))

-- Where the parts of the payload stand.
module _ (key signature app : Bytes) (timestamp : ℕ) (k32 : length key ≡ 32)
    (s64 : length signature ≡ 64) where
  pub laid_out-key : take 32 (laid_out key timestamp signature app) ≡ key
  laid_out-key = take-append 32 key _ (sym k32)

  pub drop_key :
      drop 32 (laid_out key timestamp signature app) ≡ uint32_le timestamp ++ (signature ++ app)
  drop_key = drop-append 32 key _ (sym k32)

  pub drop_stamp : drop 36 (laid_out key timestamp signature app) ≡ signature ++ app
  unfolding uint32_le
  drop_stamp =
      sym (drop-drop 4 32 36 (laid_out key timestamp signature app) refl) ∙ ap (drop 4) drop_key

  pub laid_out-signature : take 64 (drop 36 (laid_out key timestamp signature app)) ≡ signature
  laid_out-signature = rw drop_stamp (take-append 64 signature app (sym s64))

  pub drop_signature : drop 100 (laid_out key timestamp signature app) ≡ app
  drop_signature =
      sym (drop-drop 64 36 100 (laid_out key timestamp signature app) refl)
      ∙ ap (drop 64) drop_stamp
      ∙ drop-append 64 signature app (sym s64)

  pub length-laid_out : length (laid_out key timestamp signature app) ≡ 100 + length app
  unfolding uint32_le
  length-laid_out = omega (
    arith,
    length-append key (uint32_le timestamp ++ (signature ++ app)),
    length-append signature app,
  )

  pub laid_out-signed_part :
      signed_part (laid_out key timestamp signature app) ≡ key ++ (uint32_le timestamp ++ app)
  laid_out-signed_part =
      let front : take 4 (drop 32 (laid_out key timestamp signature app)) ≡ uint32_le timestamp =
        rw drop_key (unfold uint32_le in refl) in
      rw
        (
          take_split 32 4 36 (laid_out key timestamp signature app) refl,
          laid_out-key,
          front,
          drop_signature,
        )
        (append_assoc key (uint32_le timestamp) app)

  pub laid_out-timestamp :
      timestamp < 2 ^ 32 → word_at (laid_out key timestamp signature app) 32 ≡ timestamp
  laid_out-timestamp small =
      word_at-drop (laid_out key timestamp signature app)
        (uint32_le timestamp ++ (signature ++ app)) 32 drop_key
      ∙ word_at-uint32_le timestamp (signature ++ app) small

  -- A byte, a word and the rest of the application data.
  pub laid_out-app :
      (i : ℕ) → get_or (laid_out key timestamp signature app) (100 + i) ≡ get_or app i
  laid_out-app i =
      get_or-drop (laid_out key timestamp signature app) 100 i
      ∙ ap (λ bs. get_or bs i) drop_signature

  pub drop_app :
      (n k : ℕ) → k ≡ 100 + n → drop k (laid_out key timestamp signature app) ≡ drop n app
  drop_app n k e =
      sym (drop-drop n 100 k (laid_out key timestamp signature app) e) ∙ ap (drop n) drop_signature

-- The bits of the flags.
pub flag_bits :
    (role : DeviceRole) (located named : Bool)
    → (has_bit (advert_flags role located named) has_location_bit ≡ located)
      × (has_bit (advert_flags role located named) has_feature1_bit ≡ false)
      × (has_bit (advert_flags role located named) has_feature2_bit ≡ false)
      × (has_bit (advert_flags role located named) has_name_bit ≡ named)
unfolding advert_flags
flag_bits role true true = ground arith
flag_bits role true false = ground arith
flag_bits role false true = ground arith
flag_bits role false false = ground arith

pub flag_role :
    (role : DeviceRole) (located named : Bool)
    → parse_device_role (advert_flags role located named) ≡ parse_device_role (role_value role)
unfolding parse_device_role advert_flags
flag_role role located named =
    let e : (role_value role % 16 + (if located then 0x10 else 0) + (if named then 0x80 else 0))
          % 16
        ≡ role_value role % 16 =
      ground arith in
    rw e

-- The name that the decoder makes of a name; an empty one is not sent.
abbrev pub sent_name : Text → Option Text
sent_name name = if is_empty name then none else some (name_of name)

module _ {D : Type 0} (micro_degrees : D → ℕ) where
  abbrev pub sent_place : Option (D × D) → Option (Double × Double)
  sent_place none = none
  sent_place (some (lat, lon)) = some (
    record { num = signed32 (micro_degrees lat); den = 1000000 },
    record { num = signed32 (micro_degrees lon); den = 1000000 },
  )

module _ {D : Type 0} (micro_degrees : D → ℕ) (fit : (d : D) → micro_degrees d < 2 ^ 32) where
  -- A payload whose bytes from 100 on are the application data.
  pub flags_lem :
      (payload : Bytes) (name : Text) (role : DeviceRole) (lat_lon : Option (D × D))
      → drop 100 payload ≡ app_data micro_degrees name role lat_lon
      → get_or payload 100 ≡ advert_flags role (has_value lat_lon) (not (is_empty name))
  unfolding app_data
  flags_lem payload name role lat_lon behind =
      get_or-drop payload 100 0 ∙ ap (λ bs. get_or bs 0) behind

  length_lem :
      (payload : Bytes) (name : Text) (role : DeviceRole) (lat_lon : Option (D × D))
      → drop 100 payload ≡ app_data micro_degrees name role lat_lon
      → length payload ≡ (if has_value lat_lon then 109 else 101) + length name
  unfolding app_data uint32_le
  length_lem payload name role none behind =
      omega (arith, length-drop 100 payload, ap {B = ℕ} length behind)
  length_lem payload name role (some (lat, lon)) behind =
      omega (arith, length-drop 100 payload, ap {B = ℕ} length behind)

  pub place_lem :
      (payload : Bytes) (name : Text) (role : DeviceRole) (lat_lon : Option (D × D))
      → drop 100 payload ≡ app_data micro_degrees name role lat_lon
      → place_of payload (advert_flags role (has_value lat_lon) (not (is_empty name)))
        ≡ sent_place micro_degrees lat_lon
  unfolding place_of has_value
  place_lem payload name role none behind = rw (flag_bits role false (not (is_empty name))).0
  place_lem payload name role (some (lat, lon)) behind =
      let room : 109 ≤ length payload =
        omega (arith, length_lem payload name role (some (lat, lon)) behind) in
      let a : ℕ = micro_degrees lat in
      let b : ℕ = micro_degrees lon in
      let first : drop 101 payload ≡ uint32_le a ++ (uint32_le b ++ name) =
        sym (drop-drop 1 100 101 payload refl)
        ∙ ap (drop 1) behind
        ∙ (unfold app_data uint32_le in refl) in
      let second : drop 105 payload ≡ uint32_le b ++ name =
        sym (drop-drop 4 101 105 payload refl) ∙ ap (drop 4) first ∙ (unfold uint32_le in refl) in
      rw (
        (flag_bits role true (not (is_empty name))).0,
        le→leb 109 (length payload) room,
        word_at-drop payload (uint32_le a ++ (uint32_le b ++ name)) 101 first
            ∙ word_at-uint32_le a (uint32_le b ++ name) (fit lat),
        word_at-drop payload (uint32_le b ++ name) 105 second ∙ word_at-uint32_le b name (fit lon),
      )

  behind_lem :
      (payload : Bytes) (name : Text) (role : DeviceRole) (lat_lon : Option (D × D))
      → drop 100 payload ≡ app_data micro_degrees name role lat_lon
      → behind_place payload (advert_flags role (has_value lat_lon) (not (is_empty name)))
        ≡ (if has_value lat_lon then 109 else 101)
  unfolding behind_place has_value
  behind_lem payload name role none behind = rw (flag_bits role false (not (is_empty name))).0
  behind_lem payload name role (some (lat, lon)) behind =
      let room : 109 ≤ length payload =
        omega (arith, length_lem payload name role (some (lat, lon)) behind) in
      rw ((flag_bits role true (not (is_empty name))).0, le→leb 109 (length payload) room)

  drop_name :
      (payload : Bytes) (name : Text) (role : DeviceRole) (lat_lon : Option (D × D))
      → drop 100 payload ≡ app_data micro_degrees name role lat_lon
      → drop (if has_value lat_lon then 109 else 101) payload ≡ name
  unfolding app_data uint32_le
  drop_name payload name role none behind =
      sym (drop-drop 1 100 101 payload refl) ∙ ap (drop 1) behind
  drop_name payload name role (some (lat, lon)) behind =
      sym (drop-drop 9 100 109 payload refl) ∙ ap (drop 9) behind

  pub name_lem :
      (payload : Bytes) (name : Text) (role : DeviceRole) (lat_lon : Option (D × D))
      → drop 100 payload ≡ app_data micro_degrees name role lat_lon
      → name_at payload (advert_flags role (has_value lat_lon) (not (is_empty name))) (
          skip_features
            (advert_flags role (has_value lat_lon) (not (is_empty name)))
            (behind_place payload (advert_flags role (has_value lat_lon) (not (is_empty name)))))
        ≡ sent_name name
  unfolding name_at skip_features is_empty
  name_lem payload [] role lat_lon behind = rw (flag_bits role (has_value lat_lon) false).3
  name_lem payload (c ∷ s) role lat_lon behind =
      let (b4, b5, b6, b7) = flag_bits role (has_value lat_lon) true in
      let o : ℕ = if has_value lat_lon then 109 else 101 in
      let e : o + 0 + 0 ≡ o = omega arith in
      let room : ltb o (length payload) ≡ true =
        lt→ltb o (length payload) (omega (arith, length_lem payload (c ∷ s) role lat_lon behind)) in
      rw (
        behind_lem payload (c ∷ s) role lat_lon behind,
        b7,
        b5,
        b6,
        e,
        room,
        drop_name payload (c ∷ s) role lat_lon behind,
      )
