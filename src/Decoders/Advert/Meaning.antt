-- ===== src/Decoders/Advert/Meaning.antt =====
-- The decoder of adverts gives exactly what the shape of the payload says.
use meshcore_cpp_decoder.Common.{
  ℕ, ◌+◌, ◌/◌, ◌%◌, ◌≤◌, ◌<◌, ◌≡◌, refl, sym, ap, ◌∙◌, ◌⊎◌, inl, inr, Bool, true, false, ◌&&◌,
  Option, none, some, [], ◌∷◌, ◌++◌, arith, ltb, leb, ◌==◌, ltb→lt, ltb→le, leb→le, ==_iff,
  Bool-cases, length, take, drop, length-take, length-drop, drop-drop, take_split, Bytes, IsBytes,
  text, ok, get_or, drop-get_or,
}
use meshcore_cpp_decoder.Common.Int.{Double, signed32, unsigned32, unsigned32-signed32}
use meshcore_cpp_decoder.Payloads.{AdvertPayload, failed_base}
use meshcore_cpp_decoder.Decoders.Words.{chunk, uint32_le, word_at, word_at-lt, uint32_le-word_at}
use meshcore_cpp_decoder.Decoders.Advert.{failed, decode, name_of, skip_features}
use meshcore_cpp_decoder.Decoders.Advert.Fields.{
  has_room, place_of, behind_place, name_at, advert_of, advert_decode_lem,
}
use meshcore_cpp_decoder.Decoders.Advert.Shown.{name_of-IsShown}
use meshcore_cpp_decoder.Decoders.Advert.Shape.{
  parse_device_role-RoleIs, signed32-IsInt32, Placed, feature_bytes, Named, Reads,
}

-- The coordinates of a location.
abbrev pub latitude_of : Option (Double × Double) → Option Double
latitude_of none = none
latitude_of (some (lat, lon)) = some lat

abbrev pub longitude_of : Option (Double × Double) → Option Double
longitude_of none = none
longitude_of (some (lat, lon)) = some lon

both_true : (a b : Bool) → (a && b) ≡ true → (a ≡ true) × (b ≡ true)
both_true true b h = (refl, h)
both_true false b h = cc

one_false : (a b : Bool) → (a && b) ≡ false → (a ≡ false) ⊎ (b ≡ false)
one_false true b h = inr h
one_false false b h = inl refl

bit_clear : (n : ℕ) → (n % 2 == 1) ≡ false → n % 2 ≡ 0
bit_clear n h = ground arith

-- The two coordinates that stand at an offset.
location_bytes :
    (payload : Bytes)
    → IsBytes payload
    → 109 ≤ length payload
    → take 8 (drop 101 payload)
      ≡ uint32_le (unsigned32 (signed32 (word_at payload 101)))
        ++ uint32_le (unsigned32 (signed32 (word_at payload 105)))
location_bytes payload hb le =
    rw
      (
        unsigned32-signed32 (word_at payload 101) (word_at-lt payload 101 hb),
        unsigned32-signed32 (word_at payload 105) (word_at-lt payload 105 hb),
        uint32_le-word_at payload 101 hb (omega arith),
        uint32_le-word_at payload 105 hb (omega arith),
        take_split 4 4 8 (drop 101 payload) refl,
      )
      (ap (λ t. take 4 (drop 101 payload) ++ take 4 t) (drop-drop 4 101 105 payload refl))

place_of-Placed :
    (payload : Bytes) (flags : ℕ)
    → IsBytes payload
    → (place : Bytes) × (drop 101 payload ≡ place ++ drop (behind_place payload flags) payload)
      × Placed flags place
          (drop (behind_place payload flags) payload)
          (latitude_of (place_of payload flags))
          (longitude_of (place_of payload flags))
unfolding place_of behind_place
place_of-Placed payload flags hb = elim (Bool-cases (has_room payload flags 101)) [
  | inl room ↦
      let (bit, enough) = both_true (flags / 16 % 2 == 1) (leb 109 (length payload)) room in
      rw room (
        take 8 (drop 101 payload),
        chunk payload 101 8 109 refl,
        inl (
          (==_iff (flags / 16 % 2) 1).0 bit,
          (
            signed32 (word_at payload 101),
            signed32 (word_at payload 105),
            location_bytes payload hb (leb→le 109 (length payload) enough),
            signed32-IsInt32 (word_at payload 101) (word_at-lt payload 101 hb),
            signed32-IsInt32 (word_at payload 105) (word_at-lt payload 105 hb),
            refl,
            refl,
          ),
        ),
      )
  | inr cut ↦ rw cut ([], refl, inr (refl, refl, refl, why (one_false _ _ cut)))
]
  where
    why :
        ((flags / 16 % 2 == 1) ≡ false) ⊎ (leb 109 (length payload) ≡ false)
        → (flags / 16 % 2 ≡ 0) ⊎ (length (drop 101 payload) < 8)
    why (inl unset) = inl (bit_clear (flags / 16) unset)
    why (inr few) =
        let short : length payload < 109 = leb_false-lt few in
        inr (omega (arith, length-drop 101 payload))
      where
        leb_false-lt : leb 109 (length payload) ≡ false → length payload < 109
        leb_false-lt h = ground arith

skip_features_lem : (flags o : ℕ) → skip_features flags o ≡ o + feature_bytes flags
unfolding skip_features
skip_features_lem flags o = ground arith

name_at-Named :
    (payload : Bytes) (flags o : ℕ)
    → Named flags (drop o payload) (name_at payload flags (skip_features flags o))
unfolding name_at
name_at-Named payload flags o =
    let k : ℕ = o + feature_bytes flags in
    rw (skip_features_lem flags o) (elim (Bool-cases (flags / 128 % 2 == 1)) [
      | inr unset ↦ rw unset (inr (refl, inl (bit_clear (flags / 128) unset)))
      | inl set ↦ elim (Bool-cases (ltb k (length payload))) [
        | inr over ↦
            let le : length payload ≤ k = ltb→le k (length payload) over in
            rw (set, over) (inr (refl, inr (omega (arith, length-drop o payload))))
        | inl room ↦
            let lt : k < length payload = ltb→lt k (length payload) room in
            rw (set, room)
              (inl (
                (==_iff (flags / 128 % 2) 1).0 set,
                (
                  take (feature_bytes flags) (drop o payload),
                  drop k payload,
                  name_of (drop k payload),
                  chunk payload o (feature_bytes flags) k refl,
                  length-take (feature_bytes flags) (drop o payload)
                      (omega (arith, length-drop o payload)),
                  omega (arith, length-drop k payload),
                  refl,
                  name_of-IsShown (drop k payload),
                ),
              ))
      ]
    ])

advert_of-Reads :
    (payload : Bytes) → IsBytes payload → 101 ≤ length payload → Reads payload (advert_of payload)
advert_of-Reads payload hb room =
    let flags : ℕ = get_or payload 100 in
    let behind : ℕ = behind_place payload flags in
    let (place, e, placed) = place_of-Placed payload flags hb in
    let stamp = uint32_le-word_at payload 32 hb (omega arith) in
    (
      take 32 payload,
      take 64 (drop 36 payload),
      flags,
      place,
      drop behind payload,
      chunk payload 0 32 32 refl
          ∙ ap (λ t. take 32 payload ++ t)
              (chunk payload 32 4 36 refl
                ∙ ap (λ t. t ++ drop 36 payload) (sym stamp)
                ∙ ap (λ t. uint32_le (word_at payload 32) ++ t)
                    (chunk payload 36 64 100 refl
                      ∙ ap (λ t. take 64 (drop 36 payload) ++ t)
                          (drop-get_or payload 100 (omega arith) ∙ ap (λ t. flags ∷ t) e))),
      length-take 32 payload (omega arith),
      length-take 64 (drop 36 payload) (omega (arith, length-drop 36 payload)),
      refl,
      refl,
      refl,
      refl,
      (
        refl,
        parse_device_role-RoleIs flags,
        refl,
        refl,
        placed,
        name_at-Named payload flags behind,
      ),
    )

-- A payload of fewer than 101 bytes is refused with an error. Of any other the decoder returns the public
-- key, the timestamp, the signature, the role, the location and the name that its bytes spell. The
-- location is there where its flag is set and eight bytes are left. The name is there where its flag is
-- set and anything stands behind the two bytes of each feature: the bytes up to the first zero without
-- control characters and without blanks around them, or as they are where nothing is left of them.
pub advert_decode-Reads :
    (payload : Bytes)
    → IsBytes payload
    → ((length payload < 101)
        × ((a : AdvertPayload) × (decode payload ≡ ok a)
            × (a.base.is_valid ≡ false)
            × (a.base.errors ≡ text "Advertisement payload too short" ∷ [])))
      ⊎ ((101 ≤ length payload) × ((a : AdvertPayload) × (decode payload ≡ ok a) × Reads payload a))
unfolding failed failed_base
advert_decode-Reads payload hb = elim (Bool-cases (ltb (length payload) 101)) [
  | inl short ↦ inl (
    ltb→lt (length payload) 101 short,
    (failed, advert_decode_lem payload ∙ rw short, refl, refl),
  )
  | inr long ↦
      let room : 101 ≤ length payload = ltb→le (length payload) 101 long in
      inr (
        room,
        (advert_of payload, advert_decode_lem payload ∙ rw long, advert_of-Reads payload hb room),
      )
]
