-- ===== src/Structure/Tiling/Advert.antt =====
-- The segments of an advert: between them the bytes of the feature flags are left out.
use meshcore_cpp_decoder.Common.{
  ℕ, ◌+◌, ◌-◌, ◌≤◌, ◌<◌, ◌≡◌, refl, inl, inr, ◌&&◌, List, [], ◌∷◌, ◌++◌, arith, ltb, leb, ltb→le,
  Bool-cases, has_bit, length, Bytes, Text, text, Outcome, ok, throws, fault, get_or, read_lem,
  range_lem,
}
use meshcore_cpp_decoder.Common.Int.{Double}
use meshcore_cpp_decoder.Enums.{has_location_bit, has_name_bit}
use meshcore_cpp_decoder.Decoders.Words.{read_uint32_le_lem}
use meshcore_cpp_decoder.Decoders.Advert.{skip_features}
use meshcore_cpp_decoder.Structure.Segment.{PayloadSegment}
use meshcore_cpp_decoder.Structure.Advert.{location_segments, name_segment, advert_segments}
use meshcore_cpp_decoder.Structure.Tiling.{
  Tiles, Ordered, Ordered-ok, Tiles-InOrder, InOrder-append, shown, byte_shown, last_shown,
  too_short-Tiled, Tiled-ok,
}

skip_features-le : (flags o : ℕ) → o ≤ skip_features flags o
unfolding skip_features
skip_features-le flags o = ground arith

module _ (payload : Bytes) (base : ℕ) where
  name-Ordered : (flags o : ℕ) → Ordered payload base o (name_segment payload base flags o)
  unfolding name_segment
  name-Ordered flags o = elim (Bool-cases (has_bit flags has_name_bit && ltb o (length payload))) [
    | inl named ↦
        let lt : o < length payload = ground arith in
        rw (named, range_lem payload o (length payload - o) (omega arith))
          (
            o,
            length payload,
            omega arith,
            last_shown payload base o (length payload - o) (base + o) _ _ (omega arith) refl refl,
            tt,
          )
    | inr not_named ↦ rw not_named tt
  ]

  module _ (print_degrees : Double → Text) where
    -- A call that returns segments that tile the bytes up to the offset behind them.
    abbrev Placed : ℕ → Outcome (List PayloadSegment × ℕ) → Type 0
    Placed o (ok (segs, behind)) = Tiles payload base o segs behind
    Placed o (throws what) = ⊥
    Placed o fault = ⊥

    Placed-ok :
        (o : ℕ) (m : Outcome (List PayloadSegment × ℕ))
        → Placed o m
        → (segs : List PayloadSegment) × (behind : ℕ) × (m ≡ ok (segs, behind))
          × Tiles payload base o segs behind
    Placed-ok o (ok (segs, behind)) h = (segs, behind, refl, h)
    Placed-ok o (throws what) h = absurd h
    Placed-ok o fault h = absurd h

    location-Placed :
        (flags o : ℕ) → Placed o (location_segments print_degrees payload base flags o)
    unfolding location_segments
    location-Placed flags o =
        elim (Bool-cases (has_bit flags has_location_bit && leb (o + 8) (length payload))) [
          | inl there ↦
              let room : o + 8 ≤ length payload = ground arith in
              rw
                (
                  there,
                  read_uint32_le_lem payload o (omega arith),
                  read_uint32_le_lem payload (o + 4) (omega arith),
                  range_lem payload o 4 (omega arith),
                  range_lem payload (o + 4) 4 (omega arith),
                )
                (
                  o + 4,
                  shown payload base o 4 (o + 4) (base + o) (base + o + 3) _ _ (omega arith) refl
                      refl (omega arith),
                  (
                    o + 8,
                    shown payload base (o + 4) 4 (o + 8) (base + o + 4) (base + o + 7) _ _
                        (omega arith) (omega arith) (omega arith) (omega arith),
                    refl,
                  ),
                )
          | inr missing ↦ rw missing refl
        ]

    pub advert-Ordered : Ordered payload base 0 (advert_segments print_degrees payload base)
    unfolding advert_segments
    advert-Ordered = elim (Bool-cases (ltb (length payload) 101)) [
      | inl short ↦
          let (segs, e, tiles) = Tiled-ok payload base 0 (length payload) _ (
            too_short-Tiled (text "Invalid Advert Data")
              (text "Advert payload too short (minimum 101 bytes required)") payload base) in
          rw (short, e) (Tiles-InOrder payload base 0 (length payload) segs tiles)
      | inr long ↦
          let room : 101 ≤ length payload = ltb→le (length payload) 101 long in
          let flags : ℕ = get_or payload 100 in
          let (place, behind, ep, tiles) = Placed-ok 101 _ (location-Placed flags 101) in
          let (label, el, ordered) =
            Ordered-ok payload base (skip_features flags behind) _
              (name-Ordered flags (skip_features flags behind)) in
          let tail =
            InOrder-append payload base 101 behind (skip_features flags behind) place label tiles
              (skip_features-le flags behind) ordered in
          rw
            (
              long,
              range_lem payload 0 32 (omega arith),
              read_uint32_le_lem payload 32 (omega arith),
              range_lem payload 32 4 (omega arith),
              range_lem payload 36 64 (omega arith),
              read_lem payload 100 (omega arith),
              ep,
              el,
            )
            (InOrder-append payload base 0 101 101 (_ ∷ _ ∷ _ ∷ _ ∷ []) (place ++ label)
              (
                32,
                shown payload base 0 32 32 (base + 0) (base + 0 + 31) _ _ (omega arith) refl
                    (omega arith) (omega arith),
                (
                  36,
                  shown payload base 32 4 36 (base + 32) (base + 32 + 3) _ _ (omega arith) refl
                      (omega arith) (omega arith),
                  (
                    100,
                    shown payload base 36 64 100 (base + 36) (base + 36 + 63) _ _ (omega arith) refl
                        (omega arith) (omega arith),
                    (
                      101,
                      byte_shown payload base 100 101 (base + 100) (base + 100) _ _ (omega arith)
                          refl (omega arith) (omega arith),
                      refl,
                    ),
                  ),
                ),
              )
              (omega arith) tail)
    ]
