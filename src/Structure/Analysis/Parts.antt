-- ===== src/Structure/Analysis/Parts.antt =====
-- The segments of every kind of payload.
use meshcore_cpp_decoder.Common.{
  ℕ, ◌≤◌, ◌≡◌, refl, ap, ◌⊎◌, inl, inr, List, arith, ltb, ltb→le, Bool-cases, length, take, Bytes,
  Text, Outcome, ok, range_lem,
}
use meshcore_cpp_decoder.Common.Int.{Double}
use meshcore_cpp_decoder.Hex.{bytes_to_hex}
use meshcore_cpp_decoder.Enums.{
  PayloadType, advert, trace, group_text, request, response, text_message, anon_request, ack,
  control,
}
use meshcore_cpp_decoder.Structure.Segment.{PayloadSegment, segment, last_byte}
use meshcore_cpp_decoder.Structure.Tiling.{
  Tiles, InOrder, Tiled, Tiled-ok, Ordered-ok, Tiles-InOrder,
}
use meshcore_cpp_decoder.Structure.Tiling.Ciphered.{
  ack-Tiled, request-Tiled, response-Tiled, text_message-Tiled, anon_request-Tiled,
  group_text-Tiled,
}
use meshcore_cpp_decoder.Structure.Tiling.Reports.{
  trace-Tiled, control_end, control_end-le, control-Tiled,
}
use meshcore_cpp_decoder.Structure.Tiling.Advert.{advert-Ordered}
use meshcore_cpp_decoder.Structure.Analysis.{payload_segments}
use meshcore_cpp_decoder.Structure.Outline.{raw_segments}

-- The segments lie in order, and but for an advert they tile the payload up to an end, which is the end
-- of the payload but for a control payload.
abbrev pub Laid : PayloadType → Bytes → List PayloadSegment → Type 0
Laid kind payload segs =
    InOrder payload 0 0 segs
    × ((kind ≡ advert)
        ⊎ ((e : ℕ) × Tiles payload 0 0 segs e
            × (e ≤ length payload)
            × ((kind ≡ control) ⊎ (e ≡ length payload))))

whole :
    (kind : PayloadType) (payload : Bytes) (m : Outcome (List PayloadSegment))
    → Tiled payload 0 0 (length payload) m
    → (segs : List PayloadSegment) × (m ≡ ok segs) × Laid kind payload segs
whole kind payload m h =
    let (segs, e, tiles) = Tiled-ok payload 0 0 (length payload) m h in
    (
      segs,
      e,
      (
        Tiles-InOrder payload 0 0 (length payload) segs tiles,
        inr (length payload, tiles, omega arith, inr refl),
      ),
    )

raw-Tiled :
    (kind : PayloadType) (payload : Bytes)
    → Tiled payload 0 0 (length payload) (raw_segments kind payload)
unfolding raw_segments segment
raw-Tiled kind payload = elim (Bool-cases (ltb 0 (length payload))) [
  | inl more ↦
      rw (more, range_lem payload 0 (length payload) (omega arith))
        (
          length payload,
          record {
            forwards = omega arith;
            inside = omega arith;
            starts = refl;
            ends = ap last_byte (omega arith);
            spelled = ap (λ n. bytes_to_hex (take n payload)) (omega arith);
          },
          refl,
        )
  | inr nothing ↦
      let le : length payload ≤ 0 = ltb→le 0 (length payload) nothing in rw nothing (omega arith)
]

module _ (print_degrees : Double → Text) where
  -- Of every kind of payload, however short, `generateSegments` returns segments, and never reads
  -- out of bounds. Each shows the bytes from its first to its last in hexadecimal, and begins behind
  -- the one before it. In every payload but an advert, where the feature bytes are left out, no byte
  -- stands between two segments; in every payload but an advert and a control payload the last byte
  -- is shown too.
  pub payload_segments-Laid :
      (kind : PayloadType) (payload : Bytes)
      → (segs : List PayloadSegment) × (payload_segments print_degrees kind payload ≡ ok segs)
        × Laid kind payload segs
  unfolding payload_segments
  payload_segments-Laid advert payload =
      let (segs, e, ordered) = Ordered-ok payload 0 0 _ (advert-Ordered payload 0 print_degrees) in
      (segs, e, (ordered, inl refl))
  payload_segments-Laid control payload =
      let (segs, e, tiles) =
        Tiled-ok payload 0 0 (control_end payload 0) _ (control-Tiled payload 0) in
      (
        segs,
        e,
        (
          Tiles-InOrder payload 0 0 (control_end payload 0) segs tiles,
          inr (control_end payload 0, tiles, control_end-le payload 0, inl refl),
        ),
      )
  payload_segments-Laid trace payload = whole trace payload _ (trace-Tiled payload 0)
  payload_segments-Laid group_text payload = whole group_text payload _ (group_text-Tiled payload 0)
  payload_segments-Laid request payload = whole request payload _ (request-Tiled payload 0)
  payload_segments-Laid response payload = whole response payload _ (response-Tiled payload 0)
  payload_segments-Laid text_message payload =
      whole text_message payload _ (text_message-Tiled payload 0)
  payload_segments-Laid anon_request payload =
      whole anon_request payload _ (anon_request-Tiled payload 0)
  payload_segments-Laid ack payload = whole ack payload _ (ack-Tiled payload 0)
  payload_segments-Laid other payload = whole other payload _ (raw-Tiled other payload)
