-- ===== src/Structure/Tiling/Reports.antt =====
-- The segments of trace and control payloads.
use meshcore_cpp_decoder.Common.{
  ℕ, ◌+◌, ◌-◌, ◌%◌, ◌≤◌, refl, inl, inr, ◌&&◌, arith, ltb, leb, ◌==◌, if◌then◌else◌, ltb→le, leb→le,
  Bool-cases, length, Bytes, text, get_or, read_lem, range_lem,
}
use meshcore_cpp_decoder.Decoders.Words.{read_uint32_le_lem}
use meshcore_cpp_decoder.Structure.Reports.{
  trace_segments, since_segment, discover_req_segments, discover_resp_segments, control_segments,
}
use meshcore_cpp_decoder.Structure.Tiling.{
  Tiled, Tiled-ok, shown, byte_shown, last_shown, too_short-Tiled, remainder-Tiled,
}

module _ (payload : Bytes) (base : ℕ) where
  pub trace-Tiled : Tiled payload base 0 (length payload) (trace_segments payload base)
  unfolding trace_segments
  trace-Tiled = elim (Bool-cases (ltb (length payload) 9)) [
    | inl short ↦ rw short (too_short-Tiled _ _ payload base)
    | inr long ↦
        let room : 9 ≤ length payload = ltb→le (length payload) 9 long in
        let (rest, e, tiles) = Tiled-ok payload base 9 (length payload) _ (
          remainder-Tiled (text "Path Hashes") (text "Node hashes in trace path") payload base 9
            room) in
        rw
          (
            long,
            read_uint32_le_lem payload 0 (omega arith),
            range_lem payload 0 4 (omega arith),
            read_uint32_le_lem payload 4 (omega arith),
            range_lem payload 4 4 (omega arith),
            read_lem payload 8 (omega arith),
            e,
          )
          (
            4,
            shown payload base 0 4 4 (base + 0) (base + 0 + 3) _ _ (omega arith) refl (omega arith)
                (omega arith),
            (
              8,
              shown payload base 4 4 8 (base + 4) (base + 4 + 3) _ _ (omega arith) refl
                  (omega arith) (omega arith),
              (
                9,
                byte_shown payload base 8 9 (base + 8) (base + 8) _ _ (omega arith) refl
                    (omega arith) (omega arith),
                tiles,
              ),
            ),
          )
  ]

  -- Where the segments of a control payload end: at the end of the tag or the timestamp of a request, of
  -- a response at the end of the payload, and before its first byte where nothing is shown.
  pub since_end : ℕ
  since_end = if leb (6 + 4) (length payload) then 10 else 6

  since-Tiled : 6 ≤ length payload → Tiled payload base 6 since_end (since_segment payload base)
  unfolding since_segment since_end
  since-Tiled room = elim (Bool-cases (leb (6 + 4) (length payload))) [
    | inl more ↦
        let le : 10 ≤ length payload = leb→le (6 + 4) (length payload) more in
        rw (more, read_uint32_le_lem payload 6 (omega arith), range_lem payload 6 4 (omega arith))
          (
            10,
            shown payload base 6 4 10 (base + 6) (base + 6 + 3) _ _ (omega arith) refl (omega arith)
                (omega arith),
            refl,
          )
    | inr less ↦ rw less refl
  ]

  discover_req-Tiled :
      6 ≤ length payload → Tiled payload base 0 since_end (discover_req_segments payload base)
  unfolding discover_req_segments
  discover_req-Tiled room =
      let (rest, e, tiles) = Tiled-ok payload base 6 since_end _ (since-Tiled room) in
      rw
        (
          read_lem payload 0 (omega arith),
          read_lem payload 1 (omega arith),
          read_uint32_le_lem payload 2 (omega arith),
          range_lem payload 2 4 (omega arith),
          e,
        )
        (
          1,
          byte_shown payload base 0 1 (base + 0) (base + 0) _ _ (omega arith) refl (omega arith)
              (omega arith),
          (
            2,
            byte_shown payload base 1 2 (base + 1) (base + 1) _ _ (omega arith) refl (omega arith)
                (omega arith),
            (
              6,
              shown payload base 2 4 6 (base + 2) (base + 2 + 3) _ _ (omega arith) refl
                  (omega arith) (omega arith),
              tiles,
            ),
          ),
        )

  discover_resp-Tiled :
      14 ≤ length payload
      → Tiled payload base 0 (length payload) (discover_resp_segments payload base)
  unfolding discover_resp_segments
  discover_resp-Tiled room =
      rw
        (
          read_lem payload 0 (omega arith),
          read_lem payload 1 (omega arith),
          read_uint32_le_lem payload 2 (omega arith),
          range_lem payload 2 4 (omega arith),
          range_lem payload 6 (length payload - 6) (omega arith),
        )
        (
          1,
          byte_shown payload base 0 1 (base + 0) (base + 0) _ _ (omega arith) refl (omega arith)
              (omega arith),
          (
            2,
            byte_shown payload base 1 2 (base + 1) (base + 1) _ _ (omega arith) refl (omega arith)
                (omega arith),
            (
              6,
              shown payload base 2 4 6 (base + 2) (base + 2 + 3) _ _ (omega arith) refl
                  (omega arith) (omega arith),
              (
                length payload,
                last_shown payload base 6 (length payload - 6) (base + 6) _ _ (omega arith) refl
                    refl,
                refl,
              ),
            ),
          ),
        )

  unfoldable pub control_end : ℕ
  control_end =
      let sub_type = get_or payload 0 - get_or payload 0 % 16 in
      if ltb (length payload) 1
      then 0
      else if sub_type == 0x80 && leb 6 (length payload)
      then since_end
      else if sub_type == 0x90 && leb 14 (length payload)
      then length payload
      else 0

  pub control_end-le : control_end ≤ length payload
  unfolding control_end since_end
  control_end-le = ground arith

  pub control-Tiled : Tiled payload base 0 control_end (control_segments payload base)
  unfolding control_segments control_end
  control-Tiled = elim (Bool-cases (ltb (length payload) 1)) [
    | inl none_there ↦ rw none_there refl
    | inr some_there ↦
        let room : 1 ≤ length payload = ltb→le (length payload) 1 some_there in
        let b = get_or payload 0 in
        let first = read_lem payload 0 (omega arith) in
        elim (Bool-cases (b - b % 16 == 0x80 && leb 6 (length payload))) [
          | inl req ↦
              let le : 6 ≤ length payload = ground arith in
              rw (some_there, first, req) (discover_req-Tiled le)
          | inr other ↦ elim (Bool-cases (b - b % 16 == 0x90 && leb 14 (length payload))) [
            | inl resp ↦
                let le : 14 ≤ length payload = ground arith in
                rw (some_there, first, other, resp) (discover_resp-Tiled le)
            | inr neither ↦ rw (some_there, first, other, neither) refl
          ]
        ]
  ]
