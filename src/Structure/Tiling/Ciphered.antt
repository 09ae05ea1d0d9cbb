-- ===== src/Structure/Tiling/Ciphered.antt =====
-- The segments of the payloads that carry a ciphertext, and of an acknowledgement.
use meshcore_cpp_decoder.Common.{
  ℕ, ◌+◌, ◌≤◌, refl, inl, inr, arith, ltb, ltb→le, Bool-cases, length, Bytes, text, read_lem,
  range_lem,
}
use meshcore_cpp_decoder.Structure.Ciphered.{
  ack_segments, request_segments, response_segments, text_message_segments, anon_request_segments,
  group_text_segments,
}
use meshcore_cpp_decoder.Structure.Tiling.{
  Tiled, Tiled-ok, shown, byte_shown, too_short-Tiled, remainder-Tiled,
}

module _ (payload : Bytes) (base : ℕ) where
  pub ack-Tiled : Tiled payload base 0 (length payload) (ack_segments payload base)
  unfolding ack_segments
  ack-Tiled = elim (Bool-cases (ltb (length payload) 4)) [
    | inl short ↦ rw short (too_short-Tiled _ _ payload base)
    | inr long ↦
        let room : 4 ≤ length payload = ltb→le (length payload) 4 long in
        let (rest, e, tiles) = Tiled-ok payload base 4 (length payload) _ (
          remainder-Tiled (text "Additional Data") (text "Extra data in Ack payload") payload base 4
            room) in
        rw (long, range_lem payload 0 4 (omega arith), e)
          (
            4,
            shown payload base 0 4 4 base (base + 3) _ _ (omega arith) refl (omega arith)
                (omega arith),
            tiles,
          )
  ]

  pub request-Tiled : Tiled payload base 0 (length payload) (request_segments payload base)
  unfolding request_segments
  request-Tiled = elim (Bool-cases (ltb (length payload) 4)) [
    | inl short ↦ rw short (too_short-Tiled _ _ payload base)
    | inr long ↦
        let room : 4 ≤ length payload = ltb→le (length payload) 4 long in
        let (rest, e, tiles) = Tiled-ok payload base 4 (length payload) _ (
          remainder-Tiled (text "Ciphertext") (text "Encrypted message data") payload base 4
            room) in
        rw
          (
            long,
            range_lem payload 0 1 (omega arith),
            range_lem payload 1 1 (omega arith),
            range_lem payload 2 2 (omega arith),
            e,
          )
          (
            1,
            shown payload base 0 1 1 (base + 0) (base + 0) _ _ (omega arith) refl (omega arith)
                (omega arith),
            (
              2,
              shown payload base 1 1 2 (base + 1) (base + 1) _ _ (omega arith) refl (omega arith)
                  (omega arith),
              (
                4,
                shown payload base 2 2 4 (base + 2) (base + 2 + 1) _ _ (omega arith) refl
                    (omega arith) (omega arith),
                tiles,
              ),
            ),
          )
  ]

  pub response-Tiled : Tiled payload base 0 (length payload) (response_segments payload base)
  unfolding response_segments
  response-Tiled = elim (Bool-cases (ltb (length payload) 4)) [
    | inl short ↦ rw short (too_short-Tiled _ _ payload base)
    | inr long ↦
        let room : 4 ≤ length payload = ltb→le (length payload) 4 long in
        let (rest, e, tiles) = Tiled-ok payload base 4 (length payload) _ (
          remainder-Tiled (text "Ciphertext") (text "Encrypted response data") payload base 4
            room) in
        rw
          (
            long,
            read_lem payload 0 (omega arith),
            read_lem payload 1 (omega arith),
            range_lem payload 2 2 (omega arith),
            e,
          )
          (
            1,
            byte_shown payload base 0 1 (base + 0) (base + 0) _ _ (omega arith) refl (omega arith)
                (omega arith),
            (
              2,
              byte_shown payload base 1 2 (base + 1) (base + 1) _ _ (omega arith) refl (omega arith)
                  (omega arith),
              (
                4,
                shown payload base 2 2 4 (base + 2) (base + 2 + 1) _ _ (omega arith) refl
                    (omega arith) (omega arith),
                tiles,
              ),
            ),
          )
  ]

  pub text_message-Tiled :
      Tiled payload base 0 (length payload) (text_message_segments payload base)
  unfolding text_message_segments
  text_message-Tiled = elim (Bool-cases (ltb (length payload) 4)) [
    | inl short ↦ rw short (too_short-Tiled _ _ payload base)
    | inr long ↦
        let room : 4 ≤ length payload = ltb→le (length payload) 4 long in
        let (rest, e, tiles) = Tiled-ok payload base 4 (length payload) _ (
          remainder-Tiled (text "Ciphertext") (text "Encrypted message data") payload base 4
            room) in
        rw
          (
            long,
            read_lem payload 0 (omega arith),
            read_lem payload 1 (omega arith),
            range_lem payload 2 2 (omega arith),
            e,
          )
          (
            1,
            byte_shown payload base 0 1 (base + 0) (base + 0) _ _ (omega arith) refl (omega arith)
                (omega arith),
            (
              2,
              byte_shown payload base 1 2 (base + 1) (base + 1) _ _ (omega arith) refl (omega arith)
                  (omega arith),
              (
                4,
                shown payload base 2 2 4 (base + 2) (base + 2 + 1) _ _ (omega arith) refl
                    (omega arith) (omega arith),
                tiles,
              ),
            ),
          )
  ]

  pub anon_request-Tiled :
      Tiled payload base 0 (length payload) (anon_request_segments payload base)
  unfolding anon_request_segments
  anon_request-Tiled = elim (Bool-cases (ltb (length payload) 35)) [
    | inl short ↦ rw short (too_short-Tiled _ _ payload base)
    | inr long ↦
        let room : 35 ≤ length payload = ltb→le (length payload) 35 long in
        let (rest, e, tiles) = Tiled-ok payload base 35 (length payload) _ (
          remainder-Tiled (text "Ciphertext") (text "Encrypted message data") payload base 35
            room) in
        rw
          (
            long,
            read_lem payload 0 (omega arith),
            range_lem payload 1 32 (omega arith),
            range_lem payload 33 2 (omega arith),
            e,
          )
          (
            1,
            byte_shown payload base 0 1 (base + 0) (base + 0) _ _ (omega arith) refl (omega arith)
                (omega arith),
            (
              33,
              shown payload base 1 32 33 (base + 1) (base + 1 + 31) _ _ (omega arith) refl
                  (omega arith) (omega arith),
              (
                35,
                shown payload base 33 2 35 (base + 33) (base + 33 + 1) _ _ (omega arith) refl
                    (omega arith) (omega arith),
                tiles,
              ),
            ),
          )
  ]

  pub group_text-Tiled : Tiled payload base 0 (length payload) (group_text_segments payload base)
  unfolding group_text_segments
  group_text-Tiled = elim (Bool-cases (ltb (length payload) 3)) [
    | inl short ↦ rw short (too_short-Tiled _ _ payload base)
    | inr long ↦
        let room : 3 ≤ length payload = ltb→le (length payload) 3 long in
        let (rest, e, tiles) = Tiled-ok payload base 3 (length payload) _ (
          remainder-Tiled (text "Ciphertext") (text "Encrypted message content") payload base 3
            room) in
        rw (long, read_lem payload 0 (omega arith), range_lem payload 1 2 (omega arith), e)
          (
            1,
            byte_shown payload base 0 1 (base + 0) (base + 0) _ _ (omega arith) refl (omega arith)
                (omega arith),
            (
              3,
              shown payload base 1 2 3 (base + 1) (base + 1 + 1) _ _ (omega arith) refl
                  (omega arith) (omega arith),
              tiles,
            ),
          )
  ]
