-- ===== src/Cli/Lines.antt =====
-- The packet that a line of the stream carries.
use meshcore_cpp_decoder.Common.{
  ℕ, ◌/◌, ◌%◌, ◌≤◌, ◌≡◌, refl, sym, ap, ◌∙◌, inl, inr, Bool, true, false, none, some, [], ◌∷◌, ◌++◌,
  append_assoc, arith, ltb, ◌==◌, le→ltb, ==_iff, Bool-cases, length, Bytes, Text, IsBytes, text,
}
use meshcore_cpp_decoder.Hex.{byte_to_hex, bytes_to_hex, is_hex_char, to_upper}
use meshcore_cpp_decoder.Hex.Clean.{length-bytes_to_hex}
use meshcore_cpp_decoder.Decoders.Advert.{is_blank, trim}
use meshcore_cpp_decoder.Encoder.Advert.{is_empty}
use meshcore_cpp_decoder.Cli.Input.{
  is_xdigit, all_xdigit, is_bare_hex, hex_from_rx_msg, behind_prefix, offered, packet_on,
}
use meshcore_cpp_decoder.Cli.RxMsg.{rx_bytes, hex_digit-xdigit, hex_from_rx_msg_lem}
use meshcore_cpp_decoder.Cli.Trim.{all_xdigit-Solid, bare-all_xdigit, trim_whole, trim-Solid}

-- What `packet_on` makes of a text that is offered.
packet_on-offered :
    (decode_rx_msg : Bool) (line hex : Text)
    → offered decode_rx_msg (trim line) ≡ hex
    → is_bare_hex hex ≡ true
    → packet_on decode_rx_msg line ≡ some hex
unfolding packet_on
packet_on-offered decode_rx_msg line [] e bare = absurd (unfold is_bare_hex in false-true bare)
  where
    false-true : false ≡ true → ⊥
    false-true f = cc
packet_on-offered decode_rx_msg line (c ∷ s) e bare = rw (e, bare) (unfold is_empty in refl)

behind_ok : (hex : Text) → behind_prefix (text "rx ok: ") (text "rx ok: " ++ hex) ≡ some hex
unfolding behind_prefix text
behind_ok hex = refl

behind_hex : (hex : Text) → behind_prefix (text "rx hex: ") (text "rx hex: " ++ hex) ≡ some hex
unfolding behind_prefix text
behind_hex hex = refl

hex-not_ok : (hex : Text) → behind_prefix (text "rx ok: ") (text "rx hex: " ++ hex) ≡ none
unfolding behind_prefix text
hex-not_ok hex = refl

-- A line that says `rx ok: ` or `rx hex: ` in front of bare hexadecimal text, with no blank behind it,
-- carries that text, whether or not lines with `rx msg:` are decoded.
pub packet_on-rx_ok :
    (decode_rx_msg : Bool) (hex : Text)
    → is_bare_hex hex ≡ true
    → (packet_on decode_rx_msg (text "rx ok: " ++ hex) ≡ some hex)
      × (packet_on decode_rx_msg (text "rx hex: " ++ hex) ≡ some hex)
packet_on-rx_ok decode_rx_msg [] bare = absurd (unfold is_bare_hex in false-true bare)
  where
    false-true : false ≡ true → ⊥
    false-true f = cc
packet_on-rx_ok decode_rx_msg (d ∷ t) bare =
    let solid = all_xdigit-Solid (d ∷ t) (bare-all_xdigit (d ∷ t) bare) in
    let kept = trim-Solid (d ∷ t) solid in
    let ok_line : trim (text "rx ok: " ++ (d ∷ t)) ≡ text "rx ok: " ++ (d ∷ t) =
      unfold text is_blank in
      trim_whole b'r' (b'x' ∷ b' ' ∷ b'o' ∷ b'k' ∷ b':' ∷ b' ' ∷ []) d t refl solid in
    let hex_line : trim (text "rx hex: " ++ (d ∷ t)) ≡ text "rx hex: " ++ (d ∷ t) =
      unfold text is_blank in
      trim_whole b'r' (b'x' ∷ b' ' ∷ b'h' ∷ b'e' ∷ b'x' ∷ b':' ∷ b' ' ∷ []) d t refl solid in
    (
      packet_on-offered decode_rx_msg _ (d ∷ t)
          (unfold offered in rw (ok_line, behind_ok (d ∷ t)) kept) bare,
      packet_on-offered decode_rx_msg _ (d ∷ t)
          (unfold offered in rw (hex_line, hex-not_ok (d ∷ t), behind_hex (d ∷ t)) kept) bare,
    )

-- The line of a buffer that is not empty ends with a comma.
rx_bytes-last : (b : ℕ) (bs : Bytes) → (s : Text) × (rx_bytes (b ∷ bs) ≡ s ++ (b',' ∷ []))
rx_bytes-last b [] = (b' ' ∷ b'0' ∷ b'x' ∷ byte_to_hex b, refl)
rx_bytes-last b (c ∷ bs) =
    let (s, e) = rx_bytes-last c bs in
    (
      b' ' ∷ b'0' ∷ b'x' ∷ (byte_to_hex b ++ (b',' ∷ s)),
      ap (λ r. b' ' ∷ b'0' ∷ b'x' ∷ (byte_to_hex b ++ (b',' ∷ r))) e
          ∙ ap (λ r. b' ' ∷ b'0' ∷ b'x' ∷ r)
              (sym (append_assoc (byte_to_hex b) (b',' ∷ s) (b',' ∷ []))),
    )

rx_line-trim :
    (b : ℕ) (bs : Bytes)
    → trim (text "rx msg:" ++ rx_bytes (b ∷ bs)) ≡ text "rx msg:" ++ rx_bytes (b ∷ bs)
unfolding text is_blank
rx_line-trim b bs =
    let (s, e) = rx_bytes-last b bs in
    rw e (trim_whole b'r' (b'x' ∷ b' ' ∷ b'm' ∷ b's' ∷ b'g' ∷ b':' ∷ s) b',' [] refl (refl, tt))

bytes_to_hex-xdigit : (bs : Bytes) → IsBytes bs → all_xdigit (bytes_to_hex bs) ≡ true
unfolding all_xdigit bytes_to_hex byte_to_hex
bytes_to_hex-xdigit [] h = refl
bytes_to_hex-xdigit (b ∷ bs) (hb, h) = rw (
  hex_digit-xdigit (b / 16) (omega arith),
  hex_digit-xdigit (b % 16) (omega arith),
  bytes_to_hex-xdigit bs h,
)

bytes_to_hex-bare : (bs : Bytes) → IsBytes bs → 2 ≤ length bs → is_bare_hex (bytes_to_hex bs) ≡ true
unfolding is_bare_hex
bytes_to_hex-bare bs h two =
    let len = length-bytes_to_hex bs in
    let long : ltb (length (bytes_to_hex bs)) 4 ≡ false =
      le→ltb (length (bytes_to_hex bs)) 4 (omega arith) in
    let even : (length (bytes_to_hex bs) % 2 == 0) ≡ true = (==_iff _ 0).1 (omega arith) in
    rw (long, even, bytes_to_hex-xdigit bs h)

-- A text that begins with a hexadecimal digit has none of the prefixes.
digit-no_prefix :
    (c : ℕ) (s : Text)
    → is_xdigit c ≡ true
    → (behind_prefix (text "rx ok: ") (c ∷ s) ≡ none)
      × (behind_prefix (text "rx hex: ") (c ∷ s) ≡ none)
      × (behind_prefix (text "rx msg:") (c ∷ s) ≡ none)
unfolding behind_prefix text
digit-no_prefix c s h =
    let other : (c == b'r') ≡ false = unfold is_xdigit is_hex_char to_upper in ground arith in
    (rw other, rw other, rw other)

offered-bare :
    (decode_rx_msg : Bool) (c : ℕ) (s : Text)
    → is_bare_hex (c ∷ s) ≡ true
    → offered decode_rx_msg (c ∷ s) ≡ c ∷ s
unfolding offered
offered-bare decode_rx_msg c s bare =
    let (e1, e2, e3) = digit-no_prefix c s (first_xdigit (bare-all_xdigit (c ∷ s) bare)) in
    elim (Bool-cases decode_rx_msg) [
      | inl legacy ↦ rw (e1, e2, e3, bare, legacy)
      | inr plain ↦ rw (e1, e2, e3, bare, plain)
    ]
  where
    first_xdigit : all_xdigit (c ∷ s) ≡ true → is_xdigit c ≡ true
    first_xdigit h = unfold all_xdigit in ground arith

rx_offered : (r : Text) → offered true (text "rx msg:" ++ r) ≡ hex_from_rx_msg (text "rx msg:" ++ r)
unfolding offered behind_prefix text
rx_offered r = refl

-- The four forms in which a packet of two bytes or more stands on a line of the stream give the same
-- text, the bytes in hexadecimal: behind `rx ok: ` or `rx hex: `, bare, and, where such lines are
-- decoded, as ` 0xAB,` for each byte behind `rx msg:`.
pub packet_on-forms :
    (decode_rx_msg : Bool) (bs : Bytes)
    → IsBytes bs
    → 2 ≤ length bs
    → (packet_on decode_rx_msg (text "rx ok: " ++ bytes_to_hex bs) ≡ some (bytes_to_hex bs))
      × (packet_on decode_rx_msg (text "rx hex: " ++ bytes_to_hex bs) ≡ some (bytes_to_hex bs))
      × (packet_on decode_rx_msg (bytes_to_hex bs) ≡ some (bytes_to_hex bs))
      × (packet_on true (text "rx msg:" ++ rx_bytes bs) ≡ some (bytes_to_hex bs))
packet_on-forms decode_rx_msg [] h two = absurd (omega arith)
packet_on-forms decode_rx_msg (b ∷ bs) h two =
    let bare = bytes_to_hex-bare (b ∷ bs) h two in
    let (ok_line, hex_line) = packet_on-rx_ok decode_rx_msg (bytes_to_hex (b ∷ bs)) bare in
    let solid = all_xdigit-Solid (bytes_to_hex (b ∷ bs)) (bytes_to_hex-xdigit (b ∷ bs) h) in
    (
      ok_line,
      hex_line,
      packet_on-offered decode_rx_msg _ _
          (rw (trim-Solid (bytes_to_hex (b ∷ bs)) solid)
            (unfold bytes_to_hex byte_to_hex in offered-bare decode_rx_msg _ _ bare))
          bare,
      packet_on-offered true _ _
          (rw (rx_line-trim b bs) (rx_offered (rx_bytes (b ∷ bs)) ∙ hex_from_rx_msg_lem (b ∷ bs) h))
          bare,
    )
