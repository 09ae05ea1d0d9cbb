-- ===== src/Cli/RxMsg.antt =====
-- The lines behind `rx msg:` that the receiver prints.
use meshcore_cpp_decoder.Common.{
  ℕ, zero, suc, ◌/◌, ◌%◌, ◌<◌, ◌≡◌, refl, ap, ◌∙◌, true, false, [], ◌∷◌, ◌++◌, arith, length,
  length-append, Bytes, Text, IsBytes, text,
}
use meshcore_cpp_decoder.Hex.{hex_digit, byte_to_hex, bytes_to_hex, is_hex_char, to_upper}
use meshcore_cpp_decoder.Cli.Input.{
  is_xdigit, take_xdigits, token_hex, rx_msg_loop, hex_from_rx_msg,
}

-- The line that the receiver prints for a buffer: each byte as ` 0xAB,` behind `rx msg:`.
abbrev pub rx_bytes : Bytes → Text
rx_bytes [] = []
rx_bytes (b ∷ bs) = b' ' ∷ b'0' ∷ b'x' ∷ (byte_to_hex b ++ (b',' ∷ rx_bytes bs))

pub hex_digit-xdigit : (d : ℕ) → d < 16 → is_xdigit (hex_digit d) ≡ true
unfolding is_xdigit is_hex_char to_upper hex_digit
hex_digit-xdigit d h = ground arith

-- A token of a byte, up to the comma.
take_xdigits-byte :
    (b : ℕ) (rest : Text)
    → b < 256
    → take_xdigits (byte_to_hex b ++ (b',' ∷ rest)) ≡ (byte_to_hex b, b',' ∷ rest)
unfolding take_xdigits byte_to_hex
take_xdigits-byte b rest h =
    let comma : is_xdigit b',' ≡ false = unfold is_xdigit is_hex_char to_upper in refl in
    rw (hex_digit-xdigit (b / 16) (omega arith), hex_digit-xdigit (b % 16) (omega arith), comma)

token_hex-byte : (b : ℕ) → token_hex (byte_to_hex b) ≡ byte_to_hex b
unfolding token_hex byte_to_hex
token_hex-byte b = refl

rx_msg_loop-token :
    (f b : ℕ) (rest : Text)
    → b < 256
    → rx_msg_loop (suc f) (b'0' ∷ b'x' ∷ (byte_to_hex b ++ (b',' ∷ rest)))
      ≡ byte_to_hex b ++ rx_msg_loop f (b',' ∷ rest)
unfolding rx_msg_loop
rx_msg_loop-token f b rest h = rw (take_xdigits-byte b rest h, token_hex-byte b)

rx_msg_loop-rx_bytes :
    (bs : Bytes) (f : ℕ)
    → IsBytes bs
    → length (rx_bytes bs) < f
    → rx_msg_loop f (b',' ∷ rx_bytes bs) ≡ bytes_to_hex bs
unfolding rx_msg_loop bytes_to_hex
rx_msg_loop-rx_bytes [] zero hb enough = absurd (omega arith)
rx_msg_loop-rx_bytes [] (suc f) hb enough = refl
rx_msg_loop-rx_bytes (b ∷ bs) zero (hb, h) enough = absurd (omega arith)
rx_msg_loop-rx_bytes (b ∷ bs) (suc zero) (hb, h) enough = absurd (omega arith)
rx_msg_loop-rx_bytes (b ∷ bs) (suc (suc zero)) (hb, h) enough = absurd (omega arith)
rx_msg_loop-rx_bytes (b ∷ bs) (suc (suc (suc f))) (hb, h) enough =
    rx_msg_loop-token f b (rx_bytes bs) hb
    ∙ ap (λ t. byte_to_hex b ++ t)
        (rx_msg_loop-rx_bytes bs f h
          (omega (arith, length-append (byte_to_hex b) (b',' ∷ rx_bytes bs), enough)))

pub hex_from_rx_msg_lem :
    (bs : Bytes) → IsBytes bs → hex_from_rx_msg (text "rx msg:" ++ rx_bytes bs) ≡ bytes_to_hex bs
unfolding hex_from_rx_msg rx_msg_loop text
hex_from_rx_msg_lem bs h =
    colon (suc (length (rx_bytes bs))) (rx_bytes bs)
    ∙ rx_msg_loop-rx_bytes bs (suc (length (rx_bytes bs))) h (omega arith)
  where
    colon : (f : ℕ) (r : Text) → rx_msg_loop f (b':' ∷ r) ≡ rx_msg_loop f (b',' ∷ r)
    colon zero r = refl
    colon (suc f) [] = refl
    colon (suc f) (c ∷ r) = refl
