-- ===== src/Hex/Clean.antt =====
-- `clean` and `pairs` on what `bytes_to_hex` prints, one character at a time.
use meshcore_cpp_decoder.Common.{
  ℕ, ◌+◌, ◌*◌, ◌/◌, ◌%◌, ◌<◌, ◌≡◌, refl, [], ◌∷◌, ◌++◌, true, false, arith, length, Bytes, Text,
  IsBytes,
}
use meshcore_cpp_decoder.Hex.{
  hex_digit, byte_to_hex, bytes_to_hex, is_space, to_upper, clean, is_hex_char, all_hex, hex_value,
  pairs,
}

pub hex_digit-is_hex_char : (d : ℕ) → d < 16 → is_hex_char (hex_digit d) ≡ true
unfolding hex_digit is_hex_char
hex_digit-is_hex_char d h = ground arith

pub hex_value-hex_digit : (d : ℕ) → d < 16 → hex_value (hex_digit d) ≡ d
unfolding hex_digit hex_value
hex_value-hex_digit d h = ground arith

-- A digit is no space, and is its own upper case.
pub is_space-of_hex : (c : ℕ) → is_hex_char c ≡ true → is_space c ≡ false
unfolding is_hex_char is_space
is_space-of_hex c h = ground arith

pub to_upper-of_hex : (c : ℕ) → is_hex_char c ≡ true → to_upper c ≡ c
unfolding is_hex_char to_upper
to_upper-of_hex c h = ground arith

pub clean-of_hex : (s : Text) → all_hex s ≡ true → clean s ≡ s
unfolding clean all_hex
clean-of_hex [] h = refl
clean-of_hex (c ∷ s) h = ground (arith, is_space-of_hex c, to_upper-of_hex c, clean-of_hex s)

pub all_hex-bytes_to_hex : (bs : Bytes) → IsBytes bs → all_hex (bytes_to_hex bs) ≡ true
unfolding bytes_to_hex all_hex
all_hex-bytes_to_hex [] h = refl
all_hex-bytes_to_hex (b ∷ bs) (hb, h) = ground (
  arith,
  hex_digit-is_hex_char (b / 16),
  hex_digit-is_hex_char (b % 16),
  all_hex-bytes_to_hex bs h,
)

pub length-bytes_to_hex : (bs : Bytes) → length (bytes_to_hex bs) ≡ 2 * length bs
unfolding bytes_to_hex
length-bytes_to_hex [] = refl
length-bytes_to_hex (b ∷ bs) = omega (arith, length-bytes_to_hex bs)

pub pairs-bytes_to_hex : (bs : Bytes) → IsBytes bs → pairs (bytes_to_hex bs) ≡ bs
unfolding bytes_to_hex pairs
pairs-bytes_to_hex [] h = refl
pairs-bytes_to_hex (b ∷ bs) (hb, h) =
    ground
      (arith, hex_value-hex_digit (b / 16), hex_value-hex_digit (b % 16), pairs-bytes_to_hex bs h)

pub bytes_to_hex-append :
    (xs ys : Bytes) → bytes_to_hex (xs ++ ys) ≡ bytes_to_hex xs ++ bytes_to_hex ys
unfolding bytes_to_hex
bytes_to_hex-append [] ys = refl
bytes_to_hex-append (x ∷ xs) ys = simp (bytes_to_hex-append xs ys)

-- Two texts of digits with the same values are the same.
pub hex_digit-hex_value : (c : ℕ) → is_hex_char c ≡ true → hex_digit (hex_value c) ≡ c
unfolding is_hex_char hex_digit hex_value
hex_digit-hex_value c h = ground arith

pub hex_value-lt : (c : ℕ) → is_hex_char c ≡ true → hex_value c < 16
unfolding is_hex_char hex_value
hex_value-lt c h = ground arith

byte_to_hex-of_values :
    (a b : ℕ)
    → is_hex_char a ≡ true
    → is_hex_char b ≡ true
    → byte_to_hex (hex_value a * 16 + hex_value b) ≡ a ∷ b ∷ []
unfolding byte_to_hex
byte_to_hex-of_values a b ha hb =
    let hb' : hex_value b < 16 = hex_value-lt b hb in
    let hi : (hex_value a * 16 + hex_value b) / 16 ≡ hex_value a = omega arith in
    let lo : (hex_value a * 16 + hex_value b) % 16 ≡ hex_value b = omega arith in
    rw (hi, lo, hex_digit-hex_value a ha, hex_digit-hex_value b hb)

pub bytes_to_hex-pairs :
    (s : Text)
    → all_hex s ≡ true
    → length s % 2 ≡ 0
    → (bytes_to_hex (pairs s) ≡ s) × IsBytes (pairs s) × (2 * length (pairs s) ≡ length s)
unfolding bytes_to_hex byte_to_hex all_hex pairs
bytes_to_hex-pairs [] h e = (refl, tt, refl)
bytes_to_hex-pairs (a ∷ []) h e = absurd (omega arith)
bytes_to_hex-pairs (a ∷ b ∷ s) h e = ground (
  arith,
  byte_to_hex-of_values a b,
  hex_value-lt a,
  hex_value-lt b,
  bytes_to_hex-pairs s (ground arith) (omega arith),
)
