-- ===== src/Hex.antt =====
-- include/meshcore/utils/hex.h and src/utils/hex.cpp: hexadecimal text.
pub mod Clean
pub mod RoundTrip
use meshcore_cpp_decoder.Common.{
  ℕ, zero, suc, ◌+◌, ◌-◌, ◌*◌, ◌/◌, ◌%◌, List, [], ◌∷◌, ◌++◌, Bool, true, false, not, ◌&&◌, ◌||◌,
  ltb, leb, ◌==◌, if◌then◌else◌, length, replicate, Bytes, Text, text, Outcome, ok, throws,
  throw_if, ◌>>=◌, ◌>>◌,
}

-- The digit that `%X` prints.
unfoldable pub hex_digit : ℕ → ℕ
hex_digit d = if ltb d 10 then b'0' + d else b'A' + (d - 10)

-- `%02X` of a uint8_t
unfoldable pub byte_to_hex : ℕ → Text
unfolding hex_digit
byte_to_hex b = hex_digit (b / 16) ∷ hex_digit (b % 16) ∷ []

unfoldable pub bytes_to_hex : Bytes → Text
unfolding byte_to_hex
bytes_to_hex [] = []
bytes_to_hex (b ∷ bs) = byte_to_hex b ++ bytes_to_hex bs

-- `%X`, on fuel for the digits: eight hold every uint32_t.
unfoldable pub hex_digits : ℕ → ℕ → Text
unfolding hex_digit
hex_digits zero n = []
hex_digits (suc f) n =
    let rest = hex_digits f (n / 16) in
    if ltb n 16 then hex_digit n ∷ [] else rest ++ (hex_digit (n % 16) ∷ [])

-- `%0*X`: at least `pad_length` digits, zeros in front.
unfoldable pub number_to_hex : ℕ → ℕ → Text
unfolding hex_digits
number_to_hex num pad_length =
    let digits = hex_digits 8 num in replicate (pad_length - length digits) b'0' ++ digits

-- `std::isspace` in the C locale
unfoldable pub is_space : ℕ → Bool
is_space c = c == 32 || leb 9 c && leb c 13

-- `std::toupper` in the C locale
unfoldable pub to_upper : ℕ → ℕ
to_upper c = if leb b'a' c && leb c b'z' then c - 32 else c

-- `std::tolower` in the C locale
unfoldable pub to_lower : ℕ → ℕ
to_lower c = if leb b'A' c && leb c b'Z' then c + 32 else c

-- The first loop of `hexToBytes`: whitespace out, letters to upper case.
unfoldable pub clean : Text → Text
unfolding is_space to_upper
clean [] = []
clean (c ∷ s) = if is_space c then clean s else to_upper c ∷ clean s

unfoldable pub is_hex_char : ℕ → Bool
is_hex_char c = leb b'0' c && leb c b'9' || leb b'A' c && leb c b'F'

unfoldable pub all_hex : Text → Bool
unfolding is_hex_char
all_hex [] = true
all_hex (c ∷ s) = is_hex_char c && all_hex s

-- The value of an upper case hexadecimal digit.
unfoldable pub hex_value : ℕ → ℕ
hex_value c = if leb c b'9' then c - b'0' else c - b'A' + 10

-- The last loop of `hexToBytes`: `std::stoi` of each two digits.
unfoldable pub pairs : Text → Bytes
unfolding hex_value
pairs [] = []
pairs (a ∷ []) = []
pairs (a ∷ b ∷ s) = (hex_value a * 16 + hex_value b) ∷ pairs s

unfoldable pub hex_to_bytes : Text → Outcome Bytes
unfolding clean all_hex pairs
hex_to_bytes hex = do
  let cleaned = clean hex
  throw_if (not (all_hex cleaned)) (text "Invalid hex string: invalid characters")
  throw_if (not (length cleaned % 2 == 0)) (text "Invalid hex string: odd length")
  ok (pairs cleaned)
