-- ===== src/Format.antt =====
-- How the library prints numbers: `std::to_string`, and `std::ostringstream` after `std::hex`.
use meshcore_cpp_decoder.Common.{
  ℕ, zero, suc, ◌+◌, ◌-◌, ◌/◌, ◌%◌, [], ◌∷◌, ◌++◌, ltb, ◌==◌, if◌then◌else◌, has_bit, Text, text,
}
use meshcore_cpp_decoder.Common.Int.{ℤ, pos, negsuc}

-- Decimal digits on fuel: twenty hold every uint64_t.
unfoldable pub decimal_digits : ℕ → ℕ → Text
decimal_digits zero n = []
decimal_digits (suc f) n =
    let rest = decimal_digits f (n / 10) in
    if ltb n 10 then (b'0' + n) ∷ [] else rest ++ ((b'0' + n % 10) ∷ [])

unfoldable pub to_string : ℕ → Text
unfolding decimal_digits
to_string n = decimal_digits 20 n

unfoldable pub lower_hex_digit : ℕ → ℕ
lower_hex_digit d = if ltb d 10 then b'0' + d else b'a' + (d - 10)

-- `<< std::hex << n`: lower case digits on fuel, sixteen for every uint64_t.
unfoldable pub lower_hex_digits : ℕ → ℕ → Text
unfolding lower_hex_digit
lower_hex_digits zero n = []
lower_hex_digits (suc f) n =
    let rest = lower_hex_digits f (n / 16) in
    if ltb n 16 then lower_hex_digit n ∷ [] else rest ++ (lower_hex_digit (n % 16) ∷ [])

unfoldable pub to_hex_stream : ℕ → Text
unfolding lower_hex_digits
to_hex_stream n = lower_hex_digits 16 n

-- Binary digits of the low `width` bits, most significant first.
unfoldable pub binary : ℕ → ℕ → Text
binary zero n = []
binary (suc w) n = (if has_bit n w then b'1' else b'0') ∷ binary w n

-- `<< v / 4.0` of an int8_t v, given its sign and magnitude: a quarter has two decimals at most.
unfoldable pub quarter_digits : ℕ → Text
quarter_digits q =
    if q == 0 then [] else if q == 1 then text ".25" else if q == 2 then text ".5" else text ".75"

-- The same after `<< std::fixed << std::setprecision(2)`.
unfoldable pub fixed_quarter_digits : ℕ → Text
fixed_quarter_digits q =
    if q == 0
    then text ".00"
    else if q == 1
    then text ".25"
    else if q == 2
    then text ".50"
    else text ".75"

unfoldable pub print_quarters : (ℕ → Text) → ℤ → Text
unfolding to_string
print_quarters decimals (pos n) = to_string (n / 4) ++ decimals (n % 4)
print_quarters decimals (negsuc n) = b'-' ∷ (to_string ((n + 1) / 4) ++ decimals ((n + 1) % 4))
