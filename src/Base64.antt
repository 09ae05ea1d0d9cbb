-- ===== src/Base64.antt =====
-- src/utils/base64.cpp: the URL-safe base 64 of buffers, without padding.
pub mod RoundTrip
use meshcore_cpp_decoder.Common.{
  ℕ, zero, suc, ◌+◌, ◌-◌, ◌*◌, ◌%◌, ◌^◌, ◌&&◌, ◌||◌, [], ◌∷◌, ◌++◌, map, ltb, leb, ◌==◌,
  if◌then◌else◌, shr, low_bits, length, Bytes, Text, text, Outcome, ok, throws, fault, ◌>>=◌, ◌>>◌,
}

-- `base64_chars[v]`, for `v` below 64.
unfoldable pub base64_char : ℕ → ℕ
base64_char v =
    if ltb v 26
    then b'A' + v
    else if ltb v 52
    then b'a' + (v - 26)
    else if ltb v 62
    then b'0' + (v - 52)
    else if v == 62
    then b'+'
    else b'/'

-- `base64Encode`: three bytes at a time.
unfoldable pub base64_encode : Bytes → Text
base64_encode [] = []
base64_encode (a ∷ []) =
    base64_char (low_bits (shr (a * 2 ^ 16) 18) 6)
    ∷ base64_char (low_bits (shr (a * 2 ^ 16) 12) 6)
    ∷ b'='
    ∷ b'='
    ∷ []
base64_encode (a ∷ b ∷ []) =
    base64_char (low_bits (shr (a * 2 ^ 16 + b * 2 ^ 8) 18) 6)
    ∷ base64_char (low_bits (shr (a * 2 ^ 16 + b * 2 ^ 8) 12) 6)
    ∷ base64_char (low_bits (shr (a * 2 ^ 16 + b * 2 ^ 8) 6) 6)
    ∷ b'='
    ∷ []
base64_encode (a ∷ b ∷ c ∷ rest) =
    base64_char (low_bits (shr (a * 2 ^ 16 + b * 2 ^ 8 + c) 18) 6)
    ∷ base64_char (low_bits (shr (a * 2 ^ 16 + b * 2 ^ 8 + c) 12) 6)
    ∷ base64_char (low_bits (shr (a * 2 ^ 16 + b * 2 ^ 8 + c) 6) 6)
    ∷ base64_char (low_bits (a * 2 ^ 16 + b * 2 ^ 8 + c) 6)
    ∷ base64_encode rest

-- `base64CharToValue`: 0xFF for any other character.
unfoldable pub base64_char_to_value : ℕ → ℕ
base64_char_to_value c =
    if leb b'A' c && leb c b'Z'
    then c - b'A'
    else if leb b'a' c && leb c b'z'
    then c - b'a' + 26
    else if leb b'0' c && leb c b'9'
    then c - b'0' + 52
    else if c == b'+' || c == b'-'
    then 62
    else if c == b'/' || c == b'_'
    then 63
    else 0xFF

-- The loop of `base64urlEncode`.
unfoldable pub url_safe : Text → Text
url_safe [] = []
url_safe (c ∷ s) =
    let rest = url_safe s in
    if c == b'+'
    then b'-' ∷ rest
    else if c == b'/'
    then b'_' ∷ rest
    else if c == b'='
    then rest
    else c ∷ rest

-- `base64urlEncode`
unfoldable pub base64url_encode : Bytes → Text
base64url_encode bytes = url_safe (base64_encode bytes)

-- The first loop of `base64urlDecode`, on one character.
unfoldable pub standard_char : ℕ → ℕ
standard_char c = if c == b'-' then b'+' else if c == b'_' then b'/' else c

-- `while (base64.length() % 4) base64 += '='`, on fuel: three rounds are enough.
unfoldable pub fill_loop : ℕ → Text → Text
fill_loop zero s = s
fill_loop (suc f) s =
    let more = fill_loop f (s ++ (b'=' ∷ [])) in if length s % 4 == 0 then s else more

-- The loop over `j`: the bits so far, and how many characters were padding.
unfoldable pub add_char : ℕ → ℕ × ℕ → Outcome (ℕ × ℕ)
add_char c (n, fill) =
    if c == b'='
    then ok (n * 2 ^ 6, fill + 1)
    else if base64_char_to_value c == 0xFF
    then throws (text "Invalid base64 character")
    else ok (n * 2 ^ 6 + base64_char_to_value c, fill)

-- The bytes of four characters.
unfoldable pub bytes_of : ℕ × ℕ → Bytes
bytes_of (n, fill) =
    (shr n 16 % 256)
    ∷ ((if ltb fill 2 then (shr n 8 % 256) ∷ [] else [])
        ++ (if ltb fill 1 then (n % 256) ∷ [] else []))

-- The last loop of `base64urlDecode`: four characters at a time.
unfoldable pub decode_quads : Text → Outcome Bytes
decode_quads [] = ok []
decode_quads (a ∷ []) = fault
decode_quads (a ∷ b ∷ []) = fault
decode_quads (a ∷ b ∷ c ∷ []) = fault
decode_quads (a ∷ b ∷ c ∷ d ∷ rest) = do
  s1 ← add_char a (0, 0)
  s2 ← add_char b s1
  s3 ← add_char c s2
  s4 ← add_char d s3
  more ← decode_quads rest
  ok (bytes_of s4 ++ more)

-- `base64urlDecode`
unfoldable pub base64url_decode : Text → Outcome Bytes
base64url_decode s = decode_quads (fill_loop 4 (map standard_char s))
