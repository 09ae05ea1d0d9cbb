-- ===== src/Runs/Texts.antt =====
-- Hexadecimal text, base 64 and names.
use meshcore_cpp_decoder.Common.{
  ℕ, zero, suc, ◌%◌, ◌≡◌, refl, ◌↔◌, ◌⊎◌, true, false, List, [], ◌∷◌, map, arith, length, All,
  Bytes, IsBytes, text, ok, throws,
}
use meshcore_cpp_decoder.Hex.{bytes_to_hex, number_to_hex, hex_to_bytes, clean, all_hex}
use meshcore_cpp_decoder.Base64.{base64_char, base64_encode, base64url_encode, base64url_decode}
use meshcore_cpp_decoder.Base64.RoundTrip.{base64url_decode-base64url_encode}
use meshcore_cpp_decoder.Decoders.Advert.{sanitize}
use meshcore_cpp_decoder.Decoders.Advert.Names.{IsKept, sanitize-IsKept}
use meshcore_cpp_decoder.Hex.RoundTrip.{
  hex_to_bytes-bytes_to_hex, hex_to_bytes-ok_iff, hex_to_bytes-cases, hex_to_bytes-number_to_hex,
  big_endian,
}

hex_to_bytes_run : hex_to_bytes (text "1a F0\n07") ≡ ok (26 ∷ 240 ∷ 7 ∷ [])
unfolding hex_to_bytes text
hex_to_bytes_run = refl

number_to_hex_run : number_to_hex 0xBEEF 8 ≡ text "0000BEEF"
unfolding number_to_hex text
number_to_hex_run = refl

hex_to_bytes-bytes_to_hex_example : hex_to_bytes (bytes_to_hex (18 ∷ 255 ∷ [])) ≡ ok (18 ∷ 255 ∷ [])
hex_to_bytes-bytes_to_hex_example = hex_to_bytes-bytes_to_hex (18 ∷ 255 ∷ []) (omega arith)

hex_to_bytes-ok_iff_example :
    (hex_to_bytes (text "0a ") ≡ ok (10 ∷ []))
    ↔ (IsBytes (10 ∷ []) × (clean (text "0a ") ≡ bytes_to_hex (10 ∷ [])))
hex_to_bytes-ok_iff_example = hex_to_bytes-ok_iff (text "0a ") (10 ∷ [])

hex_to_bytes-cases_example :
    ((bs : Bytes) × (hex_to_bytes (text "0ag") ≡ ok bs)
      × IsBytes bs
      × (clean (text "0ag") ≡ bytes_to_hex bs))
    ⊎ (all_hex (clean (text "0ag")) ≡ false)
      × (hex_to_bytes (text "0ag") ≡ throws (text "Invalid hex string: invalid characters"))
    ⊎ (all_hex (clean (text "0ag")) ≡ true)
      × (length (clean (text "0ag")) % 2 ≡ 1)
      × (hex_to_bytes (text "0ag") ≡ throws (text "Invalid hex string: odd length"))
hex_to_bytes-cases_example = hex_to_bytes-cases (text "0ag")

hex_to_bytes-number_to_hex_example : hex_to_bytes (number_to_hex 0xCAFE 8) ≡ ok (big_endian 0xCAFE)
hex_to_bytes-number_to_hex_example = hex_to_bytes-number_to_hex 0xCAFE (omega arith)

from_zero : ℕ → List ℕ
from_zero n = up n []
  where
    up : ℕ → List ℕ → List ℕ
    up zero l = l
    up (suc k) l = up k (k ∷ l)

-- The table `base64_chars`.
base64_chars_run :
    map base64_char (from_zero 64)
    ≡ text "ABCDEFGHIJKLMNOPQRSTUVWXYZabcdefghijklmnopqrstuvwxyz0123456789+/"
unfolding base64_char from_zero text
base64_chars_run = refl

base64_encode_run : base64_encode (77 ∷ 97 ∷ []) ≡ text "TWE="
unfolding base64_encode base64_char text
base64_encode_run = refl

base64url_decode-base64url_encode_example :
    base64url_decode (base64url_encode (251 ∷ 255 ∷ 1 ∷ 2 ∷ [])) ≡ ok (251 ∷ 255 ∷ 1 ∷ 2 ∷ [])
base64url_decode-base64url_encode_example =
    base64url_decode-base64url_encode (251 ∷ 255 ∷ 1 ∷ 2 ∷ []) (omega arith)

sanitize_run : sanitize (32 ∷ 7 ∷ 65 ∷ 10 ∷ 200 ∷ 32 ∷ []) ≡ 65 ∷ 200 ∷ []
unfolding sanitize
sanitize_run = refl

sanitize-IsKept_example :
    All IsKept (sanitize (32 ∷ 7 ∷ 65 ∷ []))
    × (sanitize (sanitize (32 ∷ 7 ∷ 65 ∷ [])) ≡ sanitize (32 ∷ 7 ∷ 65 ∷ []))
sanitize-IsKept_example = sanitize-IsKept (32 ∷ 7 ∷ 65 ∷ [])
