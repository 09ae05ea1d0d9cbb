-- ===== src/Decoders/Layout.antt =====
-- The hexadecimal fields that the decoders cut from a payload, put together again.
use meshcore_cpp_decoder.Common.{
  ℕ, zero, suc, ◌+◌, ◌-◌, ◌<◌, ◌≡◌, refl, ap, [], ◌∷◌, ◌++◌, arith, length, take, drop, length-drop,
  take-append-drop, take-length, drop-drop, Bytes, Text, IsBytes, ok, get_or,
}
use meshcore_cpp_decoder.Hex.{byte_to_hex, bytes_to_hex, hex_to_bytes}
use meshcore_cpp_decoder.Hex.Clean.{bytes_to_hex-append}
use meshcore_cpp_decoder.Hex.RoundTrip.{hex_to_bytes-bytes_to_hex}

-- A field of `n` bytes, in front of the text of the bytes behind it.
pub hex_field :
    (bs : Bytes) (off n : ℕ) (rest : Text) (k : ℕ)
    → k ≡ off + n
    → rest ≡ bytes_to_hex (drop k bs)
    → bytes_to_hex (take n (drop off bs)) ++ rest ≡ bytes_to_hex (drop off bs)
hex_field bs off n rest k e h =
    rw (h, ← drop-drop n off k bs e, ← bytes_to_hex-append)
      (ap bytes_to_hex (take-append-drop n (drop off bs)))

-- A field of one byte that is read by its index.
pub hex_byte :
    (bs : Bytes) (i : ℕ) (rest : Text) (k : ℕ)
    → i < length bs
    → k ≡ suc i
    → rest ≡ bytes_to_hex (drop k bs)
    → byte_to_hex (get_or bs i) ++ rest ≡ bytes_to_hex (drop i bs)
hex_byte [] i rest k lt e h = absurd (omega arith)
hex_byte (b ∷ bs) zero rest zero lt e h = absurd (omega arith)
hex_byte (b ∷ bs) zero rest (suc k) lt e h =
    let z : k ≡ 0 = omega arith in rw (h, z) (unfold bytes_to_hex in refl)
hex_byte (b ∷ bs) (suc i) rest zero lt e h = absurd (omega arith)
hex_byte (b ∷ bs) (suc i) rest (suc k) lt e h = hex_byte bs i rest k (omega arith) (omega arith) h

-- The last field reaches to the end.
pub hex_last :
    (bs : Bytes) (off : ℕ)
    → bytes_to_hex (take (length bs - off) (drop off bs)) ≡ bytes_to_hex (drop off bs)
hex_last bs off = ap bytes_to_hex (take-length _ (drop off bs) (omega (arith, length-drop off bs)))

-- The bytes that a chain of fields spells.
pub hex_whole :
    (bs : Bytes) (fields : Text)
    → IsBytes bs
    → fields ≡ bytes_to_hex (drop 0 bs)
    → hex_to_bytes fields ≡ ok bs
hex_whole bs fields h e = rw e (hex_to_bytes-bytes_to_hex bs h)
