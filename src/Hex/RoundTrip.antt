-- ===== src/Hex/RoundTrip.antt =====
-- `hexToBytes` against `bytesToHex` and `numberToHex`.
use meshcore_cpp_decoder.Common.{
  ℕ, zero, suc, ◌-◌, ◌/◌, ◌%◌, ◌^◌, ◌≤◌, ◌<◌, ◌≡◌, refl, sym, ap, ◌∙◌, ◌↔◌, ◌⊎◌, inl, inr, true,
  false, List, [], ◌∷◌, ◌++◌, append_assoc, map, arith, ltb, ◌==◌, ltb→lt, Bool-cases, length,
  replicate, length-append, Bytes, Text, IsBytes, text, ok, throws,
}
use meshcore_cpp_decoder.Hex.{
  to_lower, hex_digit, byte_to_hex, bytes_to_hex, hex_digits, number_to_hex, clean, all_hex, pairs,
  hex_to_bytes,
}
use meshcore_cpp_decoder.Hex.Clean.{
  clean-of_hex, all_hex-bytes_to_hex, length-bytes_to_hex, pairs-bytes_to_hex, bytes_to_hex-pairs,
}

-- What `hexToBytes` computes on a text that cleans up to the print of bytes.
hex_to_bytes-of_clean :
    (s : Text) (bs : Bytes) → IsBytes bs → clean s ≡ bytes_to_hex bs → hex_to_bytes s ≡ ok bs
unfolding hex_to_bytes
hex_to_bytes-of_clean s bs h e =
    let even : length (bytes_to_hex bs) % 2 ≡ 0 = omega (arith, length-bytes_to_hex bs) in
    rw (e, all_hex-bytes_to_hex bs h, even, pairs-bytes_to_hex bs h)

hex_to_bytes-ok_clean :
    (s : Text) (bs : Bytes) → hex_to_bytes s ≡ ok bs → IsBytes bs × (clean s ≡ bytes_to_hex bs)
unfolding hex_to_bytes
hex_to_bytes-ok_clean s bs h = elim (Bool-cases (all_hex (clean s))) [
  | inl digits ↦ elim (Bool-cases (length (clean s) % 2 == 0)) [
    | inl even ↦
        let e : pairs (clean s) ≡ bs = ground arith in
        let t = bytes_to_hex-pairs (clean s) digits (ground arith) in rw (← e) (t.1, sym t.0)
    | inr odd ↦ absurd (ground arith)
  ]
  | inr bad ↦ absurd (ground arith)
]

-- `hexToBytes` returns `bs` exactly when `bs` is bytes and the text, with its whitespace removed and
-- its letters in upper case, is the print of `bs`.
pub hex_to_bytes-ok_iff :
    (s : Text) (bs : Bytes) → (hex_to_bytes s ≡ ok bs) ↔ (IsBytes bs × (clean s ≡ bytes_to_hex bs))
hex_to_bytes-ok_iff s bs = (hex_to_bytes-ok_clean s bs, λ h. hex_to_bytes-of_clean s bs h.0 h.1)

-- On every text `hexToBytes` returns the bytes whose print is the text, with its whitespace removed and
-- its letters in upper case, or throws for a character that is no digit, or, where all are digits,
-- throws for an odd number of them; it never reads out of bounds.
pub hex_to_bytes-cases :
    (s : Text)
    → ((bs : Bytes) × (hex_to_bytes s ≡ ok bs) × IsBytes bs × (clean s ≡ bytes_to_hex bs))
      ⊎ (all_hex (clean s) ≡ false)
        × (hex_to_bytes s ≡ throws (text "Invalid hex string: invalid characters"))
      ⊎ (all_hex (clean s) ≡ true)
        × (length (clean s) % 2 ≡ 1)
        × (hex_to_bytes s ≡ throws (text "Invalid hex string: odd length"))
unfolding hex_to_bytes
hex_to_bytes-cases s = elim (Bool-cases (all_hex (clean s))) [
  | inl digits ↦ elim (Bool-cases (length (clean s) % 2 == 0)) [
    | inl even ↦
        let (spelled, bytes, _) = bytes_to_hex-pairs (clean s) digits (ground arith) in
        inl (pairs (clean s), rw (digits, even), bytes, sym spelled)
    | inr odd ↦ inr (inr (digits, ground arith, rw (digits, odd)))
  ]
  | inr bad ↦ inr (inl (bad, rw bad))
]

clean-to_lower : (s : Text) → clean (map to_lower s) ≡ clean s
unfolding clean to_lower
clean-to_lower [] = refl
clean-to_lower (c ∷ s) = ground (arith, clean-to_lower s)

-- The case of the letters does not matter to `hexToBytes`.
pub hex_to_bytes-to_lower : (s : Text) → hex_to_bytes (map to_lower s) ≡ hex_to_bytes s
unfolding hex_to_bytes
hex_to_bytes-to_lower s = rw (clean-to_lower s)

-- `hexToBytes` undoes `bytesToHex` on every buffer of bytes.
pub hex_to_bytes-bytes_to_hex : (bs : Bytes) → IsBytes bs → hex_to_bytes (bytes_to_hex bs) ≡ ok bs
hex_to_bytes-bytes_to_hex bs h =
    hex_to_bytes-of_clean (bytes_to_hex bs) bs h
      (clean-of_hex (bytes_to_hex bs) (all_hex-bytes_to_hex bs h))

-- The last `f` hexadecimal digits of `n`.
fixed_digits : ℕ → ℕ → Text
fixed_digits zero n = []
fixed_digits (suc f) n = fixed_digits f (n / 16) ++ (hex_digit (n % 16) ∷ [])

replicate_snoc : (f : ℕ) (c : ℕ) → replicate f c ++ (c ∷ []) ≡ c ∷ replicate f c
replicate_snoc zero c = refl
replicate_snoc (suc f) c = ap (λ l. c ∷ l) (replicate_snoc f c)

fixed_digits-zero : (f : ℕ) → fixed_digits f 0 ≡ replicate f b'0'
unfolding fixed_digits hex_digit
fixed_digits-zero zero = refl
fixed_digits-zero (suc f) = rw (fixed_digits-zero f) (replicate_snoc f b'0')

length-hex_digits : (f n : ℕ) → length (hex_digits f n) ≤ f
unfolding hex_digits
length-hex_digits zero n = omega arith
length-hex_digits (suc f) n = ground (
  arith,
  length-hex_digits f (n / 16),
  length-append (hex_digits f (n / 16)) (hex_digit (n % 16) ∷ []),
)

-- The zeros in front and the digits of `%X` are the digits at fixed places.
hex_digits-padded :
    (f n : ℕ) → replicate (f - length (hex_digits f n)) b'0' ++ hex_digits f n ≡ fixed_digits f n
unfolding hex_digits fixed_digits
hex_digits-padded zero n = refl
hex_digits-padded (suc f) n = elim (Bool-cases (ltb n 16)) [
  | inl small ↦
      let q : n / 16 ≡ 0 = omega (arith, ltb→lt n 16 small) in
      let r : n % 16 ≡ n = omega (arith, ltb→lt n 16 small) in
      let k : suc f - 1 ≡ f = omega arith in rw small (rw (q, r, k, fixed_digits-zero f))
  | inr large ↦
      let d : List ℕ = hex_digit (n % 16) ∷ [] in
      let rest : List ℕ = hex_digits f (n / 16) in
      let k : suc f - length (rest ++ d) ≡ f - length rest = omega (arith, length-append rest d) in
      rw large (
        rw k (
          sym (append_assoc (replicate (f - length rest) b'0') rest d)
          ∙ ap (λ l. l ++ d) (hex_digits-padded f (n / 16))))
]

-- The bytes of a uint32_t, most significant first.
abbrev pub big_endian : ℕ → Bytes
big_endian n = n / 2 ^ 24 ∷ (n / 2 ^ 16 % 256) ∷ (n / 2 ^ 8 % 256) ∷ (n % 256) ∷ []

-- Two digits at a time.
fixed_digits-byte :
    (f n : ℕ) → fixed_digits (suc (suc f)) n ≡ fixed_digits f (n / 256) ++ byte_to_hex (n % 256)
unfolding fixed_digits byte_to_hex
fixed_digits-byte f n =
    let a : n / 16 / 16 ≡ n / 256 = omega arith in
    let b : n % 256 / 16 ≡ n / 16 % 16 = omega arith in
    let c : n % 256 % 16 ≡ n % 16 = omega arith in
    rw (a, b, c) (append_assoc (fixed_digits f (n / 256)) (hex_digit (n / 16 % 16) ∷ []) _)

fixed_digits-big_endian : (n : ℕ) → n < 2 ^ 32 → fixed_digits 8 n ≡ bytes_to_hex (big_endian n)
unfolding bytes_to_hex
fixed_digits-big_endian n h =
    let a : n / 256 / 256 ≡ n / 2 ^ 16 = omega arith in
    let b : n / 2 ^ 16 / 256 ≡ n / 2 ^ 24 = omega arith in
    let c : n / 2 ^ 24 % 256 ≡ n / 2 ^ 24 = omega arith in
    let e0 = fixed_digits-byte 6 n in
    let e1 = fixed_digits-byte 4 (n / 256) in
    let e2 = fixed_digits-byte 2 (n / 256 / 256) in
    let e3 = fixed_digits-byte 0 (n / 256 / 256 / 256) in
    rw (e0, e1, e2, e3, a, b, c) (unfold fixed_digits byte_to_hex in refl)

number_to_hex_lem : (n : ℕ) → n < 2 ^ 32 → number_to_hex n 8 ≡ bytes_to_hex (big_endian n)
unfolding number_to_hex
number_to_hex_lem n h = hex_digits-padded 8 n ∙ fixed_digits-big_endian n h

-- `numberToHex(n, 8)` of a uint32_t spells its four bytes, most significant first.
pub hex_to_bytes-number_to_hex :
    (n : ℕ) → n < 2 ^ 32 → hex_to_bytes (number_to_hex n 8) ≡ ok (big_endian n)
hex_to_bytes-number_to_hex n h =
    rw (number_to_hex_lem n h) (hex_to_bytes-bytes_to_hex (big_endian n) (omega arith))
