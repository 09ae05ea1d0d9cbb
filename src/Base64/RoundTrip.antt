-- ===== src/Base64/RoundTrip.antt =====
-- Decoding what `base64urlEncode` prints.
use meshcore_cpp_decoder.Common.{
  ℕ, zero, suc, ◌+◌, ◌-◌, ◌*◌, ◌%◌, ◌^◌, ◌<◌, ◌≡◌, refl, sym, inl, inr, [], ◌∷◌, ◌++◌, append-nil,
  append_assoc, map, arith, ◌==◌, Bool-cases, shr, low_bits, length, replicate, All, length-append,
  Bytes, Text, IsBytes, ok,
}
use meshcore_cpp_decoder.Base64.{
  base64_char, base64_encode, base64_char_to_value, url_safe, base64url_encode, standard_char,
  fill_loop, add_char, bytes_of, decode_quads, base64url_decode,
}

-- A character of the alphabet is read as its value.
add_char_lem :
    (v n fill : ℕ) → v < 64 → add_char (base64_char v) (n, fill) ≡ ok (n * 2 ^ 6 + v, fill)
unfolding add_char base64_char base64_char_to_value
add_char_lem v n fill h = ground arith

add_fill_lem : (n fill : ℕ) → add_char b'=' (n, fill) ≡ ok (n * 2 ^ 6, fill + 1)
unfolding add_char
add_fill_lem n fill = refl

-- What the two loops over the characters make of one of the alphabet.
standard-url_safe :
    (v : ℕ) (s : Text)
    → v < 64
    → map standard_char (url_safe (base64_char v ∷ s))
      ≡ base64_char v ∷ map standard_char (url_safe s)
unfolding url_safe standard_char base64_char
standard-url_safe v s h = ground arith

-- How many characters are missing to a whole number of quads.
abbrev missing : Text → ℕ
missing s = (4 - length s % 4) % 4

fill_loop_lem : (f : ℕ) (s : Text) → missing s < f → fill_loop f s ≡ s ++ replicate (missing s) b'='
unfolding fill_loop
fill_loop_lem zero s h = absurd (omega arith)
fill_loop_lem (suc f) s h = elim (Bool-cases (length s % 4 == 0)) [
  | inl whole ↦
      let none_left : missing s ≡ 0 = ground arith in rw (whole, none_left) (sym (append-nil s))
  | inr cut ↦
      let r : ¬ (length s % 4 ≡ 0) = ground arith in
      let len : length (s ++ (b'=' ∷ [])) ≡ length s + 1 = length-append s (b'=' ∷ []) in
      let next : missing s ≡ suc (missing (s ++ (b'=' ∷ []))) = omega arith in
      rw (cut, fill_loop_lem f (s ++ (b'=' ∷ [])) (omega arith), next)
        (append_assoc s (b'=' ∷ []) (replicate (missing (s ++ (b'=' ∷ []))) b'='))
]

-- What reaches the last loop of the decoder, without the padding.
abbrev standard : Text → Text
standard s = map standard_char (url_safe s)

standard-fill : (fill : ℕ) → standard (replicate fill b'=') ≡ []
unfolding url_safe
standard-fill zero = refl
standard-fill (suc fill) = standard-fill fill

standard-encode :
    (data_bytes : Bytes)
    → IsBytes data_bytes
    → standard (base64_encode data_bytes)
        ++ replicate (missing (standard (base64_encode data_bytes))) b'='
      ≡ base64_encode data_bytes
unfolding base64_encode url_safe
standard-encode [] h = refl
standard-encode (a ∷ []) h =
    let n : ℕ = a * 2 ^ 16 in
    let e1 =
      standard-url_safe (low_bits (shr n 18) 6)
        (base64_char (low_bits (shr n 12) 6) ∷ replicate 2 b'=') (omega arith) in
    let e2 = standard-url_safe (low_bits (shr n 12) 6) (replicate 2 b'=') (omega arith) in
    rw (e1, e2, standard-fill 2)
standard-encode (a ∷ b ∷ []) h =
    let n : ℕ = a * 2 ^ 16 + b * 2 ^ 8 in
    let e3 = standard-url_safe (low_bits (shr n 6) 6) (replicate 1 b'=') (omega arith) in
    let e2 =
      standard-url_safe (low_bits (shr n 12) 6)
        (base64_char (low_bits (shr n 6) 6) ∷ replicate 1 b'=') (omega arith) in
    let e1 =
      standard-url_safe (low_bits (shr n 18) 6)
        (base64_char (low_bits (shr n 12) 6)
          ∷ base64_char (low_bits (shr n 6) 6)
          ∷ replicate 1 b'=')
        (omega arith) in
    rw (e1, e2, e3, standard-fill 1)
standard-encode (a ∷ b ∷ c ∷ rest) (ha, (hb, (hc, h))) =
    let n : ℕ = a * 2 ^ 16 + b * 2 ^ 8 + c in
    let t4 : Text = base64_encode rest in
    let t3 : Text = base64_char (low_bits n 6) ∷ t4 in
    let t2 : Text = base64_char (low_bits (shr n 6) 6) ∷ t3 in
    let t1 : Text = base64_char (low_bits (shr n 12) 6) ∷ t2 in
    let e1 = standard-url_safe (low_bits (shr n 18) 6) t1 (omega arith) in
    let e2 = standard-url_safe (low_bits (shr n 12) 6) t2 (omega arith) in
    let e3 = standard-url_safe (low_bits (shr n 6) 6) t3 (omega arith) in
    let e4 = standard-url_safe (low_bits n 6) t4 (omega arith) in
    let four : (4 - suc (suc (suc (suc (length (standard t4))))) % 4) % 4 ≡ missing (standard t4) =
      omega arith in
    rw (e1, e2, e3, e4, four, standard-encode rest h)

decode_quads-encode :
    (data_bytes : Bytes)
    → IsBytes data_bytes
    → decode_quads (base64_encode data_bytes) ≡ ok data_bytes
unfolding decode_quads base64_encode bytes_of
decode_quads-encode [] h = refl
decode_quads-encode (a ∷ []) (ha, h) =
    let n : ℕ = a * 2 ^ 16 in
    let v1 : ℕ = low_bits (shr n 18) 6 in
    let v2 : ℕ = low_bits (shr n 12) 6 in
    let e1 = add_char_lem v1 0 0 (omega arith) in
    let e2 = add_char_lem v2 (0 * 2 ^ 6 + v1) 0 (omega arith) in
    let m : ℕ = (0 * 2 ^ 6 + v1) * 2 ^ 6 + v2 in
    let e3 = add_fill_lem m 0 in
    let e4 = add_fill_lem (m * 2 ^ 6) 1 in
    let first : shr (m * 2 ^ 6 * 2 ^ 6) 16 % 256 ≡ a = omega arith in rw (e1, e2, e3, e4, first)
decode_quads-encode (a ∷ b ∷ []) (ha, (hb, h)) =
    let n : ℕ = a * 2 ^ 16 + b * 2 ^ 8 in
    let v1 : ℕ = low_bits (shr n 18) 6 in
    let v2 : ℕ = low_bits (shr n 12) 6 in
    let v3 : ℕ = low_bits (shr n 6) 6 in
    let e1 = add_char_lem v1 0 0 (omega arith) in
    let e2 = add_char_lem v2 (0 * 2 ^ 6 + v1) 0 (omega arith) in
    let e3 = add_char_lem v3 ((0 * 2 ^ 6 + v1) * 2 ^ 6 + v2) 0 (omega arith) in
    let m : ℕ = ((0 * 2 ^ 6 + v1) * 2 ^ 6 + v2) * 2 ^ 6 + v3 in
    let e4 = add_fill_lem m 0 in
    let first : shr (m * 2 ^ 6) 16 % 256 ≡ a = omega arith in
    let second : shr (m * 2 ^ 6) 8 % 256 ≡ b = omega arith in rw (e1, e2, e3, e4, first, second)
decode_quads-encode (a ∷ b ∷ c ∷ rest) (ha, (hb, (hc, h))) =
    let n : ℕ = a * 2 ^ 16 + b * 2 ^ 8 + c in
    let v1 : ℕ = low_bits (shr n 18) 6 in
    let v2 : ℕ = low_bits (shr n 12) 6 in
    let v3 : ℕ = low_bits (shr n 6) 6 in
    let v4 : ℕ = low_bits n 6 in
    let e1 = add_char_lem v1 0 0 (omega arith) in
    let e2 = add_char_lem v2 (0 * 2 ^ 6 + v1) 0 (omega arith) in
    let e3 = add_char_lem v3 ((0 * 2 ^ 6 + v1) * 2 ^ 6 + v2) 0 (omega arith) in
    let e4 = add_char_lem v4 (((0 * 2 ^ 6 + v1) * 2 ^ 6 + v2) * 2 ^ 6 + v3) 0 (omega arith) in
    let m : ℕ = (((0 * 2 ^ 6 + v1) * 2 ^ 6 + v2) * 2 ^ 6 + v3) * 2 ^ 6 + v4 in
    let first : shr m 16 % 256 ≡ a = omega arith in
    let second : shr m 8 % 256 ≡ b = omega arith in
    let third : m % 256 ≡ c = omega arith in
    rw (e1, e2, e3, e4, first, second, third, decode_quads-encode rest h)

-- `base64urlDecode` undoes `base64urlEncode` on every buffer of bytes.
pub base64url_decode-base64url_encode :
    (data_bytes : Bytes)
    → IsBytes data_bytes
    → base64url_decode (base64url_encode data_bytes) ≡ ok data_bytes
unfolding base64url_decode base64url_encode
base64url_decode-base64url_encode data_bytes h = rw (
  fill_loop_lem 4 (standard (base64_encode data_bytes)) (omega arith),
  standard-encode data_bytes h,
  decode_quads-encode data_bytes h,
)

-- A character that needs no escape in a URL.
abbrev pub IsUrlSafe : ℕ → Type 0
IsUrlSafe c = ¬ (c ≡ b'=') × ¬ (c ≡ b'+') × ¬ (c ≡ b'/')

url_safe-IsUrlSafe : (s : Text) → All IsUrlSafe (url_safe s)
unfolding url_safe
url_safe-IsUrlSafe [] = tt
url_safe-IsUrlSafe (c ∷ s) =
    let more = url_safe-IsUrlSafe s in
    elim (Bool-cases (c == b'+')) [
      | inl plus ↦ rw plus (omega arith, more)
      | inr p ↦ elim (Bool-cases (c == b'/')) [
        | inl slash ↦ rw (p, slash) (omega arith, more)
        | inr q ↦ elim (Bool-cases (c == b'=')) [
          | inl fill ↦ rw (p, q, fill) more
          | inr r ↦ rw (p, q, r) (ground arith, more)
        ]
      ]
    ]

-- What `base64urlEncode` prints has no padding and none of the two characters of the plain alphabet
-- that a URL escapes.
pub base64url_encode-IsUrlSafe : (data_bytes : Bytes) → All IsUrlSafe (base64url_encode data_bytes)
unfolding base64url_encode
base64url_encode-IsUrlSafe data_bytes = url_safe-IsUrlSafe (base64_encode data_bytes)
