-- ===== src/Decoders/Trace/Snr.antt =====
-- What the trace decoder makes of the hashes in the path of the packet.
use meshcore_cpp_decoder.Common.{
  ℕ, ◌+◌, ◌*◌, ◌/◌, ◌%◌, ◌^◌, ◌≤◌, ◌<◌, ◌≡◌, refl, ap, ◌∙◌, ◌⊎◌, inl, inr, Option, none, some, List,
  [], ◌∷◌, ◌++◌, map, arith, ltb, if◌then◌else◌, lt→ltb, le→ltb, Bool-cases, length, All, Bytes,
  Text, IsBytes, text, ok, throws,
}
use meshcore_cpp_decoder.Common.Int.{Double}
use meshcore_cpp_decoder.Hex.{byte_to_hex, bytes_to_hex, hex_digit, is_hex_char, to_upper}
use meshcore_cpp_decoder.Hex.Clean.{hex_digit-is_hex_char, hex_value-hex_digit, to_upper-of_hex}
use meshcore_cpp_decoder.Decoders.Trace.{
  hex_prefix, stoi_hex, snr_of_byte, snr_of_hash, snr_loop, snr_of_path,
}

-- The number that bytes spell, most significant first, behind `acc`.
abbrev pub be_value : ℕ → Bytes → ℕ
be_value acc [] = acc
be_value acc (b ∷ bs) = be_value (acc * 256 + b) bs

hex_prefix-digit :
    (acc d : ℕ) (s : Text) → d < 16 → hex_prefix acc (hex_digit d ∷ s) ≡ hex_prefix (acc * 16 + d) s
unfolding hex_prefix
hex_prefix-digit acc d s h =
    let c = hex_digit-is_hex_char d h in
    rw (to_upper-of_hex (hex_digit d) c, c, hex_value-hex_digit d h)

hex_prefix-bytes_to_hex :
    (bs : Bytes) (acc : ℕ) → IsBytes bs → hex_prefix acc (bytes_to_hex bs) ≡ be_value acc bs
unfolding bytes_to_hex byte_to_hex
hex_prefix-bytes_to_hex [] acc h = unfold hex_prefix in refl
hex_prefix-bytes_to_hex (b ∷ bs) acc (hb, h) =
    let sum : (acc * 16 + b / 16) * 16 + b % 16 ≡ acc * 256 + b = omega arith in
    hex_prefix-digit acc (b / 16) _ (omega arith)
    ∙ hex_prefix-digit (acc * 16 + b / 16) (b % 16) _ (omega arith)
    ∙ ap (λ n. hex_prefix n (bytes_to_hex bs)) sum
    ∙ hex_prefix-bytes_to_hex bs (acc * 256 + b) h

-- `std::stoi` of a hash of at least one byte.
stoi_hex-bytes_to_hex :
    (b : ℕ) (bs : Bytes)
    → IsBytes (b ∷ bs)
    → stoi_hex (bytes_to_hex (b ∷ bs)) ≡ (
        if ltb (be_value 0 (b ∷ bs)) (2 ^ 31)
        then ok (be_value 0 (b ∷ bs))
        else throws (text "stoi"))
unfolding stoi_hex bytes_to_hex byte_to_hex
stoi_hex-bytes_to_hex b bs h =
    let c = hex_digit-is_hex_char (b / 16) (omega arith) in
    let v : hex_prefix 0 (hex_digit (b / 16) ∷ hex_digit (b % 16) ∷ bytes_to_hex bs)
        ≡ be_value 0 (b ∷ bs) =
      hex_prefix-bytes_to_hex (b ∷ bs) 0 h in
    rw (to_upper-of_hex (hex_digit (b / 16)) c, c, v)

-- A hash that the decoder can read: bytes, at least one, whose value fits an `int`.
abbrev pub Fits : Bytes → Type 0
Fits h = (1 ≤ length h) × IsBytes h × (be_value 0 h < 2 ^ 31)

-- Bytes, at least one, whose value does not fit.
abbrev pub Overflows : Bytes → Type 0
Overflows h = (1 ≤ length h) × IsBytes h × (2 ^ 31 ≤ be_value 0 h)

snr_of_hash-Fits :
    (h : Bytes) → Fits h → snr_of_hash (bytes_to_hex h) ≡ ok (snr_of_byte (be_value 0 h % 256))
unfolding snr_of_hash
snr_of_hash-Fits [] (n, bytes, small) = absurd (omega arith)
snr_of_hash-Fits (b ∷ bs) (n, bytes, small) =
    rw (stoi_hex-bytes_to_hex b bs bytes, lt→ltb (be_value 0 (b ∷ bs)) (2 ^ 31) small)

snr_of_hash-Overflows :
    (h : Bytes) → Overflows h → snr_of_hash (bytes_to_hex h) ≡ throws (text "stoi")
unfolding snr_of_hash
snr_of_hash-Overflows [] (n, bytes, large) = absurd (omega arith)
snr_of_hash-Overflows (b ∷ bs) (n, bytes, large) =
    rw (stoi_hex-bytes_to_hex b bs bytes, le→ltb (be_value 0 (b ∷ bs)) (2 ^ 31) large)

-- The value of the last byte of a hash.
abbrev pub last_byte_snr : Bytes → Double
last_byte_snr h = snr_of_byte (be_value 0 h % 256)

pub snr_loop-Fits :
    (hs : List Bytes) → All Fits hs → snr_loop (map bytes_to_hex hs) ≡ ok (map last_byte_snr hs)
unfolding snr_loop
snr_loop-Fits [] h = refl
snr_loop-Fits (x ∷ hs) (f, h) = rw (snr_of_hash-Fits x f, snr_loop-Fits hs h)

snr_loop-Overflows :
    (before : List Bytes) (h : Bytes) (behind : List Bytes)
    → All Fits before
    → Overflows h
    → snr_loop (map bytes_to_hex (before ++ (h ∷ behind))) ≡ throws (text "stoi")
unfolding snr_loop
snr_loop-Overflows [] h behind fs o = rw (snr_of_hash-Overflows h o)
snr_loop-Overflows (x ∷ before) h behind (f, fs) o =
    rw (snr_of_hash-Fits x f, snr_loop-Overflows before h behind fs o)

snr_of_hash-cases :
    (h : Text) → ((d : Double) × (snr_of_hash h ≡ ok d)) ⊎ ((e : Text) × (snr_of_hash h ≡ throws e))
unfolding snr_of_hash stoi_hex
snr_of_hash-cases [] = inr (text "stoi", refl)
snr_of_hash-cases (c ∷ s) = elim (Bool-cases (is_hex_char (to_upper c))) [
  | inl digit ↦ elim (Bool-cases (ltb (hex_prefix 0 (c ∷ s)) (2 ^ 31))) [
    | inl small ↦ inl (snr_of_byte (hex_prefix 0 (c ∷ s) % 256), rw (digit, small))
    | inr large ↦ inr (text "stoi", rw (digit, large))
  ]
  | inr other ↦ inr (text "stoi", rw other)
]

snr_loop-cases :
    (hs : List Text)
    → ((ds : List Double) × (snr_loop hs ≡ ok ds)) ⊎ ((e : Text) × (snr_loop hs ≡ throws e))
unfolding snr_loop
snr_loop-cases [] = inl ([], refl)
snr_loop-cases (h ∷ hs) = elim (snr_of_hash-cases h) [
  | inl (d, e) ↦ elim (snr_loop-cases hs) [
    | inl (ds, es) ↦ inl (d ∷ ds, rw (e, es))
    | inr (what, es) ↦ inr (what, rw (e, es))
  ]
  | inr (what, e) ↦ inr (what, rw e)
]

pub snr_of_path-cases :
    (pd : Option (List Text))
    → ((v : Option (List Double)) × (snr_of_path pd ≡ ok v))
      ⊎ ((e : Text) × (snr_of_path pd ≡ throws e))
unfolding snr_of_path
snr_of_path-cases none = inl (none, refl)
snr_of_path-cases (some []) = inl (none, refl)
snr_of_path-cases (some (h ∷ hs)) = elim (snr_loop-cases (h ∷ hs)) [
  | inl (ds, e) ↦ inl (some ds, rw e)
  | inr (what, e) ↦ inr (what, rw e)
]

pub snr_of_path-Overflows :
    (before : List Bytes) (h : Bytes) (behind : List Bytes)
    → All Fits before
    → Overflows h
    → snr_of_path (some (map bytes_to_hex (before ++ (h ∷ behind)))) ≡ throws (text "stoi")
unfolding snr_of_path
snr_of_path-Overflows [] h behind fs o = rw (snr_loop-Overflows [] h behind fs o)
snr_of_path-Overflows (x ∷ before) h behind fs o =
    rw (snr_loop-Overflows (x ∷ before) h behind fs o)
