-- ===== src/Decoders/Words.antt =====
-- The four copies of `readUint32LE` (packet_decoder.cpp, advert.cpp, trace.cpp, control.cpp) and the
-- little-endian bytes that the encoders push. The bytes are disjoint in the word, so `|` is a sum.
use meshcore_cpp_decoder.Common.{
  ℕ, suc, ◌+◌, ◌*◌, ◌/◌, ◌%◌, ◌^◌, ◌≤◌, ◌<◌, ◌≡◌, sym, ap, ◌∙◌, inl, inr, [], ◌∷◌, ◌++◌, arith,
  length, take, drop, take-append-drop, drop-drop, Bytes, IsBytes, Outcome, ok, fault, ◌>>=◌, read,
  get_or, read_lem, get_or-IsByte, drop-get_or, get_or-drop, read-fault, read-cases,
}

unfoldable pub read_uint32_le : Bytes → ℕ → Outcome ℕ
read_uint32_le buf offset = do
  b0 ← read buf offset
  b1 ← read buf (offset + 1)
  b2 ← read buf (offset + 2)
  b3 ← read buf (offset + 3)
  ok (b0 + b1 * 2 ^ 8 + b2 * 2 ^ 16 + b3 * 2 ^ 24)

-- `push_back(v & 0xFF)`, `push_back((v >> 8) & 0xFF)`, ... of a uint32_t
unfoldable pub uint32_le : ℕ → Bytes
uint32_le v = (v % 256) ∷ (v / 2 ^ 8 % 256) ∷ (v / 2 ^ 16 % 256) ∷ (v / 2 ^ 24 % 256) ∷ []

-- The word at `offset`, where it lies in the buffer.
unfoldable pub word_at : Bytes → ℕ → ℕ
word_at buf offset =
    get_or buf offset
    + get_or buf (offset + 1) * 2 ^ 8
    + get_or buf (offset + 2) * 2 ^ 16
    + get_or buf (offset + 3) * 2 ^ 24

pub read_uint32_le_lem :
    (buf : Bytes) (offset : ℕ)
    → offset + 4 ≤ length buf
    → read_uint32_le buf offset ≡ ok (word_at buf offset)
unfolding read_uint32_le word_at
read_uint32_le_lem buf offset h = rw (
  read_lem buf offset (omega arith),
  read_lem buf (offset + 1) (omega arith),
  read_lem buf (offset + 2) (omega arith),
  read_lem buf (offset + 3) (omega arith),
)

pub read_uint32_le-fault :
    (buf : Bytes) (offset : ℕ) → length buf < offset + 4 → read_uint32_le buf offset ≡ fault
unfolding read_uint32_le
read_uint32_le-fault buf offset h =
    let last = read-fault buf (offset + 3) (omega arith) in
    elim (read-cases buf offset) [
      | inr f ↦ rw f
      | inl (b0, e0) ↦ elim (read-cases buf (offset + 1)) [
        | inr f ↦ rw (e0, f)
        | inl (b1, e1) ↦ elim (read-cases buf (offset + 2)) [
          | inr f ↦ rw (e0, e1, f)
          | inl (b2, e2) ↦ rw (e0, e1, e2, last)
        ]
      ]
    ]

pub word_at-lt : (buf : Bytes) (offset : ℕ) → IsBytes buf → word_at buf offset < 2 ^ 32
unfolding word_at
word_at-lt buf offset h = omega (
  arith,
  get_or-IsByte buf offset h,
  get_or-IsByte buf (offset + 1) h,
  get_or-IsByte buf (offset + 2) h,
  get_or-IsByte buf (offset + 3) h,
)

pub uint32_le-IsBytes : (v : ℕ) → IsBytes (uint32_le v)
unfolding uint32_le
uint32_le-IsBytes v = omega arith

pub word_at-uint32_le : (v : ℕ) (rest : Bytes) → v < 2 ^ 32 → word_at (uint32_le v ++ rest) 0 ≡ v
unfolding word_at uint32_le
word_at-uint32_le v rest h = omega arith

pub word_at-drop : (bs r : Bytes) (k : ℕ) → drop k bs ≡ r → word_at bs k ≡ word_at r 0
unfolding word_at
word_at-drop bs r k e =
    let none_past : k ≡ k + 0 = omega arith in
    let zeroth : get_or bs k ≡ get_or (drop k bs) 0 =
      ap (get_or bs) none_past ∙ get_or-drop bs k 0 in
    rw (zeroth, get_or-drop bs k 1, get_or-drop bs k 2, get_or-drop bs k 3, e)

-- A word of the buffer, written out again.
four :
    {a b c d a' b' c' d' : ℕ}
    → a ≡ a'
    → b ≡ b'
    → c ≡ c'
    → d ≡ d'
    → ◌≡◌ {A = Bytes} (a ∷ b ∷ c ∷ d ∷ []) (a' ∷ b' ∷ c' ∷ d' ∷ [])
four ea eb ec ed = cc

pub uint32_le-word_at :
    (bs : Bytes) (o : ℕ)
    → IsBytes bs
    → o + 4 ≤ length bs
    → uint32_le (word_at bs o) ≡ take 4 (drop o bs)
unfolding uint32_le word_at
uint32_le-word_at bs o h room =
    let e1 : o + 1 ≡ suc o = omega arith in
    let e2 : o + 2 ≡ suc (suc o) = omega arith in
    let e3 : o + 3 ≡ suc (suc (suc o)) = omega arith in
    let b0 = get_or-IsByte bs o h in
    let b1 = get_or-IsByte bs (suc o) h in
    let b2 = get_or-IsByte bs (suc (suc o)) h in
    let b3 = get_or-IsByte bs (suc (suc (suc o))) h in
    rw
      (
        e1,
        e2,
        e3,
        drop-get_or bs o (omega arith),
        drop-get_or bs (suc o) (omega arith),
        drop-get_or bs (suc (suc o)) (omega arith),
        drop-get_or bs (suc (suc (suc o))) (omega arith),
      )
      (four (omega arith) (omega arith) (omega arith) (omega arith))

-- The bytes at an offset, and what stands behind them.
pub chunk : (bs : Bytes) (o n k : ℕ) → k ≡ o + n → drop o bs ≡ take n (drop o bs) ++ drop k bs
chunk bs o n k e =
    sym (take-append-drop n (drop o bs))
    ∙ ap (λ t. take n (drop o bs) ++ t) (drop-drop n o k bs (omega arith))
