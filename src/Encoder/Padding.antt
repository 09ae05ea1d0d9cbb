-- ===== src/Encoder/Padding.antt =====
-- The zeros that fill the last block of a plaintext.
use meshcore_cpp_decoder.Common.{
  ℕ, zero, suc, ◌+◌, ◌-◌, ◌%◌, ◌<◌, ◌≡◌, sym, ap, ◌∙◌, inl, inr, [], ◌∷◌, ◌++◌, append-nil,
  append_assoc, arith, ◌==◌, Bool-cases, length, replicate, length-append, length-replicate,
  All-append, Bytes, IsByte, IsBytes,
}
use meshcore_cpp_decoder.Encoder.Group.{pad_loop, pad}

-- One more zero in front of `k` zeros.
snoc-zeros : (s : Bytes) (k : ℕ) → (s ++ (0 ∷ [])) ++ replicate k 0 ≡ s ++ replicate (suc k) 0
snoc-zeros s k = append_assoc s (0 ∷ []) (replicate k 0)

-- On fuel for the zeros that are missing, and one more, the loop ends with whole blocks.
pad_loop_lem :
    (f : ℕ) (s : Bytes)
    → (16 - length s % 16) % 16 < f
    → pad_loop f s ≡ s ++ replicate ((16 - length s % 16) % 16) 0
unfolding pad_loop
pad_loop_lem zero s h = absurd (omega arith)
pad_loop_lem (suc f) s h = elim (Bool-cases (length s % 16 == 0)) [
  | inl whole ↦
      let none_left : (16 - length s % 16) % 16 ≡ 0 = ground arith in
      rw (whole, none_left) (sym (append-nil s))
  | inr cut ↦
      let r : ¬ (length s % 16 ≡ 0) = ground arith in
      let len : length (s ++ (0 ∷ [])) ≡ length s + 1 = length-append s (0 ∷ []) in
      let next : (16 - length s % 16) % 16 ≡ suc ((16 - length (s ++ (0 ∷ [])) % 16) % 16) =
        omega arith in
      rw (cut, pad_loop_lem f (s ++ (0 ∷ [])) (omega arith), next)
        (snoc-zeros s ((16 - length (s ++ (0 ∷ [])) % 16) % 16))
]

-- How many zeros `pad` adds.
abbrev pub zeros_for : Bytes → ℕ
zeros_for s = (16 - length s % 16) % 16

-- The plaintext is padded to whole blocks of 16 bytes: the loop ends within its fuel, keeps the text
-- in front, and adds fewer than sixteen bytes, all of them zero.
pub pad_lem :
    (plain : Bytes)
    → (pad plain ≡ plain ++ replicate (zeros_for plain) 0)
      × (zeros_for plain < 16)
      × (length (pad plain) % 16 ≡ 0)
unfolding pad
pad_lem plain =
    let e = pad_loop_lem 16 plain (omega arith) in
    (
      e,
      omega arith,
      rw e (
          omega (
            arith,
            length-append plain (replicate (zeros_for plain) 0),
            length-replicate {A = ℕ} (zeros_for plain) 0,
          )),
    )

pub zeros-IsBytes : (n : ℕ) → IsBytes (replicate n 0)
zeros-IsBytes zero = tt
zeros-IsBytes (suc n) = (omega arith, zeros-IsBytes n)

pub pad-IsBytes : (plain : Bytes) → IsBytes plain → IsBytes (pad plain)
pad-IsBytes plain h =
    rw (pad_lem plain).0
      (All-append IsByte plain (replicate (zeros_for plain) 0) h (zeros-IsBytes (zeros_for plain)))

pub length-pad : (plain : Bytes) → length (pad plain) ≡ length plain + zeros_for plain
length-pad plain = rw (pad_lem plain).0 (
    length-append plain (replicate (zeros_for plain) 0)
    ∙ ap (λ n. length plain + n) (length-replicate {A = ℕ} (zeros_for plain) 0))
