-- ===== src/Decoders/Advert/Names.antt =====
-- What `sanitizeControlCharacters` leaves of a name.
use meshcore_cpp_decoder.Common.{
  ℕ, ◌≤◌, ◌≡◌, refl, ap, inl, inr, true, false, [], ◌∷◌, arith, Bool-cases, All, Text,
}
use meshcore_cpp_decoder.Decoders.Advert.{
  keeps, keep_all, is_blank, trim_left, keep_right, trim_right, trim, sanitize,
}

-- A character that is neither below 0x20 nor 0x7F.
abbrev pub IsKept : ℕ → Type 0
IsKept c = (0x20 ≤ c) × ¬ (c ≡ 0x7F)

keep_all-IsKept : (s : Text) → All IsKept (keep_all s)
unfolding keep_all keeps
keep_all-IsKept [] = tt
keep_all-IsKept (c ∷ s) = elim (Bool-cases (keeps c)) [
  | inl good ↦ rw good (ground arith, keep_all-IsKept s)
  | inr bad ↦ rw bad (keep_all-IsKept s)
]

keep_all-of_kept : (s : Text) → All IsKept s → keep_all s ≡ s
unfolding keep_all keeps
keep_all-of_kept [] h = refl
keep_all-of_kept (c ∷ s) ((low, del), h) =
    let good : keeps c ≡ true = ground arith in rw (good, keep_all-of_kept s h)

trim_left-IsKept : (s : Text) → All IsKept s → All IsKept (trim_left s)
unfolding trim_left
trim_left-IsKept [] h = tt
trim_left-IsKept (c ∷ s) (hc, h) = elim (Bool-cases (is_blank c)) [
  | inl blank ↦ rw blank (trim_left-IsKept s h)
  | inr solid ↦ rw solid (hc, h)
]

keep_right-IsKept : (c : ℕ) (s : Text) → IsKept c → All IsKept s → All IsKept (keep_right c s)
unfolding keep_right
keep_right-IsKept c [] hc h = elim (Bool-cases (is_blank c)) [
  | inl blank ↦ rw blank tt
  | inr solid ↦ rw solid (hc, tt)
]
keep_right-IsKept c (d ∷ s) hc h = (hc, h)

trim_right-IsKept : (s : Text) → All IsKept s → All IsKept (trim_right s)
unfolding trim_right
trim_right-IsKept [] h = tt
trim_right-IsKept (c ∷ s) (hc, h) = keep_right-IsKept c (trim_right s) hc (trim_right-IsKept s h)

trim_right-keep_right :
    (c : ℕ) (s : Text) → trim_right s ≡ s → trim_right (keep_right c s) ≡ keep_right c s
unfolding trim_right keep_right
trim_right-keep_right c [] h = elim (Bool-cases (is_blank c)) [
  | inl blank ↦ rw blank
  | inr solid ↦ rw (solid, solid)
]
trim_right-keep_right c (d ∷ s) h = ap (keep_right c) h

trim_right_idem : (s : Text) → trim_right (trim_right s) ≡ trim_right s
unfolding trim_right
trim_right_idem [] = refl
trim_right_idem (c ∷ s) = trim_right-keep_right c (trim_right s) (trim_right_idem s)

-- A text that does not begin with a blank keeps its first character.
trim_left-keep_right :
    (c : ℕ) (s : Text) → is_blank c ≡ false → trim_left (keep_right c s) ≡ keep_right c s
unfolding trim_left keep_right
trim_left-keep_right c [] solid = rw (solid, solid)
trim_left-keep_right c (d ∷ s) solid = rw solid

trim_left-trim_right : (s : Text) → trim_left (trim_right (trim_left s)) ≡ trim_right (trim_left s)
unfolding trim_left trim_right
trim_left-trim_right [] = refl
trim_left-trim_right (c ∷ s) = elim (Bool-cases (is_blank c)) [
  | inl blank ↦ rw blank (trim_left-trim_right s)
  | inr solid ↦ rw solid (trim_left-keep_right c (trim_right s) solid)
]

-- A name that has been through `sanitizeControlCharacters` has no control character left, and goes
-- through it a second time unchanged.
pub sanitize-IsKept :
    (value : Text) → All IsKept (sanitize value) × (sanitize (sanitize value) ≡ sanitize value)
unfolding sanitize trim
sanitize-IsKept value =
    let kept : All IsKept (trim_right (trim_left (keep_all value))) =
      trim_right-IsKept (trim_left (keep_all value))
        (trim_left-IsKept (keep_all value) (keep_all-IsKept value)) in
    (
      kept,
      rw (
        keep_all-of_kept (trim_right (trim_left (keep_all value))) kept,
        trim_left-trim_right (keep_all value),
        trim_right_idem (trim_left (keep_all value)),
      ),
    )
