-- ===== src/Cli/Trim.antt =====
-- The texts that `trim` keeps as they are.
use meshcore_cpp_decoder.Common.{
  ℕ, ◌≡◌, refl, inl, inr, true, false, [], ◌∷◌, ◌++◌, arith, Bool-cases, All, Text,
}
use meshcore_cpp_decoder.Hex.{is_hex_char, to_upper}
use meshcore_cpp_decoder.Decoders.Advert.{is_blank, trim_left, keep_right, trim_right, trim}
use meshcore_cpp_decoder.Cli.Input.{is_xdigit, all_xdigit, is_bare_hex}

-- A text of characters that `trim` keeps.
abbrev Solid : Text → Type 0
Solid s = All (λ c. is_blank c ≡ false) s

keep_right-cons : (c : ℕ) (s : Text) (d : ℕ) (t : Text) → s ≡ d ∷ t → keep_right c s ≡ c ∷ s
unfolding keep_right
keep_right-cons c s d t e = rw e

pub trim_right-Solid : (t : Text) → Solid t → trim_right t ≡ t
unfolding trim_right keep_right
trim_right-Solid [] h = refl
trim_right-Solid (c ∷ []) (hc, h) = rw hc
trim_right-Solid (c ∷ d ∷ t) (hc, h) = rw (trim_right-Solid (d ∷ t) h)

-- What stands in front of it is kept too.
trim_right-append :
    (s : Text) (c : ℕ) (t : Text) → Solid (c ∷ t) → trim_right (s ++ (c ∷ t)) ≡ s ++ (c ∷ t)
unfolding trim_right
trim_right-append [] c t h = trim_right-Solid (c ∷ t) h
trim_right-append (d ∷ []) c t h =
    rw (trim_right-append [] c t h) (keep_right-cons d (c ∷ t) c t refl)
trim_right-append (d ∷ e ∷ s) c t h =
    rw (trim_right-append (e ∷ s) c t h)
      (keep_right-cons d (e ∷ (s ++ (c ∷ t))) e (s ++ (c ∷ t)) refl)

pub trim_left-solid : (c : ℕ) (s : Text) → is_blank c ≡ false → trim_left (c ∷ s) ≡ c ∷ s
unfolding trim_left
trim_left-solid c s h = rw h

-- A hexadecimal digit is not blank.
xdigit-solid : (c : ℕ) → is_xdigit c ≡ true → is_blank c ≡ false
unfolding is_xdigit is_blank is_hex_char to_upper
xdigit-solid c h = ground arith

pub all_xdigit-Solid : (s : Text) → all_xdigit s ≡ true → Solid s
unfolding all_xdigit
all_xdigit-Solid [] h = tt
all_xdigit-Solid (c ∷ s) h = elim (Bool-cases (is_xdigit c)) [
  | inl x ↦ (xdigit-solid c x, all_xdigit-Solid s (rw x at h))
  | inr n ↦ absurd (false-true (rw n at h))
]
  where
    false-true : false ≡ true → ⊥
    false-true e = cc

pub bare-all_xdigit : (s : Text) → is_bare_hex s ≡ true → all_xdigit s ≡ true
unfolding is_bare_hex
bare-all_xdigit s h = ground arith

pub trim_whole :
    (c : ℕ) (s : Text) (d : ℕ) (t : Text)
    → is_blank c ≡ false
    → Solid (d ∷ t)
    → trim (c ∷ (s ++ (d ∷ t))) ≡ c ∷ (s ++ (d ∷ t))
unfolding trim
trim_whole c s d t first h =
    rw (trim_left-solid c (s ++ (d ∷ t)) first) (trim_right-append (c ∷ s) d t h)

pub trim-Solid : (s : Text) → Solid s → trim s ≡ s
unfolding trim
trim-Solid [] h = unfold trim_left trim_right in refl
trim-Solid (c ∷ s) (hc, h) = rw (trim_left-solid c s hc) (trim_right-Solid (c ∷ s) (hc, h))
