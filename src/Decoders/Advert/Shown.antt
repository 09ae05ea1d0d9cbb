-- ===== src/Decoders/Advert/Shown.antt =====
-- The name that an advert shows, described without the functions that compute it.
use meshcore_cpp_decoder.Common.{
  ℕ, ◌≡◌, refl, ap, ◌∙◌, ◌⊎◌, inl, inr, true, false, [], ◌∷◌, ◌++◌, arith, ◌==◌, Bool-cases, All,
  Text,
}
use meshcore_cpp_decoder.Decoders.Advert.{
  keeps, keep_all, is_blank, trim_left, keep_right, trim_right, trim, sanitize, until_nul, name_of,
}
use meshcore_cpp_decoder.Decoders.Advert.Names.{IsKept}

-- A text without its control characters.
pub data Sifted : Text → Text → Type 0 where
  ended : Sifted [] []
  kept : {s t : Text} (c : ℕ) → IsKept c → Sifted s t → Sifted (c ∷ s) (c ∷ t)
  left_out : {s t : Text} (c : ℕ) → ¬ IsKept c → Sifted s t → Sifted (c ∷ s) t

keep_all-Sifted : (s : Text) → Sifted s (keep_all s)
unfolding keep_all keeps
keep_all-Sifted [] = ended
keep_all-Sifted (c ∷ s) = elim (Bool-cases (keeps c)) [
  | inl good ↦ rw good (kept c (ground arith) (keep_all-Sifted s))
  | inr bad ↦ rw bad (left_out c (ground arith) (keep_all-Sifted s))
]

-- A space, a tab, a carriage return or a line feed.
abbrev pub IsBlank : ℕ → Type 0
IsBlank c = (c ≡ 32) ⊎ (c ≡ 9) ⊎ (c ≡ 13) ⊎ (c ≡ 10)

-- The first and the last character are no blanks.
abbrev pub BeginsSolid : Text → Type 0
BeginsSolid [] = Unit
BeginsSolid (c ∷ s) = ¬ IsBlank c

abbrev pub EndsSolid : Text → Type 0
EndsSolid [] = Unit
EndsSolid (c ∷ []) = ¬ IsBlank c
EndsSolid (c ∷ d ∷ s) = EndsSolid (d ∷ s)

-- A text without the blanks in front and behind.
abbrev pub Trimmed : Text → Text → Type 0
Trimmed s t =
    (l : Text) × (r : Text) × (s ≡ l ++ (t ++ r))
    × All IsBlank l
    × All IsBlank r
    × BeginsSolid t
    × EndsSolid t

is_blank-IsBlank : (c : ℕ) → is_blank c ≡ true → IsBlank c
unfolding is_blank
is_blank-IsBlank c h = ground arith

is_blank-false : (c : ℕ) → is_blank c ≡ false → ¬ IsBlank c
unfolding is_blank
is_blank-false c h = ground arith

trim_left-BeginsSolid :
    (s : Text) → (l : Text) × (s ≡ l ++ trim_left s) × All IsBlank l × BeginsSolid (trim_left s)
unfolding trim_left
trim_left-BeginsSolid [] = ([], refl, tt, tt)
trim_left-BeginsSolid (c ∷ s) = elim (Bool-cases (is_blank c)) [
  | inl blank ↦
      let (l, e, hl, solid) = trim_left-BeginsSolid s in
      (c ∷ l, rw blank (ap (λ x. c ∷ x) e), (is_blank-IsBlank c blank, hl), rw blank solid)
  | inr solid ↦ ([], rw solid, tt, rw solid (is_blank-false c solid))
]

-- What `trim_right` takes away behind `t`, which it leaves.
abbrev RightOf : Text → Text → Type 0
RightOf s t = (r : Text) × (s ≡ t ++ r) × All IsBlank r × EndsSolid t

keep_right-RightOf : (c : ℕ) (s t : Text) → RightOf s t → RightOf (c ∷ s) (keep_right c t)
unfolding keep_right
keep_right-RightOf c s [] (r, e, hr, ends) = elim (Bool-cases (is_blank c)) [
  | inl blank ↦ rw blank (c ∷ r, ap (λ x. c ∷ x) e, (is_blank-IsBlank c blank, hr), tt)
  | inr solid ↦ rw solid (r, ap (λ x. c ∷ x) e, hr, is_blank-false c solid)
]
keep_right-RightOf c s (d ∷ t) (r, e, hr, ends) = (r, ap (λ x. c ∷ x) e, hr, ends)

trim_right-RightOf : (s : Text) → RightOf s (trim_right s)
unfolding trim_right
trim_right-RightOf [] = ([], refl, tt, tt)
trim_right-RightOf (c ∷ s) = keep_right-RightOf c s (trim_right s) (trim_right-RightOf s)

keep_right-BeginsSolid : (c : ℕ) (t : Text) → ¬ IsBlank c → BeginsSolid (keep_right c t)
unfolding keep_right
keep_right-BeginsSolid c [] h = elim (Bool-cases (is_blank c)) [
  | inl blank ↦ rw blank tt
  | inr solid ↦ rw solid h
]
keep_right-BeginsSolid c (d ∷ t) h = h

trim_right-BeginsSolid : (s : Text) → BeginsSolid s → BeginsSolid (trim_right s)
unfolding trim_right
trim_right-BeginsSolid [] h = tt
trim_right-BeginsSolid (c ∷ s) h = keep_right-BeginsSolid c (trim_right s) h

trim-Trimmed : (s : Text) → Trimmed s (trim s)
unfolding trim
trim-Trimmed s =
    let (l, e, hl, begins) = trim_left-BeginsSolid s in
    let (r, e', hr, ends) = trim_right-RightOf (trim_left s) in
    (l, r, e ∙ ap (λ x. l ++ x) e', hl, hr, trim_right-BeginsSolid (trim_left s) begins, ends)

-- A text up to its first zero.
abbrev pub CutAt0 : Text → Text → Type 0
CutAt0 s t =
    (rest : Text) × (s ≡ t ++ rest)
    × All (λ c. ¬ (c ≡ 0)) t
    × ((rest ≡ []) ⊎ ((tail : Text) × (rest ≡ 0 ∷ tail)))

until_nul-CutAt0 : (s : Text) → CutAt0 s (until_nul s)
unfolding until_nul
until_nul-CutAt0 [] = ([], refl, tt, inl refl)
until_nul-CutAt0 (c ∷ s) = elim (Bool-cases (c == 0)) [
  | inl nul ↦ let e : c ≡ 0 = ground arith in rw nul (c ∷ s, refl, tt, inr (s, ap (λ x. x ∷ s) e))
  | inr other ↦
      let (rest, e, ht, last) = until_nul-CutAt0 s in
      rw other (rest, ap (λ x. c ∷ x) e, (ground arith, ht), last)
]

-- The name of an advert: the bytes up to the first zero, without control characters and then without
-- blanks around them, or as they are where nothing is left of them.
abbrev pub IsShown : Text → Text → Type 0
IsShown raw shown =
    (cut : Text) × (sifted : Text) × (clean_name : Text) × CutAt0 raw cut
    × Sifted cut sifted
    × Trimmed sifted clean_name
    × (((clean_name ≡ []) × (shown ≡ cut)) ⊎ (¬ (clean_name ≡ []) × (shown ≡ clean_name)))

or_raw :
    (t cut : Text)
    → ((t ≡ []) × (elim t as (λ x. Text) [ [] ↦ cut | c ∷ s ↦ c ∷ s ] ≡ cut))
      ⊎ (¬ (t ≡ []) × (elim t as (λ x. Text) [ [] ↦ cut | c ∷ s ↦ c ∷ s ] ≡ t))
or_raw [] cut = inl (refl, refl)
or_raw (c ∷ s) cut = inr (cons-nil, refl)
  where
    cons-nil : (c ∷ s) ≡ [] → ⊥
    cons-nil e = cc

pub name_of-IsShown : (raw : Text) → IsShown raw (name_of raw)
unfolding name_of sanitize
name_of-IsShown raw =
    let cut : Text = until_nul raw in
    (
      cut,
      keep_all cut,
      trim (keep_all cut),
      until_nul-CutAt0 raw,
      keep_all-Sifted cut,
      trim-Trimmed (keep_all cut),
      or_raw (trim (keep_all cut)) cut,
    )
