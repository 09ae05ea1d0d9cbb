-- ===== src/Auth/Steps.antt =====
-- What the single checks of `verifyAuthToken` and the cut at the dots find.
use meshcore_cpp_decoder.Common.{
  ◌≡◌, refl, sym, inl, inr, Bool, true, false, Option, none, some, [], ◌∷◌, ◌++◌, append_assoc,
  if◌then◌else◌, Text, Outcome, ok, throws, fault, catch,
}
use meshcore_cpp_decoder.Common.Int.{ℤ, ◌≤ℤ◌, exceeds_false}
use meshcore_cpp_decoder.Encoder.Advert.{is_empty}
use meshcore_cpp_decoder.Auth.{
  AuthToken, with_second, with_first, parse_auth_token, only_parts, signing_input, expired,
}
use meshcore_cpp_decoder.Auth.Parts.{NoDot, split_dot-cases}

pub is_empty-nil : (s : Text) → is_empty s ≡ true → s ≡ []
unfolding is_empty
is_empty-nil [] h = refl
is_empty-nil (c ∷ s) h = cc

-- A token that still counts at the time `now`.
abbrev pub NotExpired : ℤ → Option ℤ → Type 0
NotExpired now none = Unit
NotExpired now (some e) = now ≤ℤ e

pub expired-NotExpired : (now : ℤ) (e : Option ℤ) → expired now e ≡ false → NotExpired now e
unfolding expired
expired-NotExpired now none h = tt
expired-NotExpired now (some e) h = exceeds_false now e h

-- The parts of a token.
abbrev pub Spells : Text → AuthToken → Type 0
Spells token t =
    (token ≡ signing_input t.header t.payload ++ (b'.' ∷ t.signature))
    × NoDot t.header
    × NoDot t.payload
    × NoDot t.signature

pub only_parts-Spells :
    (token : Text) (t : AuthToken) → only_parts (parse_auth_token token) ≡ some t → Spells token t
unfolding only_parts parse_auth_token with_first with_second signing_input
only_parts-Spells token t h = elim (split_dot-cases token) [
  | inr (e, _) ↦ absurd (none-some (rw e at h))
  | inl (a, rest, e, spelled, ha) ↦ elim (split_dot-cases rest) [
    | inr (f, _) ↦ absurd (none-some (rw (e, f) at h))
    | inl (b, s, f, spelled', hb) ↦ elim (split_dot-cases s) [
      | inl (_, _, g, _, _) ↦ absurd (none-some (rw (e, f, only_parts, g) at h))
      | inr (g, hs) ↦
          let same : ◌≡◌ {A = AuthToken} (record { header = a; payload = b; signature = s }) t =
            some_injective (rw (e, f, only_parts, g) at h) in
          rw (← same)
            (rw (spelled, spelled') (sym (append_assoc a (b'.' ∷ b) (b'.' ∷ s))), ha, hb, hs)
    ]
  ]
]
  where
    none-some : ◌≡◌ {A = Option AuthToken} none (some t) → ⊥
    none-some p = cc

    some_injective : {x : AuthToken} → some x ≡ some t → x ≡ t
    some_injective p = cc

-- A test that refuses.
pub refuses :
    {A : Type 0} (b : Bool) (m : Outcome (Option A)) (a : A)
    → (if b then ok none else m) ≡ ok (some a)
    → (b ≡ false) × (m ≡ ok (some a))
refuses true m a h = cc
refuses false m a h = (refl, h)

pub catches :
    {A : Type 0} (m : Outcome (Option A)) (a : A)
    → catch m (λ what. ok none) ≡ ok (some a)
    → m ≡ ok (some a)
catches (ok x) a h = h
catches (throws e) a h = cc
catches fault a h = cc
