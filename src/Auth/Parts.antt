-- ===== src/Auth/Parts.antt =====
-- The parts of a token.
use meshcore_cpp_decoder.Common.{
  ℕ, ◌≡◌, refl, ap, ◌∙◌, ◌⊎◌, inl, inr, Bool, true, false, not, none, some, [], ◌∷◌, ◌++◌,
  append_assoc, arith, ◌==◌, ==_iff, Bool-cases, length, All, Bytes, Text, text, ok, throw_if,
  range, >>=-ok, >>-ok,
}
use meshcore_cpp_decoder.Common.Int.{ℤ}
use meshcore_cpp_decoder.Hex.{hex_to_bytes, hex_digit, byte_to_hex, bytes_to_hex}
use meshcore_cpp_decoder.Base64.{base64_char, base64_encode, url_safe, base64url_encode}
use meshcore_cpp_decoder.Crypto.Ed25519.{Ed25519Evp, sign, or_throw}
use meshcore_cpp_decoder.Auth.{
  Json, AuthTokenPayload, AuthToken, in_front, split_dot, with_second, with_first, parse_auth_token,
  only_parts, signing_input, key_of, header_json, payload_json, create_auth_token,
}

abbrev pub NoDot : Text → Type 0
NoDot s = All (λ c. ¬ (c ≡ b'.')) s

pub split_dot-append : (a b : Text) → NoDot a → split_dot (a ++ (b'.' ∷ b)) ≡ some (a, b)
unfolding split_dot
split_dot-append [] b h = refl
split_dot-append (c ∷ a) b (hc, h) =
    let e : (c == b'.') ≡ false = ground arith in rw (e, split_dot-append a b h)

pub split_dot-none : (a : Text) → NoDot a → split_dot a ≡ none
unfolding split_dot
split_dot-none [] h = refl
split_dot-none (c ∷ a) (hc, h) =
    let e : (c == b'.') ≡ false = ground arith in rw (e, split_dot-none a h)

absurd_test : {b : Bool} → b ≡ false → b ≡ true → ⊥
absurd_test p q = cc

-- Every text has a first dot or none.
pub split_dot-cases :
    (s : Text)
    → ((a : Text) × (b : Text) × (split_dot s ≡ some (a, b)) × (s ≡ a ++ (b'.' ∷ b)) × NoDot a)
      ⊎ ((split_dot s ≡ none) × NoDot s)
unfolding split_dot in_front
split_dot-cases [] = inr (refl, tt)
split_dot-cases (c ∷ s) = elim (Bool-cases (c == b'.')) [
  | inl dot ↦ let e : c ≡ b'.' = (==_iff c b'.').0 dot in inl ([], s, rw dot, ap (λ d. d ∷ s) e, tt)
  | inr other ↦
      let ne : ¬ (c ≡ b'.') = λ e. absurd_test other ((==_iff c b'.').1 e) in
      elim (split_dot-cases s) [
        | inl (a, b, e, spelled, h) ↦
            inl (c ∷ a, b, rw (other, e), ap (λ l. c ∷ l) spelled, (ne, h))
        | inr (e, h) ↦ inr (rw (other, e), (ne, h))
      ]
]

base64_char-ne : (v : ℕ) → ¬ (base64_char v ≡ b'.')
unfolding base64_char
base64_char-ne v = ground arith

url_safe-NoDot : (s : Text) → NoDot s → NoDot (url_safe s)
unfolding url_safe
url_safe-NoDot [] h = tt
url_safe-NoDot (c ∷ s) (hc, h) =
    let more = url_safe-NoDot s h in
    elim (Bool-cases (c == b'+')) [
      | inl plus ↦ rw plus (omega arith, more)
      | inr p ↦ elim (Bool-cases (c == b'/')) [
        | inl slash ↦ rw (p, slash) (omega arith, more)
        | inr q ↦ elim (Bool-cases (c == b'=')) [
          | inl fill ↦ rw (p, q, fill) more
          | inr r ↦ rw (p, q, r) (hc, more)
        ]
      ]
    ]

base64_encode-NoDot : (bs : Bytes) → NoDot (base64_encode bs)
unfolding base64_encode
base64_encode-NoDot [] = tt
base64_encode-NoDot (a ∷ []) =
    (base64_char-ne _, (base64_char-ne _, (omega arith, (omega arith, tt))))
base64_encode-NoDot (a ∷ b ∷ []) =
    (base64_char-ne _, (base64_char-ne _, (base64_char-ne _, (omega arith, tt))))
base64_encode-NoDot (a ∷ b ∷ c ∷ rest) = (
  base64_char-ne _,
  (base64_char-ne _, (base64_char-ne _, (base64_char-ne _, base64_encode-NoDot rest))),
)

pub base64url_encode-NoDot : (bs : Bytes) → NoDot (base64url_encode bs)
unfolding base64url_encode
base64url_encode-NoDot bs = url_safe-NoDot (base64_encode bs) (base64_encode-NoDot bs)

hex_digit-ne : (d : ℕ) → ¬ (hex_digit d ≡ b'.')
unfolding hex_digit
hex_digit-ne d = ground arith

bytes_to_hex-NoDot : (bs : Bytes) → NoDot (bytes_to_hex bs)
unfolding bytes_to_hex byte_to_hex
bytes_to_hex-NoDot [] = tt
bytes_to_hex-NoDot (b ∷ bs) = (hex_digit-ne _, (hex_digit-ne _, bytes_to_hex-NoDot bs))

-- What `sign` returns is the print of a signature.
sign-NoDot :
    (evp : Ed25519Evp) (message_hex private_key_hex public_key_hex t : Text)
    → sign evp message_hex private_key_hex public_key_hex ≡ ok t
    → NoDot t
unfolding sign
sign-NoDot evp message_hex private_key_hex public_key_hex t h =
    let (bytes, e1, h1) = >>=-ok (hex_to_bytes private_key_hex) _ h in
    let (message, e2, h2) = >>=-ok (hex_to_bytes message_hex) _ h1 in
    let h3 =
      >>-ok
        (throw_if (not (length bytes == 64)) (text "Invalid private key length: expected 64 bytes"))
        _ h2 in
    let (seed, e4, h4) = >>=-ok (range bytes 0 32) _ h3 in
    let h5 =
      >>-ok (throw_if (not (evp.raw_private_key seed)) (text "Failed to create ED25519 key")) _
        h4 in
    let h6 = >>-ok (throw_if (not evp.md_ctx_new) (text "Failed to create MD context")) _ h5 in
    let h7 =
      >>-ok (throw_if (not (evp.digest_sign_init seed)) (text "Failed to init signing")) _ h6 in
    let (signature, e8, h8) =
      >>=-ok (or_throw (text "Failed to sign message") (evp.digest_sign seed message)) _ h7 in
    let spelled : bytes_to_hex signature ≡ t = cc in rw (← spelled) (bytes_to_hex-NoDot signature)

-- Three parts without dots, put together and taken apart.
joined :
    (a b s : Text)
    → NoDot a
    → NoDot b
    → NoDot s
    → (parse_auth_token (signing_input a b ++ (b'.' ∷ s))
        ≡ some (record { header = a; payload = b; signature = s }))
      × (only_parts (some (record { header = a; payload = b; signature = s }))
          ≡ some (record { header = a; payload = b; signature = s }))
unfolding parse_auth_token with_first with_second only_parts signing_input
joined a b s ha hb hs = (
  rw (
    append_assoc a (b'.' ∷ b) (b'.' ∷ s),
    split_dot-append a (b ++ (b'.' ∷ s)) ha,
    split_dot-append b s hb,
  ),
  rw (only_parts, split_dot-none s hs),
)

module _ (js : Json) (evp : Ed25519Evp) (now : ℤ) where
  -- Where `createAuthToken` returns a token, it is a header, a payload and a signature with a dot
  -- between them and none inside: `parseAuthToken` finds them, and there is no third dot, which
  -- `verifyAuthToken` would refuse. The header and the payload are the texts of the two JSON values in
  -- base 64, and the signature is that of the text before the second dot.
  pub parse_auth_token-create_auth_token :
      (payload : AuthTokenPayload js.Value) (private_key_hex public_key_hex token : Text)
      → create_auth_token js evp now payload private_key_hex public_key_hex ≡ ok token
      → (t : AuthToken) × (header_text : Text) × (payload_text : Text) × (parse_auth_token token
          ≡ some t)
        × (only_parts (some t) ≡ some t)
        × (token ≡ signing_input t.header t.payload ++ (b'.' ∷ t.signature))
        × (js.dump (header_json js) ≡ ok header_text)
        × (js.dump (payload_json js now payload public_key_hex) ≡ ok payload_text)
        × (t.header ≡ base64url_encode header_text)
        × (t.payload ≡ base64url_encode payload_text)
        × (sign evp
              (bytes_to_hex (signing_input t.header t.payload))
              private_key_hex
              (key_of js payload public_key_hex)
            ≡ ok t.signature)
  unfolding create_auth_token
  parse_auth_token-create_auth_token payload private_key_hex public_key_hex token h =
      let (header_text, e1, h1) = >>=-ok (js.dump (header_json js)) _ h in
      let (payload_text, e2, h2) =
        >>=-ok (js.dump (payload_json js now payload public_key_hex)) _ h1 in
      let a : Text = base64url_encode header_text in
      let b : Text = base64url_encode payload_text in
      let (s, e3, h3) =
        >>=-ok
          (sign evp (bytes_to_hex (signing_input a b)) private_key_hex
            (key_of js payload public_key_hex))
          _ h2 in
      let (parsed, three) =
        joined a b s (base64url_encode-NoDot header_text) (base64url_encode-NoDot payload_text)
          (sign-NoDot evp _ private_key_hex _ s e3) in
      let spelled : token ≡ signing_input a b ++ (b'.' ∷ s) = cc in
      (
        record { header = a; payload = b; signature = s },
        header_text,
        payload_text,
        ap parse_auth_token spelled ∙ parsed,
        three,
        spelled,
        e1,
        e2,
        refl,
        refl,
        e3,
      )
