-- ===== src/Auth/Sound.antt =====
-- What `verifyAuthToken` accepts.
use meshcore_cpp_decoder.Common.{
  ◌≡◌, refl, sym, ap, ◌∙◌, ◌⊎◌, inl, inr, Bool, true, false, not, ◌&&◌, Option, none, some, [], map,
  Bool-cases, Bytes, Text, text, ok, >>=-ok,
}
use meshcore_cpp_decoder.Common.Int.{ℤ, ◌≤ℤ◌}
use meshcore_cpp_decoder.Hex.{bytes_to_hex, to_upper}
use meshcore_cpp_decoder.Base64.{base64url_decode}
use meshcore_cpp_decoder.Crypto.KeyStore.{text_eq}
use meshcore_cpp_decoder.Crypto.KeyStore.Lookup.{text_eq_sound}
use meshcore_cpp_decoder.Crypto.Ed25519.{Ed25519Evp, verify}
use meshcore_cpp_decoder.Encoder.Advert.{is_empty}
use meshcore_cpp_decoder.Auth.{
  Json, AuthTokenPayload, AuthToken, parse_auth_token, only_parts, signing_input, exp_of, collect,
  checked, verify_claims, verify_header, verify_parts, verify_auth_token,
}
use meshcore_cpp_decoder.Auth.Steps.{
  is_empty-nil, NotExpired, expired-NotExpired, Spells, only_parts-Spells, refuses, catches,
}

module _ (js : Json) (evp : Ed25519Evp) (now : ℤ) where
  -- A header is the JSON text of an object with the two texts.
  abbrev pub HeaderHolds : AuthToken → Type 0
  HeaderHolds t =
      (bytes : Bytes) × (header : js.Value) × (alg : js.Value) × (typ : js.Value)
      × (base64url_decode t.header ≡ ok bytes)
      × (js.parse bytes ≡ ok header)
      × (js.index header (text "alg") ≡ ok alg)
      × (js.is_text alg (text "Ed25519") ≡ true)
      × (js.index header (text "typ") ≡ ok typ)
      × (js.is_text typ (text "JWT") ≡ true)

  -- The expiration that an object holds, and the time `now` is not behind it.
  abbrev pub ExpHolds : js.Value → Option ℤ → Type 0
  ExpHolds object exp =
      ((js.contains object (text "exp") ≡ false) × (exp ≡ none))
      ⊎ ((js.contains object (text "exp") ≡ true)
          × ((value : js.Value) × (e : ℤ) × (js.index object (text "exp") ≡ ok value)
              × (js.get_int value ≡ ok e)
              × (exp ≡ some e)
              × (now ≤ℤ e)))

  -- A payload is the JSON text of an object that holds the claims.
  abbrev pub ClaimsHold : AuthToken → AuthTokenPayload js.Value → Type 0
  ClaimsHold t p =
      (bytes : Bytes) × (object : js.Value) × (key : js.Value) × (iat : js.Value)
      × (base64url_decode t.payload ≡ ok bytes)
      × (js.parse bytes ≡ ok object)
      × (js.index object (text "publicKey") ≡ ok key)
      × (js.get_text key ≡ ok p.public_key)
      × (js.index object (text "iat") ≡ ok iat)
      × (js.get_int iat ≡ ok p.iat)
      × ExpHolds object p.exp

  -- What the checks have found of a token and its payload.
  abbrev pub Accepted : Text → AuthToken → AuthTokenPayload js.Value → Type 0
  Accepted expected t p =
      (verify evp t.signature (bytes_to_hex (signing_input t.header t.payload)) p.public_key
        ≡ ok true)
      × NotExpired now p.exp
      × ((expected ≡ []) ⊎ (map to_upper p.public_key ≡ map to_upper expected))

  key_check :
      (key expected : Text)
      → (not (is_empty expected) && not (text_eq (map to_upper key) (map to_upper expected)))
        ≡ false
      → (expected ≡ []) ⊎ (map to_upper key ≡ map to_upper expected)
  key_check key expected h = elim (Bool-cases (is_empty expected)) [
    | inl none_given ↦ inl (is_empty-nil expected none_given)
    | inr given ↦ elim (Bool-cases (text_eq (map to_upper key) (map to_upper expected))) [
      | inl same ↦ inr (text_eq_sound (map to_upper key) (map to_upper expected) same)
      | inr other ↦ absurd (true-false (rw (given, other) at h))
    ]
  ]
    where
      true-false : true ≡ false → ⊥
      true-false e = cc

  checked-Accepted :
      (expected : Text) (t : AuthToken) (object : js.Value) (q p : AuthTokenPayload js.Value)
      → checked js evp now expected t object q ≡ ok (some p)
      → (record q { extra_claims = collect js js.null (js.items object) } ≡ p)
        × Accepted expected t p
  unfolding checked
  checked-Accepted expected t object q p h =
      let (right, h1) = refuses _ _ p h in
      let (current, h2) = refuses _ _ p h1 in
      let (good, e, h3) =
        >>=-ok
          (verify evp t.signature (bytes_to_hex (signing_input t.header t.payload)) q.public_key) _
          h2 in
      let (verified, h4) = refuses _ _ p h3 in
      let same : record q { extra_claims = collect js js.null (js.items object) } ≡ p =
        returned h4 in
      let holds : good ≡ true = elim (Bool-cases good) [
        | inl y ↦ y
        | inr n ↦ absurd (true-false (rw n at verified))
      ] in
      (
        same,
        rw (← same) (
          e ∙ ap ok holds,
          expired-NotExpired now q.exp current,
          key_check q.public_key expected right,
        ),
      )
    where
      true-false : true ≡ false → ⊥
      true-false f = cc

      returned : {x : AuthTokenPayload js.Value} → ok (some x) ≡ ok (some p) → x ≡ p
      returned f = cc

  exp_of-ExpHolds :
      (object : js.Value) (exp : Option ℤ)
      → exp_of js object ≡ ok exp
      → NotExpired now exp
      → ExpHolds object exp
  unfolding exp_of
  exp_of-ExpHolds object exp h current = elim (Bool-cases (js.contains object (text "exp"))) [
    | inr absent ↦ inl (absent, sym (ok_injective (rw absent at h)))
    | inl there ↦
        let (value, e1, h1) = >>=-ok (js.index object (text "exp")) _ (rw there at h) in
        let (e, e2, h2) = >>=-ok (js.get_int value) _ h1 in
        let same : some e ≡ exp = ok_injective h2 in
        inr (there, (value, e, e1, e2, sym same, (rw (← same) at current)))
  ]
    where
      ok_injective : {x y : Option ℤ} → ok x ≡ ok y → x ≡ y
      ok_injective f = cc

  verify_claims-Accepted :
      (expected : Text) (t : AuthToken) (p : AuthTokenPayload js.Value)
      → verify_claims js evp now expected t ≡ ok (some p)
      → ClaimsHold t p × Accepted expected t p
  unfolding verify_claims
  verify_claims-Accepted expected t p h =
      let (bytes, e1, h1) = >>=-ok (base64url_decode t.payload) _ h in
      let (object, e2, h2) = >>=-ok (js.parse bytes) _ h1 in
      let (there, h3) = refuses _ _ p h2 in
      let (key_value, e4, h4) = >>=-ok (js.index object (text "publicKey")) _ h3 in
      let (key, e5, h5) = >>=-ok (js.get_text key_value) _ h4 in
      let (iat_value, e6, h6) = >>=-ok (js.index object (text "iat")) _ h5 in
      let (iat, e7, h7) = >>=-ok (js.get_int iat_value) _ h6 in
      let (exp, e8, h8) = >>=-ok (exp_of js object) _ h7 in
      let (same, (verified, current, right)) = checked-Accepted expected t object _ p h8 in
      let exp_same : exp ≡ p.exp = ap (λ (q : AuthTokenPayload js.Value). q.exp) same in
      let key_same : key ≡ p.public_key =
        ap (λ (q : AuthTokenPayload js.Value). q.public_key) same in
      let iat_same : iat ≡ p.iat = ap (λ (q : AuthTokenPayload js.Value). q.iat) same in
      (
        (
          bytes,
          object,
          key_value,
          iat_value,
          e1,
          e2,
          e4,
          e5 ∙ ap ok key_same,
          e6,
          e7 ∙ ap ok iat_same,
          exp_of-ExpHolds object p.exp (e8 ∙ ap ok exp_same) current,
        ),
        (verified, current, right),
      )

  verify_header-Accepted :
      (expected : Text) (t : AuthToken) (p : AuthTokenPayload js.Value)
      → verify_header js evp now expected t ≡ ok (some p)
      → HeaderHolds t × ClaimsHold t p × Accepted expected t p
  unfolding verify_header
  verify_header-Accepted expected t p h =
      let (bytes, e1, h1) = >>=-ok (base64url_decode t.header) _ h in
      let (header, e2, h2) = >>=-ok (js.parse bytes) _ h1 in
      let (alg, e3, h3) = >>=-ok (js.index header (text "alg")) _ h2 in
      let (ed25519, h4) = refuses _ _ p h3 in
      let (typ, e5, h5) = >>=-ok (js.index header (text "typ")) _ h4 in
      let (jwt, h6) = refuses _ _ p h5 in
      let (claims, accepted) = verify_claims-Accepted expected t p h6 in
      (
        (
          bytes,
          header,
          alg,
          typ,
          e1,
          e2,
          e3,
          passes (js.is_text alg (text "Ed25519")) ed25519,
          e5,
          passes (js.is_text typ (text "JWT")) jwt,
        ),
        claims,
        accepted,
      )
    where
      passes : (b : Bool) → not b ≡ false → b ≡ true
      passes true n = refl
      passes false n = cc

  verify_parts-Accepted :
      (expected : Text) (o : Option AuthToken) (p : AuthTokenPayload js.Value)
      → verify_parts js evp now expected o ≡ ok (some p)
      → (t : AuthToken) × (o ≡ some t) × HeaderHolds t × ClaimsHold t p × Accepted expected t p
  unfolding verify_parts
  verify_parts-Accepted expected none p h = cc
  verify_parts-Accepted expected (some t) p h =
      let (header, claims, accepted) =
        verify_header-Accepted expected t p (catches (verify_header js evp now expected t) p h) in
      (t, refl, header, claims, accepted)

  -- A token that `verifyAuthToken` accepts has exactly three parts with dots between them. The first is the
  -- JSON text, in base 64, of an object with `alg` Ed25519 and `typ` JWT, the second that of an object whose
  -- `publicKey` and `iat` are the ones returned; if that object has an `exp`, it is returned, and the
  -- token is used no later. OpenSSL verifies the third part as the signature of the text before it for
  -- the public key; and the key is the expected one in either case of its letters, if one is expected.
  pub verify_auth_token-Accepted :
      (token expected : Text) (p : AuthTokenPayload js.Value)
      → verify_auth_token js evp now token expected ≡ ok (some p)
      → (t : AuthToken) × Spells token t × HeaderHolds t × ClaimsHold t p × Accepted expected t p
  unfolding verify_auth_token
  verify_auth_token-Accepted token expected p h =
      let (t, e, header, claims, accepted) =
        verify_parts-Accepted expected (only_parts (parse_auth_token token)) p h in
      (t, only_parts-Spells token t e, header, claims, accepted)
