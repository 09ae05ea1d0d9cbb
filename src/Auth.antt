-- ===== src/Auth.antt =====
-- include/meshcore/utils/auth_token.h and src/utils/auth_token.cpp. The JSON library is a parameter, and
-- the clock is the argument `now`, the seconds since the epoch.
pub mod Steps
pub mod Parts
pub mod Sound
use meshcore_cpp_decoder.Common.{
  ℕ, zero, ◌+◌, Bool, false, not, ◌&&◌, ◌||◌, Option, none, some, List, [], ◌∷◌, ◌++◌, map, ◌==◌,
  if◌then◌else◌, Text, text, Outcome, ok, ◌>>=◌, ◌>>◌, catch,
}
use meshcore_cpp_decoder.Common.Int.{ℤ, pos, exceeds}
use meshcore_cpp_decoder.Hex.{bytes_to_hex, to_upper}
use meshcore_cpp_decoder.Base64.{base64url_encode, base64url_decode}
use meshcore_cpp_decoder.Crypto.KeyStore.{text_eq}
use meshcore_cpp_decoder.Crypto.Ed25519.{Ed25519Evp, sign, verify}
use meshcore_cpp_decoder.Encoder.Advert.{is_empty}

-- What the program uses of nlohmann::json.
pub record Json : Type 1 where
  pub Value : Type 0
  pub null : Value
  pub of_text : Text → Value
  pub of_int : ℤ → Value
  -- `object[key] = value`, where null becomes an object
  pub assign : Value → Text → Value → Value
  -- `value.dump()` and `json::parse(text)`
  pub dump : Value → Outcome Text
  pub parse : Text → Outcome Value
  -- `value[key]`, `value.contains(key)`, `value.get<std::string>()`, `value.get<int64_t>()`
  pub index : Value → Text → Outcome Value
  pub contains : Value → Text → Bool
  pub get_text : Value → Outcome Text
  pub get_int : Value → Outcome ℤ
  -- `value == text`
  pub is_text : Value → Text → Bool
  -- `value.value(key, default)`
  pub text_or : Value → Text → Text → Outcome Text
  pub int_or : Value → Text → ℤ → Outcome ℤ
  -- `value.is_null()`, `value.is_object()`, `value.items()`
  pub is_null : Value → Bool
  pub is_object : Value → Bool
  pub items : Value → List (Text × Value)

pub record AuthTokenPayload (V : Type 0) : Type 0 where
  pub public_key : Text
  pub iat : ℤ
  pub exp : Option ℤ
  pub extra_claims : V

pub record AuthToken : Type 0 where
  pub header : Text
  pub payload : Text
  pub signature : Text

-- `find('.')` and the two `substr` around it.
unfoldable pub in_front : ℕ → Option (Text × Text) → Option (Text × Text)
in_front c none = none
in_front c (some (a, b)) = some (c ∷ a, b)

unfoldable pub split_dot : Text → Option (Text × Text)
unfolding in_front
split_dot [] = none
split_dot (c ∷ s) = if c == b'.' then some ([], s) else in_front c (split_dot s)

unfoldable pub with_second : Text → Option (Text × Text) → Option AuthToken
with_second header none = none
with_second header (some (payload, signature)) =
    some (record { header = header; payload = payload; signature = signature })

unfoldable pub with_first : Option (Text × Text) → Option AuthToken
unfolding with_second
with_first none = none
with_first (some (header, rest)) = with_second header (split_dot rest)

-- `parseAuthToken`: a third dot stays in the signature.
unfoldable pub parse_auth_token : Text → Option AuthToken
unfolding with_first
parse_auth_token token = with_first (split_dot token)

-- The three parts of a token that `verifyAuthToken` takes apart: a third dot refuses it.
unfoldable pub only_parts : Option AuthToken → Option AuthToken
only_parts none = none
only_parts (some t) = elim (split_dot t.signature) [ none ↦ some t | some more ↦ none ]

-- `header + "." + payload`
unfoldable pub signing_input : Text → Text → Text
signing_input header payload = header ++ (b'.' ∷ payload)

-- `iat` of the payload, or the clock.
unfoldable pub issued_at : ℤ → ℤ → ℤ
issued_at now (pos zero) = now
issued_at now iat = iat

-- `exp.has_value() && now > exp.value()`
unfoldable pub expired : ℤ → Option ℤ → Bool
expired now none = false
expired now (some e) = exceeds now e

module _ (js : Json) where
  open js use {
    Value, null, of_text, of_int, assign, dump, parse, index, contains, get_text, get_int, is_text,
    text_or, int_or, is_null, is_object, items,
  }

  -- The loop that merges the extra claims.
  unfoldable pub merge : Value → List (Text × Value) → Value
  merge object [] = object
  merge object ((key, value) ∷ rest) = merge (assign object key value) rest

  unfoldable pub with_exp : Option ℤ → Value → Value
  with_exp none object = object
  with_exp (some e) object = assign object (text "exp") (of_int e)

  unfoldable pub with_claims : Value → Value → Value
  unfolding merge
  with_claims claims object =
      if not (is_null claims) && is_object claims then merge object (items claims) else object

  -- `payload.publicKey.empty() ? publicKeyHex : payload.publicKey`, in upper case
  unfoldable pub key_of : AuthTokenPayload Value → Text → Text
  key_of payload public_key_hex =
      map to_upper (if is_empty payload.public_key then public_key_hex else payload.public_key)

  unfoldable pub header_json : Value
  header_json =
      assign (assign null (text "alg") (of_text (text "Ed25519"))) (text "typ")
        (of_text (text "JWT"))

  unfoldable pub payload_json : ℤ → AuthTokenPayload Value → Text → Value
  unfolding with_exp with_claims issued_at key_of
  payload_json now payload public_key_hex = with_claims payload.extra_claims (
      with_exp payload.exp (
        assign (assign null (text "publicKey") (of_text (key_of payload public_key_hex)))
          (text "iat") (of_int (issued_at now payload.iat))))

  -- The members of an object but for the three that have fields.
  unfoldable pub collect : Value → List (Text × Value) → Value
  collect claims [] = claims
  collect claims ((key, value) ∷ rest) =
      collect
        (if not (text_eq key (text "publicKey"))
            && not (text_eq key (text "iat"))
            && not (text_eq key (text "exp"))
          then assign claims key value
          else claims)
        rest

  -- `if (obj.contains("exp")) result.exp = obj["exp"].get<int64_t>()`
  unfoldable pub exp_of : Value → Outcome (Option ℤ)
  exp_of object =
      if contains object (text "exp")
      then (do e ← index object (text "exp"); n ← get_int e; ok (some n))
      else ok none

  -- `decodeAuthTokenPayload`, once the payload is found.
  unfoldable pub decode_claims : Text → Outcome (AuthTokenPayload Value)
  unfolding exp_of
  decode_claims payload = do
    bytes ← base64url_decode payload
    object ← parse bytes
    key ← text_or object (text "publicKey") []
    iat ← int_or object (text "iat") (pos 0)
    exp ← exp_of object
    ok (record { public_key = key; iat = iat; exp = exp; extra_claims = null })

  unfoldable pub decode_parts : Option AuthToken → Outcome (Option (AuthTokenPayload Value))
  decode_parts none = ok none
  decode_parts (some t) = catch (do p ← decode_claims t.payload; ok (some p)) (λ what. ok none)

  -- `decodeAuthTokenPayload`
  unfoldable pub decode_auth_token_payload : Text → Outcome (Option (AuthTokenPayload Value))
  unfolding decode_parts
  decode_auth_token_payload token = decode_parts (parse_auth_token token)

  module _ (evp : Ed25519Evp) (now : ℤ) where
    -- `createAuthToken`
    unfoldable pub create_auth_token : AuthTokenPayload Value → Text → Text → Outcome Text
    unfolding signing_input
    create_auth_token payload private_key_hex public_key_hex = do
      header_text ← dump header_json
      payload_text ← dump (payload_json now payload public_key_hex)
      let input = signing_input (base64url_encode header_text) (base64url_encode payload_text)
      signature ← sign evp (bytes_to_hex input) private_key_hex (key_of payload public_key_hex)
      ok (input ++ (b'.' ∷ signature))

    -- The checks on the public key, the expiration and the signature, in this order.
    unfoldable pub checked :
        Text
        → AuthToken
        → Value
        → AuthTokenPayload Value
        → Outcome (Option (AuthTokenPayload Value))
    unfolding expired signing_input
    checked expected t object p =
        if not (is_empty expected)
          && not (text_eq (map to_upper p.public_key) (map to_upper expected))
        then ok none
        else if expired now p.exp
        then ok none
        else do
          good ←
              verify evp t.signature (bytes_to_hex (signing_input t.header t.payload)) p.public_key
          if not good
              then ok none
              else ok (some (record p { extra_claims = collect null (items object) }))

    -- The payload of a token whose header is in order.
    unfoldable pub verify_claims : Text → AuthToken → Outcome (Option (AuthTokenPayload Value))
    unfolding exp_of
    verify_claims expected t = do
      bytes ← base64url_decode t.payload
      object ← parse bytes
      if not (contains object (text "publicKey")) || not (contains object (text "iat"))
          then ok none
          else do
            key_value ← index object (text "publicKey")
            key ← get_text key_value
            iat_value ← index object (text "iat")
            iat ← get_int iat_value
            exp ← exp_of object
            checked expected t object
                (record { public_key = key; iat = iat; exp = exp; extra_claims = null })

    unfoldable pub verify_header : Text → AuthToken → Outcome (Option (AuthTokenPayload Value))
    verify_header expected t = do
      bytes ← base64url_decode t.header
      header ← parse bytes
      alg ← index header (text "alg")
      if not (is_text alg (text "Ed25519")) then ok none else do
        typ ← index header (text "typ")
        if not (is_text typ (text "JWT")) then ok none else verify_claims expected t

    unfoldable pub verify_parts :
        Text → Option AuthToken → Outcome (Option (AuthTokenPayload Value))
    verify_parts expected none = ok none
    verify_parts expected (some t) = catch (verify_header expected t) (λ what. ok none)

    -- `verifyAuthToken`
    unfoldable pub verify_auth_token : Text → Text → Outcome (Option (AuthTokenPayload Value))
    unfolding verify_parts only_parts
    verify_auth_token token expected = verify_parts expected (only_parts (parse_auth_token token))
