-- ===== src/Runs/Tokens.antt =====
-- Tokens, with an instance of the JSON parameter that knows one text and one object.
use meshcore_cpp_decoder.Common.{
  ◌≡◌, refl, true, false, some, [], ◌∷◌, ◌++◌, replicate, Text, text, ok, range,
}
use meshcore_cpp_decoder.Common.Int.{pos, exceeds}
use meshcore_cpp_decoder.Hex.{hex_to_bytes, bytes_to_hex, to_upper}
use meshcore_cpp_decoder.Base64.{
  base64url_encode, url_safe, base64_encode, base64_char, base64url_decode, decode_quads, fill_loop,
  add_char, standard_char, base64_char_to_value,
}
use meshcore_cpp_decoder.Crypto.Ed25519.{sign, verify, verdict}
use meshcore_cpp_decoder.Auth.{
  split_dot, Json, AuthTokenPayload, AuthToken, parse_auth_token, only_parts, signing_input, key_of,
  header_json, payload_json, verify_parts, verify_header, verify_claims, checked, exp_of, expired,
  collect, create_auth_token, verify_auth_token,
}
use meshcore_cpp_decoder.Auth.Parts.{parse_auth_token-create_auth_token}
use meshcore_cpp_decoder.Auth.Sound.{HeaderHolds, ClaimsHold, Accepted, verify_auth_token-Accepted}
use meshcore_cpp_decoder.Auth.Steps.{Spells}
use meshcore_cpp_decoder.Crypto.KeyStore.{text_eq}
use meshcore_cpp_decoder.Encoder.Advert.{is_empty}
use meshcore_cpp_decoder.Runs.Signatures.{sample_evp}

-- The public key of the instance of Ed25519.
abbrev key_text : Text
key_text = bytes_to_hex (replicate 32 3)

abbrev sample_json : Json
sample_json = record {
  Value = Text;
  null = [];
  of_text = λ t. t;
  of_int = λ i. [];
  assign = λ object key value. value;
  dump = λ v. ok (123 ∷ 125 ∷ []);
  parse = λ t. ok key_text;
  index = λ v key. ok v;
  contains = λ v key. true;
  get_text = λ v. ok v;
  get_int = λ v. ok (pos 1700000000);
  is_text = λ v t. true;
  text_or = λ v key t. ok v;
  int_or = λ v key i. ok (pos 1700000000);
  is_null = λ v. false;
  is_object = λ v. false;
  items = λ v. [];
}

abbrev claims : AuthTokenPayload Text
claims = record { public_key = []; iat = pos 0; exp = some (pos 1800000000); extra_claims = [] }

-- `e30` is `{}` in base 64.
abbrev token : Text
token = text "e30.e30." ++ bytes_to_hex (replicate 64 9)

token-created :
    create_auth_token sample_json sample_evp
      (pos 1700000000)
      claims
      (bytes_to_hex (replicate 64 3))
      key_text
    ≡ ok token
unfolding create_auth_token bytes_to_hex text sign hex_to_bytes base64url_encode url_safe
    base64_encode base64_char range
token-created = refl

parse_auth_token-create_auth_token_example :
    (t : AuthToken) × (header_text : Text) × (payload_text : Text) × (parse_auth_token token
      ≡ some t)
    × (only_parts (some t) ≡ some t)
    × (token ≡ signing_input t.header t.payload ++ (b'.' ∷ t.signature))
    × (sample_json.dump (header_json sample_json) ≡ ok header_text)
    × (sample_json.dump (payload_json sample_json (pos 1700000000) claims key_text)
        ≡ ok payload_text)
    × (t.header ≡ base64url_encode header_text)
    × (t.payload ≡ base64url_encode payload_text)
    × (sign sample_evp
          (bytes_to_hex (signing_input t.header t.payload))
          (bytes_to_hex (replicate 64 3))
          (key_of sample_json claims key_text)
        ≡ ok t.signature)
parse_auth_token-create_auth_token_example =
    parse_auth_token-create_auth_token sample_json sample_evp (pos 1700000000) claims
      (bytes_to_hex (replicate 64 3)) key_text token token-created

abbrev found : AuthTokenPayload Text
found = record {
  public_key = key_text;
  iat = pos 1700000000;
  exp = some (pos 1700000000);
  extra_claims = [];
}

token-verified :
    verify_auth_token sample_json sample_evp (pos 1700000000) token key_text ≡ ok (some found)
unfolding verify_auth_token verify_parts only_parts parse_auth_token verify_header verify_claims
    checked exp_of verify verdict bytes_to_hex text hex_to_bytes base64url_decode text_eq expired
    exceeds to_upper signing_input collect is_empty split_dot decode_quads fill_loop add_char
    standard_char base64_char_to_value
token-verified = refl

verify_auth_token-Accepted_example :
    (t : AuthToken) × Spells token t
    × HeaderHolds sample_json sample_evp (pos 1700000000) t
    × ClaimsHold sample_json sample_evp (pos 1700000000) t found
    × Accepted sample_json sample_evp (pos 1700000000) key_text t found
verify_auth_token-Accepted_example =
    verify_auth_token-Accepted sample_json sample_evp (pos 1700000000) token key_text found
      token-verified
