-- ===== src/Runs/Sample.antt =====
-- An instance of the OpenSSL parameter that meets its laws: digests of zeros, and a cipher that keeps
-- the bytes; and a channel key.
use meshcore_cpp_decoder.Common.{
  ◌%◌, ◌≤◌, ◌≡◌, refl, sym, ◌∙◌, true, [], ◌∷◌, map, arith, length, replicate, length-map, Bytes,
  IsBytes, text, ok,
}
use meshcore_cpp_decoder.Hex.{hex_to_bytes}
use meshcore_cpp_decoder.Crypto.OpenSsl.{OpenSsl, Laws}

abbrev pub sample_ssl : OpenSsl
sample_ssl = record {
  sha256 = λ d. replicate 32 0;
  hmac_sha256 = λ k d. replicate 32 0;
  aes128_ecb_encrypt = λ k d. map (λ b. b % 256) d;
  aes128_ecb_decrypt = λ k d. d;
  cipher_ctx_new = true;
}

map-IsBytes : (d : Bytes) → IsBytes (map (λ b. b % 256) d)
map-IsBytes [] = tt
map-IsBytes (b ∷ d) = (omega arith, map-IsBytes d)

map-of_bytes : (d : Bytes) → IsBytes d → map (λ b. b % 256) d ≡ d
map-of_bytes [] h = refl
map-of_bytes (b ∷ d) (hb, h) = let e : b % 256 ≡ b = omega arith in rw (e, map-of_bytes d h)

pub sample-Laws : Laws sample_ssl
sample-Laws = record {
  sha256-length = λ d. refl;
  sha256-IsBytes = λ d. omega arith;
  hmac-length = λ k d. refl;
  hmac-IsBytes = λ k d. omega arith;
  encrypt-length = λ k d a b. length-map (λ b. b % 256) d;
  encrypt-IsBytes = λ k d. map-IsBytes d;
  decrypt-encrypt = λ k d a h b. map-of_bytes d h;
}

abbrev pub sixteen : Bytes
sixteen = replicate 16 7

pub key_text : hex_to_bytes (text "07070707070707070707070707070707") ≡ ok sixteen
unfolding hex_to_bytes text
key_text = refl

ok_injective : {a b : Bytes} → ok a ≡ ok b → a ≡ b
ok_injective h = cc

pub sixteen_fits :
    (b : Bytes)
    → hex_to_bytes (text "07070707070707070707070707070707") ≡ ok b
    → (16 ≤ length b) × (length b ≤ 32)
sixteen_fits b e =
    let same : sixteen ≡ b = ok_injective (sym key_text ∙ e) in rw (← same) (omega arith)
