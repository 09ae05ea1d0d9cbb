-- ===== src/Runs/Signatures.antt =====
-- Adverts, and an instance of the Ed25519 parameter that meets its laws: one signature, which is the only
-- one that is verified.
use meshcore_cpp_decoder.Common.{
  ◌%◌, ◌^◌, ◌≡◌, refl, Bool, true, false, none, some, [], ◌∷◌, ◌++◌, arith, take, drop, replicate,
  Bytes, Text, text, ok,
}
use meshcore_cpp_decoder.Hex.{bytes_to_hex}
use meshcore_cpp_decoder.Hex.RoundTrip.{hex_to_bytes-bytes_to_hex}
use meshcore_cpp_decoder.Enums.{advert, flood, repeater, version1, payload_type_of, is_transport}
use meshcore_cpp_decoder.Payloads.{AdvertPayload, of_advert, valid_base}
use meshcore_cpp_decoder.Crypto.KeyStore.{text_eq}
use meshcore_cpp_decoder.Crypto.Ed25519.{Ed25519Evp, Ed25519Laws, verdict}
use meshcore_cpp_decoder.Decoders.Advert.Fields.{advert_of}
use meshcore_cpp_decoder.Decoders.Advert.Meaning.{latitude_of, longitude_of}
use meshcore_cpp_decoder.Decoders.Advert.Signature as Signature
use meshcore_cpp_decoder.Decoders.Advert.Signature.{with_verdict, signed_part}
use meshcore_cpp_decoder.Encoder.{EncodeResult, build_packet}
use meshcore_cpp_decoder.Encoder.Advert.{build_advert_payload}
use meshcore_cpp_decoder.Encoder.AdvertLayout.{sent_place}
use meshcore_cpp_decoder.Encoder.AdvertRoundTrip.{
  Works, ShownRole, ShownName, decode_with_verification-build_advert_payload,
}
use meshcore_cpp_decoder.Packet.{DecodedPacket}
use meshcore_cpp_decoder.Packet.Fields.{Fits}
use meshcore_cpp_decoder.Packet.Verification.{decode_with_verification}
use meshcore_cpp_decoder.Packet.Verification.Verdict.{decode_with_verification-build_packet}
use meshcore_cpp_decoder.Packet.Verification.Safety.{decode_with_verification-returns}
use meshcore_cpp_decoder.Runs.Sample.{sample_ssl}

abbrev nines : Bytes
nines = replicate 64 9

abbrev pub sample_evp : Ed25519Evp
sample_evp = record {
  raw_private_key = λ seed. true;
  raw_public_key = λ key. true;
  get_raw_public_key = λ seed. some (replicate 32 3);
  md_ctx_new = true;
  digest_sign_init = λ seed. true;
  digest_verify_init = λ key. true;
  digest_sign = λ seed message. some nines;
  digest_verify = λ key s message. text_eq s nines;
}

some_injective : {a b : Bytes} → some a ≡ some b → a ≡ b
some_injective h = cc

nines-same : text_eq nines nines ≡ true
unfolding text_eq
nines-same = refl

sample-Ed25519Laws : Ed25519Laws sample_evp
sample-Ed25519Laws = record {
  sign-length = λ seed message s e. rw (← some_injective e) refl;
  sign-IsBytes = λ seed message s e. rw (← some_injective e) (omega arith);
  verify-sign = λ seed key message s p e. rw (← some_injective e) nines-same;
}

-- A pair of a seed and a public key.
abbrev pair : Bytes
pair = replicate 64 3

abbrev public_key : Bytes
public_key = replicate 32 3

sample-Works : Works sample_evp (take 32 pair) public_key
sample-Works = record {
  pair = refl;
  private_key = refl;
  public_key = refl;
  context = refl;
  sign_init = refl;
  verify_init = refl;
  signs = λ message. (nines, refl);
}

abbrev name : Text
name = 72 ∷ 105 ∷ []

decode_with_verification-build_advert_payload_example :
    (r : EncodeResult) × (a : AdvertPayload) × (build_advert_payload
        (λ n. n % 2 ^ 32)
        sample_evp
        (bytes_to_hex pair)
        (bytes_to_hex public_key)
        1700000000
        name
        repeater
        (some (48123456, 4294967295))
      ≡ ok r)
    × (r.success ≡ true)
    × (Signature.decode_with_verification sample_evp r.bytes ≡ ok a)
    × (a.base ≡ valid_base advert)
    × (a.signature_valid ≡ some true)
    × (a.public_key ≡ bytes_to_hex public_key)
    × (a.timestamp ≡ 1700000000)
    × ShownRole repeater a.app_data.device_role
    × (a.app_data.latitude
        ≡ latitude_of (sent_place (λ n. n % 2 ^ 32) (some (48123456, 4294967295))))
    × (a.app_data.longitude
        ≡ longitude_of (sent_place (λ n. n % 2 ^ 32) (some (48123456, 4294967295))))
    × ShownName name a.app_data.name
decode_with_verification-build_advert_payload_example =
    decode_with_verification-build_advert_payload sample_evp sample-Ed25519Laws (bytes_to_hex pair)
      pair public_key sample-Works (hex_to_bytes-bytes_to_hex pair (omega arith)) refl (omega arith)
      refl (λ n. n % 2 ^ 32) (bytes_to_hex public_key) 1700000000 name repeater
      (some (48123456, 4294967295)) (λ n. omega arith)
      (hex_to_bytes-bytes_to_hex public_key (omega arith)) (omega arith) (omega arith)

-- An advert with a name, whose signature is not the one of the instance.
abbrev unsigned : Bytes
unsigned = replicate 100 3 ++ (0x81 ∷ 72 ∷ 105 ∷ [])

unsigned-Fits : Fits flood 4 unsigned (1 ∷ 2 ∷ []) 2 1 none
unfolding is_transport
unsigned-Fits = record {
  kind_small = omega arith;
  size_pos = omega arith;
  size_small = omega arith;
  count_small = omega arith;
  whole = refl;
  codes_fit = tt;
}

abbrev unsigned_verdict : Bool
unsigned_verdict =
    verdict sample_evp (take 64 (drop 36 unsigned)) (signed_part unsigned) (take 32 unsigned)

unsigned_verdict_run : unsigned_verdict ≡ false
unfolding verdict text_eq
unsigned_verdict_run = refl

decode_with_verification-build_packet_example :
    (r : EncodeResult) × (p : DecodedPacket) × (build_packet flood
        (payload_type_of 4)
        unsigned
        (1 ∷ 2 ∷ [])
        2
        none
        version1
      ≡ r)
    × (r.success ≡ true)
    × (decode_with_verification sample_ssl sample_evp (bytes_to_hex r.bytes) none ≡ ok p)
    × (p.is_valid ≡ unsigned_verdict)
    × (p.payload_decoded ≡ some (of_advert (with_verdict (advert_of unsigned) unsigned_verdict)))
    × (p.payload_raw ≡ bytes_to_hex unsigned)
decode_with_verification-build_packet_example =
    decode_with_verification-build_packet flood unsigned (1 ∷ 2 ∷ []) 2 1 none version1
      unsigned-Fits sample_ssl sample_evp none (omega arith) (omega arith) tt (omega arith)

decode_with_verification-returns_example :
    (p : DecodedPacket) × (decode_with_verification sample_ssl sample_evp (text "1100ff") none
      ≡ ok p)
decode_with_verification-returns_example =
    decode_with_verification-returns sample_ssl sample_evp (text "1100ff") none tt
