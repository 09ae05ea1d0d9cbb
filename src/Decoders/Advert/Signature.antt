-- ===== src/Decoders/Advert/Signature.antt =====
-- src/decoder/payload_decoders/advert.cpp, `decodeWithVerification`.
use meshcore_cpp_decoder.Common.{
  ℕ, ◌-◌, ◌≤◌, ◌<◌, ◌≡◌, refl, sym, ◌⊎◌, inl, inr, Bool, true, false, not, some, [], ◌∷◌, ◌++◌,
  append_assoc, arith, ltb, if◌then◌else◌, ltb→lt, ltb→le, Bool-cases, length, take, drop,
  length-drop, take-length, take_split, All-take, All-drop, Bytes, Text, IsByte, IsBytes, text,
  Outcome, ok, ◌>>=◌, catch, range, range_lem,
}
use meshcore_cpp_decoder.Hex.{bytes_to_hex}
use meshcore_cpp_decoder.Payloads.{AdvertPayload, valid_base, failed_base}
use meshcore_cpp_decoder.Decoders.Words.{uint32_le-word_at, word_at, uint32_le}
use meshcore_cpp_decoder.Decoders.Advert.{decode, failed}
use meshcore_cpp_decoder.Decoders.Advert.Fields.{advert_of, advert_decode_lem}
use meshcore_cpp_decoder.Crypto.Ed25519.{Ed25519Evp, verdict, verify_advertisement_signature}
use meshcore_cpp_decoder.Crypto.Ed25519.Verdict.{verify_advertisement_signature_lem}

-- The advert when its signature has been checked.
unfoldable pub with_verdict : AdvertPayload → Bool → AdvertPayload
with_verdict a true = record a { signature_valid = some true }
with_verdict a false = record a {
  signature_valid = some false;
  signature_error = some (text "Ed25519 signature verification failed");
  base = record a.base {
    is_valid = false;
    errors = a.base.errors ++ (text "Invalid Ed25519 signature" ∷ []);
  };
}

-- The handler of its `try` block.
unfoldable pub unverified : AdvertPayload → Text → AdvertPayload
unverified a what = record a {
  signature_valid = some false;
  signature_error = some what;
  base = record a.base {
    is_valid = false;
    errors = a.base.errors ++ ((text "Signature verification failed: " ++ what) ∷ []);
  };
}

module _ (evp : Ed25519Evp) where
  unfoldable pub verify_advert : Bytes → AdvertPayload → Outcome AdvertPayload
  unfolding with_verdict unverified
  verify_advert payload a =
      if not a.base.is_valid
      then ok a
      else catch
          (do
            app_data ← range payload 100 (length payload - 100)
            valid ←
                verify_advertisement_signature evp a.public_key a.signature a.timestamp
                  (bytes_to_hex app_data)
            ok (with_verdict a valid))
          (λ what. ok (unverified a what))

  -- `AdvertPayloadDecoder::decodeWithVerification`
  unfoldable pub decode_with_verification : Bytes → Outcome AdvertPayload
  decode_with_verification payload = do a ← decode payload; verify_advert payload a

-- The bytes that an advert signs: all but the signature.
abbrev pub signed_part : Bytes → Bytes
signed_part payload = take 36 payload ++ drop 100 payload

signed_message :
    (payload : Bytes)
    → IsBytes payload
    → 101 ≤ length payload
    → take 32 payload ++ (uint32_le (word_at payload 32) ++ drop 100 payload) ≡ signed_part payload
signed_message payload hb room =
    rw (uint32_le-word_at payload 32 hb (omega arith), take_split 32 4 36 payload refl)
      (sym (append_assoc (take 32 payload) (take 4 (drop 32 payload)) (drop 100 payload)))

module _ (evp : Ed25519Evp) where
  -- Of an advert of at least 101 bytes the decoder returns what `decode` returns, with the verdict: it is
  -- valid exactly if OpenSSL verifies its signature, with its public key, for the bytes of the payload
  -- without the signature. A shorter one is refused as `decode` does it.
  pub advert_decode_with_verification_lem :
      (payload : Bytes)
      → IsBytes payload
      → ((length payload < 101) × (decode_with_verification evp payload ≡ ok failed))
        ⊎ ((101 ≤ length payload)
            × (decode_with_verification evp payload
                ≡ ok (
                    with_verdict (advert_of payload) (
                      verdict evp
                        (take 64 (drop 36 payload))
                        (signed_part payload)
                        (take 32 payload)))))
  unfolding decode_with_verification verify_advert
  advert_decode_with_verification_lem payload hb = elim (Bool-cases (ltb (length payload) 101)) [
    | inl few ↦
        let short : length payload < 101 = ltb→lt (length payload) 101 few in
        inl (short, rw (advert_decode_lem payload, few) (unfold failed failed_base in refl))
    | inr enough ↦
        let room : 101 ≤ length payload = ltb→le (length payload) 101 enough in
        let n : ℕ = length payload - 100 in
        let whole = take-length n (drop 100 payload) (omega (arith, length-drop 100 payload)) in
        let checked =
          verify_advertisement_signature_lem evp (take 32 payload) (take 64 (drop 36 payload))
            (drop 100 payload) (word_at payload 32) (All-take IsByte 32 payload hb)
            (All-take IsByte 64 (drop 36 payload) (All-drop IsByte 36 payload hb))
            (All-drop IsByte 100 payload hb) in
        inr (
          room,
          rw (advert_decode_lem payload, enough)
              (unfold valid_base in
                rw (
                  range_lem payload 100 n (omega arith),
                  whole,
                  checked,
                  signed_message payload hb room,
                )),
        )
  ]
