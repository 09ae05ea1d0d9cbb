-- ===== src/Packet/Verification/Verdict.antt =====
-- The verdict on the packets of adverts.
use meshcore_cpp_decoder.Common.{
  ℕ, ◌+◌, ◌*◌, ◌≤◌, ◌≡◌, refl, sym, ap, ◌∙◌, inl, inr, Bool, true, false, Option, some, List, ◌++◌,
  arith, le→ltb, low_bits, length, take, drop, Bytes, Text, IsBytes, ok,
}
use meshcore_cpp_decoder.Hex.{bytes_to_hex}
use meshcore_cpp_decoder.Hex.RoundTrip.{hex_to_bytes-bytes_to_hex}
use meshcore_cpp_decoder.Enums.{
  RouteType, PayloadType, PayloadVersion, advert, payload_type_of, route_type_of,
}
use meshcore_cpp_decoder.Payloads.{PayloadData, AdvertPayload, of_advert, valid_base}
use meshcore_cpp_decoder.Decoders.GroupText.Safety.{StoreFits}
use meshcore_cpp_decoder.Decoders.Advert
use meshcore_cpp_decoder.Decoders.Advert.Fields.{advert_of, advert_decode_lem}
use meshcore_cpp_decoder.Decoders.Advert.Signature as Signature
use meshcore_cpp_decoder.Decoders.Advert.Signature.{
  with_verdict, signed_part, advert_decode_with_verification_lem,
}
use meshcore_cpp_decoder.Crypto.OpenSsl.{OpenSsl}
use meshcore_cpp_decoder.Crypto.Ed25519.{Ed25519Evp, verdict}
use meshcore_cpp_decoder.Crypto.KeyStore.{MeshCoreKeyStore}
use meshcore_cpp_decoder.Encoder.{EncodeResult, built, build_packet}
use meshcore_cpp_decoder.Packet.{DecodedPacket, decode, decode_payload, decoded_as}
use meshcore_cpp_decoder.Packet.Hash.{path_offset}
use meshcore_cpp_decoder.Packet.Layout.{read-drop}
use meshcore_cpp_decoder.Packet.Fields.{Fits, header_byte-route}
use meshcore_cpp_decoder.Packet.Frame.{
  frame, build_packet_lem, header, len_byte, drop-frame, first_byte, payload_range, count-len_byte,
  size-len_byte,
}
use meshcore_cpp_decoder.Packet.RoundTrip.{frame-IsBytes, decode-build_packet}
use meshcore_cpp_decoder.Packet.Verification.{
  with_advert, verify_packet, verify_decoded, decode_with_verification,
}

-- A valid packet, whose advert is valid but for the verdict.
with_advert-with_verdict :
    (p : DecodedPacket) (a : AdvertPayload) (v : Bool)
    → p.is_valid ≡ true
    → a.base.is_valid ≡ true
    → ((with_advert p (with_verdict a v)).is_valid ≡ v)
      × ((with_advert p (with_verdict a v)).payload_decoded ≡ some (of_advert (with_verdict a v)))
      × ((with_advert p (with_verdict a v)).payload_raw ≡ p.payload_raw)
unfolding with_advert with_verdict
with_advert-with_verdict p a true hp ha = ground arith
with_advert-with_verdict p a false hp ha = ground arith

module _ (ssl : OpenSsl) (evp : Ed25519Evp) where
  verify_decoded_lem :
      (hex_data : Text) (p q : DecodedPacket) (kind : PayloadType) (d : Option PayloadData)
      (x : PayloadData)
      → kind ≡ advert
      → d ≡ some x
      → verify_packet ssl evp hex_data p ≡ ok q
      → verify_decoded ssl evp hex_data p kind d ≡ ok q
  unfolding verify_decoded
  verify_decoded_lem hex_data p q kind d x ek ed e = rw (ek, ed, e)

  -- The advert of a payload that is long enough, from the switch of `decode`.
  decode_payload-advert :
      (payload : Bytes) (hops : Option (List Text)) (store : Option MeshCoreKeyStore)
      (d : Option PayloadData)
      → 101 ≤ length payload
      → decode_payload ssl advert payload hops store ≡ ok d
      → d ≡ some (of_advert (advert_of payload))
  unfolding decode_payload decoded_as
  decode_payload-advert payload hops store d room e =
      let whole : Advert.decode payload ≡ ok (advert_of payload) =
        advert_decode_lem payload ∙ rw (le→ltb (length payload) 101 room) in
      ok_injective (sym e ∙ rw whole)
    where
      ok_injective : {a b : Option PayloadData} → ok a ≡ ok b → a ≡ b
      ok_injective h = cc

module _ (route : RouteType) (payload path : Bytes) (size count : ℕ) (codes : Option (ℕ × ℕ))
    (version : PayloadVersion) (fits : Fits route 4 payload path size count codes) where
  verify_frame :
      (ssl : OpenSsl) (evp : Ed25519Evp) (p : DecodedPacket) (a : AdvertPayload)
      → IsBytes payload
      → IsBytes path
      → Signature.decode_with_verification evp payload ≡ ok a
      → verify_packet ssl evp
          (bytes_to_hex (frame route 4 payload path size count codes version fits))
          p
        ≡ ok (with_advert p a)
  unfolding verify_packet
  verify_frame ssl evp p a hd hp e =
      let f : Bytes = frame route 4 payload path size count codes version fits in
      let b : ℕ = len_byte route 4 payload path size count codes version fits in
      let o : ℕ = path_offset route in
      let text_lem =
        hex_to_bytes-bytes_to_hex f
          (frame-IsBytes route 4 payload path size count codes version fits hd hp) in
      let first = first_byte route 4 payload path size count codes version fits in
      let same : route_type_of
            (low_bits (header route 4 payload path size count codes version fits) 2)
          ≡ route =
        unfold header in header_byte-route route (payload_type_of 4) version in
      let here =
        read-drop f o b (path ++ payload)
          (drop-frame route 4 payload path size count codes version fits) in
      let n = count-len_byte route 4 payload path size count codes version fits in
      let k = size-len_byte route 4 payload path size count codes version fits in
      let place : o + (1 + count * size) ≡ o + 1 + count * size = omega arith in
      rw
        (
          text_lem,
          first,
          same,
          here,
          n,
          k,
          place,
          payload_range route 4 payload path size count codes version fits,
          e,
        )
        (unfold with_advert in refl)

  -- `decodeWithVerification` of a packet that `buildPacket` has built around an advert of at least 101
  -- bytes: the packet is valid exactly if OpenSSL verifies the signature of the advert, with the
  -- advert's public key, for the advert's bytes without the signature. The payload of the packet is
  -- decoded to the advert with that verdict. The keys of the store have 16 to 32 bytes.
  pub decode_with_verification-build_packet :
      (ssl : OpenSsl) (evp : Ed25519Evp) (store : Option MeshCoreKeyStore)
      → IsBytes payload
      → IsBytes path
      → StoreFits store
      → 101 ≤ length payload
      → (r : EncodeResult) × (p : DecodedPacket) × (build_packet route
            (payload_type_of 4)
            payload
            path
            size
            codes
            version
          ≡ r)
        × (r.success ≡ true)
        × (decode_with_verification ssl evp (bytes_to_hex r.bytes) store ≡ ok p)
        × (p.is_valid
            ≡ verdict evp (take 64 (drop 36 payload)) (signed_part payload) (take 32 payload))
        × (p.payload_decoded
            ≡ some (
                of_advert (
                  with_verdict (advert_of payload) (
                    verdict evp
                      (take 64 (drop 36 payload))
                      (signed_part payload)
                      (take 32 payload)))))
        × (p.payload_raw ≡ bytes_to_hex payload)
  unfolding decode_with_verification payload_type_of built
  decode_with_verification-build_packet ssl evp store hd hp fit room =
      let f : Bytes = frame route 4 payload path size count codes version fits in
      let v : Bool =
        verdict evp (take 64 (drop 36 payload)) (signed_part payload) (take 32 payload) in
      let a : AdvertPayload = with_verdict (advert_of payload) v in
      let (
        r, p, er, success, decoded, valid, errors, er', kind, version', codes', len, hops', raw,
        value, total, hash,
      ) =
        decode-build_packet route 4 payload path size count codes version fits ssl store hd hp
          fit in
      let same : r ≡ built f =
        sym er ∙ build_packet_lem route 4 payload path size count codes version fits in
      let bytes_same : r.bytes ≡ f = ap (λ (x : EncodeResult). x.bytes) same in
      let again : decode ssl (bytes_to_hex f) store ≡ ok p =
        ap (λ x. decode ssl (bytes_to_hex x) store) (sym bytes_same) ∙ decoded in
      let some_advert =
        decode_payload-advert ssl evp payload _ store p.payload_decoded room value in
      let checked : Signature.decode_with_verification evp payload ≡ ok a =
        elim (advert_decode_with_verification_lem evp payload hd) [
          | inl (short, e) ↦ absurd (omega arith)
          | inr (long, e) ↦ e
        ] in
      let verified = verify_frame ssl evp p a hd hp checked in
      let (iv, idec, iraw) =
        with_advert-with_verdict p (advert_of payload) v valid (unfold valid_base in refl) in
      (
        built f,
        with_advert p a,
        build_packet_lem route 4 payload path size count codes version fits,
        refl,
        rw again (
            verify_decoded_lem ssl evp (bytes_to_hex f) p (with_advert p a) p.payload_type
              p.payload_decoded (of_advert (advert_of payload)) kind some_advert verified),
        iv,
        idec,
        iraw ∙ raw,
      )
