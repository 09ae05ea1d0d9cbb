-- ===== src/Packet/RoundTrip.antt =====
-- Decoding what `buildPacket` builds, and the hash of it.
use meshcore_cpp_decoder.Common.{
  ℕ, zero, suc, ◌+◌, ◌-◌, ◌*◌, ◌%◌, ◌^◌, ◌≤◌, ◌≡◌, refl, sym, ap, ◌∙◌, Bool, true, false, Option,
  none, some, [], arith, ◌==◌, if◌then◌else◌, shr, low_bits, length, drop, All-append, Bytes,
  IsByte, IsBytes, ok,
}
use meshcore_cpp_decoder.Hex.{bytes_to_hex}
use meshcore_cpp_decoder.Hex.RoundTrip.{hex_to_bytes-bytes_to_hex}
use meshcore_cpp_decoder.Enums.{
  RouteType, PayloadVersion, is_transport, payload_value, version_value, payload_type_of,
  route_value-lt, version_value-lt, payload_value-payload_type_of,
}
use meshcore_cpp_decoder.Decoders.GroupText.Safety.{StoreFits}
use meshcore_cpp_decoder.Crypto.OpenSsl.{OpenSsl}
use meshcore_cpp_decoder.Crypto.KeyStore.{MeshCoreKeyStore}
use meshcore_cpp_decoder.Packet.{DecodedPacket, new_packet, decode_payload, decode_from, decode}
use meshcore_cpp_decoder.Packet.Hash.{calculate_message_hash}
use meshcore_cpp_decoder.Packet.Digest.{
  message_digest, calculate_message_hash-total, content_hash-skip,
}
use meshcore_cpp_decoder.Packet.Fields.{
  CodesFit, Fits, header_byte-kind, header_byte-version, hops, shown,
}
use meshcore_cpp_decoder.Packet.Frame.{
  frame, build_packet_lem, header, tail_bytes, len_byte, frame_lem, drop-frame, envelope,
  decoded_frame,
}
use meshcore_cpp_decoder.Packet.Safety.{decode_payload-total}
use meshcore_cpp_decoder.Encoder.{
  EncodeResult, built, header_byte, uint16_le, transport_bytes, path_len_byte, build_packet,
}

transport_bytes-IsBytes :
    (t : Bool) (codes : Option (ℕ × ℕ))
    → CodesFit t codes
    → IsBytes (if t then transport_bytes codes else [])
unfolding transport_bytes uint16_le
transport_bytes-IsBytes false codes fit = tt
transport_bytes-IsBytes true none fit = tt
transport_bytes-IsBytes true (some (code1, code2)) (f1, f2) = omega arith

-- What the path-length byte counts beyond the bytes of the path.
pub beyond :
    (size count : ℕ)
    → 1 ≤ size
    → size ≤ 4
    → count ≤ 63
    → count % 64 + (size - 1) * 2 ^ 6 ≡ count * size + (size - 1) * (64 - count)
beyond zero count lo hi h = absurd (omega arith)
beyond (suc zero) count lo hi h = omega arith
beyond (suc (suc zero)) count lo hi h = omega arith
beyond (suc (suc (suc zero))) count lo hi h = omega arith
beyond (suc (suc (suc (suc zero)))) count lo hi h = omega arith
beyond (suc (suc (suc (suc (suc size))))) count lo hi h = absurd (omega arith)

module _ (route : RouteType) (kind : ℕ) (payload path : Bytes) (size count : ℕ)
    (codes : Option (ℕ × ℕ)) (version : PayloadVersion)
    (fits : Fits route kind payload path size count codes) where
  header-IsByte : IsByte (header route kind payload path size count codes version fits)
  unfolding header header_byte
  header-IsByte = omega (arith, route_value-lt route, version_value-lt version)

  len_byte-IsByte : IsByte (len_byte route kind payload path size count codes version fits)
  unfolding len_byte path_len_byte
  len_byte-IsByte = omega (arith, fits.size_small, fits.size_pos)

  pub frame-IsBytes :
      IsBytes payload
      → IsBytes path
      → IsBytes (frame route kind payload path size count codes version fits)
  frame-IsBytes hd hp = rw (frame_lem route kind payload path size count codes version fits) (
    header-IsByte,
    All-append IsByte _ _ (transport_bytes-IsBytes (is_transport route) codes fits.codes_fit)
        (unfold tail_bytes in (len_byte-IsByte, All-append IsByte path payload hp hd)),
  )

  -- Of every packet that `buildPacket` accepts, of a payload type below 16 but a trace, the message hash is the digest of the
  -- type, the version and the payload without its first `(size - 1) * (64 - count)` bytes, where the
  -- path has `count` hashes of `size` bytes: with one-byte hashes of the whole payload, whatever the
  -- route, the transport codes and the path; with longer ones the front of the payload is left out.
  pub calculate_message_hash-build_packet :
      ¬ (kind ≡ 9)
      → (r : EncodeResult) × (build_packet route
            (payload_type_of kind)
            payload
            path
            size
            codes
            version
          ≡ r)
        × (calculate_message_hash r.bytes route kind (version_value version)
            ≡ ok (
                message_digest kind
                  (version_value version)
                  (drop ((size - 1) * (64 - count)) payload)))
  unfolding calculate_message_hash built
  calculate_message_hash-build_packet other =
      let f : Bytes = frame route kind payload path size count codes version fits in
      let b : ℕ = len_byte route kind payload path size count codes version fits in
      let no_trace : (kind == 9) ≡ false = ground arith in
      let more : b ≡ length path + (size - 1) * (64 - count) =
        unfold len_byte path_len_byte in
        rw fits.whole (beyond size count fits.size_pos fits.size_small fits.count_small) in
      (
        built f,
        build_packet_lem route kind payload path size count codes version fits,
        rw no_trace (
            content_hash-skip f route kind (version_value version) b ((size - 1) * (64 - count))
              path payload (drop-frame route kind payload path size count codes version fits) more),
      )

  -- Every packet that `buildPacket` accepts, of a payload type below 16, decodes, as text, to what it was
  -- built from: the route,
  -- the type, the version, the transport codes (of a transport route), the path cut into its hashes,
  -- the payload, and what the decoder of that type returns for it; the keys of the store have 16 to
  -- 32 bytes.
  pub decode-build_packet :
      (ssl : OpenSsl) (store : Option MeshCoreKeyStore)
      → IsBytes payload
      → IsBytes path
      → StoreFits store
      → (r : EncodeResult) × (p : DecodedPacket) × (build_packet route
            (payload_type_of kind)
            payload
            path
            size
            codes
            version
          ≡ r)
        × (r.success ≡ true)
        × (decode ssl (bytes_to_hex r.bytes) store ≡ ok p)
        × (p.is_valid ≡ true)
        × (p.errors ≡ [])
        × (p.route_type ≡ route)
        × (p.payload_type ≡ payload_type_of kind)
        × (p.payload_version ≡ version)
        × (p.transport_codes ≡ shown (is_transport route) codes)
        × (p.path_length ≡ count)
        × (p.path ≡ hops size count path)
        × (p.payload_raw ≡ bytes_to_hex payload)
        × (decode_payload ssl (payload_type_of kind) payload (hops size count path) store
            ≡ ok p.payload_decoded)
        × (p.total_bytes ≡ length r.bytes)
        × (calculate_message_hash r.bytes route kind (version_value version) ≡ ok p.message_hash)
  unfolding decode decode_from built envelope new_packet
  decode-build_packet ssl store hd hp fit =
      let f : Bytes = frame route kind payload path size count codes version fits in
      let head : ℕ = header route kind payload path size count codes version fits in
      let (d, e) =
        decode_payload-total ssl (payload_type_of kind) payload (hops size count path) store hd
          fit in
      let (h, eh) =
        calculate_message_hash-total f route (low_bits (shr head 2) 4) (low_bits (shr head 6) 2) in
      let k : payload_value (payload_type_of kind) ≡ kind = payload_value-payload_type_of kind in
      let kind_lem : low_bits (shr head 2) 4 ≡ kind =
        unfold header in
        header_byte-kind route (payload_type_of kind) version (rw k fits.kind_small) ∙ k in
      let version_lem : low_bits (shr head 6) 2 ≡ version_value version =
        unfold header in header_byte-version route (payload_type_of kind) version in
      let text_lem = hex_to_bytes-bytes_to_hex f (frame-IsBytes hd hp) in
      (
        built f,
        record (envelope route kind payload path size count codes version fits) {
          payload_raw = bytes_to_hex payload;
          payload_decoded = d;
          message_hash = h;
          total_bytes = length f;
          is_valid = true;
        },
        build_packet_lem route kind payload path size count codes version fits,
        refl,
        rw text_lem (
            decoded_frame route kind payload path size count codes version fits ssl store d h e eh),
        refl,
        refl,
        refl,
        refl,
        refl,
        refl,
        refl,
        refl,
        refl,
        e,
        refl,
        ap (λ x. calculate_message_hash f route x (version_value version)) (sym kind_lem)
            ∙ ap (calculate_message_hash f route (low_bits (shr head 2) 4)) (sym version_lem)
            ∙ eh,
      )
