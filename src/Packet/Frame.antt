-- ===== src/Packet/Frame.antt =====
-- The packet that `buildPacket` builds, and how `decode` takes it apart.
use meshcore_cpp_decoder.Common.{
  ℕ, ◌+◌, ◌-◌, ◌*◌, ◌/◌, ◌%◌, ◌≡◌, refl, sym, ap, ◌∙◌, Bool, true, false, ◌&&◌, Option, none, some,
  [], ◌∷◌, ◌++◌, append-nil, arith, ltb, if◌then◌else◌, le→ltb, shr, low_bits, length, drop,
  length-append, Bytes, Text, ok, read, range,
}
use meshcore_cpp_decoder.Hex.{bytes_to_hex}
use meshcore_cpp_decoder.Enums.{
  RouteType, PayloadVersion, is_transport, payload_value, payload_type_of,
  payload_version_of-version_value, payload_value-payload_type_of,
}
use meshcore_cpp_decoder.Payloads.{PayloadData}
use meshcore_cpp_decoder.Decoders.Hashes.{hash_size, hash_count}
use meshcore_cpp_decoder.Crypto.OpenSsl.{OpenSsl}
use meshcore_cpp_decoder.Crypto.KeyStore.{MeshCoreKeyStore}
use meshcore_cpp_decoder.Packet.{
  DecodedPacket, new_packet, goes_on, and_then, parse_header, parse_transport, parse_path,
  decode_payload, parse_payload, finish, decode_bytes,
}
use meshcore_cpp_decoder.Packet.Hash.{path_offset, calculate_message_hash}
use meshcore_cpp_decoder.Packet.Layout.{
  parse_path_lem, length-of_drop, drop-past, drop-next, range-drop,
}
use meshcore_cpp_decoder.Encoder.{
  built, header_byte, transport_bytes, path_len_byte, assemble, build_packet,
}
use meshcore_cpp_decoder.Packet.Fields.{
  CodesFit, Fits, div_mul, drop-transport_bytes, hash_count-path_len_byte, hash_size-path_len_byte,
  header_byte-kind, header_byte-route, header_byte-version, hops, mod_mul, path_offset_pos, shown,
  transport_step, with_codes-shown,
}

module _ (route : RouteType) (kind : ℕ) (payload path : Bytes) (size count : ℕ)
    (codes : Option (ℕ × ℕ)) (version : PayloadVersion)
    (fits : Fits route kind payload path size count codes) where
  codes_present : (is_transport route && elim codes [ none ↦ true | some c ↦ false ]) ≡ false
  codes_present = present (is_transport route) codes fits.codes_fit
    where
      present :
          (t : Bool) (cs : Option (ℕ × ℕ))
          → CodesFit t cs
          → (t && elim cs [ none ↦ true | some c ↦ false ]) ≡ false
      present false cs h = refl
      present true none h = absurd h
      present true (some c) h = refl

  -- The bytes of the packet.
  unfoldable pub frame : Bytes
  frame = assemble route (payload_type_of kind) payload path size codes version

  pub build_packet_lem :
      build_packet route (payload_type_of kind) payload path size codes version ≡ built frame
  unfolding build_packet frame
  build_packet_lem =
      let q : length path / size ≡ count = rw fits.whole (div_mul count size fits.size_pos) in
      let r : length path % size ≡ 0 = rw fits.whole (mod_mul count size fits.size_pos) in
      rw (
        le→ltb size 1 fits.size_pos,
        le→ltb 4 size fits.size_small,
        r,
        q,
        le→ltb 63 count fits.count_small,
        codes_present,
      )

  unfoldable pub header : ℕ
  header = header_byte route (payload_type_of kind) version

  unfoldable pub len_byte : ℕ
  len_byte = path_len_byte count size

  unfoldable pub tail_bytes : Bytes
  tail_bytes = len_byte ∷ (path ++ payload)

  pub frame_lem :
      frame ≡ header ∷ ((if is_transport route then transport_bytes codes else []) ++ tail_bytes)
  unfolding frame assemble header tail_bytes len_byte
  frame_lem =
      let q : length path / size ≡ count = rw fits.whole (div_mul count size fits.size_pos) in rw q

  pub drop-frame : drop (path_offset route) frame ≡ len_byte ∷ (path ++ payload)
  unfolding path_offset tail_bytes
  drop-frame =
      ap (drop (path_offset route)) frame_lem
      ∙ drop-transport_bytes (is_transport route) codes header tail_bytes fits.codes_fit

  pub count-len_byte : hash_count len_byte ≡ count
  unfolding len_byte
  count-len_byte = hash_count-path_len_byte count size (omega (arith, fits.count_small))

  pub size-len_byte : hash_size len_byte ≡ size
  unfolding len_byte
  size-len_byte = hash_size-path_len_byte count size fits.size_pos

  -- The packet before its payload is looked at.
  unfoldable pub envelope : DecodedPacket
  envelope = record new_packet {
    route_type = route;
    payload_type = payload_type_of kind;
    payload_version = version;
    transport_codes = shown (is_transport route) codes;
    path_length = count;
    path = hops size count path;
  }

  -- The packet behind its header byte.
  opened : DecodedPacket
  opened = record new_packet {
    route_type = route;
    payload_type = payload_type_of kind;
    payload_version = version;
  }

  header_lem : parse_header header new_packet ≡ opened
  unfolding parse_header header opened
  header_lem =
      let k : payload_value (payload_type_of kind) ≡ kind = payload_value-payload_type_of kind in
      rw (
        header_byte-route route (payload_type_of kind) version,
        header_byte-kind route (payload_type_of kind) version (rw k fits.kind_small),
        header_byte-version route (payload_type_of kind) version,
        k,
        payload_version_of-version_value version,
      )

  envelope_lem :
      and_then (parse_transport frame (parse_header header new_packet) 1) (parse_path frame)
      ≡ goes_on envelope (path_offset route + 1 + count * size)
  unfolding new_packet envelope opened path_offset and_then
  envelope_lem =
      let shown_lem = with_codes-shown (is_transport route) codes opened refl in
      let step =
        ap (λ f. parse_transport f opened 1) frame_lem
        ∙ transport_step (is_transport route) codes header tail_bytes opened fits.codes_fit refl
        ∙ ap (λ q. goes_on q (path_offset route)) shown_lem in
      let fields : length path ≡ hash_count len_byte * hash_size len_byte =
        rw (count-len_byte, size-len_byte) fits.whole in
      let behind =
        parse_path_lem frame (record opened { transport_codes = shown (is_transport route) codes })
          (path_offset route) len_byte path payload drop-frame fields in
      rw (header_lem, step) (behind ∙ rw (count-len_byte, size-len_byte))

  -- How many bytes the packet has, and where its payload begins.
  pub length-frame : length frame ≡ path_offset route + 1 + count * size + length payload
  length-frame = omega (
    arith,
    length-of_drop frame (path_offset route) len_byte (path ++ payload) drop-frame,
    length-append path payload,
    fits.whole,
  )

  pub payload_range :
      range frame
        (path_offset route + 1 + count * size)
        (length frame - (path_offset route + 1 + count * size))
      ≡ ok payload
  payload_range =
      let o : ℕ = path_offset route + 1 + count * size in
      let behind : drop o frame ≡ payload =
        drop-past frame (path_offset route + 1) (count * size) path payload
          (drop-next frame (path_offset route) len_byte (path ++ payload) drop-frame)
          (sym fits.whole) in
      range-drop frame o (length frame - o) payload [] (behind ∙ sym (append-nil payload))
        (omega (arith, length-frame)) (omega (arith, length-frame))

  pub first_byte : read frame 0 ≡ ok header
  unfolding read
  first_byte = rw frame_lem

  -- The packet that `decode` returns, but for the message hash.
  pub decoded_frame :
      (ssl : OpenSsl) (store : Option MeshCoreKeyStore) (d : Option PayloadData) (h : Text)
      → decode_payload ssl (payload_type_of kind) payload (hops size count path) store ≡ ok d
      → calculate_message_hash frame route (low_bits (shr header 2) 4) (low_bits (shr header 6) 2)
        ≡ ok h
      → decode_bytes ssl frame store
        ≡ ok (record envelope {
          payload_raw = bytes_to_hex payload;
          payload_decoded = d;
          message_hash = h;
          total_bytes = length frame;
          is_valid = true;
        })
  unfolding decode_bytes finish parse_payload envelope
  decoded_frame ssl store d h e f =
      let long : ltb (length frame) 2 ≡ false =
        le→ltb (length frame) 2 (omega (arith, length-frame, path_offset_pos route)) in
      rw (long, first_byte, envelope_lem, payload_range, e, f)
