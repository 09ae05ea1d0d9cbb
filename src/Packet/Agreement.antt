-- ===== src/Packet/Agreement.antt =====
-- What `validate` says of the packets that `buildPacket` builds.
use meshcore_cpp_decoder.Common.{
  ℕ, suc, ◌+◌, ◌-◌, ◌*◌, ◌≤◌, ◌<◌, ◌≡◌, refl, ◌∙◌, inl, inr, Bool, true, false, ◌&&◌, Option, List,
  ◌∷◌, ◌++◌, arith, ltb, leb, if◌then◌else◌, ltb→lt, lt→ltb, ltb→le, le→ltb, le→leb, Bool-cases,
  low_bits, length, drop, length-append, Bytes, Text, IsBytes, ok,
}
use meshcore_cpp_decoder.Hex.{bytes_to_hex}
use meshcore_cpp_decoder.Hex.RoundTrip.{hex_to_bytes-bytes_to_hex}
use meshcore_cpp_decoder.Enums.{
  RouteType, PayloadVersion, is_transport, payload_type_of, route_type_of,
}
use meshcore_cpp_decoder.Packet.Hash.{path_offset}
use meshcore_cpp_decoder.Packet.Layout.{length-of_drop, read-drop}
use meshcore_cpp_decoder.Packet.Fields.{Fits, header_byte-route, path_offset_pos}
use meshcore_cpp_decoder.Packet.Frame.{
  frame, build_packet_lem, header, len_byte, drop-frame, first_byte,
}
use meshcore_cpp_decoder.Packet.RoundTrip.{frame-IsBytes, beyond}
use meshcore_cpp_decoder.Packet.Validate.{
  ValidationResult, error_if, validate_path, validate_bytes, validate_from, validate, verdict,
}
use meshcore_cpp_decoder.Encoder.{EncodeResult, built, path_len_byte, build_packet}

-- `validate` where the path-length byte `b` stands at `o` and `rest` bytes follow it.
validate_path_lem :
    (bytes : Bytes) (o b : ℕ) (rest : Bytes)
    → drop o bytes ≡ b ∷ rest
    → (e : List Text) × (validate_path bytes o ≡ ok e) × (verdict e ≡ ltb b (length rest))
unfolding validate_path error_if verdict
validate_path_lem bytes o b rest h =
    let len : length bytes ≡ o + suc (length rest) = length-of_drop bytes o b rest h in
    let long = le→ltb (length bytes) (o + 1) (omega arith) in
    let here = read-drop bytes o b rest h in
    (
      error_if (ltb (length bytes) (o + 1 + b)) "Packet too short for path data"
          ++ error_if (leb (length bytes) (o + 1 + b)) "No payload data found",
      rw (long, here),
      elim (Bool-cases (ltb b (length rest))) [
        | inl more ↦
            let lt : b < length rest = ltb→lt b (length rest) more in
            let n : o + 1 + b < length bytes = omega arith in
            let cut : ltb (length bytes) (o + 1 + b) ≡ false = ground (arith, n) in
            let nothing : leb (length bytes) (o + 1 + b) ≡ false = ground (arith, n) in
            rw (cut, nothing, more)
        | inr less ↦
            let ge : length rest ≤ b = ltb→le b (length rest) less in
            let nothing : leb (length bytes) (o + 1 + b) ≡ true =
              le→leb (length bytes) (o + 1 + b) (omega arith) in
            elim (Bool-cases (ltb (length bytes) (o + 1 + b))) [
              | inl cut ↦ rw (cut, less)
              | inr whole ↦ rw (whole, nothing, less)
            ]
      ],
    )

codes_room : (t : Bool) (n k : ℕ) → n ≡ (if t then 5 else 1) + suc k → (t && ltb n 5) ≡ false
codes_room true n k h = le→ltb n 5 (omega arith)
codes_room false n k h = refl

module _ (route : RouteType) (kind : ℕ) (payload path : Bytes) (size count : ℕ)
    (codes : Option (ℕ × ℕ)) (version : PayloadVersion)
    (fits : Fits route kind payload path size count codes) where
  skip_lem :
      ltb
        (len_byte route kind payload path size count codes version fits)
        (length (path ++ payload))
      ≡ ltb ((size - 1) * (64 - count)) (length payload)
  unfolding len_byte path_len_byte
  skip_lem =
      let over = beyond size count fits.size_pos fits.size_small fits.count_small in
      let sum = length-append path payload in
      let whole = fits.whole in
      elim (Bool-cases (ltb ((size - 1) * (64 - count)) (length payload))) [
        | inl lt ↦ rw lt (
            lt→ltb _ _ (
              omega
                (arith, ltb→lt ((size - 1) * (64 - count)) (length payload) lt, over, sum, whole)))
        | inr ge ↦ rw ge (
            le→ltb _ _ (
              omega
                (arith, ltb→le ((size - 1) * (64 - count)) (length payload) ge, over, sum, whole)))
      ]

  -- Of a packet that `buildPacket` accepts, of a payload type below 16, whose path has `count` hashes of `size` bytes, `validate`
  -- says that it is valid exactly if the payload has more than `(size - 1) * (64 - count)` bytes: with
  -- one-byte hashes if there is a payload, but with longer ones packets with a short payload are
  -- refused, whatever the payload is.
  pub validate-build_packet :
      IsBytes payload
      → IsBytes path
      → (r : EncodeResult) × (v : ValidationResult) × (build_packet route
            (payload_type_of kind)
            payload
            path
            size
            codes
            version
          ≡ r)
        × (r.success ≡ true)
        × (validate (bytes_to_hex r.bytes) ≡ ok v)
        × (v.is_valid ≡ ltb ((size - 1) * (64 - count)) (length payload))
  unfolding validate validate_from validate_bytes built path_offset error_if
  validate-build_packet hd hp =
      let f : Bytes = frame route kind payload path size count codes version fits in
      let b : ℕ = len_byte route kind payload path size count codes version fits in
      let placed = drop-frame route kind payload path size count codes version fits in
      let len = length-of_drop f (path_offset route) b (path ++ payload) placed in
      let (e, ee, ve) = validate_path_lem f (path_offset route) b (path ++ payload) placed in
      let text_lem =
        hex_to_bytes-bytes_to_hex f
          (frame-IsBytes route kind payload path size count codes version fits hd hp) in
      let long = le→ltb (length f) 2 (omega (arith, len, path_offset_pos route)) in
      let first = first_byte route kind payload path size count codes version fits in
      let same : route_type_of
            (low_bits (header route kind payload path size count codes version fits) 2)
          ≡ route =
        unfold header in header_byte-route route (payload_type_of kind) version in
      let codes_in : (is_transport route && ltb (length f) 5) ≡ false =
        codes_room (is_transport route) (length f) (length (path ++ payload)) len in
      (
        built f,
        record { is_valid = verdict e; errors = e },
        build_packet_lem route kind payload path size count codes version fits,
        refl,
        rw (text_lem, long, first, same, ee, codes_in),
        ve ∙ skip_lem,
      )
