-- ===== src/Packet/Safety.antt =====
-- The ways through `decode`, and the payload decoders it calls.
use meshcore_cpp_decoder.Common.{
  ℕ, ◌+◌, ◌-◌, ◌*◌, ◌≤◌, ◌≡◌, refl, ◌⊎◌, inl, inr, true, false, Option, none, some, List, [], ◌∷◌,
  arith, ltb, ltb→le, Bool-cases, shr, low_bits, length, take, drop, All-take, All-drop, Bytes,
  Text, IsByte, IsBytes, text, Outcome, ok, throws, fault, get_or, read_lem, range_lem,
}
use meshcore_cpp_decoder.Hex.{bytes_to_hex, hex_to_bytes}
use meshcore_cpp_decoder.Hex.RoundTrip.{hex_to_bytes-ok_iff}
use meshcore_cpp_decoder.Crypto.Channel.Safety.{hex_outcome}
use meshcore_cpp_decoder.Enums.{
  PayloadType, advert, trace, group_text, request, response, text_message, anon_request, ack, path,
  control, is_transport,
}
use meshcore_cpp_decoder.Payloads.{
  PayloadData, of_advert, of_trace, of_group_text, of_request, of_text_message, of_anon_request,
  of_ack, of_path, of_response,
}
use meshcore_cpp_decoder.Decoders.Hashes.{hash_size, hash_count, read_hashes_lem}
use meshcore_cpp_decoder.Decoders.Request
use meshcore_cpp_decoder.Decoders.Response
use meshcore_cpp_decoder.Decoders.TextMessage
use meshcore_cpp_decoder.Decoders.AnonRequest
use meshcore_cpp_decoder.Decoders.Ack
use meshcore_cpp_decoder.Decoders.Path
use meshcore_cpp_decoder.Decoders.Trace.Fields as TraceFields
use meshcore_cpp_decoder.Decoders.Control.Fields as ControlFields
use meshcore_cpp_decoder.Decoders.Advert.Fields as AdvertFields
use meshcore_cpp_decoder.Decoders.GroupText.Safety as GroupTextSafety
use meshcore_cpp_decoder.Decoders.GroupText.Safety.{StoreFits}
use meshcore_cpp_decoder.Crypto.OpenSsl.{OpenSsl}
use meshcore_cpp_decoder.Crypto.KeyStore.{MeshCoreKeyStore}
use meshcore_cpp_decoder.Packet.{
  DecodedPacket, new_packet, Step, goes_on, raised, crashed, lift, and_then, read_uint16_le,
  parse_header, parse_transport, parse_path, of_control, decoded_as, decode_payload, parse_payload,
  caught, finish, decode_bytes, decode_from, decode,
}
use meshcore_cpp_decoder.Packet.Digest.{calculate_message_hash-total}

decoded_as-total :
    {A : Type 0} (f : A → PayloadData) (m : Outcome A)
    → (a : A) × (m ≡ ok a)
    → (d : Option PayloadData) × (decoded_as f m ≡ ok d)
unfolding decoded_as
decoded_as-total f m (a, e) = (some (f a), rw e)

module _ (ssl : OpenSsl) where
  -- Every payload decoder returns on every payload, whatever the path of the packet holds, with keys
  -- in the store of 16 to 32 bytes: none of them reads out of bounds, and none throws.
  pub decode_payload-total :
      (kind : PayloadType) (payload : Bytes) (hashes : Option (List Text))
      (store : Option MeshCoreKeyStore)
      → IsBytes payload
      → StoreFits store
      → (d : Option PayloadData) × (decode_payload ssl kind payload hashes store ≡ ok d)
  unfolding decode_payload
  decode_payload-total advert payload hashes store bytes fit =
      decoded_as-total of_advert _ (_, AdvertFields.advert_decode_lem payload)
  decode_payload-total trace payload hashes store bytes fit =
      decoded_as-total of_trace _ (TraceFields.decode-total payload hashes)
  decode_payload-total group_text payload hashes store bytes fit =
      decoded_as-total of_group_text _ (GroupTextSafety.decode-total ssl payload store bytes fit)
  decode_payload-total request payload hashes store bytes fit =
      decoded_as-total of_request _ (Request.decode-total payload)
  decode_payload-total response payload hashes store bytes fit =
      decoded_as-total of_response _ (Response.decode-total payload)
  decode_payload-total text_message payload hashes store bytes fit =
      decoded_as-total of_text_message _ (TextMessage.decode-total payload)
  decode_payload-total anon_request payload hashes store bytes fit =
      decoded_as-total of_anon_request _ (AnonRequest.decode-total payload)
  decode_payload-total ack payload hashes store bytes fit =
      decoded_as-total of_ack _ (Ack.decode-total payload)
  decode_payload-total path payload hashes store bytes fit =
      decoded_as-total of_path _ (Path.decode-total payload)
  decode_payload-total control payload hashes store bytes fit =
      decoded_as-total of_control _ (_, ControlFields.control_decode_lem payload)
  decode_payload-total other payload hashes store bytes fit = (none, refl)

-- A packet that carries no verdict yet, at an offset inside the buffer.
abbrev Open : DecodedPacket → Type 0
Open p = (p.is_valid ≡ false) × (p.errors ≡ [])

abbrev Lands : Bytes → Step → Type 0
Lands bytes (goes_on p offset) = (offset ≤ length bytes) × Open p
Lands bytes (raised p what) = Open p
Lands bytes crashed = ⊥

parse_transport-Lands :
    (bytes : Bytes) (p : DecodedPacket) (o : ℕ)
    → o ≤ length bytes
    → Open p
    → Lands bytes (parse_transport bytes p o)
unfolding parse_transport lift read_uint16_le
parse_transport-Lands bytes p o h fresh = elim (Bool-cases (is_transport p.route_type)) [
  | inr direct ↦ rw direct (h, fresh)
  | inl route ↦ elim (Bool-cases (ltb (length bytes) (o + 4))) [
    | inl short ↦ rw (route, short) fresh
    | inr long ↦
        let le : o + 4 ≤ length bytes = ltb→le (length bytes) (o + 4) long in
        rw
          (
            route,
            long,
            read_lem bytes o (omega arith),
            read_lem bytes (o + 1) (omega arith),
            read_lem bytes (o + 2) (omega arith),
            read_lem bytes (o + 2 + 1) (omega arith),
          )
          (le, fresh)
  ]
]

parse_path-Lands :
    (bytes : Bytes) (p : DecodedPacket) (o : ℕ) → Open p → Lands bytes (parse_path bytes p o)
unfolding parse_path lift
parse_path-Lands bytes p o fresh = elim (Bool-cases (ltb (length bytes) (o + 1))) [
  | inl short ↦ rw short fresh
  | inr long ↦
      let le : o + 1 ≤ length bytes = ltb→le (length bytes) (o + 1) long in
      let b : ℕ = get_or bytes o in
      let here = read_lem bytes o (omega arith) in
      elim (Bool-cases (ltb (length bytes) (o + 1 + hash_count b * hash_size b))) [
        | inl cut ↦ rw (long, here, cut) fresh
        | inr whole ↦
            let room : o + 1 + hash_count b * hash_size b ≤ length bytes =
              ltb→le (length bytes) (o + 1 + hash_count b * hash_size b) whole in
            let hs = read_hashes_lem bytes (hash_size b) (hash_count b) (o + 1) room in
            elim (Bool-cases (ltb 0 (hash_count b))) [
              | inl many ↦ rw (long, here, whole, many, hs) (room, fresh)
              | inr empty ↦ rw (long, here, whole, empty) (room, fresh)
            ]
      ]
]

and_then-Lands :
    (bytes : Bytes) (s : Step) → Lands bytes s → Lands bytes (and_then s (parse_path bytes))
unfolding and_then
and_then-Lands bytes (goes_on p o) (h, fresh) = parse_path-Lands bytes p o fresh
and_then-Lands bytes (raised p what) h = h
and_then-Lands bytes crashed h = absurd h

-- How many bytes a text spells: none if it is not hexadecimal.
abbrev pub size_of : Outcome Bytes → ℕ
size_of (ok bytes) = length bytes
size_of (throws what) = 0
size_of fault = 0

-- A verdict: valid without an error, or invalid with one.
abbrev pub Judged : DecodedPacket → Type 0
Judged p =
    ((p.is_valid ≡ true) × (p.errors ≡ []))
    ⊎ ((p.is_valid ≡ false) × ((what : Text) × (p.errors ≡ what ∷ [])))

module _ (ssl : OpenSsl) (store : Option MeshCoreKeyStore) (fit : StoreFits store) where
  finish-returns :
      (header : ℕ) (bytes : Bytes) (s : Step)
      → IsBytes bytes
      → Lands bytes s
      → (p : DecodedPacket) × (finish ssl header bytes store s ≡ ok p)
        × (p.total_bytes ≡ length bytes)
        × Judged p
  unfolding finish parse_payload caught
  finish-returns header bytes (goes_on p o) hb (h, (fresh, no_error)) =
      let n : ℕ = length bytes - o in
      let payload : Bytes = take n (drop o bytes) in
      let part = range_lem bytes o n (omega arith) in
      let (d, ed) =
        decode_payload-total ssl p.payload_type payload p.path store
          (All-take IsByte n (drop o bytes) (All-drop IsByte o bytes hb)) fit in
      let (hash, eh) =
        calculate_message_hash-total bytes p.route_type (low_bits (shr header 2) 4)
          (low_bits (shr header 6) 2) in
      (
        record p {
          payload_raw = bytes_to_hex payload;
          payload_decoded = d;
          message_hash = hash;
          total_bytes = length bytes;
          is_valid = true;
        },
        rw (part, ed, eh),
        refl,
        inl (refl, no_error),
      )
  finish-returns header bytes (raised p what) hb (fresh, no_error) = (
    record p { total_bytes = length bytes; errors = what ∷ [] },
    refl,
    refl,
    inr (fresh, (what, refl)),
  )
  finish-returns header bytes crashed hb h = absurd h

  decode_bytes-returns :
      (bytes : Bytes)
      → IsBytes bytes
      → (p : DecodedPacket) × (decode_bytes ssl bytes store ≡ ok p)
        × (p.total_bytes ≡ length bytes)
        × Judged p
  unfolding decode_bytes new_packet parse_header
  decode_bytes-returns bytes hb = elim (Bool-cases (ltb (length bytes) 2)) [
    | inl short ↦ (
      record new_packet {
        errors = text "Packet too short (minimum 2 bytes required)" ∷ [];
        total_bytes = length bytes;
      },
      rw short,
      refl,
      inr (refl, (_, refl)),
    )
    | inr long ↦
        let le : 2 ≤ length bytes = ltb→le (length bytes) 2 long in
        let header : ℕ = get_or bytes 0 in
        let opened = parse_transport bytes (parse_header header new_packet) 1 in
        let lands =
          parse_transport-Lands bytes (parse_header header new_packet) 1 (omega arith)
            (refl, refl) in
        let (p, e, total, verdict) =
          finish-returns header bytes (and_then opened (parse_path bytes)) hb
            (and_then-Lands bytes opened lands) in
        (p, rw (long, read_lem bytes 0 (omega arith)) e, total, verdict)
  ]

  -- `decode` returns a packet for every text, with keys in the store of 16 to 32 bytes: it never
  -- throws and never reads out of bounds, however short or malformed the packet is. The packet is
  -- either valid and has no error, or invalid and has exactly one, and it counts all the bytes that the
  -- text spells.
  pub decode-returns :
      (hex_data : Text)
      → (p : DecodedPacket) × (decode ssl hex_data store ≡ ok p)
        × (p.total_bytes ≡ size_of (hex_to_bytes hex_data))
        × Judged p
  unfolding decode decode_from new_packet
  decode-returns hex_data = elim (hex_outcome hex_data) [
    | inl (bytes, eb) ↦
        let hb = ((hex_to_bytes-ok_iff hex_data bytes).0 eb).0 in
        let (p, e, total, verdict) = decode_bytes-returns bytes hb in
        (p, rw eb e, rw eb total, verdict)
    | inr (what, ew) ↦
        (record new_packet { errors = what ∷ [] }, rw ew, rw ew, inr (refl, (what, refl)))
  ]
