-- ===== src/Structure/Agreement.antt =====
-- `decode` and `analyzeStructure` of the same packet.
use meshcore_cpp_decoder.Common.{
  ℕ, ◌+◌, ◌-◌, ◌*◌, ◌≤◌, ◌<◌, ◌≡◌, refl, ◌⊎◌, inl, inr, true, false, Option, none, [], ◌∷◌, map,
  arith, ltb, ltb→lt, ltb→le, le→ltb, Bool-cases, shr, low_bits, length, drop, All-take, All-drop,
  Bytes, Text, IsByte, IsBytes, Outcome, ok, fault, get_or, read_lem, range_lem,
}
use meshcore_cpp_decoder.Common.Int.{Double}
use meshcore_cpp_decoder.Hex.{bytes_to_hex, hex_to_bytes, to_upper}
use meshcore_cpp_decoder.Hex.RoundTrip.{hex_to_bytes-ok_iff}
use meshcore_cpp_decoder.Enums.{RouteType, PayloadType}
use meshcore_cpp_decoder.Decoders.Hashes.{hash_size, hash_count, read_hashes_lem}
use meshcore_cpp_decoder.Decoders.GroupText.Safety.{StoreFits}
use meshcore_cpp_decoder.Crypto.OpenSsl.{OpenSsl}
use meshcore_cpp_decoder.Crypto.KeyStore.{MeshCoreKeyStore}
use meshcore_cpp_decoder.Packet.{
  DecodedPacket, new_packet, Step, goes_on, raised, crashed, lift, and_then, read_uint16_le,
  parse_header, parse_transport, parse_path, parse_payload, caught, finish, decode_bytes,
  decode_from, decode,
}
use meshcore_cpp_decoder.Packet.Hash.{path_offset, calculate_message_hash}
use meshcore_cpp_decoder.Packet.Safety.{decode_payload-total}
use meshcore_cpp_decoder.Structure.Analysis.{analyze_bytes, analyze_from, analyze_structure}
use meshcore_cpp_decoder.Structure.Outline.{PacketStructure}
use meshcore_cpp_decoder.Structure.Analysis.Envelope.{
  route_of, kind_of, path_end, payload_of, path_offset-cases, Analyzed-ok, analyze_bytes-Analyzed,
  analyze_bytes-fault,
}

-- A packet that has no verdict and no payload yet.
abbrev Fresh : DecodedPacket → Type 0
Fresh p = (p.is_valid ≡ false) × (p.payload_decoded ≡ none)

-- A part of `decode` that goes on does so at `k`, inside the buffer, with the types that the header
-- names; one that throws does so since `k` is beyond the buffer.
abbrev LandsAt : RouteType → PayloadType → Bytes → ℕ → Step → Type 0
LandsAt route kind bytes k (goes_on p o) =
    (o ≡ k) × (k ≤ length bytes) × Fresh p × (p.route_type ≡ route) × (p.payload_type ≡ kind)
LandsAt route kind bytes k (raised p what) = (length bytes < k) × Fresh p
LandsAt route kind bytes k crashed = ⊥

parse_transport-LandsAt :
    (bytes : Bytes) (p : DecodedPacket)
    → Fresh p
    → 2 ≤ length bytes
    → LandsAt p.route_type p.payload_type bytes
        (path_offset p.route_type)
        (parse_transport bytes p 1)
unfolding parse_transport lift read_uint16_le
parse_transport-LandsAt bytes p fresh two = elim (path_offset-cases p.route_type) [
  | inr (t, one) ↦ rw t (omega arith, omega arith, fresh, refl, refl)
  | inl (t, five) ↦ elim (Bool-cases (ltb (length bytes) (1 + 4))) [
    | inl short ↦
        let few : length bytes < 1 + 4 = ltb→lt (length bytes) (1 + 4) short in
        rw (t, short) (omega arith, fresh)
    | inr long ↦
        let le : 1 + 4 ≤ length bytes = ltb→le (length bytes) (1 + 4) long in
        rw
          (
            t,
            long,
            read_lem bytes 1 (omega arith),
            read_lem bytes (1 + 1) (omega arith),
            read_lem bytes (1 + 2) (omega arith),
            read_lem bytes (1 + 2 + 1) (omega arith),
          )
          (omega arith, omega arith, fresh, refl, refl)
  ]
]

-- Where the path that begins at `o` ends.
abbrev end_from : Bytes → ℕ → ℕ
end_from bytes o = o + 1 + hash_count (get_or bytes o) * hash_size (get_or bytes o)

parse_path-LandsAt :
    (bytes : Bytes) (p : DecodedPacket) (o : ℕ)
    → Fresh p
    → LandsAt p.route_type p.payload_type bytes (end_from bytes o) (parse_path bytes p o)
unfolding parse_path lift
parse_path-LandsAt bytes p o fresh = elim (Bool-cases (ltb (length bytes) (o + 1))) [
  | inl short ↦
      let few : length bytes < o + 1 = ltb→lt (length bytes) (o + 1) short in
      rw short (omega arith, fresh)
  | inr long ↦
      let le : o + 1 ≤ length bytes = ltb→le (length bytes) (o + 1) long in
      let b : ℕ = get_or bytes o in
      let here = read_lem bytes o (omega arith) in
      elim (Bool-cases (ltb (length bytes) (o + 1 + hash_count b * hash_size b))) [
        | inl cut ↦ rw (long, here, cut) (ltb→lt (length bytes) (end_from bytes o) cut, fresh)
        | inr whole ↦
            let room : o + 1 + hash_count b * hash_size b ≤ length bytes =
              ltb→le (length bytes) (o + 1 + hash_count b * hash_size b) whole in
            let hs = read_hashes_lem bytes (hash_size b) (hash_count b) (o + 1) room in
            elim (Bool-cases (ltb 0 (hash_count b))) [
              | inl many ↦ rw (long, here, whole, many, hs) (refl, room, fresh, refl, refl)
              | inr empty ↦ rw (long, here, whole, empty) (refl, room, fresh, refl, refl)
            ]
      ]
]

and_then-LandsAt :
    (route : RouteType) (kind : PayloadType) (bytes : Bytes) (k : ℕ) (s : Step)
    → LandsAt route kind bytes k s
    → LandsAt route kind bytes (end_from bytes k) (and_then s (parse_path bytes))
unfolding and_then
and_then-LandsAt route kind bytes k (goes_on p o) (e, room, fresh, er, ek) =
    rw (← e, ← er, ← ek) (parse_path-LandsAt bytes p o fresh)
and_then-LandsAt route kind bytes k (raised p what) (over, invalid) = (omega arith, invalid)
and_then-LandsAt route kind bytes k crashed h = absurd h

-- What `decode` and `analyzeStructure` make of a packet: the first calls it valid and the second takes
-- it apart to the same payload and message hash, or the first calls it invalid and the second reads out
-- of bounds.
abbrev pub Agree : Bytes → DecodedPacket → Outcome PacketStructure → Type 0
Agree bytes p m =
    ((path_end bytes ≤ length bytes)
      × (p.is_valid ≡ true)
      × ((s : PacketStructure) × (m ≡ ok s)
          × (s.message_hash ≡ p.message_hash)
          × (s.payload.hex ≡ p.payload_raw)
          × (s.total_bytes ≡ p.total_bytes)))
    ⊎ ((length bytes < path_end bytes)
        × (p.is_valid ≡ false)
        × (p.payload_decoded ≡ none)
        × (m ≡ fault))

module _ (ssl : OpenSsl) (store : Option MeshCoreKeyStore) (fit : StoreFits store)
    (print_degrees : Double → Text) (bytes : Bytes) (raw : Text) (hb : IsBytes bytes)
    (two : 2 ≤ length bytes) where
  finish-Agree :
      (s : Step)
      → LandsAt (route_of bytes) (kind_of bytes) bytes (path_end bytes) s
      → (p : DecodedPacket) × (finish ssl (get_or bytes 0) bytes store s ≡ ok p)
        × Agree bytes p (analyze_bytes print_degrees bytes raw)
  unfolding finish parse_payload caught
  finish-Agree (goes_on p o) (e, room, fresh, er, ek) =
      let header : ℕ = get_or bytes 0 in
      let n : ℕ = length bytes - path_end bytes in
      let part = range_lem bytes (path_end bytes) n (omega arith) in
      let payload : Bytes = payload_of bytes in
      let (s, es, (total, hash, hex, start, laid)) =
        Analyzed-ok bytes _ (analyze_bytes-Analyzed print_degrees bytes raw hb two room) in
      let (d, ed) =
        decode_payload-total ssl p.payload_type payload p.path store
          (All-take IsByte n (drop (path_end bytes) bytes)
            (All-drop IsByte (path_end bytes) bytes hb))
          fit in
      let eh : calculate_message_hash bytes p.route_type (low_bits (shr header 2) 4)
            (low_bits (shr header 6) 2)
          ≡ ok s.message_hash =
        rw er hash in
      (
        record p {
          payload_raw = bytes_to_hex payload;
          payload_decoded = d;
          message_hash = s.message_hash;
          total_bytes = length bytes;
          is_valid = true;
        },
        rw (e, part, ed, eh),
        inl (room, refl, (s, es, refl, hex, total)),
      )
  finish-Agree (raised p what) (over, (invalid, empty)) = (
    record p { total_bytes = length bytes; errors = what ∷ [] },
    refl,
    inr (over, invalid, empty, analyze_bytes-fault print_degrees bytes raw hb two over),
  )
  finish-Agree crashed h = absurd h

  -- `decode` and `analyzeStructure` from the bytes on.
  pub decode_bytes-Agree :
      (p : DecodedPacket) × (decode_bytes ssl bytes store ≡ ok p)
      × Agree bytes p (analyze_from print_degrees (ok bytes) raw)
  unfolding decode_bytes analyze_from parse_header new_packet path_end
  decode_bytes-Agree =
      let long = le→ltb (length bytes) 2 two in
      let opened = parse_transport bytes (parse_header (get_or bytes 0) new_packet) 1 in
      let begun =
        parse_transport-LandsAt bytes (parse_header (get_or bytes 0) new_packet) (refl, refl) two in
      let landed =
        and_then-LandsAt (route_of bytes) (kind_of bytes) bytes (path_offset (route_of bytes))
          opened begun in
      let (p, e, agree) = finish-Agree (and_then opened (parse_path bytes)) landed in
      (p, rw (long, read_lem bytes 0 (omega arith)) e, rw long agree)

-- `analyzeStructure` agrees with `decode` on every packet of two bytes or more, with keys in the store of
-- 16 to 32 bytes. Where the path ends inside the packet, `decode` calls the packet valid and
-- `analyzeStructure` returns the same payload, message hash and number of bytes; where it does not,
-- `decode` returns an invalid packet, but `analyzeStructure`, which makes no check, reads out of bounds.
pub analyze_structure-Agree :
    (ssl : OpenSsl) (store : Option MeshCoreKeyStore) (print_degrees : Double → Text)
    (hex_data : Text) (bytes : Bytes)
    → StoreFits store
    → hex_to_bytes hex_data ≡ ok bytes
    → 2 ≤ length bytes
    → (p : DecodedPacket) × (decode ssl hex_data store ≡ ok p)
      × Agree bytes p (analyze_structure print_degrees hex_data store)
unfolding decode decode_from analyze_structure
analyze_structure-Agree ssl store print_degrees hex_data bytes fit e two =
    let hb = ((hex_to_bytes-ok_iff hex_data bytes).0 e).0 in
    rw e (decode_bytes-Agree ssl store fit print_degrees bytes (map to_upper hex_data) hb two)
