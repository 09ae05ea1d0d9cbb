-- ===== src/Structure/Analysis/Envelope.antt =====
-- Which packets `analyzeStructure` takes apart, and what it shows of them, next to `decode`.
use meshcore_cpp_decoder.Common.{
  ℕ, zero, suc, ◌+◌, ◌-◌, ◌*◌, ◌%◌, ◌^◌, ◌≤◌, ◌<◌, ◌≡◌, refl, ◌⊎◌, inl, inr, true, false, List, [],
  arith, ltb, leb, ltb→lt, lt→ltb, ltb→le, leb→le, Bool-cases, shr, low_bits, length, take, drop,
  Bytes, Text, IsBytes, Outcome, ok, throws, fault, get_or, Returns-ok, read_lem, range_lem,
  get_or-IsByte, read-fault, range-fault,
}
use meshcore_cpp_decoder.Common.Int.{Double}
use meshcore_cpp_decoder.Hex.{bytes_to_hex}
use meshcore_cpp_decoder.Enums.{
  RouteType, PayloadType, trace, route_type_of, payload_type_of, is_transport,
}
use meshcore_cpp_decoder.Decoders.Hashes.{hash_size, hash_count}
use meshcore_cpp_decoder.Decoders.Words.{read_uint32_le_lem, read_uint32_le-fault}
use meshcore_cpp_decoder.Packet.Hash.{path_offset, calculate_message_hash}
use meshcore_cpp_decoder.Packet.Digest.{calculate_message_hash-total}
use meshcore_cpp_decoder.Structure.Segment.{PacketSegment}
use meshcore_cpp_decoder.Structure.Analysis.{analyze_bytes}
use meshcore_cpp_decoder.Structure.Outline.{
  PacketStructure, transport_segments, snr_text, path_segments, payload_segment,
}
use meshcore_cpp_decoder.Structure.Analysis.Parts.{Laid, payload_segments-Laid}

-- The route type and the payload type that the header names, and where its bytes say that the payload
-- begins.
abbrev pub route_of : Bytes → RouteType
route_of bytes = route_type_of (low_bits (get_or bytes 0) 2)

abbrev pub kind_of : Bytes → PayloadType
kind_of bytes = payload_type_of (low_bits (shr (get_or bytes 0) 2) 4)

unfoldable pub path_end : Bytes → ℕ
path_end bytes =
    let o = path_offset (route_of bytes) in
    o + 1 + hash_count (get_or bytes o) * hash_size (get_or bytes o)

-- The length of a path fits the uint8_t.
path_length-lt : (b : ℕ) → b < 256 → hash_count b * hash_size b % 2 ^ 8 ≡ hash_count b * hash_size b
unfolding hash_count hash_size
path_length-lt b h = grind arith

pub path_offset-cases :
    (r : RouteType)
    → ((is_transport r ≡ true) × (path_offset r ≡ 5))
      ⊎ ((is_transport r ≡ false) × (path_offset r ≡ 1))
unfolding path_offset
path_offset-cases r = elim (Bool-cases (is_transport r)) [
  | inl t ↦ inl (t, rw t)
  | inr t ↦ inr (t, rw t)
]

transport_segments-total :
    (r : RouteType) (bytes : Bytes)
    → path_offset r ≤ length bytes
    → (segs : List PacketSegment) × (transport_segments r bytes ≡ ok segs)
unfolding transport_segments
transport_segments-total r bytes room = elim (path_offset-cases r) [
  | inl (t, five) ↦ Returns-ok _ (rw (t, read_uint32_le_lem bytes 1 (omega arith)) tt)
  | inr (t, one) ↦ ([], rw t)
]

transport_segments-cases :
    (r : RouteType) (bytes : Bytes)
    → ((segs : List PacketSegment) × (transport_segments r bytes ≡ ok segs))
      ⊎ (transport_segments r bytes ≡ fault)
transport_segments-cases r bytes = elim (Bool-cases (leb (path_offset r) (length bytes))) [
  | inl room ↦ inl (transport_segments-total r bytes (leb→le (path_offset r) (length bytes) room))
  | inr short ↦ elim (path_offset-cases r) [
    | inl (t, five) ↦
        let few : length bytes < 5 = ground arith in
        inr (unfold transport_segments in rw (t, read_uint32_le-fault bytes 1 (omega arith)))
    | inr (t, one) ↦ inl ([], unfold transport_segments in rw t)
  ]
]

snr_text-total :
    (bytes : Bytes) (o rounds i : ℕ)
    → o + i + rounds ≤ length bytes
    → (t : Text) × (snr_text bytes o rounds i ≡ ok t)
unfolding snr_text
snr_text-total bytes o zero i room = ([], refl)
snr_text-total bytes o (suc rounds) i room =
    let (rest, e) = snr_text-total bytes o rounds (i + 1) (omega arith) in
    Returns-ok _ (rw (read_lem bytes (o + i) (omega arith), e) tt)

path_segments-total :
    (kind : PayloadType) (bytes : Bytes) (n o : ℕ)
    → o + n ≤ length bytes
    → (segs : List PacketSegment) × (path_segments kind bytes n o ≡ ok segs)
unfolding path_segments
path_segments-total trace bytes n o room = elim (Bool-cases (ltb 0 n)) [
  | inl more ↦
      let (values, e) = snr_text-total bytes o n 0 (omega arith) in
      Returns-ok _ (rw (more, e, range_lem bytes o n room) tt)
  | inr empty ↦ ([], rw empty)
]
path_segments-total other bytes n o room = elim (Bool-cases (ltb 0 n)) [
  | inl more ↦ Returns-ok _ (rw (more, range_lem bytes o n room) tt)
  | inr empty ↦ ([], rw empty)
]

payload_segment-total :
    (kind : PayloadType) (bytes : Bytes) (o : ℕ)
    → o ≤ length bytes
    → (segs : List PacketSegment) × (payload_segment kind bytes o ≡ ok segs)
unfolding payload_segment
payload_segment-total kind bytes o room = elim (Bool-cases (ltb o (length bytes))) [
  | inl more ↦ Returns-ok _ (rw (more, range_lem bytes o (length bytes - o) (omega arith)) tt)
  | inr empty ↦ ([], rw empty)
]

snr_text-fault :
    (bytes : Bytes) (o rounds i : ℕ)
    → o + i ≤ length bytes
    → length bytes < o + i + rounds
    → snr_text bytes o rounds i ≡ fault
unfolding snr_text
snr_text-fault bytes o zero i room over = absurd (omega arith)
snr_text-fault bytes o (suc rounds) i room over = elim (Bool-cases (ltb (o + i) (length bytes))) [
  | inl more ↦
      let lt : o + i < length bytes = ltb→lt (o + i) (length bytes) more in
      rw (
        read_lem bytes (o + i) lt,
        snr_text-fault bytes o rounds (i + 1) (omega arith) (omega arith),
      )
  | inr here ↦ rw (read-fault bytes (o + i) (ltb→le (o + i) (length bytes) here))
]

path_segments-fault :
    (kind : PayloadType) (bytes : Bytes) (n o : ℕ)
    → o ≤ length bytes
    → length bytes < o + n
    → path_segments kind bytes n o ≡ fault
unfolding path_segments
path_segments-fault trace bytes n o room over =
    rw (lt→ltb 0 n (omega arith), snr_text-fault bytes o n 0 (omega arith) (omega arith))
path_segments-fault other bytes n o room over =
    rw (lt→ltb 0 n (omega arith), range-fault bytes o n over)

-- What lies behind the path.
abbrev pub payload_of : Bytes → Bytes
payload_of bytes = take (length bytes - path_end bytes) (drop (path_end bytes) bytes)

-- What the structure says of the packet.
abbrev pub Describes : Bytes → PacketStructure → Type 0
Describes bytes s =
    (s.total_bytes ≡ length bytes)
    × (calculate_message_hash bytes (route_of bytes) (low_bits (shr (get_or bytes 0) 2) 4)
          (low_bits (shr (get_or bytes 0) 6) 2)
        ≡ ok s.message_hash)
    × (s.payload.hex ≡ bytes_to_hex (payload_of bytes))
    × (s.payload.start_byte ≡ path_end bytes)
    × Laid (kind_of bytes) (payload_of bytes) s.payload.segments

abbrev Analyzed : Bytes → Outcome PacketStructure → Type 0
Analyzed bytes (ok s) = Describes bytes s
Analyzed bytes (throws what) = ⊥
Analyzed bytes fault = ⊥

pub Analyzed-ok :
    (bytes : Bytes) (m : Outcome PacketStructure)
    → Analyzed bytes m
    → (s : PacketStructure) × (m ≡ ok s) × Describes bytes s
Analyzed-ok bytes (ok s) h = (s, refl, h)
Analyzed-ok bytes (throws what) h = absurd h
Analyzed-ok bytes fault h = absurd h

module _ (print_degrees : Double → Text) (bytes : Bytes) (raw : Text) where
  -- Where the path ends inside the buffer.
  pub analyze_bytes-Analyzed :
      IsBytes bytes
      → 2 ≤ length bytes
      → path_end bytes ≤ length bytes
      → Analyzed bytes (analyze_bytes print_degrees bytes raw)
  unfolding analyze_bytes path_end
  analyze_bytes-Analyzed hb two room =
      let header : ℕ = get_or bytes 0 in
      let route = route_of bytes in
      let o : ℕ = path_offset route in
      let b : ℕ = get_or bytes o in
      let n : ℕ = hash_count b * hash_size b in
      let fits : n % 2 ^ 8 ≡ n = path_length-lt b (get_or-IsByte bytes o hb) in
      let (codes, e1) = transport_segments-total route bytes (omega arith) in
      let (hops, e2) = path_segments-total (kind_of bytes) bytes n (o + 1) (omega arith) in
      let (front, e3) = payload_segment-total (kind_of bytes) bytes (o + 1 + n) (omega arith) in
      let part = range_lem bytes (o + 1 + n) (length bytes - (o + 1 + n)) (omega arith) in
      let (segs, e4, laid) =
        payload_segments-Laid print_degrees (kind_of bytes) (payload_of bytes) in
      let (hash, e5) =
        calculate_message_hash-total bytes route (low_bits (shr header 2) 4)
          (low_bits (shr header 6) 2) in
      rw
        (
          read_lem bytes 0 (omega arith),
          e1,
          read_lem bytes o (omega arith),
          fits,
          e2,
          e3,
          part,
          e4,
          e5,
        )
        (refl, e5, refl, refl, laid)

  pub analyze_bytes-fault :
      IsBytes bytes
      → 2 ≤ length bytes
      → length bytes < path_end bytes
      → analyze_bytes print_degrees bytes raw ≡ fault
  unfolding analyze_bytes path_end
  analyze_bytes-fault hb two over =
      let route = route_of bytes in
      let o : ℕ = path_offset route in
      let b : ℕ = get_or bytes o in
      let n : ℕ = hash_count b * hash_size b in
      let fits : n % 2 ^ 8 ≡ n = path_length-lt b (get_or-IsByte bytes o hb) in
      let first = read_lem bytes 0 (omega arith) in
      elim (Bool-cases (ltb o (length bytes))) [
        | inl there ↦
            let lt : o < length bytes = ltb→lt o (length bytes) there in
            let (codes, e1) = transport_segments-total route bytes (omega arith) in
            rw (
              first,
              e1,
              read_lem bytes o lt,
              fits,
              path_segments-fault (kind_of bytes) bytes n (o + 1) (omega arith) over,
            )
        | inr missing ↦
            let le : length bytes ≤ o = ltb→le o (length bytes) missing in
            elim (transport_segments-cases route bytes) [
              | inl (codes, e1) ↦ rw (first, e1, read-fault bytes o le)
              | inr e1 ↦ rw (first, e1)
            ]
      ]
