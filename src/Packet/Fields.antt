-- ===== src/Packet/Fields.antt =====
-- The header byte, the transport codes and the path-length byte: what `buildPacket` writes and what
-- `decode` reads.
use meshcore_cpp_decoder.Common.{
  ℕ, ◌+◌, ◌*◌, ◌/◌, ◌%◌, ◌^◌, ◌≤◌, ◌<◌, ◌≡◌, refl, Bool, true, false, Option, none, some, List, [],
  ◌∷◌, ◌++◌, arith, ltb, if◌then◌else◌, le→ltb, shr, low_bits, length, drop, Bytes, Text, read,
}
use meshcore_cpp_decoder.Enums.{
  RouteType, PayloadType, PayloadVersion, is_transport, route_value, payload_value, version_value,
  route_type_of, route_type_of-route_value, route_value-lt, version_value-lt,
}
use meshcore_cpp_decoder.Decoders.Hashes.{hash_size, hash_count}
use meshcore_cpp_decoder.Packet.{DecodedPacket, goes_on, lift, read_uint16_le, parse_transport}
use meshcore_cpp_decoder.Packet.Hash.{path_offset}
use meshcore_cpp_decoder.Packet.Layout.{chunks}
use meshcore_cpp_decoder.Encoder.{header_byte, uint16_le, transport_bytes, path_len_byte}

-- The fields of the header byte.
pub header_byte-route :
    (r : RouteType) (k : PayloadType) (v : PayloadVersion)
    → route_type_of (low_bits (header_byte r k v) 2) ≡ r
header_byte-route r k v =
    let e : low_bits (header_byte r k v) 2 ≡ route_value r =
      unfold header_byte in omega (arith, route_value-lt r) in
    rw e (route_type_of-route_value r)

pub header_byte-kind :
    (r : RouteType) (k : PayloadType) (v : PayloadVersion)
    → payload_value k < 16
    → low_bits (shr (header_byte r k v) 2) 4 ≡ payload_value k
unfolding header_byte
header_byte-kind r k v h = omega arith

pub header_byte-version :
    (r : RouteType) (k : PayloadType) (v : PayloadVersion)
    → low_bits (shr (header_byte r k v) 6) 2 ≡ version_value v
unfolding header_byte
header_byte-version r k v = omega (arith, version_value-lt v)

-- The path-length byte.
pub hash_count-path_len_byte :
    (count size : ℕ) → count < 64 → hash_count (path_len_byte count size) ≡ count
unfolding hash_count path_len_byte
hash_count-path_len_byte count size h = omega arith

pub hash_size-path_len_byte :
    (count size : ℕ) → 1 ≤ size → hash_size (path_len_byte count size) ≡ size
unfolding hash_size path_len_byte
hash_size-path_len_byte count size h = omega arith

-- The transport codes that a route carries: a transport route has two uint16_t.
abbrev pub CodesFit : Bool → Option (ℕ × ℕ) → Type 0
CodesFit false codes = Unit
CodesFit true none = ⊥
CodesFit true (some (code1, code2)) = (code1 < 2 ^ 16) × (code2 < 2 ^ 16)

-- What a decoded packet shows of them.
abbrev pub shown : Bool → Option (ℕ × ℕ) → Option (ℕ × ℕ)
shown false codes = none
shown true codes = codes

-- The hashes that a decoded packet shows: none where the path is empty.
abbrev pub hops : ℕ → ℕ → Bytes → Option (List Text)
hops size count path = if ltb 0 count then some (chunks size count path) else none

-- The arguments that `buildPacket` accepts, with a payload type below 16. A larger type is accepted too,
-- and its low four bits are sent.
pub record Fits (route : RouteType) (kind : ℕ) (payload path : Bytes) (size count : ℕ)
    (codes : Option (ℕ × ℕ)) : Type 0 where
  pub kind_small : kind < 16
  pub size_pos : 1 ≤ size
  pub size_small : size ≤ 4
  pub count_small : count ≤ 63
  pub whole : length path ≡ count * size
  pub codes_fit : CodesFit (is_transport route) codes

-- The packet with the codes that it carries.
unfoldable pub with_codes : Bool → Option (ℕ × ℕ) → DecodedPacket → DecodedPacket
with_codes false codes pk = pk
with_codes true codes pk = record pk { transport_codes = codes }

pub uint16_value : (v : ℕ) → v < 2 ^ 16 → v % 256 + v / 2 ^ 8 * 2 ^ 8 ≡ v
uint16_value v h = omega arith

pub transport_step :
    (t : Bool) (codes : Option (ℕ × ℕ)) (h : ℕ) (rest : Bytes) (pk : DecodedPacket)
    → CodesFit t codes
    → is_transport pk.route_type ≡ t
    → parse_transport (h ∷ ((if t then transport_bytes codes else []) ++ rest)) pk 1
      ≡ goes_on (with_codes t codes pk) (if t then 5 else 1)
unfolding parse_transport with_codes transport_bytes uint16_le lift read_uint16_le read
transport_step false codes h rest pk fit e = rw e
transport_step true none h rest pk fit e = absurd fit
transport_step true (some (code1, code2)) h rest pk (f1, f2) e =
    let long =
      le→ltb (length (h ∷ (uint16_le code1 ++ uint16_le code2) ++ rest)) (1 + 4) (omega arith) in
    rw (e, long, uint16_value code1 f1, uint16_value code2 f2)

pub with_codes-shown :
    (t : Bool) (codes : Option (ℕ × ℕ)) (pk : DecodedPacket)
    → pk.transport_codes ≡ none
    → with_codes t codes pk ≡ record pk { transport_codes = shown t codes }
unfolding with_codes
with_codes-shown false codes pk e = λ i. record pk { transport_codes = e i }
with_codes-shown true codes pk e = refl

pub drop-transport_bytes :
    (t : Bool) (codes : Option (ℕ × ℕ)) (h : ℕ) (rest : Bytes)
    → CodesFit t codes
    → drop (if t then 5 else 1) (h ∷ ((if t then transport_bytes codes else []) ++ rest)) ≡ rest
unfolding transport_bytes uint16_le
drop-transport_bytes false codes h rest fit = refl
drop-transport_bytes true none h rest fit = absurd fit
drop-transport_bytes true (some (code1, code2)) h rest fit = refl

pub path_offset_pos : (r : RouteType) → 1 ≤ path_offset r
unfolding path_offset
path_offset_pos r = ground arith

pub div_mul : (count size : ℕ) → 1 ≤ size → count * size / size ≡ count
div_mul count size h = grind arith

pub mod_mul : (count size : ℕ) → 1 ≤ size → count * size % size ≡ 0
mod_mul count size h = grind arith
