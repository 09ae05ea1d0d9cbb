-- ===== src/Structure/Segment.antt =====
-- include/meshcore/types/packet.h, the records of segments, and what the `generateSegments` of the
-- payload decoders share. An offset is a natural number, below 2 ^ 31 as the program's `int` wants it;
-- the last byte of a segment of no bytes at offset 0 is -1.
use meshcore_cpp_decoder.Common.{
  ℕ, zero, suc, ◌+◌, ◌-◌, Option, none, List, [], ◌∷◌, ltb, if◌then◌else◌, length, Bytes, Text,
  Outcome, ok, ◌>>=◌, range,
}
use meshcore_cpp_decoder.Common.Int.{ℤ, pos, negsuc}
use meshcore_cpp_decoder.Hex.{bytes_to_hex}

pub record HeaderField : Type 0 where
  pub bits : Text
  pub field : Text
  pub value : Text
  pub digits : Text

pub record HeaderBreakdown : Type 0 where
  pub full_binary : Text
  pub fields : List HeaderField

pub record PacketSegment : Type 0 where
  pub name : Text
  pub description : Text
  pub start_byte : ℕ
  pub end_byte : ℤ
  pub value : Text
  pub header_breakdown : Option HeaderBreakdown

pub record PayloadSegment : Type 0 where
  pub name : Text
  pub description : Text
  pub start_byte : ℕ
  pub end_byte : ℤ
  pub value : Text
  pub decrypted_message : Option Text

-- `static_cast<int>(n) - 1`
unfoldable pub last_byte : ℕ → ℤ
last_byte zero = negsuc 0
last_byte (suc n) = pos n

-- `segments.push_back({name, description, first, last, value})`
unfoldable pub segment : Text → Text → ℕ → ℤ → Text → PayloadSegment
segment label what first last shown = record {
  name = label;
  description = what;
  start_byte = first;
  end_byte = last;
  value = shown;
  decrypted_message = none;
}

-- The only segment of a payload that is too short.
unfoldable pub too_short : Text → Text → Bytes → ℕ → Outcome (List PayloadSegment)
unfolding segment last_byte
too_short label what payload base = do
  whole ← range payload 0 (length payload)
  ok (segment label what base (last_byte (base + length payload)) (bytes_to_hex whole) ∷ [])

-- `if (len > offset) segments.push_back(...)`: what is left from `offset` on.
unfoldable pub remainder : Text → Text → Bytes → ℕ → ℕ → Outcome (List PayloadSegment)
unfolding segment last_byte
remainder label what payload base offset =
    if ltb offset (length payload)
    then (do
      rest ← range payload offset (length payload - offset)
      ok (
          segment label what (base + offset) (last_byte (base + length payload)) (bytes_to_hex rest)
          ∷ []))
    else ok []
