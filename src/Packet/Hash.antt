-- ===== src/Packet/Hash.antt =====
-- src/decoder/packet_decoder.cpp, `calculateMessageHash`. An int32_t is kept as its bit pattern: its
-- arithmetic wraps at 2 ^ 32.
use meshcore_cpp_decoder.Common.{
  ℕ, zero, suc, ◌+◌, ◌-◌, ◌*◌, ◌%◌, ◌^◌, ◌&&◌, ltb, leb, ◌==◌, if◌then◌else◌, length, Bytes, Text,
  Outcome, ok, ◌>>=◌, read,
}
use meshcore_cpp_decoder.Hex.{number_to_hex}
use meshcore_cpp_decoder.Enums.{RouteType, is_transport}
use meshcore_cpp_decoder.Decoders.Hashes.{hash_size, hash_count}
use meshcore_cpp_decoder.Decoders.Words.{read_uint32_le}

-- `hash = ((hash << 5) - hash + b) & 0xFFFFFFFF`
unfoldable pub hash_round : ℕ → ℕ → ℕ
hash_round hash b = (hash * 2 ^ 5 + 2 ^ 32 - hash + b) % 2 ^ 32

-- `for (i = offset; i < len; i++)`: `rounds` bytes are left from `i` on.
unfoldable pub hash_loop : Bytes → ℕ → ℕ → ℕ → Outcome ℕ
hash_loop bytes zero i hash = ok hash
hash_loop bytes (suc rounds) i hash = do
  b ← read bytes i
  hash_loop bytes rounds (i + 1) (hash_round hash b)

-- The offset of the path-length byte.
unfoldable pub path_offset : RouteType → ℕ
path_offset route = if is_transport route then 5 else 1

-- The offset of the payload as the branch for trace packets counts it: the hashes by their size.
unfoldable pub trace_offset : Bytes → ℕ → Outcome ℕ
trace_offset bytes offset =
    if ltb offset (length bytes)
    then (read bytes offset >>= (λ b. ok (offset + (1 + hash_count b * hash_size b))))
    else ok offset

-- The offset from which the other branch hashes: `offset += 1 + pathLen` of the whole byte.
unfoldable pub hash_offset : Bytes → ℕ → Outcome ℕ
hash_offset bytes offset =
    if ltb offset (length bytes)
    then (read bytes offset >>= (λ b. ok (offset + (1 + b))))
    else ok offset

-- The hash of the constant header `(payloadType << 2) | (payloadVersion << 6)` and the payload.
unfoldable pub content_hash : Bytes → RouteType → ℕ → ℕ → Outcome Text
content_hash bytes route payload_type version = do
  offset ← hash_offset bytes (path_offset route)
  let constant_header = (payload_type * 2 ^ 2 + version * 2 ^ 6) % 256
  hash ← hash_loop bytes (length bytes - offset) offset (hash_round 0 constant_header)
  ok (number_to_hex hash 8)

-- `calculateMessageHash`: of a trace packet with room for its tag, the tag.
unfoldable pub calculate_message_hash : Bytes → RouteType → ℕ → ℕ → Outcome Text
calculate_message_hash bytes route payload_type version =
    if payload_type == 9 && leb 13 (length bytes)
    then (do
      offset ← trace_offset bytes (path_offset route)
      if leb (offset + 4) (length bytes)
          then (read_uint32_le bytes offset >>= (λ tag. ok (number_to_hex tag 8)))
          else content_hash bytes route payload_type version)
    else content_hash bytes route payload_type version
