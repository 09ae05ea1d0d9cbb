-- ===== src/Decoders/Hashes.antt =====
-- The path-length byte and the loop that reads the hashes of a path; both stand in packet_decoder.cpp,
-- for the path of the packet, and in payload_decoders/path.cpp, for a returned path.
use meshcore_cpp_decoder.Common.{
  ℕ, zero, suc, ◌+◌, ◌*◌, ◌≤◌, ◌≡◌, refl, ap, ◌∙◌, List, [], ◌∷◌, ◌++◌, append_assoc, arith, shr,
  low_bits, length, take, drop, Bytes, Text, Outcome, ok, ◌>>=◌, range, range_lem,
}
use meshcore_cpp_decoder.Hex.{bytes_to_hex}
use meshcore_cpp_decoder.Decoders.Layout.{hex_field}

-- `for (i = 0; i < count; i++) v.push_back(bytesToHex(buf + offset + i * size, size))`: `offset` is
-- where the next hash begins.
unfoldable pub read_hashes : Bytes → ℕ → ℕ → ℕ → Outcome (List Text)
read_hashes buf size zero offset = ok []
read_hashes buf size (suc count) offset = do
  hash ← range buf offset size
  hashes ← read_hashes buf size count (offset + size)
  ok (bytes_to_hex hash ∷ hashes)

unfoldable pub hash_size : ℕ → ℕ
hash_size path_len_byte = shr path_len_byte 6 + 1

unfoldable pub hash_count : ℕ → ℕ
hash_count path_len_byte = low_bits path_len_byte 6

abbrev pub concat : List Text → Text
concat [] = []
concat (t ∷ ts) = t ++ concat ts

-- The hashes that the loop reads.
abbrev pub hashes_at : Bytes → ℕ → ℕ → ℕ → List Text
hashes_at buf size zero offset = []
hashes_at buf size (suc count) offset =
    bytes_to_hex (take size (drop offset buf)) ∷ hashes_at buf size count (offset + size)

pub read_hashes_lem :
    (buf : Bytes) (size count offset : ℕ)
    → offset + count * size ≤ length buf
    → read_hashes buf size count offset ≡ ok (hashes_at buf size count offset)
unfolding read_hashes
read_hashes_lem buf size zero offset h = refl
read_hashes_lem buf size (suc count) offset h = rw (
  range_lem buf offset size (omega arith),
  read_hashes_lem buf size count (offset + size) (omega arith),
)

pub length-hashes_at :
    (buf : Bytes) (size count offset : ℕ) → length (hashes_at buf size count offset) ≡ count
length-hashes_at buf size zero offset = refl
length-hashes_at buf size (suc count) offset =
    ap suc (length-hashes_at buf size count (offset + size))

-- Together with the text of what follows them, the hashes spell the buffer from `offset` on.
pub concat-hashes_at :
    (buf : Bytes) (size count offset k : ℕ) (rest : Text)
    → k ≡ offset + count * size
    → rest ≡ bytes_to_hex (drop k buf)
    → concat (hashes_at buf size count offset) ++ rest ≡ bytes_to_hex (drop offset buf)
concat-hashes_at buf size zero offset k rest e h =
    let e' : k ≡ offset = omega arith in h ∙ ap (λ j. bytes_to_hex (drop j buf)) e'
concat-hashes_at buf size (suc count) offset k rest e h =
    let ih = concat-hashes_at buf size count (offset + size) k rest (omega arith) h in
    append_assoc (bytes_to_hex (take size (drop offset buf))) _ rest
    ∙ hex_field buf offset size _ (offset + size) refl ih
