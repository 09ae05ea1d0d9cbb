-- ===== src/Packet/Digest.antt =====
-- What `calculateMessageHash` returns.
use meshcore_cpp_decoder.Common.{
  ℕ, zero, suc, ◌+◌, ◌-◌, ◌*◌, ◌%◌, ◌^◌, ◌≤◌, ◌<◌, ◌≡◌, refl, sym, ap, ◌∙◌, inl, inr, ◌&&◌, [], ◌∷◌,
  ◌++◌, arith, ltb, leb, ◌==◌, ltb→lt, lt→ltb, ltb→le, leb→le, Bool-cases, length, take, drop,
  length-drop, take-length, drop-length, drop-drop, Bytes, Text, ok, get_or, read_lem, drop-get_or,
}
use meshcore_cpp_decoder.Hex.{number_to_hex}
use meshcore_cpp_decoder.Enums.{RouteType}
use meshcore_cpp_decoder.Decoders.Hashes.{hash_size, hash_count}
use meshcore_cpp_decoder.Decoders.Words.{read_uint32_le_lem, word_at}
use meshcore_cpp_decoder.Packet.Hash.{
  hash_round, hash_loop, path_offset, trace_offset, hash_offset, content_hash,
  calculate_message_hash,
}
use meshcore_cpp_decoder.Packet.Layout.{length-of_drop, read-drop, drop-next, drop-past}

-- The hash of a list of bytes, from the value `h` on.
unfoldable pub digest : ℕ → Bytes → ℕ
digest h [] = h
digest h (b ∷ bs) = digest (hash_round h b) bs

-- The value of the bytes as the digits of a number to base 31, with no bound.
unfoldable pub base_31 : ℕ → Bytes → ℕ
base_31 acc [] = acc
base_31 acc (b ∷ bs) = base_31 (acc * 31 + b) bs

hash_round_lem : (h b : ℕ) → h < 2 ^ 32 → hash_round h b ≡ (h * 31 + b) % 2 ^ 32
unfolding hash_round
hash_round_lem h b small = omega arith

base_31-mod :
    (bs : Bytes) (a b : ℕ) → a % 2 ^ 32 ≡ b % 2 ^ 32 → base_31 a bs % 2 ^ 32 ≡ base_31 b bs % 2 ^ 32
unfolding base_31
base_31-mod [] a b e = e
base_31-mod (x ∷ bs) a b e = base_31-mod bs (a * 31 + x) (b * 31 + x) (omega arith)

-- The hash that the loop computes in wrapping 32-bit arithmetic is the number that the bytes spell to
-- base 31, behind the value it starts with, reduced once at the end.
pub digest-base_31 : (bs : Bytes) (h : ℕ) → h < 2 ^ 32 → digest h bs ≡ base_31 h bs % 2 ^ 32
unfolding digest
digest-base_31 [] h small = unfold base_31 in omega arith
digest-base_31 (b ∷ bs) h small =
    let e = hash_round_lem h b small in
    let lt : hash_round h b < 2 ^ 32 = omega arith in
    digest-base_31 bs (hash_round h b) lt
    ∙ base_31-mod bs (hash_round h b) (h * 31 + b) (omega arith)
    ∙ (unfold base_31 in refl)

pub hash_loop_lem :
    (bytes : Bytes) (rounds i h : ℕ)
    → i + rounds ≤ length bytes
    → hash_loop bytes rounds i h ≡ ok (digest h (take rounds (drop i bytes)))
unfolding hash_loop digest
hash_loop_lem bytes zero i h fits = refl
hash_loop_lem bytes (suc rounds) i h fits =
    let next : i + 1 ≡ suc i = omega arith in
    rw (
      read_lem bytes i (omega arith),
      hash_loop_lem bytes rounds (i + 1) (hash_round h (get_or bytes i)) (omega arith),
      next,
      drop-get_or bytes i (omega arith),
    )

-- The loop of `calculateMessageHash` returns on a range inside the buffer, and its 32-bit arithmetic
-- keeps the low 32 bits of the number that the bytes of that range spell to base 31, behind the value
-- it starts with.
pub hash_loop-base_31 :
    (bytes : Bytes) (rounds i h : ℕ)
    → i + rounds ≤ length bytes
    → h < 2 ^ 32
    → hash_loop bytes rounds i h ≡ ok (base_31 h (take rounds (drop i bytes)) % 2 ^ 32)
hash_loop-base_31 bytes rounds i h fits small =
    hash_loop_lem bytes rounds i h fits
    ∙ ap ok (digest-base_31 (take rounds (drop i bytes)) h small)

-- From any offset the loop hashes what is left, which is nothing past the end.
hash_loop-rest :
    (bytes : Bytes) (i h : ℕ)
    → hash_loop bytes (length bytes - i) i h ≡ ok (digest h (drop i bytes))
hash_loop-rest bytes i h = elim (Bool-cases (ltb i (length bytes))) [
  | inl inside ↦
      hash_loop_lem bytes (length bytes - i) i h (omega (arith, ltb→lt i (length bytes) inside))
      ∙ ap (λ l. ok (digest h l))
          (take-length (length bytes - i) (drop i bytes) (omega (arith, length-drop i bytes)))
  | inr outside ↦
      let le : length bytes ≤ i = ltb→le i (length bytes) outside in
      let none_left : length bytes - i ≡ 0 = omega arith in
      rw (none_left, drop-length i bytes le) (unfold hash_loop digest in refl)
]

-- The header byte that is hashed: type and version without the route.
abbrev pub constant_header : ℕ → ℕ → ℕ
constant_header kind version = (kind * 2 ^ 2 + version * 2 ^ 6) % 256

-- The hash of the bytes of a packet without its path and its route.
unfoldable pub message_digest : ℕ → ℕ → Bytes → Text
message_digest kind version bs =
    number_to_hex (digest (hash_round 0 (constant_header kind version)) bs) 8

hash_offset-cases : (bytes : Bytes) (o : ℕ) → (k : ℕ) × (hash_offset bytes o ≡ ok k)
unfolding hash_offset
hash_offset-cases bytes o = elim (Bool-cases (ltb o (length bytes))) [
  | inl inside ↦
      (o + (1 + get_or bytes o), rw (inside, read_lem bytes o (ltb→lt o (length bytes) inside)))
  | inr outside ↦ (o, rw outside)
]

content_hash-at :
    (bytes : Bytes) (route : RouteType) (kind version k : ℕ)
    → hash_offset bytes (path_offset route) ≡ ok k
    → content_hash bytes route kind version ≡ ok (message_digest kind version (drop k bytes))
unfolding content_hash message_digest
content_hash-at bytes route kind version k e =
    rw (e, hash_loop-rest bytes k (hash_round 0 (constant_header kind version)))

content_hash-total :
    (bytes : Bytes) (route : RouteType) (kind version : ℕ)
    → (h : Text) × (content_hash bytes route kind version ≡ ok h)
content_hash-total bytes route kind version =
    let (k, e) = hash_offset-cases bytes (path_offset route) in
    (message_digest kind version (drop k bytes), content_hash-at bytes route kind version k e)

trace_offset-cases : (bytes : Bytes) (o : ℕ) → (k : ℕ) × (trace_offset bytes o ≡ ok k)
unfolding trace_offset
trace_offset-cases bytes o = elim (Bool-cases (ltb o (length bytes))) [
  | inl inside ↦ (
    o + (1 + hash_count (get_or bytes o) * hash_size (get_or bytes o)),
    rw (inside, read_lem bytes o (ltb→lt o (length bytes) inside)),
  )
  | inr outside ↦ (o, rw outside)
]

-- `calculateMessageHash` returns on every buffer, however short: it never reads out of bounds.
pub calculate_message_hash-total :
    (bytes : Bytes) (route : RouteType) (kind version : ℕ)
    → (h : Text) × (calculate_message_hash bytes route kind version ≡ ok h)
unfolding calculate_message_hash
calculate_message_hash-total bytes route kind version =
    let (k, e) = trace_offset-cases bytes (path_offset route) in
    let (h, f) = content_hash-total bytes route kind version in
    elim (Bool-cases (kind == 9 && leb 13 (length bytes))) [
      | inl tr ↦ elim (Bool-cases (leb (k + 4) (length bytes))) [
        | inl room ↦ (
          number_to_hex (word_at bytes k) 8,
          rw (tr, e, room, read_uint32_le_lem bytes k (leb→le (k + 4) (length bytes) room)),
        )
        | inr cut ↦ (h, rw (tr, e, cut) f)
      ]
      | inr other ↦ (h, rw other f)
    ]

-- A packet from its path-length byte `b` on: the path `p` and the payload. Where the byte counts
-- `skip` bytes more than the path has, the hash begins `skip` bytes into the payload.
pub content_hash-skip :
    (bytes : Bytes) (route : RouteType) (kind version b skip : ℕ) (p payload : Bytes)
    → drop (path_offset route) bytes ≡ b ∷ (p ++ payload)
    → b ≡ length p + skip
    → content_hash bytes route kind version ≡ ok (message_digest kind version (drop skip payload))
unfolding hash_offset
content_hash-skip bytes route kind version b skip p payload e h =
    let o : ℕ = path_offset route in
    let inside =
      lt→ltb o (length bytes) (omega (arith, length-of_drop bytes o b (p ++ payload) e)) in
    let here = read-drop bytes o b (p ++ payload) e in
    let behind : drop (o + 1 + length p) bytes ≡ payload =
      drop-past bytes (o + 1) (length p) p payload (drop-next bytes o b (p ++ payload) e) refl in
    let rest : drop (o + (1 + b)) bytes ≡ drop skip payload =
      sym (drop-drop skip (o + 1 + length p) (o + (1 + b)) bytes (omega arith))
      ∙ ap (drop skip) behind in
    content_hash-at bytes route kind version (o + (1 + b)) (rw (inside, here))
    ∙ ap (λ l. ok (message_digest kind version l)) rest
