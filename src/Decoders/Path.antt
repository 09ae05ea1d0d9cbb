-- ===== src/Decoders/Path.antt =====
-- src/decoder/payload_decoders/path.cpp: a returned path.
use meshcore_cpp_decoder.Common.{
  ℕ, ◌+◌, ◌-◌, ◌*◌, ◌≤◌, ◌<◌, String, ◌≡◌, refl, sym, ap, ◌⊎◌, inl, inr, true, false, [], ◌∷◌, ◌++◌,
  arith, ltb, if◌then◌else◌, ltb→lt, lt→ltb, ltb→le, le→ltb, Bool-cases, length, drop, length-drop,
  take-length, drop-length, Bytes, IsBytes, text, Outcome, ok, ◌>>=◌, read, range, get_or, read_lem,
  range_lem,
}
use meshcore_cpp_decoder.Decoders.Hashes.{
  read_hashes, hash_size, hash_count, concat, hashes_at, read_hashes_lem, length-hashes_at,
  concat-hashes_at,
}
use meshcore_cpp_decoder.Hex.{byte_to_hex, bytes_to_hex, hex_to_bytes}
use meshcore_cpp_decoder.Decoders.Layout.{hex_byte, hex_whole}
use meshcore_cpp_decoder.Enums.{path}
use meshcore_cpp_decoder.Payloads.{PathPayload, valid_base, failed_base}

unfoldable pub failed : ℕ → String → PathPayload
failed count message = record {
  base = failed_base path (text message);
  path_length = count;
  path_hashes = [];
  extra_type = 0;
  extra_data = [];
}

-- The part of `decode` behind the second length check.
unfoldable pub decode_fields : Bytes → ℕ → ℕ → Outcome PathPayload
decode_fields payload size count = do
  let path_bytes = count * size
  hashes ← read_hashes payload size count 1
  extra ← read payload (1 + path_bytes)
  tail ←
      (if ltb (path_bytes + 2) (length payload)
        then range payload (1 + path_bytes + 1) (length payload - 1 - path_bytes - 1)
        else ok [])
  ok (record {
    base = valid_base path;
    path_length = count;
    path_hashes = hashes;
    extra_type = extra;
    extra_data = bytes_to_hex tail;
  })

-- `PathPayloadDecoder::decode`
unfoldable pub decode : Bytes → Outcome PathPayload
decode payload = if ltb (length payload) 2 then ok (failed 0 "Path payload too short") else do
  path_len_byte ← read payload 0
  let size = hash_size path_len_byte
  let count = hash_count path_len_byte
  if ltb (length payload) (count * size + 2)
      then ok (failed count "Path payload too short for path data")
      else decode_fields payload size count

-- The bytes behind the extra type; there may be none.
tail_lem :
    (payload : Bytes) (n : ℕ)
    → n + 2 ≤ length payload
    → (if ltb (n + 2) (length payload)
        then range payload (1 + n + 1) (length payload - 1 - n - 1)
        else ok [])
      ≡ ok (drop (n + 2) payload)
tail_lem payload n h =
    let same : 1 + n + 1 ≡ n + 2 = omega arith in
    let whole =
      take-length (length payload - 1 - n - 1) (drop (n + 2) payload)
        (omega (arith, length-drop (n + 2) payload)) in
    elim (Bool-cases (ltb (n + 2) (length payload))) [
      | inl more ↦ rw (
        more,
        range_lem payload (1 + n + 1) (length payload - 1 - n - 1) (omega arith),
        same,
        whole,
      )
      | inr none_left ↦ rw none_left (
          ap ok (
            sym (
              drop-length (n + 2) payload
                (omega (arith, ltb→le (n + 2) (length payload) none_left)))))
    ]

-- What `decode` returns where the payload is long enough.
abbrev pub decoded : Bytes → ℕ → ℕ → PathPayload
decoded payload size count = record {
  base = valid_base path;
  path_length = count;
  path_hashes = hashes_at payload size count 1;
  extra_type = get_or payload (1 + count * size);
  extra_data = bytes_to_hex (drop (count * size + 2) payload);
}

decode_fields_lem :
    (payload : Bytes) (size count : ℕ)
    → count * size + 2 ≤ length payload
    → decode_fields payload size count ≡ ok (decoded payload size count)
unfolding decode_fields
decode_fields_lem payload size count h = rw (
  read_hashes_lem payload size count 1 (omega arith),
  read_lem payload (1 + count * size) (omega arith),
  tail_lem payload (count * size) h,
)

-- The hashes, the extra type and the extra data spell the payload behind its first byte.
decoded-spells :
    (payload : Bytes) (size count : ℕ)
    → count * size + 2 ≤ length payload
    → concat (hashes_at payload size count 1)
        ++ (byte_to_hex (get_or payload (1 + count * size))
            ++ bytes_to_hex (drop (count * size + 2) payload))
      ≡ bytes_to_hex (drop 1 payload)
decoded-spells payload size count h =
    concat-hashes_at payload size count 1 (1 + count * size) _ refl
      (hex_byte payload (1 + count * size) _ (count * size + 2) (omega arith) (omega arith) refl)

decode_no_room :
    (b : ℕ) (rest : Bytes)
    → length rest < hash_count b * hash_size b + 1
    → (p : PathPayload) × (decode (b ∷ rest) ≡ ok p) × (p.base.is_valid ≡ false)
unfolding decode failed failed_base
decode_no_room b rest h = elim (Bool-cases (ltb (length (b ∷ rest)) 2)) [
  | inl short ↦ (failed 0 "Path payload too short", rw short, refl)
  | inr enough ↦ (
    failed (hash_count b) "Path payload too short for path data",
    rw (
      enough,
      read_lem (b ∷ rest) 0 (omega arith),
      lt→ltb (length (b ∷ rest)) (hash_count b * hash_size b + 2) (omega arith),
    ),
    refl,
  )
]

decode_room :
    (b : ℕ) (rest : Bytes)
    → hash_count b * hash_size b + 1 ≤ length rest
    → decode (b ∷ rest) ≡ ok (decoded (b ∷ rest) (hash_size b) (hash_count b))
unfolding decode
decode_room b rest h = rw (
  le→ltb (length (b ∷ rest)) 2 (omega arith),
  read_lem (b ∷ rest) 0 (omega arith),
  le→ltb (length (b ∷ rest)) (hash_count b * hash_size b + 2) (omega arith),
  decode_fields_lem (b ∷ rest) (hash_size b) (hash_count b) (omega arith),
)

-- The path-length byte of a payload: its low six bits count the hashes, its high two bits give their
-- size less one. A payload without room for the byte, the hashes and the extra type is refused with
-- an error. Of any other the decoder returns as many hashes as the byte says, and the hashes, the
-- extra type and the extra data spell the bytes behind that byte, none lost; it never reads out of
-- bounds.
pub path_decode-lossless :
    (len_byte : ℕ) (rest : Bytes)
    → IsBytes rest
    → ((length rest < hash_count len_byte * hash_size len_byte + 1)
        × ((p : PathPayload) × (decode (len_byte ∷ rest) ≡ ok p) × (p.base.is_valid ≡ false)))
      ⊎ ((hash_count len_byte * hash_size len_byte + 1 ≤ length rest)
          × ((p : PathPayload) × (decode (len_byte ∷ rest) ≡ ok p)
              × (p.base.is_valid ≡ true)
              × (p.path_length ≡ hash_count len_byte)
              × (length p.path_hashes ≡ hash_count len_byte)
              × (hex_to_bytes (concat p.path_hashes ++ (byte_to_hex p.extra_type ++ p.extra_data))
                  ≡ ok rest)))
unfolding valid_base
path_decode-lossless len_byte rest bytes =
    elim (Bool-cases (ltb (length rest) (hash_count len_byte * hash_size len_byte + 1))) [
      | inl few ↦
          let short : length rest < hash_count len_byte * hash_size len_byte + 1 =
            ltb→lt (length rest) (hash_count len_byte * hash_size len_byte + 1) few in
          inl (short, decode_no_room len_byte rest short)
      | inr enough ↦
          let room : hash_count len_byte * hash_size len_byte + 1 ≤ length rest =
            ltb→le (length rest) (hash_count len_byte * hash_size len_byte + 1) enough in
          inr (
            room,
            (
              decoded (len_byte ∷ rest) (hash_size len_byte) (hash_count len_byte),
              decode_room len_byte rest room,
              refl,
              refl,
              length-hashes_at (len_byte ∷ rest) (hash_size len_byte) (hash_count len_byte) 1,
              hex_whole rest _ bytes (
                  decoded-spells (len_byte ∷ rest) (hash_size len_byte) (hash_count len_byte)
                    (omega arith)),
            ),
          )
    ]

pub decode-total : (payload : Bytes) → (p : PathPayload) × (decode payload ≡ ok p)
decode-total [] = (failed 0 "Path payload too short", unfold decode in refl)
decode-total (b ∷ rest) = elim (Bool-cases (ltb (length rest) (hash_count b * hash_size b + 1))) [
  | inl cut ↦ let (p, e, _) = decode_no_room b rest (ltb→lt (length rest) _ cut) in (p, e)
  | inr room ↦ (
    decoded (b ∷ rest) (hash_size b) (hash_count b),
    decode_room b rest (ltb→le (length rest) _ room),
  )
]
