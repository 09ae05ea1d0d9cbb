-- ===== src/Packet/Layout.antt =====
-- Reading a packet whose bytes are known from some offset on.
use meshcore_cpp_decoder.Common.{
  ℕ, zero, suc, ◌+◌, ◌*◌, ◌≤◌, ◌<◌, ◌≡◌, refl, sym, ap, ◌∙◌, inl, inr, some, List, [], ◌∷◌, ◌++◌,
  append_assoc, arith, ltb, if◌then◌else◌, le→ltb, Bool-cases, length, take, drop, length-append,
  length-take, length-drop, take-append-drop, take-append, drop-append, drop-drop, Bytes, Text, ok,
  read, range, get_or, read_lem, range_lem, drop-get_or,
}
use meshcore_cpp_decoder.Hex.{bytes_to_hex}
use meshcore_cpp_decoder.Decoders.Hashes.{hash_size, hash_count, hashes_at, read_hashes_lem}
use meshcore_cpp_decoder.Packet.{DecodedPacket, goes_on, lift, parse_path}

pub length-of_drop :
    (bs : Bytes) (o b : ℕ) (r : Bytes) → drop o bs ≡ b ∷ r → length bs ≡ o + suc (length r)
length-of_drop bs o b r e = omega (arith, length-drop o bs, ap {B = ℕ} length e)

pub read-drop : (bs : Bytes) (o b : ℕ) (r : Bytes) → drop o bs ≡ b ∷ r → read bs o ≡ ok b
read-drop bs o b r e =
    let lt : o < length bs = omega (arith, length-of_drop bs o b r e) in
    let same : get_or bs o ≡ b = cc (drop-get_or bs o lt) in read_lem bs o lt ∙ ap ok same

-- The bytes behind the next one, and behind the next `xs`.
pub drop-next : (bs : Bytes) (o b : ℕ) (r : Bytes) → drop o bs ≡ b ∷ r → drop (o + 1) bs ≡ r
drop-next bs o b r e = sym (drop-drop 1 o (o + 1) bs refl) ∙ ap (drop 1) e

pub drop-past :
    (bs : Bytes) (o n : ℕ) (xs r : Bytes)
    → drop o bs ≡ xs ++ r
    → n ≡ length xs
    → drop (o + n) bs ≡ r
drop-past bs o n xs r e h =
    sym (drop-drop n o (o + n) bs refl) ∙ ap (drop n) e ∙ drop-append n xs r h

pub range-drop :
    (bs : Bytes) (o n : ℕ) (xs r : Bytes)
    → drop o bs ≡ xs ++ r
    → n ≡ length xs
    → o ≤ length bs
    → range bs o n ≡ ok xs
range-drop bs o n xs r e h fits =
    range_lem bs o n (omega (arith, length-drop o bs, ap {B = ℕ} length e, length-append xs r))
    ∙ ap ok (ap (take n) e ∙ take-append n xs r h)

-- The hashes that a path of `count` hashes of `size` bytes holds.
unfoldable pub chunks : ℕ → ℕ → Bytes → List Text
chunks size zero p = []
chunks size (suc count) p = bytes_to_hex (take size p) ∷ chunks size count (drop size p)

hashes_at-chunks :
    (bs : Bytes) (size count o : ℕ) (p r : Bytes)
    → drop o bs ≡ p ++ r
    → length p ≡ count * size
    → hashes_at bs size count o ≡ chunks size count p
unfolding chunks
hashes_at-chunks bs size zero o p r e h = refl
hashes_at-chunks bs size (suc count) o p r e h =
    let split : take size p ++ (drop size p ++ r) ≡ p ++ r =
      sym (append_assoc (take size p) (drop size p) r)
      ∙ ap (λ l. l ++ r) (take-append-drop size p) in
    let e' = e ∙ sym split in
    let n : size ≡ length (take size p) = sym (length-take size p (omega arith)) in
    let head : take size (drop o bs) ≡ take size p =
      ap (take size) e' ∙ take-append size (take size p) (drop size p ++ r) n in
    let rest =
      hashes_at-chunks bs size count (o + size) (drop size p) r
        (drop-past bs o size (take size p) (drop size p ++ r) e' n)
        (omega (arith, length-drop size p)) in
    rw (head, rest)

-- `parse_path` at the path-length byte `b`, the path `p` and what follows it, `r`.
pub parse_path_lem :
    (bs : Bytes) (pk : DecodedPacket) (o b : ℕ) (p r : Bytes)
    → drop o bs ≡ b ∷ (p ++ r)
    → length p ≡ hash_count b * hash_size b
    → parse_path bs pk o
      ≡ goes_on
          (record pk {
            path_length = hash_count b;
            path =
                if ltb 0 (hash_count b)
                then some (chunks (hash_size b) (hash_count b) p)
                else pk.path;
          })
          (o + 1 + hash_count b * hash_size b)
unfolding parse_path lift
parse_path_lem bs pk o b p r e h =
    let len : length bs ≡ o + suc (length (p ++ r)) = length-of_drop bs o b (p ++ r) e in
    let sum : length (p ++ r) ≡ length p + length r = length-append p r in
    let room : o + 1 + hash_count b * hash_size b ≤ length bs = omega arith in
    let next : drop (o + 1) bs ≡ p ++ r = drop-next bs o b (p ++ r) e in
    let hs =
      read_hashes_lem bs (hash_size b) (hash_count b) (o + 1) room
      ∙ ap ok (hashes_at-chunks bs (hash_size b) (hash_count b) (o + 1) p r next h) in
    let short = le→ltb (length bs) (o + 1) (omega arith) in
    let fits = le→ltb (length bs) (o + 1 + hash_count b * hash_size b) room in
    let here = read-drop bs o b (p ++ r) e in
    elim (Bool-cases (ltb 0 (hash_count b))) [
      | inl some_hashes ↦ rw (short, here, fits, some_hashes, hs)
      | inr no_hashes ↦ rw (short, here, fits, no_hashes)
    ]
