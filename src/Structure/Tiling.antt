-- ===== src/Structure/Tiling.antt =====
-- How segments lie in a payload.
pub mod Ciphered
pub mod Reports
pub mod Advert
use meshcore_cpp_decoder.Common.{
  ℕ, zero, suc, ◌+◌, ◌-◌, ◌≤◌, ◌<◌, ◌≡◌, refl, ap, inl, inr, List, [], ◌∷◌, ◌++◌, arith, ltb,
  ltb→le, Bool-cases, length, take, drop, Bytes, Text, Outcome, ok, throws, fault, get_or,
  range_lem, drop-get_or,
}
use meshcore_cpp_decoder.Common.Int.{ℤ, pos}
use meshcore_cpp_decoder.Hex.{byte_to_hex, bytes_to_hex}
use meshcore_cpp_decoder.Structure.Segment.{
  PayloadSegment, segment, last_byte, too_short, remainder,
}

-- The segment shows the bytes from `a` up to `b` of a payload that begins at `base`.
pub record Shows (payload : Bytes) (base a b : ℕ) (s : PayloadSegment) : Type 0 where
  pub forwards : a ≤ b
  pub inside : b ≤ length payload
  pub starts : s.start_byte ≡ base + a
  pub ends : s.end_byte ≡ last_byte (base + b)
  pub spelled : s.value ≡ bytes_to_hex (take (b - a) (drop a payload))

-- The segments show the bytes from `a` up to `b`, each from where the one before it ends.
abbrev pub Tiles : Bytes → ℕ → ℕ → List PayloadSegment → ℕ → Type 0
Tiles payload base a [] b = a ≡ b
Tiles payload base a (s ∷ segs) b = (m : ℕ) × Shows payload base a m s × Tiles payload base m segs b

-- The same with gaps: each begins where the one before it ends, or behind that.
abbrev pub InOrder : Bytes → ℕ → ℕ → List PayloadSegment → Type 0
InOrder payload base a [] = Unit {0}
InOrder payload base a (s ∷ segs) =
    (k : ℕ) × (m : ℕ) × (a ≤ k) × Shows payload base k m s × InOrder payload base m segs

-- A call that returns segments that tile.
abbrev pub Tiled : Bytes → ℕ → ℕ → ℕ → Outcome (List PayloadSegment) → Type 0
Tiled payload base a b (ok segs) = Tiles payload base a segs b
Tiled payload base a b (throws what) = ⊥
Tiled payload base a b fault = ⊥

abbrev pub Ordered : Bytes → ℕ → ℕ → Outcome (List PayloadSegment) → Type 0
Ordered payload base a (ok segs) = InOrder payload base a segs
Ordered payload base a (throws what) = ⊥
Ordered payload base a fault = ⊥

pub Tiled-ok :
    (payload : Bytes) (base a b : ℕ) (m : Outcome (List PayloadSegment))
    → Tiled payload base a b m
    → (segs : List PayloadSegment) × (m ≡ ok segs) × Tiles payload base a segs b
Tiled-ok payload base a b (ok segs) h = (segs, refl, h)
Tiled-ok payload base a b (throws what) h = absurd h
Tiled-ok payload base a b fault h = absurd h

pub Ordered-ok :
    (payload : Bytes) (base a : ℕ) (m : Outcome (List PayloadSegment))
    → Ordered payload base a m
    → (segs : List PayloadSegment) × (m ≡ ok segs) × InOrder payload base a segs
Ordered-ok payload base a (ok segs) h = (segs, refl, h)
Ordered-ok payload base a (throws what) h = absurd h
Ordered-ok payload base a fault h = absurd h

pub Tiles-InOrder :
    (payload : Bytes) (base a b : ℕ) (segs : List PayloadSegment)
    → Tiles payload base a segs b
    → InOrder payload base a segs
Tiles-InOrder payload base a b [] h = tt
Tiles-InOrder payload base a b (s ∷ segs) (m, here, rest) =
    (a, m, omega arith, here, Tiles-InOrder payload base m b segs rest)

pub InOrder-append :
    (payload : Bytes) (base a b c : ℕ) (front behind : List PayloadSegment)
    → Tiles payload base a front b
    → b ≤ c
    → InOrder payload base c behind
    → InOrder payload base a (front ++ behind)
InOrder-append payload base a b c [] [] h le rest = tt
InOrder-append payload base a b c [] (s ∷ behind) h le (k, m, ge, here, rest) =
    (k, m, omega arith, here, rest)
InOrder-append payload base a b c (s ∷ front) behind (m, here, h) le rest =
    (a, m, omega arith, here, InOrder-append payload base m b c front behind h le rest)

pub pos-last_byte : (n m : ℕ) → m ≡ n + 1 → pos n ≡ last_byte m
unfolding last_byte
pos-last_byte n zero h = absurd (omega arith)
pos-last_byte n (suc m) h = ap pos (omega arith)

-- A segment of `n` bytes, at least one, and one of a single byte.
pub shown :
    (payload : Bytes) (base a n b first last : ℕ) (label what : Text)
    → a + n ≤ length payload
    → b ≡ a + n
    → first ≡ base + a
    → last + 1 ≡ base + b
    → Shows payload base a b
        (segment label what first (pos last) (bytes_to_hex (take n (drop a payload))))
unfolding segment
shown payload base a n b first last label what room e f l =
    let width : b - a ≡ n = omega arith in
    record {
      forwards = omega arith;
      inside = omega arith;
      starts = f;
      ends = pos-last_byte last (base + b) (omega arith);
      spelled = rw width;
    }

pub byte_shown :
    (payload : Bytes) (base a b first last : ℕ) (label what : Text)
    → a < length payload
    → b ≡ a + 1
    → first ≡ base + a
    → last ≡ base + a
    → Shows payload base a b (segment label what first (pos last) (byte_to_hex (get_or payload a)))
unfolding segment
byte_shown payload base a b first last label what room e f l =
    let width : b - a ≡ 1 = omega arith in
    record {
      forwards = omega arith;
      inside = omega arith;
      starts = f;
      ends = pos-last_byte last (base + b) (omega arith);
      spelled = rw (width, drop-get_or payload a room) (unfold bytes_to_hex byte_to_hex in refl);
    }

-- A segment that reaches to the end.
pub last_shown :
    (payload : Bytes) (base a n first : ℕ) (label what : Text)
    → a ≤ length payload
    → n ≡ length payload - a
    → first ≡ base + a
    → Shows payload base a (length payload) (
        segment label what first
          (last_byte (base + length payload))
          (bytes_to_hex (take n (drop a payload))))
unfolding segment
last_shown payload base a n first label what room e f = record {
  forwards = room;
  inside = omega arith;
  starts = f;
  ends = refl;
  spelled = rw e;
}

pub too_short-Tiled :
    (label what : Text) (payload : Bytes) (base : ℕ)
    → Tiled payload base 0 (length payload) (too_short label what payload base)
unfolding too_short
too_short-Tiled label what payload base = rw (range_lem payload 0 (length payload) (omega arith)) (
  length payload,
  last_shown payload base 0 (length payload) base label what (omega arith) (omega arith)
      (omega arith),
  refl,
)

pub remainder-Tiled :
    (label what : Text) (payload : Bytes) (base a : ℕ)
    → a ≤ length payload
    → Tiled payload base a (length payload) (remainder label what payload base a)
unfolding remainder
remainder-Tiled label what payload base a room = elim (Bool-cases (ltb a (length payload))) [
  | inl more ↦
      rw (more, range_lem payload a (length payload - a) (omega arith))
        (
          length payload,
          last_shown payload base a (length payload - a) (base + a) label what room refl refl,
          refl,
        )
  | inr none_left ↦
      let le : length payload ≤ a = ltb→le a (length payload) none_left in
      rw none_left (omega arith)
]
