-- ===== src/Crypto/Peer/Montgomery.antt =====
-- The u-coordinate that `edwardsToMontgomery` computes.
use meshcore_cpp_decoder.Common.{
  ℕ, ◌+◌, ◌-◌, ◌*◌, ◌/◌, ◌%◌, ◌<◌, ◌≡◌, sym, ap, ◌∙◌, inl, inr, true, false, some, arith, ◌==◌,
  lt→ltb, ==_iff, Bool-cases, length, Bytes, ok,
}
use native.Mathlib.Nat.{
  mod-add-div, mod-add-mod, mod-mod, mod-lt, mod-eq_of_lt, add-mul-mod_self_left,
}
use meshcore_cpp_decoder.Crypto.Ed25519.{or_throw}
use meshcore_cpp_decoder.Crypto.Peer.Exchange.{
  BigNum, BigNumLaws, prime, clear_sign, printed, quotient_of, divided, montgomery_of,
  edwards_to_montgomery,
}

split_product : (r m q b : ℕ) → (r + m * q) * b ≡ r * b + m * (q * b)
split_product r m q b = grind arith

-- A factor may be reduced first.
mul-mod : (a b m : ℕ) → (a % m * b) % m ≡ (a * b) % m
mul-mod a b m =
    let whole : a * b ≡ a % m * b + m * (a / m * b) =
      ap (λ t. t * b) (sym (mod-add-div a m)) ∙ split_product (a % m) m (a / m) b in
    sym (ap (λ t. t % m) whole ∙ add-mul-mod_self_left (a % m * b) m (a / m * b))

by_one : (a b m : ℕ) → a % m ≡ 1 % m → (a * b) % m ≡ b % m
by_one a b m h =
    let plain : 1 * b ≡ b = omega arith in
    sym (mul-mod a b m) ∙ ap (λ t. (t * b) % m) h ∙ mul-mod 1 b m ∙ ap (λ t. t % m) plain

turned : (n i d : ℕ) → n * i * d ≡ d * i * n
turned n i d = grind arith

gathered : (u d y : ℕ) → u * d + u * y ≡ (d + y) * u
gathered u d y = grind arith

-- The quotient `u` of `1 + y` and `d`, where `d` is `1 - y` and `i` its inverse.
quotient_lem :
    (y d i m : ℕ)
    → (d + y) % m ≡ 1 % m
    → (d * i) % m ≡ 1 % m
    → (1 + y + ((1 + y) % m * i) % m * y) % m ≡ (((1 + y) % m * i) % m) % m
quotient_lem y d i m hd hi =
    let n : ℕ = (1 + y) % m in
    let u : ℕ = (n * i) % m in
    let divided : (u * d) % m ≡ (1 + y) % m =
      mul-mod (n * i) d m
      ∙ ap (λ t. t % m) (turned n i d)
      ∙ by_one (d * i) n m hi
      ∙ mod-mod (1 + y) m in
    sym (mod-add-mod (1 + y) m (u * y))
    ∙ ap (λ t. (t + u * y) % m) (sym divided)
    ∙ mod-add-mod (u * d) m (u * y)
    ∙ ap (λ t. t % m) (gathered u d y)
    ∙ by_one (d + y) u m hd

-- A summand cancels.
cancel : (a b c m : ℕ) → 0 < m → (a + c) % m ≡ (b + c) % m → a % m ≡ b % m
cancel a b c m pos h =
    let k : ℕ = m - c % m in
    let below : c % m < m = mod-lt c pos in
    let back : (a : ℕ) → a + c + k ≡ a + m * (1 + c / m) =
      λ a. sym (ap (λ t. a + t + k) (mod-add-div c m)) ∙ grind arith in
    let round : (a : ℕ) → ((a + c) % m + k) % m ≡ a % m = λ a.
      mod-add-mod (a + c) m k ∙ ap (λ t. t % m) (back a) ∙ add-mul-mod_self_left a m (1 + c / m) in
    sym (round a) ∙ ap (λ t. (t + k) % m) h ∙ round b

regrouped : (u d i : ℕ) → d * i * u ≡ u * d * i
regrouped u d i = grind arith

-- There is one quotient below `m`.
quotient_unique :
    (y d i m u : ℕ)
    → 0 < m
    → (d + y) % m ≡ 1 % m
    → (d * i) % m ≡ 1 % m
    → u < m
    → (1 + y + u * y) % m ≡ u
    → u ≡ ((1 + y) % m * i) % m
quotient_unique y d i m u pos hd hi below hu =
    let same : (u * d + u * y) % m ≡ (1 + y + u * y) % m =
      ap (λ t. t % m) (gathered u d y) ∙ by_one (d + y) u m hd ∙ mod-eq_of_lt below ∙ sym hu in
    let product : (u * d) % m ≡ (1 + y) % m = cancel (u * d) (1 + y) (u * y) m pos same in
    sym (mod-eq_of_lt below)
    ∙ sym (by_one (d * i) u m hi)
    ∙ ap (λ t. t % m) (regrouped u d i)
    ∙ sym (mul-mod (u * d) i m)
    ∙ ap (λ t. (t * i) % m) product

module _ (bn : BigNum) where
  -- The coordinate of an Edwards point with the given y.
  abbrev pub OnMontgomery : ℕ → Bytes → Type 0
  OnMontgomery y out =
      (length out ≡ 32)
      × (bn.lebin2bn out < prime)
      × ((1 + y + bn.lebin2bn out * y) % prime ≡ bn.lebin2bn out)

module _ (bn : BigNum) (laws : BigNumLaws bn) where
  -- What `edwardsToMontgomery` returns, the bytes of the quotient.
  pub edwards_to_montgomery_lem :
      (ed_pub : Bytes) (i : ℕ) (out : Bytes)
      → bn.objects ≡ true
      → length ed_pub ≡ 32
      → bn.lebin2bn (clear_sign ed_pub) < prime
      → bn.mod_inverse (bn.mod_sub 1 (bn.lebin2bn (clear_sign ed_pub)) prime) prime ≡ some i
      → bn.bn2lebinpad (((1 + bn.lebin2bn (clear_sign ed_pub)) % prime * i) % prime) 32 ≡ some out
      → edwards_to_montgomery bn ed_pub ≡ ok out
  unfolding edwards_to_montgomery or_throw montgomery_of divided quotient_of printed
  edwards_to_montgomery_lem ed_pub i out objects size small invertible e =
      let y : ℕ = bn.lebin2bn (clear_sign ed_pub) in
      let d : ℕ = bn.mod_sub 1 y prime in
      let pos : 0 < prime = omega arith in
      let inverse = laws.inverse_lem d prime i invertible in
      let not_zero : (d == 0) ≡ false = elim (Bool-cases (d == 0)) [
        | inl zero_den ↦ absurd (no_inverse d i inverse ((==_iff d 0).0 zero_den))
        | inr other ↦ other
      ] in
      rw (
        size,
        objects,
        lt→ltb y prime small,
        laws.add_lem 1 y prime pos,
        not_zero,
        invertible,
        laws.mul_lem ((1 + y) % prime) i prime pos,
        e,
      )
    where
      no_inverse : (d i : ℕ) → (d * i) % prime ≡ 1 % prime → d ≡ 0 → ⊥
      no_inverse d i h z = omega (arith, (rw z at h))

  -- Where y is below 2^255 - 19 and `BN_mod_inverse` inverts 1 - y, `edwardsToMontgomery` of 32
  -- bytes returns the 32 bytes of a number u below 2^255 - 19 with u = 1 + y + u y modulo it, which
  -- is (1 + y) / (1 - y), provided that the objects are allocated; y is the number of the bytes
  -- without the sign bit. The laws of the big numbers are assumed.
  pub edwards_to_montgomery-OnMontgomery :
      (ed_pub : Bytes) (i : ℕ)
      → bn.objects ≡ true
      → length ed_pub ≡ 32
      → bn.lebin2bn (clear_sign ed_pub) < prime
      → bn.mod_inverse (bn.mod_sub 1 (bn.lebin2bn (clear_sign ed_pub)) prime) prime ≡ some i
      → (out : Bytes) × (edwards_to_montgomery bn ed_pub ≡ ok out)
        × OnMontgomery bn (bn.lebin2bn (clear_sign ed_pub)) out
  edwards_to_montgomery-OnMontgomery ed_pub i objects size small invertible =
      let y : ℕ = bn.lebin2bn (clear_sign ed_pub) in
      let d : ℕ = bn.mod_sub 1 y prime in
      let pos : 0 < prime = omega arith in
      let u : ℕ = ((1 + y) % prime * i) % prime in
      let below : u < prime = mod-lt ((1 + y) % prime * i) pos in
      let (out, e, size', same) = laws.bytes_lem u (omega arith) in
      let holds =
        quotient_lem y d i prime (laws.sub_lem 1 y prime pos)
          (laws.inverse_lem d prime i invertible) in
      (
        out,
        edwards_to_montgomery_lem ed_pub i out objects size small invertible e,
        (size', rw same below, rw same (holds ∙ mod-eq_of_lt below)),
      )

  -- There is one coordinate, and `edwardsToMontgomery` returns its only spelling in 32 bytes.
  pub edwards_to_montgomery_unique :
      (ed_pub : Bytes) (i : ℕ) (out : Bytes)
      → bn.objects ≡ true
      → length ed_pub ≡ 32
      → bn.lebin2bn (clear_sign ed_pub) < prime
      → bn.mod_inverse (bn.mod_sub 1 (bn.lebin2bn (clear_sign ed_pub)) prime) prime ≡ some i
      → OnMontgomery bn (bn.lebin2bn (clear_sign ed_pub)) out
      → bn.bn2lebinpad (bn.lebin2bn out) 32 ≡ some out
      → edwards_to_montgomery bn ed_pub ≡ ok out
  edwards_to_montgomery_unique ed_pub i out objects size small invertible (_, below, on) spelled =
      let y : ℕ = bn.lebin2bn (clear_sign ed_pub) in
      let d : ℕ = bn.mod_sub 1 y prime in
      let pos : 0 < prime = omega arith in
      let same =
        quotient_unique y d i prime (bn.lebin2bn out) pos (laws.sub_lem 1 y prime pos)
          (laws.inverse_lem d prime i invertible) below on in
      edwards_to_montgomery_lem ed_pub i out objects size small invertible
        (ap (λ n. bn.bn2lebinpad n 32) (sym same) ∙ spelled)
