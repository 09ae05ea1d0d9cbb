-- ===== src/Runs/Exchanges.antt =====
-- The key exchange, with an instance of the big numbers, X25519 and SHA-512 that meets their laws.
use meshcore_cpp_decoder.Common.{
  ℕ, zero, suc, ◌+◌, ◌-◌, ◌*◌, ◌/◌, ◌%◌, ◌^◌, ◌<◌, ◌≡◌, refl, sym, ap, ◌∙◌, inl, inr, true, false,
  Option, none, some, [], ◌∷◌, ◌++◌, arith, ◌==◌, if◌then◌else◌, ==_iff, Bool-cases, length,
  replicate, Bytes, Text, IsBytes, ok,
}
use native.Mathlib.Nat.{mod-add-div, mod-add-mod, mod-lt, add-mul-mod_self_left}
use meshcore_cpp_decoder.Hex.{bytes_to_hex}
use meshcore_cpp_decoder.Hex.RoundTrip.{hex_to_bytes-bytes_to_hex}
use meshcore_cpp_decoder.Crypto.Channel.{has_char}
use meshcore_cpp_decoder.Crypto.Peer.{build_text_message_payload, decrypt_text_message}
use meshcore_cpp_decoder.Crypto.Peer.Exchange.{
  BigNum, BigNumLaws, X25519Evp, clear_sign, edwards_to_montgomery, key_exchange,
}
use meshcore_cpp_decoder.Crypto.Peer.Montgomery.{OnMontgomery, edwards_to_montgomery-OnMontgomery}
use meshcore_cpp_decoder.Crypto.Peer.Agreement.{
  X25519Laws, LittleEndian, Node, key_exchange-decrypt_text_message,
}
use meshcore_cpp_decoder.Runs.Sample.{sample_ssl, sample-Laws}

-- Little-endian numbers.
le_value : Bytes → ℕ
le_value [] = 0
le_value (b ∷ bs) = b + 256 * le_value bs

le_bytes : ℕ → ℕ → Bytes
le_bytes zero n = []
le_bytes (suc k) n = n % 256 ∷ le_bytes k (n / 256)

length-le_bytes : (k n : ℕ) → length (le_bytes k n) ≡ k
unfolding le_bytes
length-le_bytes zero n = refl
length-le_bytes (suc k) n = ap suc (length-le_bytes k (n / 256))

le_value-le_bytes : (k n : ℕ) → n < 256 ^ k → le_value (le_bytes k n) ≡ n
unfolding le_value le_bytes
le_value-le_bytes zero n h = omega arith
le_value-le_bytes (suc k) n h =
    let rest = le_value-le_bytes k (n / 256) (omega arith) in rw rest (omega arith)

inverse_of : ℕ → Option ℕ
inverse_of a = if a == 1 then some 1 else none

abbrev sample_bn : BigNum
sample_bn = record {
  objects = true;
  lebin2bn = le_value;
  mod_add = λ a b m. (a + b) % m;
  mod_sub = λ a b m. (a + (m - b % m)) % m;
  mod_inverse = λ a m. inverse_of a;
  mod_mul = λ a b m. some ((a * b) % m);
  bn2lebinpad = λ n k. some (le_bytes k n);
}

sub-add : (a b m : ℕ) → 0 < m → ((a + (m - b % m)) % m + b) % m ≡ a % m
sub-add a b m pos =
    let r : b % m + m * (b / m) ≡ b = mod-add-div b m in
    let below : b % m < m = mod-lt b pos in
    let whole : a + (m - b % m) + b ≡ a + m * (1 + b / m) =
      sym (ap (λ t. a + (m - b % m) + t) r) ∙ grind arith in
    mod-add-mod (a + (m - b % m)) m b
    ∙ ap (λ t. t % m) whole
    ∙ add-mul-mod_self_left a m (1 + b / m)

inverse_of-one : (a m i : ℕ) → inverse_of a ≡ some i → (a * i) % m ≡ 1 % m
unfolding inverse_of
inverse_of-one a m i h = elim (Bool-cases (a == 1)) [
  | inl one ↦ rw ((==_iff a 1).0 one, some_injective (rw one at h)) refl
  | inr other ↦ absurd (none-some (rw other at h))
]
  where
    some_injective : some 1 ≡ some i → i ≡ 1
    some_injective e = cc

    none-some : none ≡ some i → ⊥
    none-some e = cc

sample-BigNumLaws : BigNumLaws sample_bn
sample-BigNumLaws = record {
  add_lem = λ a b m pos. refl;
  sub_lem = sub-add;
  inverse_lem = inverse_of-one;
  mul_lem = λ a b m pos. refl;
  bytes_lem = λ n h. (le_bytes 32 n, refl, length-le_bytes 32 n, le_value-le_bytes 32 n h);
}

-- The point with y = 0 and its sign bit set.
abbrev point : Bytes
point = replicate 31 0 ++ (128 ∷ [])

point_run : le_value (clear_sign point) ≡ 0
unfolding le_value clear_sign
point_run = refl

edwards_to_montgomery-OnMontgomery_example :
    (out : Bytes) × (edwards_to_montgomery sample_bn point ≡ ok out)
    × OnMontgomery sample_bn (le_value (clear_sign point)) out
edwards_to_montgomery-OnMontgomery_example =
    edwards_to_montgomery-OnMontgomery sample_bn sample-BigNumLaws point 1 refl refl
      (rw point_run (omega arith)) (rw point_run (unfold inverse_of in refl))

-- An instance of X25519 and SHA-512 with one secret, and a node.
abbrev sample_x25519 : X25519Evp
sample_x25519 = record { derive = λ a u. some (replicate 32 5); sha512 = λ d. 1 ∷ replicate 63 0 }

sample-X25519Laws : X25519Laws sample_x25519
sample-X25519Laws = record {
  sha512-length = λ d. refl;
  sha512-IsBytes = λ d. omega arith;
  base = λ a. a;
  base-length = λ a h. h;
  base-IsBytes = λ a h. h;
  derive-base = λ a b ha hb. refl;
  derive-length = λ a u s h. rw (← only_secret s h) (refl, omega arith);
}
  where
    only_secret : (s : Bytes) → some (replicate 32 5) ≡ some s → replicate 32 5 ≡ s
    only_secret s e = cc

abbrev pair : Bytes
pair = replicate 64 3

le_bytes-le_value : (a : Bytes) → IsBytes a → le_bytes (length a) (le_value a) ≡ a
unfolding le_bytes le_value
le_bytes-le_value [] h = refl
le_bytes-le_value (b ∷ bs) (hb, h) =
    let low : (b + 256 * le_value bs) % 256 ≡ b = omega arith in
    let high : (b + 256 * le_value bs) / 256 ≡ le_value bs = omega arith in
    rw (low, high, le_bytes-le_value bs h)

sample-LittleEndian : LittleEndian sample_bn
sample-LittleEndian = record {
  pad-lebin2bn =
      λ a h size. ap some (ap (λ k. le_bytes k (le_value a)) (sym size) ∙ le_bytes-le_value a h);
}

sample-Node :
    Node sample_bn sample_x25519 sample-X25519Laws
      (bytes_to_hex pair)
      (bytes_to_hex point)
      pair
      point
unfolding sample-X25519Laws clear_sign le_value inverse_of
sample-Node = record {
  private_lem = hex_to_bytes-bytes_to_hex pair (omega arith);
  size = refl;
  public_lem = hex_to_bytes-bytes_to_hex point (omega arith);
  key_size = refl;
  small = omega arith;
  inverse = 1;
  invertible = refl;
  coordinate_small = omega arith;
  coordinate = refl;
}

abbrev hi : Text
hi = 72 ∷ 105 ∷ []

hi-no_nul : has_char 0 hi ≡ false
unfolding has_char
hi-no_nul = refl

key_exchange-decrypt_text_message_example :
    (payload : Bytes) × (key_exchange sample_bn sample_x25519
        (bytes_to_hex pair)
        (bytes_to_hex point)
      ≡ ok (bytes_to_hex (replicate 32 5)))
    × (key_exchange sample_bn sample_x25519 (bytes_to_hex pair) (bytes_to_hex point)
        ≡ ok (bytes_to_hex (replicate 32 5)))
    × (build_text_message_payload sample_ssl (bytes_to_hex (replicate 32 5)) 1 2 1700000000 5 hi 3
        ≡ ok payload)
    × (decrypt_text_message sample_ssl (bytes_to_hex (replicate 32 5)) payload
        ≡ ok (
            some (record { timestamp = 1700000000; txt_type = 3; attempt = 1; message_text = hi })))
key_exchange-decrypt_text_message_example =
    key_exchange-decrypt_text_message sample_bn sample-BigNumLaws sample-LittleEndian refl
      sample_x25519 sample-X25519Laws (replicate 32 5) sample_ssl sample-Laws refl sample-Node
      sample-Node refl 1 2 1700000000 5 3 hi (omega arith) hi-no_nul (omega arith) (omega arith)
