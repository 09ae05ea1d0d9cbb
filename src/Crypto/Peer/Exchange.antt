-- ===== src/Crypto/Peer/Exchange.antt =====
-- src/crypto/peer_crypto.cpp, the key exchange. The big numbers of OpenSSL, its X25519 and its SHA-512
-- are parameters; a big number is its value.
use meshcore_cpp_decoder.Common.{
  ℕ, ◌+◌, ◌-◌, ◌*◌, ◌%◌, ◌^◌, ◌<◌, ◌≡◌, Bool, not, ◌&&◌, Option, none, some, [], ◌∷◌, ◌++◌, ltb,
  ◌==◌, if◌then◌else◌, low_bits, length, take, Bytes, Text, text, Outcome, ok, ◌>>=◌, ◌>>◌,
  throw_if, range, get_or,
}
use meshcore_cpp_decoder.Hex.{hex_to_bytes, bytes_to_hex}
use meshcore_cpp_decoder.Crypto.Ed25519.{or_throw}

pub record BigNum : Type 0 where
  -- Whether BN_CTX_new, BN_new and BN_lebin2bn return objects.
  pub objects : Bool
  -- BN_lebin2bn, BN_mod_add and BN_mod_sub
  pub lebin2bn : Bytes → ℕ
  pub mod_add : ℕ → ℕ → ℕ → ℕ
  pub mod_sub : ℕ → ℕ → ℕ → ℕ
  -- BN_mod_inverse and BN_mod_mul; `none` where they fail.
  pub mod_inverse : ℕ → ℕ → Option ℕ
  pub mod_mul : ℕ → ℕ → ℕ → Option ℕ
  -- The bytes of BN_bn2lebinpad; `none` where it does not return their number.
  pub bn2lebinpad : ℕ → ℕ → Option Bytes

-- What OpenSSL documents of its big numbers: sums, differences and products modulo `m`, an inverse that
-- is one, and 32 bytes that are read back to the number.
pub record BigNumLaws (bn : BigNum) : Type 0 where
  pub add_lem : (a b m : ℕ) → 0 < m → bn.mod_add a b m ≡ (a + b) % m
  pub sub_lem : (a b m : ℕ) → 0 < m → (bn.mod_sub a b m + b) % m ≡ a % m
  pub inverse_lem : (a m i : ℕ) → bn.mod_inverse a m ≡ some i → (a * i) % m ≡ 1 % m
  pub mul_lem : (a b m : ℕ) → 0 < m → bn.mod_mul a b m ≡ some ((a * b) % m)
  pub bytes_lem :
      (n : ℕ)
      → n < 256 ^ 32
      → (bs : Bytes) × (bn.bn2lebinpad n 32 ≡ some bs) × (length bs ≡ 32) × (bn.lebin2bn bs ≡ n)

-- The EVP calls for X25519, and SHA512.
pub record X25519Evp : Type 0 where
  -- EVP_PKEY_derive with the keys of a scalar and of a u-coordinate; `none` where a call fails.
  pub derive : Bytes → Bytes → Option Bytes
  pub sha512 : Bytes → Bytes

-- `p`, which is 2^255 - 19.
abbrev pub prime : ℕ
prime = 2 ^ 255 - 19

-- `yBytes[31] &= 0x7F` of 32 bytes.
unfoldable pub clear_sign : Bytes → Bytes
clear_sign ed_pub = take 31 ed_pub ++ (low_bits (get_or ed_pub 31) 7 ∷ [])

module _ (bn : BigNum) where
  -- `BN_mod_mul(u, num, den, p, ctx)` of the inverse, and `BN_bn2lebinpad(u, out.data(), 32) == 32`.
  unfoldable pub printed : Option ℕ → Option Bytes
  printed none = none
  printed (some u) = bn.bn2lebinpad u 32

  unfoldable pub quotient_of : ℕ → Option ℕ → Option Bytes
  unfolding printed
  quotient_of num none = none
  quotient_of num (some inverse) = printed (bn.mod_mul num inverse prime)

  -- (1 + y) / (1 - y), unless the divisor is zero.
  unfoldable pub divided : ℕ → ℕ → Option Bytes
  unfolding quotient_of
  divided num den = if den == 0 then none else quotient_of num (bn.mod_inverse den prime)

  unfoldable pub montgomery_of : ℕ → Option Bytes
  unfolding divided
  montgomery_of y =
      if bn.objects && ltb y prime
      then divided (bn.mod_add 1 y prime) (bn.mod_sub 1 y prime)
      else none

  -- `edwardsToMontgomery`
  unfoldable pub edwards_to_montgomery : Bytes → Outcome Bytes
  unfolding clear_sign montgomery_of
  edwards_to_montgomery ed_pub = do
    throw_if (not (length ed_pub == 32)) (text "public key must be 32 bytes")
    or_throw (text "invalid Ed25519 point") (montgomery_of (bn.lebin2bn (clear_sign ed_pub)))

  module _ (x25519 : X25519Evp) where
    -- `PeerCrypto::keyExchangeRaw`
    unfoldable pub key_exchange_raw : Text → Text → Outcome Text
    key_exchange_raw scalar_hex other_public_key_hex = do
      scalar ← hex_to_bytes scalar_hex
      throw_if (ltb (length scalar) 32) (text "scalar must be 32 bytes")
      other ← hex_to_bytes other_public_key_hex
      u ← edwards_to_montgomery other
      half ← range scalar 0 32
      secret ← or_throw (text "X25519 derive failed") (x25519.derive half u)
      throw_if (not (length secret == 32)) (text "X25519 derive failed")
      ok (bytes_to_hex secret)

    -- `PeerCrypto::keyExchange`
    unfoldable pub key_exchange : Text → Text → Outcome Text
    unfolding key_exchange_raw
    key_exchange private_key_hex other_public_key_hex = do
      priv ← hex_to_bytes private_key_hex
      throw_if (not (length priv == 64)) (text "private key must be 64 bytes")
      seed ← range priv 0 32
      half ← range (x25519.sha512 seed) 0 32
      key_exchange_raw (bytes_to_hex half) other_public_key_hex
