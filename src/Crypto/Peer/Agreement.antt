-- ===== src/Crypto/Peer/Agreement.antt =====
-- Two nodes derive the same secret.
use meshcore_cpp_decoder.Common.{
  ℕ, ◌+◌, ◌*◌, ◌%◌, ◌^◌, ◌<◌, ◌≡◌, sym, ◌∙◌, true, false, some, arith, length, take, length-take,
  take-length, All-take, Bytes, Text, IsByte, IsBytes, ok, range_lem,
}
use meshcore_cpp_decoder.Hex.{hex_to_bytes, bytes_to_hex}
use meshcore_cpp_decoder.Hex.RoundTrip.{hex_to_bytes-bytes_to_hex}
use meshcore_cpp_decoder.Crypto.OpenSsl.{OpenSsl, Laws}
use meshcore_cpp_decoder.Crypto.Ed25519.{or_throw}
use meshcore_cpp_decoder.Crypto.Channel.{has_char}
use meshcore_cpp_decoder.Crypto.Peer.{build_text_message_payload, decrypt_text_message}
use meshcore_cpp_decoder.Crypto.Peer.RoundTrip.{decrypt_text_message-build_text_message_payload}
use meshcore_cpp_decoder.Crypto.Peer.Exchange.{
  BigNum, BigNumLaws, X25519Evp, prime, clear_sign, edwards_to_montgomery, key_exchange_raw,
  key_exchange,
}
use meshcore_cpp_decoder.Crypto.Peer.Montgomery.{edwards_to_montgomery_unique}

-- A digest of 64 bytes, secrets and public coordinates of 32, and the agreement of X25519: the secret of a
-- scalar and the public coordinate of another is that of the other scalar and the first's coordinate.
pub record X25519Laws (evp : X25519Evp) : Type 0 where
  pub sha512-length : (d : Bytes) → length (evp.sha512 d) ≡ 64
  pub sha512-IsBytes : (d : Bytes) → IsBytes (evp.sha512 d)
  pub base : Bytes → Bytes
  pub base-length : (a : Bytes) → length a ≡ 32 → length (base a) ≡ 32
  pub base-IsBytes : (a : Bytes) → IsBytes a → IsBytes (base a)
  pub derive-base :
      (a b : Bytes) → length a ≡ 32 → length b ≡ 32 → evp.derive a (base b) ≡ evp.derive b (base a)
  pub derive-length : (a u s : Bytes) → evp.derive a u ≡ some s → (length s ≡ 32) × IsBytes s

-- The big numbers of OpenSSL: `BN_bn2lebinpad` spells the number of 32 bytes as those bytes.
pub record LittleEndian (bn : BigNum) : Type 0 where
  pub pad-lebin2bn :
      (a : Bytes) → IsBytes a → length a ≡ 32 → bn.bn2lebinpad (bn.lebin2bn a) 32 ≡ some a

-- The scalar of a private key.
abbrev pub scalar_of : X25519Evp → Bytes → Bytes
scalar_of evp pair = take 32 (evp.sha512 (take 32 pair))

-- The keys of a node: a private key of 64 bytes, and an Ed25519 public key of 32 whose y is that of the
-- point with the public coordinate u of X25519 for the scalar: u = (1 + y) / (1 - y) modulo 2^255 - 19,
-- which is u = 1 + y + u y. `BN_mod_inverse` inverts 1 - y.
pub record Node (bn : BigNum) (evp : X25519Evp) (laws : X25519Laws evp)
    (private_hex public_hex : Text) (pair key : Bytes) : Type 0 where
  pub private_lem : hex_to_bytes private_hex ≡ ok pair
  pub size : length pair ≡ 64
  pub public_lem : hex_to_bytes public_hex ≡ ok key
  pub key_size : length key ≡ 32
  pub small : bn.lebin2bn (clear_sign key) < prime
  pub inverse : ℕ
  pub invertible :
      bn.mod_inverse (bn.mod_sub 1 (bn.lebin2bn (clear_sign key)) prime) prime ≡ some inverse
  pub coordinate_small : bn.lebin2bn (laws.base (scalar_of evp pair)) < prime
  pub coordinate :
      (1
          + bn.lebin2bn (clear_sign key)
          + bn.lebin2bn (laws.base (scalar_of evp pair)) * bn.lebin2bn (clear_sign key))
        % prime
      ≡ bn.lebin2bn (laws.base (scalar_of evp pair))

module _ (bn : BigNum) (numbers : BigNumLaws bn) (endian : LittleEndian bn)
    (objects : bn.objects ≡ true) (evp : X25519Evp) (laws : X25519Laws evp) where
  length-scalar_of : (pair : Bytes) → length (scalar_of evp pair) ≡ 32
  length-scalar_of pair =
      length-take 32 (evp.sha512 (take 32 pair)) (omega (arith, laws.sha512-length (take 32 pair)))

  scalar_of-IsBytes : (pair : Bytes) → IsBytes (scalar_of evp pair)
  scalar_of-IsBytes pair =
      All-take IsByte 32 (evp.sha512 (take 32 pair)) (laws.sha512-IsBytes (take 32 pair))

  -- The coordinate that the program computes from a node's public key is that of its scalar.
  point_lem :
      {a_hex a_pub : Text} {a a_key : Bytes}
      → Node bn evp laws a_hex a_pub a a_key
      → edwards_to_montgomery bn a_key ≡ ok (laws.base (scalar_of evp a))
  point_lem {a_hex} {a_pub} {a} {a_key} node =
      let size = laws.base-length (scalar_of evp a) (length-scalar_of a) in
      edwards_to_montgomery_unique bn numbers a_key node.inverse (laws.base (scalar_of evp a))
        objects node.key_size node.small node.invertible
        (size, node.coordinate_small, node.coordinate)
        (endian.pad-lebin2bn (laws.base (scalar_of evp a))
          (laws.base-IsBytes (scalar_of evp a) (scalar_of-IsBytes a)) size)

  key_exchange_lem :
      {a_hex a_pub b_hex b_pub : Text} {a a_key b b_key : Bytes} (s : Bytes)
      → Node bn evp laws a_hex a_pub a a_key
      → Node bn evp laws b_hex b_pub b b_key
      → evp.derive (scalar_of evp a) (laws.base (scalar_of evp b)) ≡ some s
      → key_exchange bn evp a_hex b_pub ≡ ok (bytes_to_hex s)
  unfolding key_exchange key_exchange_raw or_throw
  key_exchange_lem {a_hex} {a_pub} {b_hex} {b_pub} {a} {a_key} {b} {b_key} s mine other shared =
      let h : Bytes = evp.sha512 (take 32 a) in
      let half : Bytes = scalar_of evp a in
      let long = laws.sha512-length (take 32 a) in
      let h32 = length-scalar_of a in
      let whole : take 32 half ≡ half = take-length 32 half (omega (arith, h32)) in
      rw (
        mine.private_lem,
        mine.size,
        range_lem a 0 32 (omega (arith, mine.size)),
        range_lem h 0 32 (omega (arith, long)),
        hex_to_bytes-bytes_to_hex half (scalar_of-IsBytes a),
        h32,
        other.public_lem,
        point_lem other,
        range_lem half 0 32 (omega (arith, h32)),
        whole,
        shared,
        (laws.derive-length half (laws.base (scalar_of evp b)) s shared).0,
      )

  -- Two nodes with the keys of each other derive the same secret `s` where X25519 gives one for the scalar
  -- of the first and the public coordinate of the second, and a text message that the first builds with
  -- it is decrypted by the second to the same timestamp, type and text, and to the attempt's low two
  -- bits. Private keys have 64 bytes; public keys are 32 bytes whose y is related to the public
  -- coordinate u of the scalar by u = (1 + y) / (1 - y) modulo 2^255 - 19, where 1 - y is inverted; big
  -- numbers are allocated. The text is bytes without a zero, the timestamp fits 32 bits and the type is
  -- below 64; a cipher context is given, and the laws of the big numbers, X25519, SHA-512 and the
  -- ciphers are assumed.
  pub key_exchange-decrypt_text_message :
      {a_hex a_pub b_hex b_pub : Text} {a a_key b b_key : Bytes} (s : Bytes) (ssl : OpenSsl)
      → Laws ssl
      → ssl.cipher_ctx_new ≡ true
      → Node bn evp laws a_hex a_pub a a_key
      → Node bn evp laws b_hex b_pub b b_key
      → evp.derive (scalar_of evp a) (laws.base (scalar_of evp b)) ≡ some s
      → (dest_hash src_hash timestamp attempt txt_type : ℕ) (message : Text) → IsBytes message
      → has_char 0 message ≡ false
      → timestamp < 2 ^ 32
      → txt_type < 64
      → (payload : Bytes) × (key_exchange bn evp a_hex b_pub ≡ ok (bytes_to_hex s))
        × (key_exchange bn evp b_hex a_pub ≡ ok (bytes_to_hex s))
        × (build_text_message_payload ssl
              (bytes_to_hex s)
              dest_hash
              src_hash
              timestamp
              attempt
              message
              txt_type
            ≡ ok payload)
        × (decrypt_text_message ssl (bytes_to_hex s) payload
            ≡ ok (
                some (record {
                  timestamp = timestamp;
                  txt_type = txt_type;
                  attempt = attempt % 4;
                  message_text = message;
                })))
  key_exchange-decrypt_text_message {a_hex} {a_pub} {b_hex} {b_pub} {a} {a_key} {b} {b_key} s ssl
        ciphers ctx first second shared dest src timestamp attempt txt_type message hm no_nul small
        type_small =
      let back : evp.derive (scalar_of evp b) (laws.base (scalar_of evp a)) ≡ some s =
        sym (
          laws.derive-base (scalar_of evp a) (scalar_of evp b) (length-scalar_of a)
            (length-scalar_of b))
        ∙ shared in
      let (s32, hs) = laws.derive-length (scalar_of evp a) (laws.base (scalar_of evp b)) s shared in
      let (payload, built, opened) =
        decrypt_text_message-build_text_message_payload ssl ciphers ctx (bytes_to_hex s) s
          (hex_to_bytes-bytes_to_hex s hs) s32 dest src timestamp attempt txt_type message hm no_nul
          small type_small in
      (
        payload,
        key_exchange_lem s first second shared,
        key_exchange_lem s second first back,
        built,
        opened,
      )
