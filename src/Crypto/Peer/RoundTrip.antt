-- ===== src/Crypto/Peer/RoundTrip.antt =====
-- Decrypting the messages that `buildTextMessagePayload` builds.
use meshcore_cpp_decoder.Common.{
  ℕ, ◌+◌, ◌%◌, ◌^◌, ◌≤◌, ◌<◌, ◌≡◌, ap, ◌∙◌, true, false, some, ◌∷◌, ◌++◌, arith, ltb, leb, ◌==◌,
  le→ltb, shr, low_bits, length, take, replicate, length-take, All-append, Bytes, Text, IsByte,
  IsBytes, ok, read, get_or, range_lem,
}
use meshcore_cpp_decoder.Hex.{hex_to_bytes}
use meshcore_cpp_decoder.Decoders.Words.{uint32_le, uint32_le-IsBytes, word_at-uint32_le}
use meshcore_cpp_decoder.Crypto.OpenSsl.{OpenSsl, Laws, aes_key}
use meshcore_cpp_decoder.Crypto.Channel.{has_char, mac_matches}
use meshcore_cpp_decoder.Crypto.Channel.Parse.{until_nul-zeros}
use meshcore_cpp_decoder.Crypto.Peer.{
  type_byte, message_of, encrypt_then_mac, mac_then_decrypt, build_text_message_payload,
  decrypt_text_message,
}
use meshcore_cpp_decoder.Encoder.Group.{pad}
use meshcore_cpp_decoder.Encoder.Padding.{zeros_for, pad_lem, pad-IsBytes, length-pad}

-- The plaintext of a message.
abbrev plain_for : ℕ → ℕ → ℕ → Text → Bytes
plain_for timestamp attempt txt_type message =
    uint32_le timestamp ++ (type_byte txt_type attempt ∷ message)

message_of-pad :
    (timestamp attempt txt_type : ℕ) (message : Text)
    → timestamp < 2 ^ 32
    → txt_type < 64
    → has_char 0 message ≡ false
    → message_of (some (pad (plain_for timestamp attempt txt_type message)))
      ≡ some (record {
        timestamp = timestamp;
        txt_type = txt_type;
        attempt = attempt % 4;
        message_text = message;
      })
unfolding message_of
message_of-pad timestamp attempt txt_type message small type_small no_nul =
    let plain : Bytes = plain_for timestamp attempt txt_type message in
    let b : ℕ = type_byte txt_type attempt in
    let n : ℕ = zeros_for plain in
    let kind : shr b 2 ≡ txt_type = unfold type_byte in omega arith in
    let tries : low_bits b 2 ≡ attempt % 4 = unfold type_byte in omega arith in
    let word = word_at-uint32_le timestamp (b ∷ (message ++ replicate n 0)) small in
    let long = le→ltb (length (plain ++ replicate n 0)) 5 (unfold uint32_le in omega arith) in
    ap (λ p. message_of (some p)) (pad_lem plain).0
    ∙ rw long (unfold uint32_le in rw (word, until_nul-zeros message n no_nul, kind, tries))

module _ (ssl : OpenSsl) (laws : Laws ssl) (ctx : ssl.cipher_ctx_new ≡ true) (secret_hex : Text)
    (secret : Bytes) (parsed : hex_to_bytes secret_hex ≡ ok secret)
    (whole_secret : length secret ≡ 32) where
  key_lem : aes_key secret ≡ ok (take 16 secret)
  unfolding aes_key
  key_lem = range_lem secret 0 16 (omega arith)

  right_size : (length secret == 32) ≡ true
  right_size = ground arith

  -- The ciphertext, behind the first two bytes of its MAC.
  cipher_for : Bytes → Bytes
  cipher_for plain = ssl.aes128_ecb_encrypt (take 16 secret) (pad plain)

  sealed_for : Bytes → Bytes
  unfolding cipher_for
  sealed_for plain =
      get_or (ssl.hmac_sha256 secret (cipher_for plain)) 0
      ∷ get_or (ssl.hmac_sha256 secret (cipher_for plain)) 1
      ∷ cipher_for plain

  encrypt_lem : (plain : Bytes) → encrypt_then_mac ssl secret_hex plain ≡ ok (sealed_for plain)
  unfolding encrypt_then_mac sealed_for cipher_for
  encrypt_lem plain = rw (parsed, right_size, ctx, key_lem)

  -- What `encryptThenMac` returns for a secret of 32 bytes and a plaintext of one byte or more is two
  -- bytes longer than the padded plaintext, and `macThenDecrypt` opens it to that. A cipher context is
  -- given, and the laws of the ciphers are assumed.
  pub mac_then_decrypt-encrypt_then_mac :
      (plain : Bytes)
      → IsBytes plain
      → 1 ≤ length plain
      → (c : Bytes) × (encrypt_then_mac ssl secret_hex plain ≡ ok c)
        × (length c ≡ 2 + length (pad plain))
        × (mac_then_decrypt ssl secret_hex c ≡ ok (some (pad plain)))
  unfolding mac_then_decrypt mac_matches sealed_for read
  mac_then_decrypt-encrypt_then_mac plain hb some_text =
      let k16 : length (take 16 secret) ≡ 16 = length-take 16 secret (omega arith) in
      let (padded, few, whole) = pad_lem plain in
      let size : length (cipher_for plain) ≡ length (pad plain) =
        unfold cipher_for in laws.encrypt-length (take 16 secret) (pad plain) k16 whole in
      let grown = length-pad plain in
      let long : leb (length (sealed_for plain)) 2 ≡ false =
        let n : 2 < length (sealed_for plain) = omega (arith, size, grown) in ground (arith, n) in
      let a : (get_or (ssl.hmac_sha256 secret (cipher_for plain)) 0
            == get_or (ssl.hmac_sha256 secret (cipher_for plain)) 0)
          ≡ true =
        ground arith in
      let b : (get_or (ssl.hmac_sha256 secret (cipher_for plain)) 1
            == get_or (ssl.hmac_sha256 secret (cipher_for plain)) 1)
          ≡ true =
        ground arith in
      let back : ssl.aes128_ecb_decrypt (take 16 secret) (cipher_for plain) ≡ pad plain =
        unfold cipher_for in
        laws.decrypt-encrypt (take 16 secret) (pad plain) k16 (pad-IsBytes plain hb) whole in
      (
        sealed_for plain,
        encrypt_lem plain,
        omega (arith, size),
        rw (parsed, right_size, long, a, b, ctx, key_lem) (ap (λ p. ok (some p)) back),
      )

  -- A message that `buildTextMessagePayload` builds for a shared secret of 32 bytes is decrypted with
  -- that secret to the same timestamp, type and text, and to the attempt's low two bits. The text is
  -- bytes without a zero, the timestamp fits 32 bits and the type is below 64; a cipher context is given, and the laws of the ciphers are assumed.
  pub decrypt_text_message-build_text_message_payload :
      (dest_hash src_hash timestamp attempt txt_type : ℕ) (message : Text)
      → IsBytes message
      → has_char 0 message ≡ false
      → timestamp < 2 ^ 32
      → txt_type < 64
      → (payload : Bytes) × (build_text_message_payload ssl secret_hex dest_hash src_hash timestamp
            attempt message txt_type
          ≡ ok payload)
        × (decrypt_text_message ssl secret_hex payload
            ≡ ok (
                some (record {
                  timestamp = timestamp;
                  txt_type = txt_type;
                  attempt = attempt % 4;
                  message_text = message;
                })))
  unfolding build_text_message_payload decrypt_text_message
  decrypt_text_message-build_text_message_payload dest src timestamp attempt txt_type message hb
        no_nul small type_small =
      let plain : Bytes = plain_for timestamp attempt txt_type message in
      let byte : type_byte txt_type attempt < 256 = unfold type_byte in omega arith in
      let bytes : IsBytes plain =
        All-append IsByte (uint32_le timestamp) (type_byte txt_type attempt ∷ message)
          (uint32_le-IsBytes timestamp) (byte, hb) in
      let five : 5 ≤ length plain = unfold uint32_le in omega arith in
      let (c, built, size, opened) =
        mac_then_decrypt-encrypt_then_mac plain bytes (omega (arith, five)) in
      let (padded, few, whole) = pad_lem plain in
      let long : ltb (length (dest ∷ src ∷ c)) 20 ≡ false =
        le→ltb (length (dest ∷ src ∷ c)) 20 (omega (arith, size, whole, five, length-pad plain)) in
      let read_back = message_of-pad timestamp attempt txt_type message small type_small no_nul in
      (dest ∷ src ∷ c, rw built, rw (long, opened) (ap ok read_back))
