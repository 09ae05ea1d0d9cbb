-- ===== src/Encoder/GroupRoundTrip.antt =====
-- Decrypting the channel messages that `buildGroupTextPayload` builds.
use meshcore_cpp_decoder.Common.{
  ℕ, ◌-◌, ◌%◌, ◌≡◌, refl, ap, ◌∙◌, true, false, Option, none, some, List, [], ◌∷◌, ◌++◌, map, arith,
  ltb, ◌==◌, le→ltb, le→leb, length, take, replicate, length-take, take-length, Bytes, Text, IsByte,
  IsBytes, ok, read, get_or, range_lem, get_or-IsByte,
}
use meshcore_cpp_decoder.Hex.{byte_to_hex, bytes_to_hex, hex_to_bytes, to_lower}
use meshcore_cpp_decoder.Hex.RoundTrip.{hex_to_bytes-bytes_to_hex}
use meshcore_cpp_decoder.Enums.{group_text}
use meshcore_cpp_decoder.Payloads.{GroupTextPayload, valid_base}
use meshcore_cpp_decoder.Decoders.GroupText.{decrypted_of, try_keys, decrypt_with, decode}
use meshcore_cpp_decoder.Crypto.OpenSsl.{OpenSsl, Laws, aes_key}
use meshcore_cpp_decoder.Crypto.Channel.{
  parse_plain, channel_secret, calculate_channel_hash, mac_matches, decrypt_body,
  decrypt_group_text_message,
}
use meshcore_cpp_decoder.Crypto.KeyStore.{
  MeshCoreKeyStore, no_keys, found_keys, is_found, find, get_channel_keys, has_channel_key,
  add_channel_secrets,
}
use meshcore_cpp_decoder.Crypto.KeyStore.Lookup.{
  text_eq_refl, is_hash, matches, keys_for, get_channel_keys-add_channel_secrets,
}
use meshcore_cpp_decoder.Encoder.{EncodeResult, built}
use meshcore_cpp_decoder.Encoder.Group.{pad, seal, group_text_of, build_group_text_payload}
use meshcore_cpp_decoder.Encoder.Padding.{pad_lem}
use meshcore_cpp_decoder.Encoder.Message.{plain_of, Message, parse_plain-Message, plain-IsBytes}

module _ (ssl : OpenSsl) (laws : Laws ssl) (ctx : ssl.cipher_ctx_new ≡ true) (key_hex : Text)
    (key : Bytes) (parsed : hex_to_bytes key_hex ≡ ok key) (sixteen : length key ≡ 16) where
  unfoldable pub secret_of : Bytes
  secret_of = key ++ replicate (32 - length key) 0

  unfoldable pub hash_byte : ℕ
  hash_byte = get_or (ssl.sha256 key) 0

  unfoldable pub cipher_of : Bytes → Bytes
  cipher_of plain = ssl.aes128_ecb_encrypt (take 16 key) plain

  unfoldable pub sealed_of : Bytes → Bytes
  unfolding secret_of hash_byte cipher_of
  sealed_of plain =
      hash_byte
      ∷ get_or (ssl.hmac_sha256 secret_of (cipher_of plain)) 0
      ∷ get_or (ssl.hmac_sha256 secret_of (cipher_of plain)) 1
      ∷ cipher_of plain

  pub secret_lem : channel_secret key ≡ ok secret_of
  unfolding channel_secret secret_of
  secret_lem = rw (le→leb (length key) 32 (omega arith))

  pub key_lem : aes_key key ≡ ok (take 16 key)
  unfolding aes_key
  key_lem = range_lem key 0 16 (omega arith)

  hash_lem : calculate_channel_hash ssl key_hex ≡ ok (byte_to_hex hash_byte)
  unfolding calculate_channel_hash hash_byte
  hash_lem = rw parsed

  hash_bytes_lem : hex_to_bytes (byte_to_hex hash_byte) ≡ ok (hash_byte ∷ [])
  unfolding hash_byte bytes_to_hex byte_to_hex
  hash_bytes_lem =
      let small : IsByte (get_or (ssl.sha256 key) 0) =
        get_or-IsByte (ssl.sha256 key) 0 (laws.sha256-IsBytes key) in
      hex_to_bytes-bytes_to_hex (get_or (ssl.sha256 key) 0 ∷ []) (small, tt)

  pub seal_lem : (plain : Bytes) → seal ssl key_hex key plain ≡ ok (built (sealed_of plain))
  unfolding seal sealed_of secret_of cipher_of read calculate_channel_hash built
  seal_lem plain = rw (ctx, key_lem, secret_lem, hash_lem, hash_bytes_lem)

  build_lem :
      (sender message : Text) (timestamp flags : ℕ)
      → build_group_text_payload ssl key_hex sender message timestamp flags
        ≡ ok (built (sealed_of (pad (plain_of timestamp flags (group_text_of sender message)))))
  unfolding build_group_text_payload
  build_lem sender message timestamp flags =
      let right : (length key == 16) ≡ true = ground arith in
      rw (parsed, right, seal_lem (pad (plain_of timestamp flags (group_text_of sender message))))

  pub mac_lem :
      (hmac mac : Bytes)
      → mac ≡ get_or hmac 0 ∷ get_or hmac 1 ∷ []
      → mac_matches ssl hmac mac ≡ ok true
  unfolding mac_matches read
  mac_lem hmac mac e =
      let a : (get_or hmac 0 == get_or hmac 0) ≡ true = ground arith in
      let b : (get_or hmac 1 == get_or hmac 1) ≡ true = ground arith in rw (e, a, b)

  -- The ciphertext and the MAC of a sealed plaintext of whole blocks open to it.
  decrypt_lem :
      (plain cipher mac : Bytes)
      → cipher ≡ cipher_of plain
      → mac
        ≡ get_or (ssl.hmac_sha256 secret_of cipher) 0
          ∷ get_or (ssl.hmac_sha256 secret_of cipher) 1
          ∷ []
      → IsBytes plain
      → length plain % 16 ≡ 0
      → decrypt_group_text_message ssl (bytes_to_hex cipher) (bytes_to_hex mac) key_hex
        ≡ ok (parse_plain plain)
  unfolding decrypt_group_text_message decrypt_body
  decrypt_lem plain cipher mac ec em hb whole =
      let cb : IsBytes cipher =
        rw ec (unfold cipher_of in laws.encrypt-IsBytes (take 16 key) plain) in
      let mb : IsBytes mac = rw em (
        get_or-IsByte (ssl.hmac_sha256 secret_of cipher) 0 (laws.hmac-IsBytes secret_of cipher),
        (
          get_or-IsByte (ssl.hmac_sha256 secret_of cipher) 1 (laws.hmac-IsBytes secret_of cipher),
          tt,
        ),
      ) in
      let k16 : length (take 16 key) ≡ 16 = length-take 16 key (omega arith) in
      let back : ssl.aes128_ecb_decrypt (take 16 key) cipher ≡ plain =
        rw ec (unfold cipher_of in laws.decrypt-encrypt (take 16 key) plain k16 hb whole) in
      let agree = mac_lem (ssl.hmac_sha256 secret_of cipher) mac em in
      rw
        (
          parsed,
          hex_to_bytes-bytes_to_hex mac mb,
          hex_to_bytes-bytes_to_hex cipher cb,
          secret_lem,
          agree,
          ctx,
          key_lem,
        )
        (ap (λ l. ok (parse_plain l)) back)

  found_lem :
      (o : Option (List Text)) (k : Text) (ks : List Text)
      → found_keys o ≡ k ∷ ks
      → is_found o ≡ true
  unfolding found_keys is_found
  found_lem none k ks h = cc
  found_lem (some l) k ks h = refl

  -- The store that the key was added to first answers with it first.
  module _ (others : List Text) where
    store_of : MeshCoreKeyStore
    store_of = add_channel_secrets ssl (key_hex ∷ others) no_keys

    keys_lem :
        (rest : List Text) × (get_channel_keys store_of (byte_to_hex hash_byte) ≡ key_hex ∷ rest)
    unfolding store_of keys_for matches is_hash get_channel_keys no_keys find found_keys
    keys_lem =
        let q : Text = byte_to_hex hash_byte in
        let e = get_channel_keys-add_channel_secrets ssl (key_hex ∷ others) q no_keys in
        let here : matches ssl q key_hex ≡ true = rw hash_lem (text_eq_refl (map to_lower q)) in
        (keys_for ssl q others, e ∙ rw here)

    has_lem : has_channel_key store_of (byte_to_hex hash_byte) ≡ true
    unfolding has_channel_key get_channel_keys
    has_lem =
        let (rest, e) = keys_lem in
        found_lem (find (map to_lower (byte_to_hex hash_byte)) store_of.channel_hash_to_keys)
          key_hex rest e

    try_lem :
        (plain cipher mac : Bytes)
        → cipher ≡ cipher_of plain
        → mac
          ≡ get_or (ssl.hmac_sha256 secret_of cipher) 0
            ∷ get_or (ssl.hmac_sha256 secret_of cipher) 1
            ∷ []
        → IsBytes plain
        → length plain % 16 ≡ 0
        → (parse_plain plain).success ≡ true
        → decrypt_with ssl
            (some store_of)
            (byte_to_hex hash_byte)
            (bytes_to_hex cipher)
            (bytes_to_hex mac)
          ≡ ok (some (decrypted_of (parse_plain plain)))
    unfolding decrypt_with try_keys
    try_lem plain cipher mac ec em hb whole good =
        let (rest, ek) = keys_lem in
        rw (has_lem, ek, decrypt_lem plain cipher mac ec em hb whole, good)

    decode_sealed :
        (plain : Bytes)
        → IsBytes plain
        → length plain % 16 ≡ 0
        → (parse_plain plain).success ≡ true
        → (p : GroupTextPayload) × (decode ssl (sealed_of plain) (some store_of) ≡ ok p)
          × (p.base ≡ valid_base group_text)
          × (p.decrypted ≡ some (decrypted_of (parse_plain plain)))
    unfolding decode sealed_of read
    decode_sealed plain hb whole good =
        let c : Bytes = cipher_of plain in
        let hm : Bytes = ssl.hmac_sha256 secret_of c in
        let mac : Bytes = get_or hm 0 ∷ get_or hm 1 ∷ [] in
        let s : Bytes = hash_byte ∷ get_or hm 0 ∷ get_or hm 1 ∷ c in
        let long : ltb (length s) 3 ≡ false = le→ltb (length s) 3 (omega arith) in
        let n : length s - 3 ≡ length c = omega arith in
        let opened = try_lem plain c mac refl refl hb whole good in
        (
          record {
            base = valid_base group_text;
            channel_hash = byte_to_hex hash_byte;
            cipher_mac = bytes_to_hex mac;
            ciphertext = bytes_to_hex c;
            ciphertext_length = length s - 3;
            decrypted = some (decrypted_of (parse_plain plain));
          },
          rw (
            long,
            range_lem s 1 2 (omega arith),
            range_lem s 3 (length s - 3) (omega arith),
            n,
            take-length (length c) c (omega arith),
            opened,
          ),
          refl,
          refl,
        )

    -- A message that `buildGroupTextPayload` is asked to build for a channel key of 16 bytes is
    -- built, and a reader whose store that key was added to first finds in it the timestamp, the
    -- flags, the sender and the message. The sender is one that `parse_sender` recognises; it and the
    -- message are bytes without a zero, the timestamp fits 32 bits and the flags eight. A cipher context is given, and the laws of the ciphers are assumed.
    pub decode-build_group_text_payload :
        (sender message : Text) (timestamp flags : ℕ)
        → Message sender message timestamp flags
        → (r : EncodeResult) × (p : GroupTextPayload) × (build_group_text_payload ssl key_hex sender
              message timestamp flags
            ≡ ok r)
          × (r.success ≡ true)
          × (decode ssl r.bytes (some (add_channel_secrets ssl (key_hex ∷ others) no_keys)) ≡ ok p)
          × (p.base ≡ valid_base group_text)
          × (p.decrypted
              ≡ some (record {
                timestamp = timestamp;
                flags = flags;
                sender = some sender;
                message = message;
              }))
    unfolding store_of decrypted_of built
    decode-build_group_text_payload sender message timestamp flags fits =
        let plain : Bytes = pad (plain_of timestamp flags (group_text_of sender message)) in
        let e = parse_plain-Message sender message timestamp flags fits in
        let whole = (pad_lem (plain_of timestamp flags (group_text_of sender message))).2 in
        let (p, ep, base, found) =
          decode_sealed plain (plain-IsBytes sender message timestamp flags fits) whole
            (ap (λ r. r.success) e) in
        (
          built (sealed_of plain),
          p,
          build_lem sender message timestamp flags,
          refl,
          ep,
          base,
          found ∙ ap (λ r. some (decrypted_of r)) e,
        )
