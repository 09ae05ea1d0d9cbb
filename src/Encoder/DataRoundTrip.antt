-- ===== src/Encoder/DataRoundTrip.antt =====
-- Decrypting the channel data that `buildGroupDataPayload` builds.
use meshcore_cpp_decoder.Common.{
  ℕ, ◌/◌, ◌%◌, ◌^◌, ◌≤◌, ◌<◌, ◌≡◌, refl, ap, ◌∙◌, true, false, not, ◌||◌, some, [], ◌∷◌, ◌++◌,
  arith, ltb, ◌==◌, le→ltb, length, take, drop, replicate, length-take, Bytes, Text, IsBytes, ok,
  get_or, get_or-IsByte,
}
use meshcore_cpp_decoder.Hex.{bytes_to_hex, hex_to_bytes}
use meshcore_cpp_decoder.Hex.RoundTrip.{hex_to_bytes-bytes_to_hex}
use meshcore_cpp_decoder.Crypto.OpenSsl.{OpenSsl, Laws}
use meshcore_cpp_decoder.Crypto.Channel.{decrypt_raw, decrypt_raw_body}
use meshcore_cpp_decoder.Encoder.{EncodeResult, built}
use meshcore_cpp_decoder.Encoder.Group.{pad, build_group_payload, build_group_data_payload}
use meshcore_cpp_decoder.Encoder.Padding.{zeros_for, pad_lem, pad-IsBytes, length-pad}
use meshcore_cpp_decoder.Encoder.GroupRoundTrip.{
  secret_of, cipher_of, sealed_of, secret_lem, key_lem, seal_lem, mac_lem,
}

-- The header of group data, and the data.
abbrev pub data_plain : ℕ → Bytes → Bytes
data_plain data_type content =
    (data_type % 256) ∷ (data_type / 2 ^ 8 % 256) ∷ (length content % 256) ∷ content

module _ (ssl : OpenSsl) (laws : Laws ssl) (ctx : ssl.cipher_ctx_new ≡ true) (key_hex : Text)
    (key : Bytes) (parsed : hex_to_bytes key_hex ≡ ok key) (sixteen : length key ≡ 16) where
  -- The ciphertext and the MAC of a sealed plaintext of whole blocks open to it.
  decrypt_raw_lem :
      (plain cipher mac : Bytes)
      → cipher ≡ cipher_of ssl laws ctx key_hex key parsed sixteen plain
      → mac
        ≡ get_or (ssl.hmac_sha256 (secret_of ssl laws ctx key_hex key parsed sixteen) cipher) 0
          ∷ get_or (ssl.hmac_sha256 (secret_of ssl laws ctx key_hex key parsed sixteen) cipher) 1
          ∷ []
      → IsBytes plain
      → length plain % 16 ≡ 0
      → 1 ≤ length plain
      → decrypt_raw ssl (bytes_to_hex cipher) (bytes_to_hex mac) key_hex ≡ ok (some plain)
  unfolding decrypt_raw decrypt_raw_body cipher_of
  decrypt_raw_lem plain cipher mac ec em hb whole some_text =
      let secret : Bytes = secret_of ssl laws ctx key_hex key parsed sixteen in
      let k16 : length (take 16 key) ≡ 16 = length-take 16 key (omega arith) in
      let cb : IsBytes cipher = rw ec (laws.encrypt-IsBytes (take 16 key) plain) in
      let size : length cipher ≡ length plain =
        rw ec (laws.encrypt-length (take 16 key) plain k16 whole) in
      let hm : Bytes = ssl.hmac_sha256 secret cipher in
      let mb : IsBytes mac = rw em (
        get_or-IsByte hm 0 (laws.hmac-IsBytes secret cipher),
        (get_or-IsByte hm 1 (laws.hmac-IsBytes secret cipher), tt),
      ) in
      let two : length mac ≡ 2 = rw em in
      let tests : (not (length key == 16) || ltb (length mac) 2 || length cipher == 0) ≡ false =
        ground (arith, size, two, sixteen, some_text) in
      let agree = mac_lem ssl laws ctx key_hex key parsed sixteen hm mac em in
      let back : ssl.aes128_ecb_decrypt (take 16 key) cipher ≡ plain =
        rw ec (laws.decrypt-encrypt (take 16 key) plain k16 hb whole) in
      rw
        (
          parsed,
          hex_to_bytes-bytes_to_hex mac mb,
          hex_to_bytes-bytes_to_hex cipher cb,
          tests,
          secret_lem ssl laws ctx key_hex key parsed sixteen,
          agree,
          ctx,
          key_lem ssl laws ctx key_hex key parsed sixteen,
        )
        (ap (λ p. ok (some p)) back)

  -- Data of at most 255 bytes is built for a channel key of 16 bytes, and `decryptRaw` with that key
  -- opens the ciphertext behind the channel hash and the MAC to the type, the length, the data and
  -- fewer than sixteen zeros. A cipher context is given, and the laws of the ciphers are assumed.
  pub decrypt_raw-build_group_data_payload :
      (data_type : ℕ) (content : Bytes)
      → IsBytes content
      → length content ≤ 255
      → (r : EncodeResult) × (n : ℕ) × (build_group_data_payload ssl key_hex data_type content
          ≡ ok r)
        × (r.success ≡ true)
        × (n < 16)
        × (decrypt_raw ssl
              (bytes_to_hex (drop 3 r.bytes))
              (bytes_to_hex (take 2 (drop 1 r.bytes)))
              key_hex
            ≡ ok (some (data_plain data_type content ++ replicate n 0)))
  unfolding build_group_data_payload build_group_payload built sealed_of
  decrypt_raw-build_group_data_payload data_type content hb short =
      let plain : Bytes = data_plain data_type content in
      let bytes : IsBytes plain = (omega arith, (omega arith, (omega arith, hb))) in
      let (padded, few, whole) = pad_lem plain in
      let right : (length key == 16) ≡ true = ground arith in
      let small : ltb 255 (length content) ≡ false = le→ltb 255 (length content) short in
      let opened =
        decrypt_raw_lem (pad plain) (cipher_of ssl laws ctx key_hex key parsed sixteen (pad plain))
          _ refl refl (pad-IsBytes plain bytes) whole (omega (arith, length-pad plain)) in
      (
        built (sealed_of ssl laws ctx key_hex key parsed sixteen (pad plain)),
        zeros_for plain,
        rw (small, parsed, right, seal_lem ssl laws ctx key_hex key parsed sixteen (pad plain)),
        refl,
        few,
        opened ∙ ap (λ p. ok (some p)) padded,
      )
