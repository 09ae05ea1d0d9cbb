-- ===== src/Crypto/Channel/Safety.antt =====
-- When the channel cipher stays inside its buffers.
use meshcore_cpp_decoder.Common.{
  ◌-◌, ◌≤◌, ◌≡◌, ◌⊎◌, inl, inr, Bool, false, ◌++◌, arith, ◌==◌, le→leb, Bool-cases, length, take,
  replicate, Bytes, Text, text, ok, throws, get_or, read_lem, range_lem,
}
use meshcore_cpp_decoder.Hex.{hex_to_bytes}
use meshcore_cpp_decoder.Hex.RoundTrip.{hex_to_bytes-cases}
use meshcore_cpp_decoder.Crypto.OpenSsl.{OpenSsl, aes_key}
use meshcore_cpp_decoder.Crypto.Channel.{
  DecryptionResult, no_result, channel_secret, parse_plain, mac_matches, decrypt_body,
  decrypt_group_text_message,
}

-- A key that is no hexadecimal text, or spells 16 to 32 bytes.
abbrev pub KeyFits : Text → Type 0
KeyFits key = (b : Bytes) → hex_to_bytes key ≡ ok b → (16 ≤ length b) × (length b ≤ 32)

pub hex_outcome :
    (s : Text)
    → ((b : Bytes) × (hex_to_bytes s ≡ ok b)) ⊎ ((e : Text) × (hex_to_bytes s ≡ throws e))
hex_outcome s = elim (hex_to_bytes-cases s) [
  | inl (bs, e, _, _) ↦ inl (bs, e)
  | inr (inl bad) ↦ inr (_, bad.1)
  | inr (inr odd) ↦ inr (_, odd.2)
]

-- The first two bytes of a digest are those of the MAC.
abbrev pub MacAgrees : Bytes → Bytes → Type 0
MacAgrees hmac mac = (get_or hmac 0 ≡ get_or mac 0) × (get_or hmac 1 ≡ get_or mac 1)

module _ (ssl : OpenSsl) where
  mac_matches-returns :
      (hmac mac : Bytes) → 2 ≤ length mac → (b : Bool) × (mac_matches ssl hmac mac ≡ ok b)
  unfolding mac_matches
  mac_matches-returns hmac mac h = elim (Bool-cases (get_or hmac 0 == get_or mac 0)) [
    | inl same ↦ (
      get_or hmac 1 == get_or mac 1,
      rw (read_lem mac 0 (omega arith), same, read_lem mac 1 (omega arith)),
    )
    | inr other ↦ (false, rw (read_lem mac 0 (omega arith), other))
  ]

  -- With a key of 16 to 32 bytes, or one that does not parse, and a MAC of two bytes the decryption of
  -- a group text returns a result, whatever the ciphertext: nothing is read or written out of bounds.
  pub decrypt_group_text_message-returns :
      (cipher mac_hex key_hex : Text) (mac : Bytes)
      → hex_to_bytes mac_hex ≡ ok mac
      → 2 ≤ length mac
      → KeyFits key_hex
      → (r : DecryptionResult) × (decrypt_group_text_message ssl cipher mac_hex key_hex ≡ ok r)
  unfolding decrypt_group_text_message decrypt_body channel_secret aes_key
  decrypt_group_text_message-returns cipher mac_hex key_hex mac em hm fit =
      elim (hex_outcome key_hex) [
        | inr (e, ek) ↦ (no_result e, rw ek)
        | inl (key, ek) ↦ elim (hex_outcome cipher) [
          | inr (e, ec) ↦ (no_result e, rw (ek, em, ec))
          | inl (c, ec) ↦
              let (lo, hi) = fit key ek in
              let small = le→leb (length key) 32 hi in
              let secret : Bytes = key ++ replicate (32 - length key) 0 in
              let (b, eb) = mac_matches-returns (ssl.hmac_sha256 secret c) mac hm in
              let k = range_lem key 0 16 lo in
              elim (Bool-cases b) [
                | inr bad ↦
                    (no_result (text "MAC verification failed"), rw (ek, em, ec, small, eb, bad))
                | inl good ↦ elim (Bool-cases ssl.cipher_ctx_new) [
                  | inl ctx ↦ (
                    parse_plain (ssl.aes128_ecb_decrypt (take 16 key) c),
                    rw (ek, em, ec, small, eb, good, ctx, k),
                  )
                  | inr no_ctx ↦ (
                    no_result (text "Failed to create cipher context"),
                    rw (ek, em, ec, small, eb, good, no_ctx),
                  )
                ]
              ]
        ]
      ]
