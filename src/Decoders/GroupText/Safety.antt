-- ===== src/Decoders/GroupText/Safety.antt =====
-- The group text decoder and the sizes of the keys in the store.
use meshcore_cpp_decoder.Common.{
  ◌-◌, ◌≤◌, ◌≡◌, refl, inl, inr, Option, none, some, List, [], ◌∷◌, map, arith, ltb, ltb→le,
  Bool-cases, length, take, drop, All, length-take, length-drop, All-take, All-drop, Bytes, Text,
  IsByte, IsBytes, ok, get_or, read_lem, range_lem,
}
use meshcore_cpp_decoder.Hex.{byte_to_hex, bytes_to_hex, hex_to_bytes}
use meshcore_cpp_decoder.Hex.RoundTrip.{hex_to_bytes-bytes_to_hex}
use meshcore_cpp_decoder.Enums.{group_text}
use meshcore_cpp_decoder.Payloads.{GroupTextPayload, GroupTextDecrypted, valid_base}
use meshcore_cpp_decoder.Crypto.OpenSsl.{OpenSsl}
use meshcore_cpp_decoder.Crypto.Channel.Safety.{KeyFits, decrypt_group_text_message-returns}
use meshcore_cpp_decoder.Crypto.KeyStore.{
  MeshCoreKeyStore, found_keys, find, has_channel_key, get_channel_keys,
}
use meshcore_cpp_decoder.Crypto.KeyStore.Lookup.{find-All}
use meshcore_cpp_decoder.Decoders.GroupText.{failed, decrypted_of, try_keys, decrypt_with, decode}
use meshcore_cpp_decoder.Hex.{to_lower}

-- Every key of the store is no hexadecimal text, or spells 16 to 32 bytes.
abbrev pub StoreFits : Option MeshCoreKeyStore → Type 0
StoreFits none = Unit
StoreFits (some s) = All (λ e. All KeyFits e.1) s.channel_hash_to_keys

get_channel_keys-KeyFits :
    (s : MeshCoreKeyStore) (q : Text) → StoreFits (some s) → All KeyFits (get_channel_keys s q)
unfolding get_channel_keys found_keys
get_channel_keys-KeyFits s q h = from (find (map to_lower q) s.channel_hash_to_keys) refl
  where
    from :
        (o : Option (List Text))
        → find (map to_lower q) s.channel_hash_to_keys ≡ o
        → All KeyFits (found_keys o)
    from none e = tt
    from (some ks) e = find-All (All KeyFits) (map to_lower q) s.channel_hash_to_keys ks h e

module _ (ssl : OpenSsl) where
  try_keys-returns :
      (cipher mac_hex : Text) (mac : Bytes) (keys : List Text)
      → hex_to_bytes mac_hex ≡ ok mac
      → 2 ≤ length mac
      → All KeyFits keys
      → (d : Option GroupTextDecrypted) × (try_keys ssl cipher mac_hex keys ≡ ok d)
  unfolding try_keys
  try_keys-returns cipher mac_hex mac [] e h fit = (none, refl)
  try_keys-returns cipher mac_hex mac (k ∷ keys) e h (f, fit) =
      let (r, er) = decrypt_group_text_message-returns ssl cipher mac_hex k mac e h f in
      let (d, ed) = try_keys-returns cipher mac_hex mac keys e h fit in
      elim (Bool-cases r.success) [
        | inl done ↦ (some (decrypted_of r), rw (er, done))
        | inr more ↦ (d, rw (er, more) ed)
      ]

  decrypt_with-returns :
      (store : Option MeshCoreKeyStore) (hash cipher mac_hex : Text) (mac : Bytes)
      → hex_to_bytes mac_hex ≡ ok mac
      → 2 ≤ length mac
      → StoreFits store
      → (d : Option GroupTextDecrypted) × (decrypt_with ssl store hash cipher mac_hex ≡ ok d)
  unfolding decrypt_with
  decrypt_with-returns none hash cipher mac_hex mac e h fit = (none, refl)
  decrypt_with-returns (some s) hash cipher mac_hex mac e h fit =
      let (d, ed) =
        try_keys-returns cipher mac_hex mac (get_channel_keys s hash) e h
          (get_channel_keys-KeyFits s hash fit) in
      elim (Bool-cases (has_channel_key s hash)) [
        | inl known ↦ (d, rw known ed)
        | inr missing ↦ (none, rw missing)
      ]

  pub decode-total :
      (payload : Bytes) (store : Option MeshCoreKeyStore)
      → IsBytes payload
      → StoreFits store
      → (p : GroupTextPayload) × (decode ssl payload store ≡ ok p)
  unfolding decode
  decode-total payload store bytes fit = elim (Bool-cases (ltb (length payload) 3)) [
    | inl short ↦ (failed, rw short)
    | inr long ↦
        let le : 3 ≤ length payload = ltb→le (length payload) 3 long in
        let mac : Bytes = take 2 (drop 1 payload) in
        let two : 2 ≤ length mac =
          omega (arith, length-take 2 (drop 1 payload), length-drop 1 payload) in
        let em =
          hex_to_bytes-bytes_to_hex mac
            (All-take IsByte 2 (drop 1 payload) (All-drop IsByte 1 payload bytes)) in
        let cipher : Bytes = take (length payload - 3) (drop 3 payload) in
        let (d, ed) =
          decrypt_with-returns store (byte_to_hex (get_or payload 0)) (bytes_to_hex cipher)
            (bytes_to_hex mac) mac em two fit in
        (
          record {
            base = valid_base group_text;
            channel_hash = byte_to_hex (get_or payload 0);
            cipher_mac = bytes_to_hex mac;
            ciphertext = bytes_to_hex cipher;
            ciphertext_length = length payload - 3;
            decrypted = d;
          },
          rw (
            long,
            read_lem payload 0 (omega arith),
            range_lem payload 1 2 (omega arith),
            range_lem payload 3 (length payload - 3) (omega arith),
            ed,
          ),
        )
  ]
