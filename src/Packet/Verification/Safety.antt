-- ===== src/Packet/Verification/Safety.antt =====
-- `decodeWithVerification` always returns.
use meshcore_cpp_decoder.Common.{
  ℕ, ◌+◌, ◌-◌, ◌*◌, ◌≤◌, ◌<◌, ◌≡◌, refl, ◌⊎◌, inl, inr, Option, none, some, [], ◌∷◌, arith, ltb,
  ltb→lt, lt→ltb, ltb→le, Bool-cases, length, take, drop, All-take, All-drop, Bytes, Text, IsByte,
  IsBytes, text, Outcome, ok, get_or, Returns, Returns-ok, read_lem, range_lem,
}
use meshcore_cpp_decoder.Hex.{hex_to_bytes}
use meshcore_cpp_decoder.Hex.RoundTrip.{hex_to_bytes-ok_iff}
use meshcore_cpp_decoder.Enums.{PayloadType, advert}
use meshcore_cpp_decoder.Payloads.{PayloadData, AdvertPayload}
use meshcore_cpp_decoder.Decoders.Hashes.{hash_size, hash_count}
use meshcore_cpp_decoder.Decoders.GroupText.Safety.{StoreFits}
use meshcore_cpp_decoder.Decoders.Advert.Signature as Signature
use meshcore_cpp_decoder.Decoders.Advert.Signature.{advert_decode_with_verification_lem}
use meshcore_cpp_decoder.Crypto.OpenSsl.{OpenSsl}
use meshcore_cpp_decoder.Crypto.Ed25519.{Ed25519Evp}
use meshcore_cpp_decoder.Crypto.KeyStore.{MeshCoreKeyStore}
use meshcore_cpp_decoder.Crypto.Channel.Safety.{hex_outcome}
use meshcore_cpp_decoder.Packet.{DecodedPacket, new_packet, decode_bytes, decode_from, decode}
use meshcore_cpp_decoder.Packet.Hash.{path_offset}
use meshcore_cpp_decoder.Packet.Verification.{
  verify_packet, verify_decoded, decode_with_verification,
}
use meshcore_cpp_decoder.Structure.Outline.{PacketStructure}
use meshcore_cpp_decoder.Structure.Analysis.Envelope.{path_end, route_of}
use meshcore_cpp_decoder.Structure.Agreement.{Agree, decode_bytes-Agree}

module _ (ssl : OpenSsl) (evp : Ed25519Evp) where
  advert_returns :
      (payload : Bytes)
      → IsBytes payload
      → (a : AdvertPayload) × (Signature.decode_with_verification evp payload ≡ ok a)
  advert_returns payload hp = elim (advert_decode_with_verification_lem evp payload hp) [
    | inl (short, e) ↦ (_, e)
    | inr (long, e) ↦ (_, e)
  ]

  -- The second look at a packet whose path ends inside the buffer.
  verify_packet-Returns :
      (hex_data : Text) (p : DecodedPacket) (bytes : Bytes)
      → hex_to_bytes hex_data ≡ ok bytes
      → 2 ≤ length bytes
      → path_end bytes ≤ length bytes
      → Returns (verify_packet ssl evp hex_data p)
  unfolding verify_packet path_end
  verify_packet-Returns hex_data p bytes e two room =
      let hb = ((hex_to_bytes-ok_iff hex_data bytes).0 e).0 in
      let o : ℕ = path_offset (route_of bytes) in
      let b : ℕ = get_or bytes o in
      let n : ℕ = hash_count b * hash_size b in
      let place : o + (1 + n) ≡ o + 1 + n = omega arith in
      let part = range_lem bytes (o + 1 + n) (length bytes - (o + 1 + n)) (omega arith) in
      let payload : Bytes = take (length bytes - (o + 1 + n)) (drop (o + 1 + n) bytes) in
      let hp : IsBytes payload =
        All-take IsByte (length bytes - (o + 1 + n)) _ (All-drop IsByte (o + 1 + n) bytes hb) in
      let (a, ea) = advert_returns payload hp in
      rw (e, read_lem bytes 0 (omega arith), read_lem bytes o (omega arith), place, part, ea) tt

  verify_decoded-Returns :
      (hex_data : Text) (p : DecodedPacket) (kind : PayloadType) (d : Option PayloadData)
      → (d ≡ none) ⊎ Returns (verify_packet ssl evp hex_data p)
      → Returns (verify_decoded ssl evp hex_data p kind d)
  unfolding verify_decoded
  verify_decoded-Returns hex_data p advert none h = tt
  verify_decoded-Returns hex_data p advert (some d) (inl e) = absurd (some-none e)
    where
      some-none : {x : PayloadData} → some x ≡ none → ⊥
      some-none f = cc
  verify_decoded-Returns hex_data p advert (some d) (inr h) = let (q, e) = Returns-ok _ h in rw e tt
  verify_decoded-Returns hex_data p kind none h = tt
  verify_decoded-Returns hex_data p kind (some d) h = tt

  -- `decode` of a text that spells fewer than two bytes, or none.
  short_packet :
      (store : Option MeshCoreKeyStore) (bytes : Bytes)
      → length bytes < 2
      → (p : DecodedPacket) × (decode_bytes ssl bytes store ≡ ok p) × (p.payload_decoded ≡ none)
  unfolding decode_bytes new_packet
  short_packet store bytes few = (
    record new_packet {
      errors = text "Packet too short (minimum 2 bytes required)" ∷ [];
      total_bytes = length bytes;
    },
    rw (lt→ltb (length bytes) 2 few),
    refl,
  )

  -- What `decode` returns has no payload that is decoded, or the second look returns.
  decode-looks :
      (hex_data : Text) (store : Option MeshCoreKeyStore)
      → StoreFits store
      → (p : DecodedPacket) × (decode ssl hex_data store ≡ ok p)
        × ((p.payload_decoded ≡ none) ⊎ Returns (verify_packet ssl evp hex_data p))
  unfolding decode decode_from new_packet
  decode-looks hex_data store fit = elim (hex_outcome hex_data) [
    | inr (what, e) ↦ (record new_packet { errors = what ∷ [] }, rw e, inl refl)
    | inl (bytes, e) ↦ elim (Bool-cases (ltb (length bytes) 2)) [
      | inl few ↦
          let (p, ep, empty) = short_packet store bytes (ltb→lt (length bytes) 2 few) in
          (p, rw e ep, inl empty)
      | inr enough ↦
          let two : 2 ≤ length bytes = ltb→le (length bytes) 2 enough in
          let hb = ((hex_to_bytes-ok_iff hex_data bytes).0 e).0 in
          let (p, ep, agree) = decode_bytes-Agree ssl store fit (λ d. []) bytes [] hb two in
          (p, rw e ep, looks hex_data p bytes e two _ agree)
    ]
  ]
    where
      looks :
          (hex_data : Text) (p : DecodedPacket) (bytes : Bytes)
          → hex_to_bytes hex_data ≡ ok bytes
          → 2 ≤ length bytes
          → (m : Outcome PacketStructure) → Agree bytes p m
          → (p.payload_decoded ≡ none) ⊎ Returns (verify_packet ssl evp hex_data p)
      looks hex_data p bytes e two m (inl (room, _, _)) =
          inr (verify_packet-Returns hex_data p bytes e two room)
      looks hex_data p bytes e two m (inr (_, _, empty, _)) = inl empty

  -- `decodeWithVerification` returns a packet for every text, with keys in the store of 16 to 32 bytes:
  -- it never throws, and the second time that it looks for the payload it does not read out of bounds.
  pub decode_with_verification-returns :
      (hex_data : Text) (store : Option MeshCoreKeyStore)
      → StoreFits store
      → (p : DecodedPacket) × (decode_with_verification ssl evp hex_data store ≡ ok p)
  unfolding decode_with_verification
  decode_with_verification-returns hex_data store fit =
      let (p, e, looks) = decode-looks hex_data store fit in
      let done = verify_decoded-Returns hex_data p p.payload_type p.payload_decoded looks in
      let (q, eq) = Returns-ok _ done in (q, rw e eq)
