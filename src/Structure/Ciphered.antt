-- ===== src/Structure/Ciphered.antt =====
-- `generateSegments` of src/decoder/payload_decoders/ack.cpp, request.cpp, response.cpp,
-- text_message.cpp, anon_request.cpp and group_text.cpp. `base` is `segmentOffset`.
use meshcore_cpp_decoder.Common.{
  ℕ, ◌+◌, List, ◌∷◌, ◌++◌, ltb, if◌then◌else◌, length, Bytes, text, Outcome, ok, ◌>>=◌, read, range,
}
use meshcore_cpp_decoder.Common.Int.{pos}
use meshcore_cpp_decoder.Hex.{byte_to_hex, bytes_to_hex}
use meshcore_cpp_decoder.Structure.Segment.{PayloadSegment, segment, too_short, remainder}

unfoldable pub ack_segments : Bytes → ℕ → Outcome (List PayloadSegment)
ack_segments payload base =
    if ltb (length payload) 4
    then too_short (text "Invalid Ack Data") (text "Ack payload too short") payload base
    else do
      sum ← range payload 0 4
      rest ← remainder (text "Additional Data") (text "Extra data in Ack payload") payload base 4
      ok (
          segment (text "Checksum") (text "CRC checksum: 0x" ++ bytes_to_hex sum) base
            (pos (base + 3)) (bytes_to_hex sum)
          ∷ rest)

unfoldable pub request_segments : Bytes → ℕ → Outcome (List PayloadSegment)
request_segments payload base =
    if ltb (length payload) 4
    then too_short (text "Invalid Request Data") (text "Request payload too short") payload base
    else do
      destination ← range payload 0 1
      source ← range payload 1 1
      mac ← range payload 2 2
      rest ← remainder (text "Ciphertext") (text "Encrypted message data") payload base 4
      ok (
          segment (text "Destination Hash") (text "First byte of destination node public key")
            (base + 0) (pos (base + 0)) (bytes_to_hex destination)
          ∷ segment (text "Source Hash") (text "First byte of source node public key") (base + 1)
              (pos (base + 1)) (bytes_to_hex source)
          ∷ segment (text "Cipher MAC") (text "MAC for encrypted data") (base + 2)
              (pos (base + 2 + 1)) (bytes_to_hex mac)
          ∷ rest)

unfoldable pub response_segments : Bytes → ℕ → Outcome (List PayloadSegment)
response_segments payload base =
    if ltb (length payload) 4
    then too_short (text "Invalid Response Data") (text "Response payload too short") payload base
    else do
      destination ← read payload 0
      source ← read payload 1
      mac ← range payload 2 2
      rest ← remainder (text "Ciphertext") (text "Encrypted response data") payload base 4
      ok (
          segment (text "Destination Hash") (text "First byte of destination node public key")
            (base + 0) (pos (base + 0)) (byte_to_hex destination)
          ∷ segment (text "Source Hash") (text "First byte of source node public key") (base + 1)
              (pos (base + 1)) (byte_to_hex source)
          ∷ segment (text "Cipher MAC") (text "MAC for encrypted data") (base + 2)
              (pos (base + 2 + 1)) (bytes_to_hex mac)
          ∷ rest)

unfoldable pub text_message_segments : Bytes → ℕ → Outcome (List PayloadSegment)
text_message_segments payload base =
    if ltb (length payload) 4
    then too_short (text "Invalid TextMessage Data") (text "TextMessage payload too short") payload
        base
    else do
      destination ← read payload 0
      source ← read payload 1
      mac ← range payload 2 2
      rest ← remainder (text "Ciphertext") (text "Encrypted message data") payload base 4
      ok (
          segment (text "Destination Hash") (text "First byte of destination node public key")
            (base + 0) (pos (base + 0)) (byte_to_hex destination)
          ∷ segment (text "Source Hash") (text "First byte of source node public key") (base + 1)
              (pos (base + 1)) (byte_to_hex source)
          ∷ segment (text "Cipher MAC") (text "MAC for encrypted data") (base + 2)
              (pos (base + 2 + 1)) (bytes_to_hex mac)
          ∷ rest)

unfoldable pub anon_request_segments : Bytes → ℕ → Outcome (List PayloadSegment)
anon_request_segments payload base =
    if ltb (length payload) 35
    then too_short (text "Invalid AnonRequest Data") (text "AnonRequest payload too short") payload
        base
    else do
      destination ← read payload 0
      key ← range payload 1 32
      mac ← range payload 33 2
      rest ← remainder (text "Ciphertext") (text "Encrypted message data") payload base 35
      ok (
          segment (text "Destination Hash") (text "First byte of destination node public key")
            (base + 0) (pos (base + 0)) (byte_to_hex destination)
          ∷ segment (text "Sender Public Key") (text "Ed25519 public key of sender (32 bytes)")
              (base + 1) (pos (base + 1 + 31)) (bytes_to_hex key)
          ∷ segment (text "Cipher MAC") (text "MAC for encrypted data") (base + 33)
              (pos (base + 33 + 1)) (bytes_to_hex mac)
          ∷ rest)

unfoldable pub group_text_segments : Bytes → ℕ → Outcome (List PayloadSegment)
group_text_segments payload base =
    if ltb (length payload) 3
    then too_short (text "Invalid GroupText Data") (text "GroupText payload too short") payload base
    else do
      channel ← read payload 0
      mac ← range payload 1 2
      rest ← remainder (text "Ciphertext") (text "Encrypted message content") payload base 3
      ok (
          segment (text "Channel Hash") (text "First byte of SHA256 of channel's shared key")
            (base + 0) (pos (base + 0)) (byte_to_hex channel)
          ∷ segment (text "Cipher MAC") (text "MAC for encrypted data") (base + 1)
              (pos (base + 1 + 1)) (bytes_to_hex mac)
          ∷ rest)
