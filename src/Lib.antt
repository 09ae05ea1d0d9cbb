-- ===== src/Lib.antt =====
-- The MeshCore packet library: a decoder of radio packets from hexadecimal text, an encoder of
-- packets, channel messages and adverts, the ciphers, signatures, tokens and the key store they use,
-- and the command line around them.
--
-- The packet decoder (src/decoder/packet_decoder.cpp) takes a text apart with `hexToBytes`, reads
-- the header, the transport codes and the path, and gives the payload to one of ten decoders
-- (src/decoder/payload_decoders). The group text decoder asks the key store
-- (src/crypto/key_manager.cpp) for keys and tries them with the channel cipher
-- (src/crypto/channel_crypto.cpp). `decodeWithVerification` decodes an advert a second time and has
-- its signature verified (src/crypto/ed25519.cpp). `analyzeStructure` cuts a packet and its payload
-- into segments for display. The encoder (src/encoder/packet_encoder.cpp) builds packets, channel
-- payloads and signed adverts. The command line (src/cli.cpp) finds packets on the lines of its input.
--
-- Common: native numbers, lists, Boolean tests, and `Outcome`, what a call does: it returns, it
--   throws with the text of `what()`, or it is a `fault`, an access outside an object. Integers
--   below zero and the ratios that stand for a `double` are in Common.Int.
-- Hex: src/utils/hex.cpp. A text and a buffer are the list of their bytes.
-- Format: how numbers are printed by the C++ library.
-- Base64: src/utils/base64.cpp.
-- Enums, Enums.Names: include/meshcore/types/enums.h, src/utils/enum_names.cpp. A value without a
--   name keeps its number.
-- Payloads: include/meshcore/types/payloads.h, one record for each struct.
-- Decoders: src/decoder/payload_decoders, one module for each decoder's `decode`. Words and Hashes
--   hold the 32-bit words and the path hashes that several of them read. Decoders.Advert.Signature
--   is the `decodeWithVerification` of adverts. Decoders.Advert.Meaning, Decoders.Advert.Shown and
--   Decoders.Control.Meaning describe what the fields say of the bytes by data types, without the
--   functions that fill them.
-- Crypto: Crypto.OpenSsl is the parameter for the digests and the block cipher of OpenSSL, with its
--   laws; Crypto.Channel is src/crypto/channel_crypto.cpp, Crypto.KeyStore is
--   src/crypto/key_manager.cpp with each `std::map` as an association list; Crypto.Peer is
--   src/crypto/peer_crypto.cpp (Exchange: its key exchange, with the big numbers, X25519 and SHA-512 of
--   OpenSSL as parameters, and their laws); Crypto.Ed25519 is src/crypto/ed25519.cpp
--   with the EVP calls for Ed25519 as a parameter, and its laws.
-- Packet: `decode`, `validate` (Packet.Validate) and `calculateMessageHash` (Packet.Hash) of
--   src/decoder/packet_decoder.cpp. A part of the `try` block of `decode` is a `Step`: it goes on
--   with a packet and an offset, it is left by an exception with the packet as it is then, or it
--   crashes. Packet.Verification is `decodeWithVerification`.
-- Structure: the `generateSegments` functions of src/decoder/payload_decoders (Segment, Ciphered,
--   Reports, Advert) and `analyzeStructure` of src/decoder/packet_decoder.cpp (Outline, Analysis), with the
--   structs of include/meshcore/types/packet.h; Tiling says how segments lie in a payload, and
--   Agreement sets `analyzeStructure` beside `decode`.
-- Encoder: `buildPacket` of src/encoder/packet_encoder.cpp; Encoder.Group: the builders of channel
--   payloads; Encoder.Advert: `buildAdvertPayload`.
-- Auth: src/utils/auth_token.cpp, with the JSON library as a parameter and the clock as an argument.
-- Cli: src/cli.cpp: the commands `decode`, `stream` and `derive-key` from the parsed arguments on;
--   Cli.Input: the texts and lines they take.
--   What the stream prints is a list of lines passed through, reports and errors.
-- Runs: concrete inputs, with instances of OpenSSL and of the JSON library.
--
-- Every access to a buffer is checked in the model: `read` and `range` are a `fault` outside it. An
-- int32_t or uint32_t is reduced modulo 2 ^ 32. Loops are structural recursions over the number of
-- rounds that are left, or over the list. Fuel: `numberToHex` has eight digits for a uint32_t,
-- `std::hex` sixteen and `std::to_string` twenty for a uint64_t, the padding loop sixteen rounds where
-- fifteen are enough, and that of base 64 four where three are enough; `hexFromRxMsg` has the length
-- of its line, and each round takes a character.
--
-- Parameters for code that is not in the repository: OpenSSL, whose X25519 law says that two scalars
-- have one secret, and whose big numbers are their values; the JSON library, where a call may throw;
-- the text that `operator<<` prints for a latitude or longitude, and the conversion of a double to
-- millionths of a degree; for the command line also the error of the JSON library on a packet whose
-- texts are not UTF-8. `EVP_DecryptUpdate` on a text that is no whole number of blocks is whatever the
-- parameter makes of it.
--
-- Not modelled: of src/cli.cpp the parsing of the arguments, the layout of what is printed, the opening
-- of key files, and the commands `auth-token` and `verify-token`.
pub mod Common
pub mod Hex
pub mod Format
pub mod Base64
pub mod Enums
pub mod Payloads
pub mod Decoders
pub mod Crypto
pub mod Packet
pub mod Structure
pub mod Encoder
pub mod Auth
pub mod Cli
pub mod Runs
