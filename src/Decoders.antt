-- ===== src/Decoders.antt =====
-- src/decoder/payload_decoders: one decoder for each kind of payload. A payload is the rest of the
-- packet, so its length is the decoder's `len`, and a read past it is a read past the packet.
pub mod Words
pub mod Layout
pub mod Hashes
pub mod Request
pub mod Response
pub mod TextMessage
pub mod AnonRequest
pub mod Path
pub mod Trace
pub mod Control
pub mod Advert
pub mod GroupText
pub mod Ack
