-- ===== src/Structure.antt =====
-- The breakdown of a packet into named segments: `generateSegments` of the payload decoders and
-- `analyzeStructure` of src/decoder/packet_decoder.cpp.
pub mod Outline
pub mod Segment
pub mod Ciphered
pub mod Reports
pub mod Advert
pub mod Tiling
pub mod Analysis
pub mod Agreement
