-- ===== src/Runs.antt =====
-- Runs of the model at concrete inputs: the theorems applied, and results that were worked out by hand.
pub mod Sample
pub mod Texts
pub mod Payloads
pub mod Channels
pub mod Packets
pub mod Structures
pub mod Signatures
pub mod Tokens
pub mod Streams
pub mod Exchanges
