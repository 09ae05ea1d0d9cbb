-- ===== src/Crypto.antt =====
-- src/crypto: OpenSSL as a parameter, the channel cipher and the store of keys.
pub mod OpenSsl
pub mod Channel
pub mod KeyStore
pub mod Ed25519
pub mod Peer
