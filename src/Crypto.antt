-- ===== src/Crypto.antt =====
-- core/src/crypto/: nonces, the tokens by which a peer proves that it holds its key, and
-- certificates.
pub mod Nonce
pub mod Token
pub mod Toy
pub mod Cert
pub mod Keys
mod Tests
