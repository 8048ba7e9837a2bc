-- ===== src/Crypto.antt =====
-- packages/crypto: the canonical transcripts that proofs and signatures are made over.
pub mod Base64url
pub mod Random
pub mod Transcript
pub mod Tokens
pub mod PairingPayload
pub mod PairingProof
pub mod PeerAuth
