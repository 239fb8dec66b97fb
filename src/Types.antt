-- ===== src/Types.antt =====
-- primus-types: the shared data model, its hashes and its structural validation.
pub mod Constants
pub mod Crypto
pub mod Atom
pub mod Physics
pub mod Payload
pub mod Reaction
pub mod Galactic
pub mod Proof
pub mod Peer
