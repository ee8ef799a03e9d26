-- ===== src/Blockchain.antt =====
-- The encodings of contract data (NFTorrent/blockchain).
pub mod Encoders
pub mod Address
pub mod Content
mod Tests
