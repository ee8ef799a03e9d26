-- ===== src/Tonlib.antt =====
-- The liteserver side of the gateway (NFTorrent/tonlib).
pub mod Control
pub mod Consensus
pub mod Workers
pub mod Select
pub mod Requests
pub mod NftData
pub mod Worker
mod Tests
