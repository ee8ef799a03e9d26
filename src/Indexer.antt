-- ===== src/Indexer.antt =====
-- The index of NFTs (NFTorrent/indexer).
pub mod Feed
pub mod Nft
pub mod Update
pub mod Cycle
pub mod Tasks
pub mod Single
pub mod Users
pub mod Etcd
pub mod Icons
mod Tests
