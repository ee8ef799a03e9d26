-- ===== src/Ipfs.antt =====
-- The IPFS side of the gateway (NFTorrent/ipfs/manager.py).
pub mod Content
pub mod Pins
pub mod Confirmation
pub mod Upload
mod Tests
