-- ===== src/Web.antt =====
-- The operations behind the HTTP interface (NFTorrent/webserver.py).
pub mod Content
pub mod Sync
