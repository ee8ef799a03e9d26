-- ===== src/Bot.antt =====
-- The inquiries of users to the administrators of the bot (NFTorrent/bot): the table of inquiries,
-- and the dialogues that fill it.
pub mod Inquiries
pub mod Dialogue
mod Tests
