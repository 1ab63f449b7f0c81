-- ===== src/Channels.antt =====
-- The channels of a session, src/susshid/inspect-channel.c.
pub mod Table
pub mod Slots
pub mod Alloc
pub mod Find
mod Tests
