-- ===== src/Inspect.antt =====
-- The inspection of SSH packets, src/susshid/inspect-channel.c and inspect-packet.c.
pub mod Reply
pub mod Follows
pub mod Global
pub mod Open
pub mod Confirm
pub mod Data
pub mod Exec
pub mod ChannelRequest
pub mod Replies
pub mod Packet
pub mod Tests
