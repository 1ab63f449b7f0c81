-- ===== src/Sftp.antt =====
-- Inspection of file transfers, src/susshid/inspect-sftp.c.
pub mod Buffer
pub mod Message
pub mod Session
pub mod Tables
pub mod Attributes
pub mod Library
pub mod Cases
pub mod Request
pub mod Response
pub mod Packet
pub mod Tests
