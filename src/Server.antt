-- ===== src/Server.antt =====
-- The server's handling of one user, jni/iodine/src/iodined.c.
pub mod Ping
pub mod Outpacket
pub mod DnsCache
pub mod QueryMemory
pub mod SendChunk
pub mod Upstream
pub mod Waiting
pub mod Users
pub mod Request
pub mod Answer
pub mod Loop
