-- ===== src/Dns.antt =====
-- The parts of DNS messages.
pub mod Numbers
pub mod TxtBin
pub mod Names
pub mod Encode
