-- ===== src/Tunnel.antt =====
-- The client and the server together: a packet on its way through the tunnel.
pub mod Downstream
mod Tests
