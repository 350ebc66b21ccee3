-- ===== src/Conntrack.antt =====
-- The IPv4 flows of the connection tracker, src/Conntrack.cpp.
pub mod Flow
pub mod Tcp
pub mod Update
pub mod Keys
pub mod Peers
pub mod Others
