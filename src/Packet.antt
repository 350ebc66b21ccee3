-- ===== src/Packet.antt =====
-- The verdict on a packet, src/PacketManager.hpp.
pub mod Make
mod Cases
pub mod Verdict
pub mod Dropped
pub mod Rules
