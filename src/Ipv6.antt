-- ===== src/Ipv6.antt =====
-- The parser of an IPv6 packet's payload, src/Ipv6L4Walker.hpp.
pub mod Walker
pub mod Sound
