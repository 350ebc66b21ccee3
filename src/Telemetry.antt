-- ===== src/Telemetry.antt =====
-- The flow telemetry: the ABI of a slot, the records' encoders and the ring of slots.
pub mod Abi
pub mod Records
pub mod Flags
pub mod Memory
pub mod Consumer
pub mod Ring
pub mod Values
pub mod Words
pub mod RoundTrip
pub mod Dns
