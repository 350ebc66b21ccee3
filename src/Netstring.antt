-- ===== src/Netstring.antt =====
-- The framing of the control protocol, src/ControlVNextCodec.cpp.
pub mod Codec
pub mod Decimal
pub mod RoundTrip
pub mod Total
