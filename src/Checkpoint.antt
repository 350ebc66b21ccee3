-- ===== src/Checkpoint.antt =====
-- The policy checkpoint of src/PolicyCheckpoint.cpp: the bundle, its JSON text and its validation.
pub mod Json
pub mod Bundle
pub mod Masks
pub mod Policy
pub mod Enums
pub mod IpRules
pub mod Valid
pub mod Codec
mod Fields
pub mod Distinct
pub mod Ranges
mod PolicyTrip
mod IpTrip
pub mod RoundTrip
pub mod Sound
pub mod Decoded
