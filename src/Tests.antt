-- ===== src/Tests.antt =====
-- The theorems at concrete inputs: a small rule set, packets, flows, frames,
-- lists of domains, a bundle of policies and a command.
mod Rules
mod Flows
mod Frames
mod Telemetry
mod Domains
mod Packets
mod Checkpoints
mod Producers
mod Commands
mod Keys
