-- ===== src/IpRules/Correct.antt =====
-- The compiled snapshot against the rules that it was compiled from.
pub mod Match
pub mod Best
pub mod Lookup
pub mod Filing
pub mod Filed
pub mod Views
pub mod Winner
pub mod Found
pub mod Verdict
