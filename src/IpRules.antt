-- ===== src/IpRules.antt =====
-- src/IpRulesEngine.hpp and src/IpRulesEngine.cpp, the per-app L3/L4 rule engine: the rules
-- (`Rule`), the two address families (`Family`), signatures and masked keys (`Signature`), the
-- compiled snapshot and its evaluation (`Table`), the compiler (`Compile`), its preflight report
-- (`Report`) and the control operations (`Engine`, `Replace`,
-- `Listing`, `Validate`), the decision cache (`Cache`); the other modules hold proofs about them.
pub mod Rule
pub mod Family
pub mod Signature
pub mod Table
pub mod Compile
pub mod Report
pub mod Limits
pub mod Engine
pub mod Published
pub mod Replace
pub mod Listing
pub mod Replaced
pub mod Installed
pub mod Correct
pub mod V6
pub mod Sentinel
pub mod Cache
pub mod Validate
