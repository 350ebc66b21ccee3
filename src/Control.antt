-- ===== src/Control.antt =====
-- The control commands on the IP rules, src/ControlVNextSessionCommandsIpRules.cpp.
pub mod Words
pub mod Enums
pub mod Rule
pub mod Apply
pub mod Applied
pub mod Texts
pub mod Addresses
pub mod EnumTexts
pub mod Fields
pub mod Keys
