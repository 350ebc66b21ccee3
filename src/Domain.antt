-- ===== src/Domain.antt =====
-- The domain policy: the rules of a list, the lists, the decision of an app and its explanation.
pub mod Rules
pub mod First
pub mod Match
pub mod Policy
pub mod Debug
pub mod Agree
pub mod Priority
pub mod Explained
