-- ===== src/Tests.antt =====
-- Concrete rules, objects and libraries, and the theorems at them.
pub mod Fixtures
pub mod Values
pub mod Stores
pub mod Orders
pub mod Texts
pub mod Patches
pub mod Processes
pub mod Webhooks
pub mod DryRuns
pub mod Systems
pub mod Bindings
