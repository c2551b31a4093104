-- ===== src/Tests.antt =====
-- The theorems at concrete inputs.
mod Calls
mod Reports
mod Choices
mod Services
mod Locks
mod Creation
mod Settings
