-- ===== src/Tests.antt =====
-- The theorems at concrete inputs.
mod Data
mod Line
mod Calls
mod Members
mod Changes
mod Waiting
mod Settings
mod Reports
mod Answering
mod Storage
mod Uris
