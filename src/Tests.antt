-- ===== src/Tests.antt =====
-- The theorems at concrete inputs.
mod Access
mod Audit
mod Export
mod Text
mod Config
mod Tools
mod Calls
mod Metrics
mod Env
mod Reading
mod Fetching
