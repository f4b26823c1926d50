-- ===== src/Tests.antt =====
-- Concrete inputs, tests, and the theorems at them.
mod Fixtures
mod Engine
mod Nodes
mod Ledger
mod Rows
mod Hosts
mod Services
mod Intake
