-- ===== src/Service.antt =====
-- The run lifecycle, src/invoice_agent/services.
pub mod State
pub mod Summary
pub mod Start
pub mod Resume
pub mod Poll
pub mod Landing
pub mod Lifecycle
pub mod Started
pub mod Resumed
pub mod Closed
pub mod Refused
pub mod CashDecision
pub mod Once
