-- ===== src/Matching.antt =====
-- The matching engine, src/invoice_agent/matching/engine.py: variances, pairing of lines, the loop
-- over the invoice lines, `match_invoice` and `match_remittance`.
pub mod Variance
pub mod Pairing
pub mod Lines
pub mod Engine
pub mod Remittance
pub mod Dedupe
pub mod LineClean
pub mod Clean
pub mod Sorting
pub mod Distinct
pub mod BestScore
pub mod Receipts
pub mod Settlement
