-- ===== src/Schemas.antt =====
-- The data that the components exchange (src/invoice_agent/schemas) and the matching configuration
-- (src/invoice_agent/core/config.py).
pub mod Common
pub mod Invoice
pub mod Erp
pub mod Matching
pub mod Config
pub mod Fingerprint
pub mod Amounts
