-- ===== src/Api.antt =====
-- The HTTP endpoints, src/invoice_agent/api.
pub mod Errors
pub mod Decisions
pub mod Journals
pub mod Matches
pub mod Stored
pub mod Reads
pub mod Uploads
pub mod Once
pub mod Refused
