-- ===== src/Ingestion.antt =====
-- The intake of documents, src/invoice_agent/ingestion.
pub mod Confidence
pub mod Scores
pub mod Suffixes
pub mod Folder
pub mod Moves
