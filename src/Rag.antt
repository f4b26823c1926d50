-- ===== src/Rag.antt =====
-- Vendor resolution, src/invoice_agent/rag/retriever.py.
pub mod Resolution
