-- ===== src/Store.antt =====
-- The database, src/invoice_agent/db: the rows of db/models.py, each table in the order of
-- insertion, and the methods of `WorkflowRepository` (db/repository.py). Rows are inserted in the
-- order of their `created_at`. A column that only holds text to be shown (summaries, details,
-- payloads) and the timestamps are left out.
pub mod Rows
pub mod Runs
pub mod Cases
pub mod Audit
pub mod Trail
pub mod Queue
pub mod Status
