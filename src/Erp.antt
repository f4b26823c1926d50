-- ===== src/Erp.antt =====
-- The ERP: the interface that the agent depends on (`ERPClient` of src/invoice_agent/erp/client.py),
-- and the mock server behind it (mock_erp/main.py).
pub mod Client
pub mod Mock
pub mod MockClient
pub mod MockLedger
pub mod MockCash
pub mod MockReads
