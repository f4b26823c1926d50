-- ===== src/Lib.antt =====
-- A model of the invoice-to-payment agent and what is proved of it.
--
-- The program reads invoices and remittances out of mails. An invoice runs through a graph of nodes:
-- it is parsed, its fields are extracted, it is stored, checked for duplicates, its vendor and its
-- purchase order are fetched from the ERP, it is matched with the order and the goods receipts, and is
-- either posted as a journal entry or put into an approval queue, where the run waits for a human. A
-- remittance is matched with open receivables, to which cash is applied.
--
-- Parts:
--   Prelude     Lists, texts, integers and dicts that the other files share.
--   Decimal     `decimal.Decimal`: coefficient and number of places; rounding to cents is `_q` of
--               src/invoice_agent/matching/engine.py.
--   Schemas     src/invoice_agent/schemas and the configuration of core/config.py that the agent reads.
--   Matching    src/invoice_agent/matching/engine.py: Variance (_build_variance, _price_variance),
--               Pairing (_received_quantities, _pair_line), Lines (_match_lines), Engine
--               (match_invoice), Remittance (match_remittance).
--   Store       src/invoice_agent/db: the tables of models.py as lists of rows, and the operations of
--               WorkflowRepository (Runs, Cases, Audit).
--   Erp         The protocol of src/invoice_agent/erp/client.py, a record of calls that act on the state
--               of the system behind it; Mock and MockReads are the server mock_erp/main.py,
--               MockClient the client in front of it.
--   Rag         resolve_vendor of src/invoice_agent/rag/retriever.py.
--   Agents      src/invoice_agent/agents: State and World are what the nodes act on; Extract, Enrich,
--               Decide, Journal, Post and Receivable are the modules of agents/nodes; Graph and
--               ReceivableGraph are the two graphs of graph.py. A node is a function of the state and
--               the world (database and ERP) that returns both with its update merged in, or
--               an exception with both as they were left.
--   Ingestion   src/invoice_agent/ingestion: Confidence (confidence.py), Suffixes (of parser.py) and
--               Folder (mailbox/local.py); Scores and Moves are about them.
--   Service     WorkflowService of src/invoice_agent/services/workflow.py: Start (start_run), Resume
--               (resume_run), Poll (poll_mailbox and the protocol of ingestion/mailbox/base.py) and
--               Summary (_summarise). Its state is the world, the last checkpoint of each thread and
--               the number of the next run.
--   Api         src/invoice_agent/api: Decisions (exceptions.py), Journals, Matches, Uploads
--               (ingest.py), Reads (audit.py, metrics.py, get_run, deps.py) and Errors (the status
--               codes). An endpoint is a function of the request and the service.
--   Tests       Concrete inputs.
--
-- The graphs are step functions on points of a run. The graph of payables has no cycle and its longest
-- way has nine nodes, so nine steps are enough for a run that is started; two are enough from the
-- interrupt on, and four for the graph of receivables. A run that is resumed runs the interrupted node
-- again from its start, with the state of the last checkpoint, as the documentation of LangGraph says.
--
-- An exception: a call of the ERP raises an ERPError, which the nodes handle, or another exception
-- (timeouts, failed connections and failed reads of httpx), and the call of the model raises an
-- ExtractionError, which the nodes handle, or another exception. What is not handled leaves the node and
-- the graph: the point of the run is then `aborted`, the writes made before stay, and the service
-- answers with the exception. The thread of such a run is not resumed in the model: its row is
-- extracting or posting, and resume_run refuses it.
--
-- Numbers: sums, differences and products of decimals are exact, as in Python while they have at most
-- 28 digits (amounts in the database have 18); a quotient is rounded to 28 digits, half to even.
-- Exponents above zero, infinities and negative zero do not occur. A confidence is in ten-thousandths,
-- to which score_extraction rounds it. Texts are lists of characters; strip, upper and lower are those
-- of ASCII. Dates are day numbers and line numbers naturals. The UUID of a case is the number of the
-- case, since UUIDs do not repeat. A message text is a constructor with the values that are put into it.
--
-- A service starts its runs in order, and the UUID of a run is that of its number; a UUID is never the
-- empty text and none repeats. The floats of the confidence score are exact fractions. A rate of the
-- metrics is a fraction before it is rounded.
--
-- Parameters: the parser, the language models, rapidfuzz, the knowledge base, SHA-256, the calendar, the
-- ERP, the mailbox, and the files and UUIDs of the host. Not modelled: the HTTP transport, FastAPI and
-- its parsing of requests, the health checks, the clients of Gmail and Graph, the session and the
-- migrations of the database, logging, the evaluation and the scripts, and the texts of audit summaries.
-- A write to the database is taken to succeed; the columns of type Numeric(18, 2) round to cents. The
-- searches of the knowledge base and the guidance are taken to return. Two calls do not run at the same time.
pub mod Prelude
pub mod Service
pub mod Api
pub mod Decimal
pub mod Schemas
pub mod Matching
pub mod Store
pub mod Erp
pub mod Rag
pub mod Agents
pub mod Ingestion
pub mod Tests
