-- ===== src/Store/Rows.antt =====
-- The tables of db/models.py.
use invoice_to_payment_agent.Prelude.{ℕ, Bool, Option, List, [], String}
use invoice_to_payment_agent.Prelude.Text.{Text}
use invoice_to_payment_agent.Decimal.{Decimal}
use invoice_to_payment_agent.Schemas.Common.{
  WorkflowKind, DocumentSource, RunStatus, MatchType, MatchOutcome, ExceptionType, ExceptionStatus,
  JournalStatus, AuditAction,
}
use invoice_to_payment_agent.Schemas.Invoice.{InvoiceLineItem, RemittanceAdvice}
use invoice_to_payment_agent.Schemas.Erp.{JournalLine, CashApplicationResult}
use invoice_to_payment_agent.Schemas.Matching.{Variance, LineMatch, Reason}

pub record WorkflowRun : Type 0 where
  pub id : Text
  pub thread_id : Text
  pub kind : WorkflowKind
  pub status : RunStatus
  pub source : DocumentSource
  pub source_message_id : Option Text
  pub source_mailbox : Option Text
  pub source_sender : Option Text
  pub source_subject : Option Text
  pub attachment_name : Option Text
  pub document_path : Option Text
  pub document_sha256 : Option Text
  pub straight_through : Bool
  pub error_message : Option Text
  pub is_completed : Bool  -- whether `completed_at` is set

pub record InvoiceRow : Type 0 where
  pub run_id : Text
  pub invoice_number : Option Text
  pub invoice_date : Option ℕ
  pub due_date : Option ℕ
  pub purchase_order_number : Option Text
  pub vendor_name : Option Text
  pub vendor_tax_id : Option Text
  pub vendor_iban : Option Text
  pub currency : Option Text
  pub subtotal : Option Decimal
  pub tax_amount : Option Decimal
  pub total_amount : Option Decimal
  pub payment_terms : Option Text
  pub line_items : List InvoiceLineItem
  pub field_confidence : List (Text × ℕ)
  pub confidence : ℕ
  pub fingerprint : Text
  pub raw_markdown : Text

pub record MatchRow : Type 0 where
  pub run_id : Text
  pub match_type : MatchType
  pub outcome : MatchOutcome
  pub po_number : Option Text
  pub gr_numbers : List Text
  pub matched_amount : Decimal
  pub confidence : ℕ
  pub header_variances : List Variance
  pub line_matches : List LineMatch
  pub exceptions : List ExceptionType
  pub reasons : List Reason

pub record ExceptionCase : Type 0 where
  pub id : ℕ
  pub run_id : Text
  pub exception_type : ExceptionType
  pub status : ExceptionStatus
  pub severity : String
  pub suggested_action : Text
  pub resolved_by : Option Text
  pub resolution_note : Option Text

pub record PaymentJournal : Type 0 where
  pub run_id : Text
  pub status : JournalStatus
  pub erp_document_number : Option Text
  pub fiscal_year : Option ℕ
  pub posting_date : Option ℕ
  pub reference : Text
  pub company_code : Text
  pub currency : Text
  pub total_amount : Decimal
  pub lines : List JournalLine
  pub approved_by : Option Text
  pub error_message : Option Text

pub record RemittanceRow : Type 0 where
  pub run_id : Text
  pub remittance_number : Option Text
  pub payment_date : Option ℕ
  pub customer_name : Option Text
  pub customer_id : Option Text
  pub currency : Option Text
  pub total_paid : Option Decimal
  pub bank_reference : Option Text
  pub advices : List RemittanceAdvice
  pub applied : Bool
  pub applications : List CashApplicationResult
  pub residual_amount : Decimal
  pub confidence : ℕ

pub record AuditEvent : Type 0 where
  pub run_id : Text
  pub sequence : ℕ
  pub action : AuditAction
  pub actor : Text
  pub node : String
  pub source_message_id : Option Text
  pub document_sha256 : Option Text

-- `next_case` numbers the next case: the UUIDs that the database generates never repeat.
pub record Store : Type 0 where
  pub runs : List WorkflowRun
  pub invoices : List InvoiceRow
  pub matches : List MatchRow
  pub cases : List ExceptionCase
  pub journals : List PaymentJournal
  pub remittances : List RemittanceRow
  pub audits : List AuditEvent
  pub next_case : ℕ

abbrev pub empty_store : Store
empty_store = record {
  runs = [];
  invoices = [];
  matches = [];
  cases = [];
  journals = [];
  remittances = [];
  audits = [];
  next_case = 0;
}
