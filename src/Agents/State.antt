-- ===== src/Agents/State.antt =====
-- `InvoiceState` of agents/state.py. A key that a node has not written yet is absent, which `get`
-- reads as `None` or as the default that it is given. An identifier of a run is its text; the cases
-- of the approval queue are numbered in the order in which their UUIDs are generated.
use invoice_to_payment_agent.Prelude.{ℕ, Bool, Option, List}
use invoice_to_payment_agent.Prelude.Text.{Text}
use invoice_to_payment_agent.Decimal.{Decimal}
use invoice_to_payment_agent.Schemas.Common.{RunStatus, WorkflowKind}
use invoice_to_payment_agent.Schemas.Invoice.{ExtractedInvoice, ExtractedRemittance}
use invoice_to_payment_agent.Schemas.Erp.{
  Vendor, PurchaseOrder, GoodsReceipt, ArItem, JournalPostingResult, CashApplicationResult,
}
use invoice_to_payment_agent.Schemas.Matching.{MatchReport}

-- The entries of `decisions`: a message template with the values that are put into it.
pub data Decision : Type 0 where
  parse_failed : Text → Decision
  parsed_with : Text → Decision
  extraction_failed : Text → Decision
  extracted_lines : ℕ → ℕ → Decision
  remittance_failed : Text → Decision
  extracted_advices : ℕ → Decision
  duplicate_passed : Decision
  duplicate_of : Text → Decision
  vendor_summary : Option Text → Text → Decision
  no_po_number : Decision
  po_missing : Text → Decision
  erp_unavailable : Text → Decision
  fetched_po : Text → ℕ → Decision
  match_summary : MatchReport → Decision
  human_verdict : Text → Option Text → Decision
  posting_failed : Text → Decision
  posted_document : Text → Decision
  closed_unposted : Decision
  fetched_receivables : ℕ → Decision
  applied_cash : ℕ → Decimal → Decision

pub record InvoiceState : Type 0 where
  pub run_id : Text
  pub thread_id : Text
  pub kind : WorkflowKind
  pub status : RunStatus
  pub source_message_id : Option Text
  pub source_sender : Text
  pub source_subject : Text
  pub mailbox : Text
  pub document_path : Text
  pub document_sha256 : Option Text
  pub attachment_name : Text
  pub document_markdown : Text
  pub parser : Text
  pub page_count : ℕ
  pub invoice : Option ExtractedInvoice
  pub remittance : Option ExtractedRemittance
  pub duplicate_of_run_id : Option Text
  pub vendor : Option Vendor
  pub vendor_match_method : Text
  pub purchase_order : Option PurchaseOrder
  pub goods_receipts : List GoodsReceipt
  pub open_ar_items : List ArItem
  pub match_report : Option MatchReport
  pub policy_extracts : List Text
  pub exception_case_id : Option ℕ
  pub exception_guidance : Text
  pub approval_decision : Option Text
  pub approved_by : Option Text
  pub approval_note : Text
  pub journal_result : Option JournalPostingResult
  pub cash_applications : List CashApplicationResult
  pub residual_amount : Option Decimal
  pub straight_through : Bool
  pub error : Option Text
  pub decisions : List Decision
