-- ===== src/Schemas/Common.antt =====
-- The enumerations of src/invoice_agent/schemas/common.py. Their string values are only written to
-- the database, so a constructor stands for each.
use invoice_to_payment_agent.Prelude.{ℕ, Bool, true, ◌≡◌, arith, ◌==◌}

pub data WorkflowKind : Type 0 where
  accounts_payable accounts_receivable : WorkflowKind

pub data DocumentSource : Type 0 where
  email_attachment email_body api_upload manual : DocumentSource

pub data RunStatus : Type 0 where
  received parsing extracting matching awaiting_approval posting completed rejected failed :
      RunStatus

pub data MatchType : Type 0 where
  two_way three_way non_po : MatchType

pub data MatchOutcome : Type 0 where
  matched matched_within_tolerance exception : MatchOutcome

pub data ExceptionType : Type 0 where
  price_variance quantity_variance total_variance tax_variance missing_po missing_goods_receipt
        duplicate_invoice unknown_vendor low_confidence_extraction line_not_on_po
        over_auto_post_ceiling currency_mismatch unapplied_remittance erp_posting_failed :
      ExceptionType

pub data ExceptionStatus : Type 0 where
  open_status approved_status rejected_status : ExceptionStatus

pub data JournalStatus : Type 0 where
  draft_status posted_status failed_status : JournalStatus

pub data AuditAction : Type 0 where
  email_received document_parsed fields_extracted duplicate_checked vendor_resolved po_fetched
        goods_receipt_fetched match_evaluated exception_raised human_decision journal_posted
        cash_applied run_failed :
      AuditAction

-- Members are told apart by their position.
abbrev exception_index : ExceptionType → ℕ
exception_index price_variance = 0
exception_index quantity_variance = 1
exception_index total_variance = 2
exception_index tax_variance = 3
exception_index missing_po = 4
exception_index missing_goods_receipt = 5
exception_index duplicate_invoice = 6
exception_index unknown_vendor = 7
exception_index low_confidence_extraction = 8
exception_index line_not_on_po = 9
exception_index over_auto_post_ceiling = 10
exception_index currency_mismatch = 11
exception_index unapplied_remittance = 12
exception_index erp_posting_failed = 13

-- `a == b`
unfoldable pub same_exception : ExceptionType → ExceptionType → Bool
same_exception a b = exception_index a == exception_index b

pub same_exception→eq : (a b : ExceptionType) → same_exception a b ≡ true → a ≡ b
unfolding same_exception
same_exception→eq a b h = ground arith

pub same_exception_refl : (a : ExceptionType) → same_exception a a ≡ true
unfolding same_exception
same_exception_refl a = ground arith

pub same_exception_comm : (a b : ExceptionType) → same_exception a b ≡ same_exception b a
unfolding same_exception
same_exception_comm a b = ground arith

abbrev pub action_index : AuditAction → ℕ
action_index email_received = 0
action_index document_parsed = 1
action_index fields_extracted = 2
action_index duplicate_checked = 3
action_index vendor_resolved = 4
action_index po_fetched = 5
action_index goods_receipt_fetched = 6
action_index match_evaluated = 7
action_index exception_raised = 8
action_index human_decision = 9
action_index journal_posted = 10
action_index cash_applied = 11
action_index run_failed = 12
