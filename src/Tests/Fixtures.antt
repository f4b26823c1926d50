-- ===== src/Tests/Fixtures.antt =====
-- An invoice with its order and goods receipt, a remittance, and a world to run them in.
use invoice_to_payment_agent.Prelude.{none, some, List, [], ◌∷◌, ok, err, true, false}
use invoice_to_payment_agent.Prelude.Int.{pos}
use invoice_to_payment_agent.Prelude.Text.{codes}
use invoice_to_payment_agent.Decimal.{Decimal, decimal}
use invoice_to_payment_agent.Schemas.Common.{received, accounts_payable, api_upload}
use invoice_to_payment_agent.Schemas.Invoice.{
  InvoiceLineItem, ExtractedInvoice, RemittanceAdvice, ExtractedRemittance,
}
use invoice_to_payment_agent.Schemas.Erp.{
  Vendor, PurchaseOrderLine, PurchaseOrder, GoodsReceipt, ArItem, JournalPostingRequest,
  JournalPostingResult, total_debits,
}
use invoice_to_payment_agent.Schemas.Config.{default_matching, default_erp}
use invoice_to_payment_agent.Store.Rows.{empty_store, WorkflowRun}
use invoice_to_payment_agent.Erp.Client.{ErpClient, erp_error, handled}
use invoice_to_payment_agent.Agents.State.{InvoiceState}
use invoice_to_payment_agent.Agents.World.{External, AppConfig, World}

abbrev pub po_line : PurchaseOrderLine
po_line = record {
  line_number = 10;
  material_code = some (codes "M-1");
  description = codes "steel bolts";
  quantity_ordered = decimal (pos 10) 0;
  quantity_received = decimal (pos 10) 0;
  quantity_invoiced = decimal (pos 0) 0;
  unit = codes "EA";
  unit_price = decimal (pos 1200) 2;
  line_total = decimal (pos 12000) 2;
}

abbrev pub order : PurchaseOrder
order = record {
  po_number = codes "4500001";
  vendor_id = codes "V100";
  vendor_name = codes "Acme";
  company_code = codes "1000";
  currency = codes "EUR";
  order_date = none;
  status = codes "open";
  goods_receipt_required = true;
  net_amount = decimal (pos 12000) 2;
  tax_amount = decimal (pos 2280) 2;
  gross_amount = decimal (pos 14280) 2;
  lines = po_line ∷ [];
}

abbrev pub receipt : GoodsReceipt
receipt = record {
  gr_number = codes "5000001";
  po_number = codes "4500001";
  posting_date = none;
  lines =
      record {
        po_line_number = 10;
        material_code = some (codes "M-1");
        quantity_received = decimal (pos 10) 0;
        unit = codes "EA";
        receipt_date = none;
      }
      ∷ [];
}

abbrev pub line_item : InvoiceLineItem
line_item = record {
  line_number = some 1;
  po_line_number = none;
  description = codes "steel bolts";
  material_code = some (codes "m-1");
  quantity = decimal (pos 10) 0;
  unit = some (codes "EA");
  unit_price = decimal (pos 1200) 2;
  line_total = decimal (pos 12000) 2;
  tax_rate = none;
}

abbrev pub invoice_of : Decimal → ExtractedInvoice
invoice_of total = record {
  invoice_number = some (codes "R-7");
  invoice_date = some 20000;
  due_date = none;
  purchase_order_number = some (codes "4500001");
  vendor_name = some (codes "Acme");
  vendor_tax_id = some (codes "DE 1");
  vendor_iban = none;
  vendor_id = none;
  currency = some (codes "EUR");
  subtotal = some (decimal (pos 12000) 2);
  tax_amount = some (decimal (pos 2280) 2);
  total_amount = some total;
  payment_terms = none;
  line_items = line_item ∷ [];
  confidence = 9000;
  field_confidence = [];
  extraction_notes = none;
}

abbrev pub invoice : ExtractedInvoice
invoice = invoice_of (decimal (pos 14280) 2)

abbrev pub vendor : Vendor
vendor = record {
  vendor_id = codes "V100";
  name = codes "Acme";
  tax_id = some (codes "DE1");
  iban = none;
  payment_terms = none;
  currency = codes "EUR";
  aliases = [];
  blocked = false;
}

abbrev pub advice : RemittanceAdvice
advice = record {
  invoice_number = some (codes " ar-1 ");
  amount_paid = some (decimal (pos 99900) 2);
  deduction = none;
  reference = none;
}

abbrev pub remittance : ExtractedRemittance
remittance = record {
  remittance_number = some (codes "P-1");
  payment_date = none;
  customer_name = some (codes "Bolt Ltd");
  customer_id = some (codes "C1");
  currency = some (codes "EUR");
  total_paid = some (decimal (pos 99900) 2);
  bank_reference = none;
  advices = advice ∷ [];
  confidence = 9000;
  extraction_notes = none;
}

abbrev pub ar_item : ArItem
ar_item = record {
  ar_item_id = codes "AR1";
  invoice_number = codes "AR-1";
  customer_id = codes "C1";
  customer_name = codes "Bolt Ltd";
  currency = codes "EUR";
  open_amount = decimal (pos 100000) 2;
  original_amount = decimal (pos 100000) 2;
  due_date = none;
  status = codes "open";
}

-- The models read one invoice out of every document, and the knowledge base is empty.
abbrev pub outside : Decimal → External
outside total = record {
  parse_document = λ path. ok (record {
    markdown = codes "# invoice";
    sha256 = codes "abc";
    parser = codes "text";
    page_count = 1;
  });
  extract_invoice = λ text. ok (invoice_of total);
  extract_remittance = λ text. ok remittance;
  draft_guidance = λ report policy. codes "check";
  retrieve_policy = λ es. [];
  token_set_ratio = λ a b. 100;
  extract_one = λ name names. none;
  search_vendors = λ name. [];
  sha256_hex = λ text. text;
  today = 20001;
}

abbrev pub config : AppConfig
config = record { matching = default_matching; erp = default_erp }

abbrev pub posted_result : JournalPostingRequest → JournalPostingResult
posted_result request = record {
  document_number = codes "1900001";
  fiscal_year = 2025;
  posting_date = 20001;
  reference = request.reference;
  company_code = request.company_code;
  total_amount = total_debits request.lines;
  currency = request.currency;
  status = codes "posted";
}

-- An ERP that keeps the entries that are posted to it.
abbrev pub Ledger : Type 0
Ledger = List JournalPostingRequest

abbrev pub client : ErpClient Ledger
client = record {
  get_vendors = λ e. (ok (vendor ∷ []), e);
  get_purchase_order = λ number e. (ok order, e);
  get_goods_receipts = λ number e. (ok (receipt ∷ []), e);
  post_journal_entry = λ request e. (ok (posted_result request), request ∷ e);
  get_ar_items = λ customer number e. (ok (ar_item ∷ []), e);
  apply_cash = λ item amount reference e. (err (handled (erp_error (codes "closed"))), e);
}

abbrev pub run : WorkflowRun
run = record {
  id = codes "r1";
  thread_id = codes "t1";
  kind = accounts_payable;
  status = received;
  source = api_upload;
  source_message_id = none;
  source_mailbox = none;
  source_sender = none;
  source_subject = none;
  attachment_name = none;
  document_path = none;
  document_sha256 = none;
  straight_through = false;
  error_message = none;
  is_completed = false;
}

abbrev pub world : World Ledger
world = record { store = record empty_store { runs = run ∷ [] }; erp = [] }

-- The initial state of `start_run`.
abbrev pub initial : InvoiceState
initial = record {
  run_id = codes "r1";
  thread_id = codes "t1";
  kind = accounts_payable;
  status = received;
  source_message_id = some [];
  source_sender = [];
  source_subject = [];
  mailbox = [];
  document_path = codes "/r1.pdf";
  document_sha256 = some (codes "abc");
  attachment_name = codes "r1.pdf";
  document_markdown = [];
  parser = [];
  page_count = 0;
  invoice = none;
  remittance = none;
  duplicate_of_run_id = none;
  vendor = none;
  vendor_match_method = [];
  purchase_order = none;
  goods_receipts = [];
  open_ar_items = [];
  match_report = none;
  policy_extracts = [];
  exception_case_id = none;
  exception_guidance = [];
  approval_decision = none;
  approved_by = none;
  approval_note = [];
  journal_result = none;
  cash_applications = [];
  residual_amount = none;
  straight_through = false;
  error = none;
  decisions = [];
}
