-- ===== src/Agents/Journal.antt =====
-- `build_journal` of agents/nodes/post.py.
use invoice_to_payment_agent.Prelude.{
  ℕ, not, Option, none, some, List, [], ◌∷◌, ◌++◌, if◌then◌else◌, take, or_else,
}
use invoice_to_payment_agent.Prelude.Text.{Text, codes, text_or}
use invoice_to_payment_agent.Decimal.{Decimal, zero_decimal, add, sub, eq, lt, some_or, quantize}
use invoice_to_payment_agent.Schemas.Invoice.{ExtractedInvoice}
use invoice_to_payment_agent.Schemas.Erp.{Vendor, PurchaseOrder, JournalLine, JournalPostingRequest}
use invoice_to_payment_agent.Schemas.Config.{ErpConfig}
use invoice_to_payment_agent.Agents.State.{InvoiceState}

abbrev pub grir_clearing_account : Text
grir_clearing_account = codes "191100"

abbrev pub input_vat_account : Text
input_vat_account = codes "154000"

abbrev pub accounts_payable_account : Text
accounts_payable_account = codes "160000"

abbrev pub non_po_expense_account : Text
non_po_expense_account = codes "470000"

-- The amounts of the entry, each in cents.
pub record Amounts : Type 0 where
  pub gross : Decimal
  pub tax : Decimal
  pub net : Decimal

abbrev pub quantized : Option Decimal → Option Decimal
quantized none = none
quantized (some d) = some (quantize d)

-- `net`, where the invoice does not print it.
abbrev pub derived_net : Decimal → Option Decimal → Decimal
derived_net gross none = gross
derived_net gross (some tax) = quantize (sub gross tax)

-- The net amount is made to fit the gross and the tax.
unfoldable pub reconcile : Decimal → Decimal → Decimal → Amounts
reconcile gross tax net = record {
  gross = gross;
  tax = tax;
  net = if not (eq (quantize (add net tax)) gross) then quantize (sub gross tax) else net;
}

-- From the invoice's total, tax and subtotal.
unfoldable pub amounts_of : Option Decimal → Option Decimal → Option Decimal → Amounts
unfolding reconcile
amounts_of total_amount tax_amount subtotal =
    let gross = quantize (some_or total_amount zero_decimal) in
    let printed_tax = quantized tax_amount in
    let net = or_else (quantized subtotal) (derived_net gross printed_tax) in
    let tax = or_else printed_tax (quantize (sub gross net)) in reconcile gross tax net

unfoldable pub journal_amounts : ExtractedInvoice → Amounts
unfolding amounts_of
journal_amounts invoice = amounts_of invoice.total_amount invoice.tax_amount invoice.subtotal

abbrev pub debit_line : Text → Text → Decimal → Option Text → JournalLine
debit_line account description amount tax_code = record {
  account = account;
  description = description;
  debit = amount;
  credit = zero_decimal;
  cost_center = none;
  tax_code = tax_code;
}

abbrev pub credit_line : Text → Text → Decimal → JournalLine
credit_line account description amount = record {
  account = account;
  description = description;
  debit = zero_decimal;
  credit = amount;
  cost_center = none;
  tax_code = none;
}

unfoldable pub journal_lines : ExtractedInvoice → Text → Amounts → List JournalLine
journal_lines invoice debit_account amounts =
    let number = text_or invoice.invoice_number [] in
    let net_line =
      debit_line debit_account (codes "Invoice " ++ (number ++ codes " net goods/services value"))
        amounts.net none in
    let vat_line =
      debit_line input_vat_account (codes "Input VAT on invoice " ++ number) amounts.tax
        (some (codes "V1")) in
    let payable_line =
      credit_line accounts_payable_account
        (codes "Payable to " ++ text_or invoice.vendor_name (codes "vendor")) amounts.gross in
    if lt zero_decimal amounts.tax
    then net_line ∷ vat_line ∷ payable_line ∷ []
    else net_line ∷ payable_line ∷ []

abbrev pub vendor_id_of : Option Vendor → Option Text
vendor_id_of none = none
vendor_id_of (some v) = some v.vendor_id

abbrev pub po_number_of : Option PurchaseOrder → Option Text
po_number_of none = none
po_number_of (some po) = some po.po_number

abbrev pub debit_account_of : Option PurchaseOrder → Text
debit_account_of none = non_po_expense_account
debit_account_of (some _) = grir_clearing_account

unfoldable pub journal_reference : ExtractedInvoice → Text → Text
journal_reference invoice run_id = take 80 (
    text_or invoice.vendor_name (codes "VENDOR")
    ++ (codes "/" ++ text_or invoice.invoice_number run_id))

unfoldable pub journal_memo : InvoiceState → Text
journal_memo state =
    codes "Automated posting from email "
    ++ (or_else state.source_message_id (codes "n/a")
        ++ (codes " (document " ++ (take 12 (or_else state.document_sha256 []) ++ codes ")")))

module _ (cfg : ErpConfig) (today : ℕ) where
  unfoldable pub invoice_journal : InvoiceState → ExtractedInvoice → JournalPostingRequest
  unfolding journal_lines journal_amounts journal_reference journal_memo
  invoice_journal state invoice = record {
    reference = journal_reference invoice state.run_id;
    company_code = cfg.company_code;
    currency = text_or invoice.currency cfg.default_currency;
    posting_date = some today;
    vendor_id = vendor_id_of state.vendor;
    customer_id = none;
    po_number = po_number_of state.purchase_order;
    memo = journal_memo state;
    lines = journal_lines invoice (debit_account_of state.purchase_order) (journal_amounts invoice);
  }

  abbrev journal_for : InvoiceState → Option ExtractedInvoice → Option JournalPostingRequest
  journal_for state none = none
  journal_for state (some invoice) = some (invoice_journal state invoice)

  -- `none` is the `ExtractionError`.
  unfoldable pub build_journal : InvoiceState → Option JournalPostingRequest
  unfolding invoice_journal
  build_journal state = journal_for state state.invoice
