-- ===== src/Api/Matches.antt =====
-- api/v1/match.py.
use invoice_to_payment_agent.Prelude.{
  Option, none, some, List, [], Result, ok, err, if◌then◌else◌, find,
}
use invoice_to_payment_agent.Prelude.Text.{Text, text_eq, is_given}
use invoice_to_payment_agent.Schemas.Invoice.{ExtractedInvoice}
use invoice_to_payment_agent.Schemas.Erp.{PurchaseOrder, GoodsReceipt}
use invoice_to_payment_agent.Schemas.Matching.{MatchReport}
use invoice_to_payment_agent.Matching.Engine.{match_invoice}
use invoice_to_payment_agent.Store.Rows.{InvoiceRow, Store}
use invoice_to_payment_agent.Erp.Client.{
  ErpError, purchase_order_not_found, erp_error, Raised, handled, uncaught, ErpClient,
}
use invoice_to_payment_agent.Agents.World.{External, AppConfig}
use invoice_to_payment_agent.Service.State.{Service}
use invoice_to_payment_agent.Api.Errors.{
  ApiError, http_error, nothing_supplied, no_invoice, erp_message, uncaught_error, Response,
}

pub record MatchRequest : Type 0 where
  pub run_id : Option Text
  pub invoice : Option ExtractedInvoice
  pub po_number : Option Text

pub record MatchResponse : Type 0 where
  pub run_id : Option Text
  pub report : MatchReport
  pub policy_extracts : List Text

-- The invoice as its row keeps it.
unfoldable pub stored_invoice : InvoiceRow → ExtractedInvoice
stored_invoice row = record {
  invoice_number = row.invoice_number;
  invoice_date = row.invoice_date;
  due_date = row.due_date;
  purchase_order_number = row.purchase_order_number;
  vendor_name = row.vendor_name;
  vendor_tax_id = row.vendor_tax_id;
  vendor_iban = row.vendor_iban;
  vendor_id = none;
  currency = row.currency;
  subtotal = row.subtotal;
  tax_amount = row.tax_amount;
  total_amount = row.total_amount;
  payment_terms = row.payment_terms;
  line_items = row.line_items;
  confidence = row.confidence;
  field_confidence = row.field_confidence;
  extraction_notes = none;
}

-- `select(InvoiceRow).where(InvoiceRow.run_id == …)`
unfoldable pub find_invoice : Text → Store → Option InvoiceRow
find_invoice run_id store = find (λ row. text_eq row.run_id run_id) store.invoices

abbrev restored : Text → Option InvoiceRow → Result ApiError (Option Text × ExtractedInvoice)
restored run_id none = err (http_error 404 (no_invoice run_id))
restored run_id (some row) = ok (some run_id, stored_invoice row)

abbrev invoice_of_run : Option Text → Store → Result ApiError (Option Text × ExtractedInvoice)
invoice_of_run none store = err (http_error 400 nothing_supplied)
invoice_of_run (some run_id) store = restored run_id (find_invoice run_id store)

-- The invoice that is supplied, or the one of the run.
abbrev wanted_invoice :
    Option ExtractedInvoice → Option Text → Store → Result ApiError (Option Text × ExtractedInvoice)
wanted_invoice (some invoice) run_id store = ok (none, invoice)
wanted_invoice none run_id store = invoice_of_run run_id store

-- `request.po_number or invoice.purchase_order_number`
abbrev wanted_order : Option Text → Option Text → Option Text
wanted_order number other = if is_given number then number else other

-- What the ERP has of an order.
abbrev pub Fetched : Type 0 → Type 0
Fetched E = Result ApiError (Option PurchaseOrder × List GoodsReceipt) × E

module _ {E : Type 0} (client : ErpClient E) where
  abbrev with_receipts :
      PurchaseOrder → Result (Raised ErpError) (List GoodsReceipt) × E → Fetched E
  with_receipts po (ok receipts, erp) = (ok (some po, receipts), erp)
  with_receipts po (err (handled (purchase_order_not_found _)), erp) = (ok (none, []), erp)
  with_receipts po (err (handled (erp_error m)), erp) = (err (http_error 502 (erp_message m)), erp)
  with_receipts po (err (uncaught text), erp) = (err (http_error 500 (uncaught_error text)), erp)

  abbrev with_order : Text → Result (Raised ErpError) PurchaseOrder × E → Fetched E
  with_order number (err (handled (purchase_order_not_found _)), erp) = (ok (none, []), erp)
  with_order number (err (handled (erp_error m)), erp) = (err (http_error 502 (erp_message m)), erp)
  with_order number (err (uncaught text), erp) = (err (http_error 500 (uncaught_error text)), erp)
  with_order number (ok po, erp) =
      if po.goods_receipt_required
      then with_receipts po (client.get_goods_receipts number erp)
      else (ok (some po, []), erp)

  abbrev pub fetch_order : Option Text → E → Fetched E
  fetch_order none erp = (ok (none, []), erp)
  fetch_order (some number) erp =
      if is_given (some number)
      then with_order number (client.get_purchase_order number erp)
      else (ok (none, []), erp)

module _ {E : Type 0} (x : External) (cfg : AppConfig) (client : ErpClient E) where
  abbrev answer_match :
      Option Text → ExtractedInvoice → Service E → Fetched E → Response MatchResponse E
  answer_match run_id invoice sv (err error, erp) =
      (err error, record sv { world = record sv.world { erp = erp } })
  answer_match run_id invoice sv (ok (po, receipts), erp) =
      let report = match_invoice x.token_set_ratio cfg.matching invoice po receipts in
      (
        ok (record {
          run_id = run_id;
          report = report;
          policy_extracts = x.retrieve_policy report.exceptions;
        }),
        record sv { world = record sv.world { erp = erp } },
      )

  abbrev pub match_wanted :
      Option Text
      → Result ApiError (Option Text × ExtractedInvoice)
      → Service E
      → Response MatchResponse E
  match_wanted po_number (err error) sv = (err error, sv)
  match_wanted po_number (ok (run_id, invoice)) sv =
      answer_match run_id invoice sv
        (fetch_order client (wanted_order po_number invoice.purchase_order_number) sv.world.erp)

  unfoldable pub match_po : MatchRequest → Service E → Response MatchResponse E
  unfolding stored_invoice find_invoice match_invoice
  match_po request sv =
      match_wanted request.po_number (wanted_invoice request.invoice request.run_id sv.world.store)
        sv
