-- ===== src/Agents/Enrich.antt =====
-- agents/nodes/enrich.py.
use invoice_to_payment_agent.Prelude.{
  none, some, Option, List, [], ◌∷◌, ◌++◌, Result, ok, err, length, take, if◌then◌else◌,
}
use invoice_to_payment_agent.Prelude.Text.{Text, codes, is_given, text_or}
use invoice_to_payment_agent.Schemas.Common.{
  duplicate_checked, vendor_resolved, po_fetched, goods_receipt_fetched, run_failed,
}
use invoice_to_payment_agent.Schemas.Invoice.{ExtractedInvoice}
use invoice_to_payment_agent.Schemas.Erp.{Vendor, PurchaseOrder, GoodsReceipt}
use invoice_to_payment_agent.Schemas.Fingerprint.{fingerprint}
use invoice_to_payment_agent.Store.Rows.{InvoiceRow}
use invoice_to_payment_agent.Store.Runs.{save_invoice, find_duplicate}
use invoice_to_payment_agent.Erp.Client.{ErpError, purchase_order_not_found, erp_error, ErpClient}
use invoice_to_payment_agent.Rag.Resolution.{resolve_vendor}
use invoice_to_payment_agent.Agents.State.{
  InvoiceState, duplicate_passed, duplicate_of, vendor_summary, no_po_number, po_missing,
  erp_unavailable, fetched_po,
}
use invoice_to_payment_agent.Agents.World.{
  External, AppConfig, World, Outcome, Attempt, returns, trying, with_store, audit, agent,
}

module _ {E : Type 0} (x : External) (cfg : AppConfig) (client : ErpClient E) where
  abbrev pub invoice_row : InvoiceState → ExtractedInvoice → InvoiceRow
  invoice_row state invoice = record {
    run_id = state.run_id;
    invoice_number = invoice.invoice_number;
    invoice_date = invoice.invoice_date;
    due_date = invoice.due_date;
    purchase_order_number = invoice.purchase_order_number;
    vendor_name = invoice.vendor_name;
    vendor_tax_id = invoice.vendor_tax_id;
    vendor_iban = invoice.vendor_iban;
    currency = invoice.currency;
    subtotal = invoice.subtotal;
    tax_amount = invoice.tax_amount;
    total_amount = invoice.total_amount;
    payment_terms = invoice.payment_terms;
    line_items = invoice.line_items;
    field_confidence = invoice.field_confidence;
    confidence = invoice.confidence;
    fingerprint = fingerprint x.sha256_hex invoice;
    raw_markdown = take 20000 state.document_markdown;
  }

  abbrev pub persisted : InvoiceState → Option ExtractedInvoice → World E → Outcome E
  persisted state none w = (state, w)
  persisted state (some invoice) w =
      (state, with_store (save_invoice (invoice_row state invoice)) w)

  unfoldable pub persist_invoice_node : InvoiceState → World E → Outcome E
  persist_invoice_node state w = persisted state state.invoice w

  abbrev pub checked : InvoiceState → Option InvoiceRow → World E → Outcome E
  checked state none w = (
    record state {
      duplicate_of_run_id = none;
      decisions = state.decisions ++ (duplicate_passed ∷ []);
    },
    audit state duplicate_checked "duplicate_check" agent w,
  )
  checked state (some existing) w = (
    record state {
      duplicate_of_run_id = some existing.run_id;
      decisions = state.decisions ++ (duplicate_of existing.run_id ∷ []);
    },
    audit state duplicate_checked "duplicate_check" agent w,
  )

  abbrev pub duplicate_checked_state : InvoiceState → Option ExtractedInvoice → World E → Outcome E
  duplicate_checked_state state none w = (state, w)
  duplicate_checked_state state (some invoice) w =
      checked state (find_duplicate (fingerprint x.sha256_hex invoice) state.run_id w.store) w

  unfoldable pub duplicate_check_node : InvoiceState → World E → Outcome E
  duplicate_check_node state w = duplicate_checked_state state state.invoice w

  abbrev pub resolved_state :
      InvoiceState → ExtractedInvoice → Result ErpError (List Vendor) → World E → Outcome E
  resolved_state state invoice (err exc) w = (
    record state { vendor = none; vendor_match_method = codes "erp_unavailable" },
    audit state vendor_resolved "resolve_vendor" agent w,
  )
  resolved_state state invoice (ok vendors) w =
      let resolution =
        resolve_vendor x.extract_one x.search_vendors cfg.matching.vendor_match_threshold vendors
          invoice.vendor_name invoice.vendor_tax_id invoice.vendor_iban in
      (
        record state {
          vendor = resolution.vendor;
          vendor_match_method = codes resolution.method;
          decisions =
              state.decisions
              ++ (vendor_summary invoice.vendor_name (codes resolution.method) ∷ []);
        },
        audit state vendor_resolved "resolve_vendor" agent w,
      )

  abbrev pub resolve_for : InvoiceState → Option ExtractedInvoice → World E → Attempt E
  resolve_for state none w = returns (state, w)
  resolve_for state (some invoice) w =
      let (vendors, erp) = client.get_vendors w.erp in
      trying vendors
        (λ result. returns (resolved_state state invoice result (record w { erp = erp }))) state
        (record w { erp = erp })

  unfoldable pub resolve_vendor_node : InvoiceState → World E → Attempt E
  resolve_vendor_node state w = resolve_for state state.invoice w

  -- A failed lookup of the goods receipts leaves none.
  abbrev receipts_or_none : Result ErpError (List GoodsReceipt) → List GoodsReceipt
  receipts_or_none (ok receipts) = receipts
  receipts_or_none (err _) = []

  abbrev pub with_order :
      InvoiceState → Text → PurchaseOrder → List GoodsReceipt → World E → Outcome E
  with_order state po_number po receipts w = (
    record state {
      purchase_order = some po;
      goods_receipts = receipts;
      decisions = state.decisions ++ (fetched_po po_number (length receipts) ∷ []);
    },
    w,
  )

  abbrev pub fetch_receipts : InvoiceState → Text → PurchaseOrder → World E → Attempt E
  fetch_receipts state po_number po w =
      let (receipts, erp) = client.get_goods_receipts po_number w.erp in
      trying receipts
        (λ result. returns (
          with_order state po_number po (receipts_or_none result) (
            audit state goods_receipt_fetched "fetch_goods_receipts" agent
              (record w { erp = erp }))))
        state (record w { erp = erp })

  abbrev pub fetched : InvoiceState → Text → Result ErpError PurchaseOrder → World E → Attempt E
  fetched state po_number (err (purchase_order_not_found _)) w = returns (
    record state {
      purchase_order = none;
      goods_receipts = [];
      decisions = state.decisions ++ (po_missing po_number ∷ []);
    },
    audit state po_fetched "fetch_po" agent w,
  )
  fetched state po_number (err (erp_error text)) w = returns (
    record state {
      purchase_order = none;
      goods_receipts = [];
      error = some text;
      decisions = state.decisions ++ (erp_unavailable text ∷ []);
    },
    audit state run_failed "fetch_po" agent w,
  )
  fetched state po_number (ok po) w =
      let w' = audit state po_fetched "fetch_po" agent w in
      if po.goods_receipt_required
      then fetch_receipts state po_number po w'
      else returns (with_order state po_number po [] w')

  -- The invoice's order number, if there is an invoice that has one.
  abbrev pub wanted_po : Option ExtractedInvoice → Option Text
  wanted_po none = none
  wanted_po (some invoice) = invoice.purchase_order_number

  unfoldable pub fetch_po_node : InvoiceState → World E → Attempt E
  fetch_po_node state w =
      let wanted = wanted_po state.invoice in
      if is_given wanted
      then (let po_number = text_or wanted [] in
          let (order, erp) = client.get_purchase_order po_number w.erp in
          trying order (λ result. fetched state po_number result (record w { erp = erp })) state
            (record w { erp = erp }))
      else returns (
        record state {
          purchase_order = none;
          goods_receipts = [];
          decisions = state.decisions ++ (no_po_number ∷ []);
        },
        audit state po_fetched "fetch_po" agent w,
      )
