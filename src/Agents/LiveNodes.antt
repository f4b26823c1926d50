-- ===== src/Agents/LiveNodes.antt =====
-- The nodes of accounts payable up to the match, and the row of their run.
use invoice_to_payment_agent.Prelude.{
  ◌≡◌, refl, [], Option, none, some, Result, ok, err, String, true, List,
}
use invoice_to_payment_agent.Prelude.Text.{Text, is_given, text_or}
use invoice_to_payment_agent.Schemas.Common.{
  AuditAction, RunStatus, parsing, extracting, po_fetched,
}
use invoice_to_payment_agent.Schemas.Invoice.{ExtractedInvoice}
use invoice_to_payment_agent.Schemas.Erp.{Vendor, PurchaseOrder}
use invoice_to_payment_agent.Store.Rows.{InvoiceRow}
use invoice_to_payment_agent.Store.Runs.{RunFields, save_invoice}
use invoice_to_payment_agent.Store.Status.{run_status}
use invoice_to_payment_agent.Erp.Client.{ErpError, purchase_order_not_found, erp_error, ErpClient}
use invoice_to_payment_agent.Agents.State.{InvoiceState}
use invoice_to_payment_agent.Agents.World.{
  ParsedDocument, External, AppConfig, World, Outcome, Attempt, agent, status_only, audit,
  set_run_status,
}
use invoice_to_payment_agent.Agents.Extract.{
  parse_node, parsed_state, extracted_state, extract_invoice_node,
}
use invoice_to_payment_agent.Agents.Enrich.{
  persisted, checked, duplicate_checked_state, resolved_state, resolve_for, fetch_receipts, fetched,
  persist_invoice_node, duplicate_check_node, resolve_vendor_node, fetch_po_node, wanted_po,
}
use invoice_to_payment_agent.Agents.Attempts.{Leaves, if-Leaves, trying-Leaves}
use invoice_to_payment_agent.Agents.Live.{
  Statuses, RowAt, IsBroken, IsLiveAs, RowAt-RowKept, audit-RowAt, set_run_status-RowAt,
}

module _ {E : Type 0} (x : External) (cfg : AppConfig) (client : ErpClient E) (r : Text)
    (before : Statuses) (named : is_given (some r) ≡ true) where
  abbrev Kept : RunStatus → World E → Type 0
  Kept = RowAt r before

  abbrev Live : RunStatus → Outcome E → Type 0
  Live = IsLiveAs r before

  -- The node returns with the run live in that status, or an exception breaks the run off.
  abbrev Leaving : Attempt E → Type 0
  Leaving = Leaves (Live extracting) (IsBroken r before)

  broken : (w : World E) → Kept extracting w → IsBroken r before w
  broken w row = (extracting, refl, row)

  audited :
      (st : RunStatus) (s : InvoiceState) (action : AuditAction) (node : String) (actor : Text)
      (w : World E)
      → Kept st w
      → Kept st (audit s action node actor w)
  audited = audit-RowAt r before

  moved :
      (st : RunStatus) (s : InvoiceState) (fields : RunFields) (w : World E)
      → Live st (s, w)
      → Live fields.status (s, set_run_status s fields w)
  moved st s fields w (fresh, (own, row)) = (
    fresh,
    (own, set_run_status-RowAt r before named s fields w (own, RowAt-RowKept r before st w row)),
  )

  parsed_state-IsLive :
      (st : RunStatus) (s : InvoiceState) (p : Result Text ParsedDocument) (w : World E)
      → Live st (s, w)
      → Live st (parsed_state x s p w)
  parsed_state-IsLive st s (ok _) w (f, (o, h)) = (f, (o, audited _ _ _ _ _ w h))
  parsed_state-IsLive st s (err _) w (f, (o, h)) = (f, (o, audited _ _ _ _ _ w h))

  pub parse_node-IsLive :
      (st : RunStatus) (s : InvoiceState) (w : World E)
      → Live st (s, w)
      → Live parsing (parse_node x s w)
  unfolding parse_node
  parse_node-IsLive st s w h = parsed_state-IsLive parsing s _ _ (moved st s _ w h)

  extracted_state-IsLive :
      (st : RunStatus) (s : InvoiceState) (p : Result Text ExtractedInvoice) (w : World E)
      → Live st (s, w)
      → Live st (extracted_state x s p w)
  extracted_state-IsLive st s (ok _) w (f, (o, h)) = (f, (o, audited _ _ _ _ _ w h))
  extracted_state-IsLive st s (err _) w (f, (o, h)) = (f, (o, audited _ _ _ _ _ w h))

  pub extract_invoice_node-IsLive :
      (st : RunStatus) (s : InvoiceState) (w : World E)
      → Live st (s, w)
      → Leaving (extract_invoice_node x s w)
  unfolding extract_invoice_node
  extract_invoice_node-IsLive st s w h =
      let w' = set_run_status s (status_only extracting) w in
      let live : Live extracting (s, w') = moved st s _ w h in
      trying-Leaves (Live extracting) (IsBroken r before) (x.extract_invoice s.document_markdown) _
        s w' (λ p. extracted_state-IsLive extracting s p w' live) (broken w' live.1.1)

  persisted-IsLive :
      (st : RunStatus) (s : InvoiceState) (i : Option ExtractedInvoice) (w : World E)
      → Live st (s, w)
      → Live st (persisted x cfg client s i w)
  unfolding run_status save_invoice
  persisted-IsLive st s none w h = h
  persisted-IsLive st s (some _) w h = h

  pub persist_invoice_node-IsLive :
      (st : RunStatus) (s : InvoiceState) (w : World E)
      → Live st (s, w)
      → Live st (persist_invoice_node x cfg client s w)
  unfolding persist_invoice_node
  persist_invoice_node-IsLive st s w h = persisted-IsLive st s s.invoice w h

  checked-IsLive :
      (st : RunStatus) (s : InvoiceState) (d : Option InvoiceRow) (w : World E)
      → Live st (s, w)
      → Live st (checked x cfg client s d w)
  checked-IsLive st s none w (f, (o, h)) = (f, (o, audited _ _ _ _ _ w h))
  checked-IsLive st s (some _) w (f, (o, h)) = (f, (o, audited _ _ _ _ _ w h))

  duplicate_checked_state-IsLive :
      (st : RunStatus) (s : InvoiceState) (i : Option ExtractedInvoice) (w : World E)
      → Live st (s, w)
      → Live st (duplicate_checked_state x cfg client s i w)
  duplicate_checked_state-IsLive st s none w h = h
  duplicate_checked_state-IsLive st s (some _) w h = checked-IsLive st s _ w h

  pub duplicate_check_node-IsLive :
      (st : RunStatus) (s : InvoiceState) (w : World E)
      → Live st (s, w)
      → Live st (duplicate_check_node x cfg client s w)
  unfolding duplicate_check_node
  duplicate_check_node-IsLive st s w h = duplicate_checked_state-IsLive st s s.invoice w h

  resolved_state-IsLive :
      (st : RunStatus) (s : InvoiceState) (i : ExtractedInvoice) (v : Result ErpError (List Vendor))
      (w : World E)
      → Live st (s, w)
      → Live st (resolved_state x cfg client s i v w)
  resolved_state-IsLive st s i (ok _) w (f, (o, h)) = (f, (o, audited _ _ _ _ _ w h))
  resolved_state-IsLive st s i (err _) w (f, (o, h)) = (f, (o, audited _ _ _ _ _ w h))

  resolve_for-IsLive :
      (s : InvoiceState) (i : Option ExtractedInvoice) (w : World E)
      → Live extracting (s, w)
      → Leaving (resolve_for x cfg client s i w)
  resolve_for-IsLive s none w h = h
  resolve_for-IsLive s (some i) w h =
      let (vendors, erp) = client.get_vendors w.erp in
      trying-Leaves (Live extracting) (IsBroken r before) vendors _ s (record w { erp = erp })
        (λ p. resolved_state-IsLive extracting s i p (record w { erp = erp }) h)
        (broken (record w { erp = erp }) h.1.1)

  pub resolve_vendor_node-IsLive :
      (s : InvoiceState) (w : World E)
      → Live extracting (s, w)
      → Leaving (resolve_vendor_node x cfg client s w)
  unfolding resolve_vendor_node
  resolve_vendor_node-IsLive s w h = resolve_for-IsLive s s.invoice w h

  fetch_receipts-IsLive :
      (s : InvoiceState) (number : Text) (po : PurchaseOrder) (w : World E)
      → Live extracting (s, w)
      → Leaving (fetch_receipts x cfg client s number po w)
  fetch_receipts-IsLive s number po w (f, (o, h)) =
      let (receipts, erp) = client.get_goods_receipts number w.erp in
      trying-Leaves (Live extracting) (IsBroken r before) receipts _ s (record w { erp = erp })
        (λ p. (f, (o, audited _ _ _ _ _ (record w { erp = erp }) h)))
        (broken (record w { erp = erp }) h)

  fetched-IsLive :
      (s : InvoiceState) (number : Text) (p : Result ErpError PurchaseOrder) (w : World E)
      → Live extracting (s, w)
      → Leaving (fetched x cfg client s number p w)
  fetched-IsLive s number (err (purchase_order_not_found _)) w (f, (o, h)) =
      (f, (o, audited _ _ _ _ _ w h))
  fetched-IsLive s number (err (erp_error _)) w (f, (o, h)) = (f, (o, audited _ _ _ _ _ w h))
  fetched-IsLive s number (ok po) w (f, (o, h)) =
      let w' = audit s po_fetched "fetch_po" agent w in
      let found : Live extracting (s, w') = (f, (o, audited _ _ _ _ _ w h)) in
      if-Leaves (Live extracting) (IsBroken r before) po.goods_receipt_required _ _
        (fetch_receipts-IsLive s number po w' found) found

  pub fetch_po_node-IsLive :
      (s : InvoiceState) (w : World E)
      → Live extracting (s, w)
      → Leaving (fetch_po_node x cfg client s w)
  unfolding fetch_po_node
  fetch_po_node-IsLive s w h =
      let number = text_or (wanted_po x cfg client s.invoice) [] in
      let (order, erp) = client.get_purchase_order number w.erp in
      if-Leaves (Live extracting) (IsBroken r before) (is_given (wanted_po x cfg client s.invoice))
        _ _
        (trying-Leaves (Live extracting) (IsBroken r before) order _ s (record w { erp = erp })
          (λ p. fetched-IsLive s number p (record w { erp = erp }) h)
          (broken (record w { erp = erp }) h.1.1))
        (h.0, (h.1.0, audited _ _ _ _ _ w h.1.1))
