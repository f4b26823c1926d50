-- ===== src/Agents/Kept.antt =====
-- What every node up to the posting keeps: a property of the world that the calls below keep.
use invoice_to_payment_agent.Prelude.{
  ℕ, Option, none, some, Result, ok, err, String, inl, inr, Bool-cases, List, [],
}
use invoice_to_payment_agent.Store.Runs.{RunFields, update_run}
use invoice_to_payment_agent.Store.Audit.{NewEvent, append_audit}
use invoice_to_payment_agent.Schemas.Common.{AuditAction, extracting, po_fetched}
use invoice_to_payment_agent.Prelude.Text.{Text, is_given, text_or}
use invoice_to_payment_agent.Schemas.Common.{ExceptionStatus}
use invoice_to_payment_agent.Schemas.Invoice.{ExtractedInvoice}
use invoice_to_payment_agent.Schemas.Erp.{Vendor, PurchaseOrder}
use invoice_to_payment_agent.Store.Rows.{InvoiceRow, MatchRow}
use invoice_to_payment_agent.Store.Runs.{save_invoice, save_match}
use invoice_to_payment_agent.Store.Cases.{NewCase, save_exception, resolve_exception}
use invoice_to_payment_agent.Erp.Client.{ErpError, purchase_order_not_found, erp_error, ErpClient}
use invoice_to_payment_agent.Agents.State.{InvoiceState}
use invoice_to_payment_agent.Agents.World.{
  ParsedDocument, External, AppConfig, status_only, agent, World, Outcome, Attempt, with_store,
  audit, set_run_status,
}
use invoice_to_payment_agent.Agents.Extract.{
  parse_node, parsed_state, extracted_state, extract_invoice_node,
}
use invoice_to_payment_agent.Agents.Attempts.{Leaves, if-Leaves, trying-Leaves}
use invoice_to_payment_agent.Agents.Enrich.{
  persisted, checked, duplicate_checked_state, resolved_state, resolve_for, fetch_receipts, fetched,
  persist_invoice_node, duplicate_check_node, resolve_vendor_node, fetch_po_node, wanted_po,
}

-- The calls that a run makes before it posts.
pub record Reads {E : Type 0} (client : ErpClient E) (P : World E → Type 0) : Type 0 where
  pub audited :
      (state : InvoiceState) (action : AuditAction) (node : String) (actor : Text) (w : World E)
      → P w
      → P (audit state action node actor w)
  pub status_set :
      (state : InvoiceState) (fields : RunFields) (w : World E)
      → P w
      → P (set_run_status state fields w)
  pub invoice_saved : (row : InvoiceRow) (w : World E) → P w → P (with_store (save_invoice row) w)
  pub match_saved : (row : MatchRow) (w : World E) → P w → P (with_store (save_match row) w)
  pub case_saved :
      (new : NewCase) (w : World E)
      → P w
      → P (let (case, store) = save_exception new w.store in record w { store = store })
  pub case_resolved :
      (id : ℕ) (status : ExceptionStatus) (by : Text) (note : Option Text) (w : World E)
      → P w
      → P (with_store (resolve_exception id status by note) w)
  pub vendors_read :
      (w : World E) → P w → P (let (a, erp) = client.get_vendors w.erp in record w { erp = erp })
  pub order_read :
      (number : Text) (w : World E)
      → P w
      → P (let (a, erp) = client.get_purchase_order number w.erp in record w { erp = erp })
  pub receipts_read :
      (number : Text) (w : World E)
      → P w
      → P (let (a, erp) = client.get_goods_receipts number w.erp in record w { erp = erp })

abbrev pub left : {E : Type 0} → Outcome E → World E
left (state, w) = w

-- A property of the world that a node leaves, whether it returns or an exception breaks it off.
abbrev pub LeftBy : {E : Type 0} → (World E → Type 0) → Attempt E → Type 0
LeftBy P = Leaves (λ o. P (left o)) P

-- A property that a new event of the trail keeps, or new fields of a run.
pub audit-keeps :
    {E : Type 0} (P : World E → Type 0)
    → ((run_id : Text) (new : NewEvent) (w : World E)
        → P w
        → P (with_store (append_audit run_id new) w))
    → (state : InvoiceState) (action : AuditAction) (node : String) (actor : Text) (w : World E)
    → P w
    → P (audit state action node actor w)
unfolding audit
audit-keeps P appended state action node actor w h =
    elim (Bool-cases (is_given (some state.run_id))) [
      | inl e ↦ rw e (appended _ _ _ h)
      | inr e ↦ rw e h
    ]

pub set_run_status-keeps :
    {E : Type 0} (P : World E → Type 0)
    → ((run_id : Text) (fields : RunFields) (w : World E)
        → P w
        → P (with_store (update_run run_id fields) w))
    → (state : InvoiceState) (fields : RunFields) (w : World E) → P w
    → P (set_run_status state fields w)
unfolding set_run_status
set_run_status-keeps P updated state fields w h = elim (Bool-cases (is_given (some state.run_id))) [
  | inl e ↦ rw e (updated _ _ _ h)
  | inr e ↦ rw e h
]

module _ {E : Type 0} (x : External) (cfg : AppConfig) (client : ErpClient E) {P : World E → Type 0}
    (k : Reads client P) where
  parsed_state-keeps :
      (s : InvoiceState) (r : Result Text ParsedDocument) (w : World E)
      → P w
      → P (left (parsed_state x s r w))
  parsed_state-keeps s (ok _) w h = k.audited _ _ _ _ _ h
  parsed_state-keeps s (err _) w h = k.audited _ _ _ _ _ h

  pub parse_node-keeps : (s : InvoiceState) (w : World E) → P w → P (left (parse_node x s w))
  unfolding parse_node
  parse_node-keeps s w h = parsed_state-keeps s _ _ (k.status_set _ _ _ h)

  extracted_state-keeps :
      (s : InvoiceState) (r : Result Text ExtractedInvoice) (w : World E)
      → P w
      → P (left (extracted_state x s r w))
  extracted_state-keeps s (ok _) w h = k.audited _ _ _ _ _ h
  extracted_state-keeps s (err _) w h = k.audited _ _ _ _ _ h

  pub extract_invoice_node-keeps :
      (s : InvoiceState) (w : World E) → P w → LeftBy P (extract_invoice_node x s w)
  unfolding extract_invoice_node
  extract_invoice_node-keeps s w h =
      let w' = set_run_status s (status_only extracting) w in
      let set : P w' = k.status_set _ _ _ h in
      trying-Leaves (λ o. P (left o)) P (x.extract_invoice s.document_markdown) _ s w'
        (λ r. extracted_state-keeps s r w' set) set

  persisted-keeps :
      (s : InvoiceState) (i : Option ExtractedInvoice) (w : World E)
      → P w
      → P (left (persisted x cfg client s i w))
  persisted-keeps s none w h = h
  persisted-keeps s (some _) w h = k.invoice_saved _ _ h

  pub persist_invoice_node-keeps :
      (s : InvoiceState) (w : World E) → P w → P (left (persist_invoice_node x cfg client s w))
  unfolding persist_invoice_node
  persist_invoice_node-keeps s w h = persisted-keeps s s.invoice w h

  checked-keeps :
      (s : InvoiceState) (d : Option InvoiceRow) (w : World E)
      → P w
      → P (left (checked x cfg client s d w))
  checked-keeps s none w h = k.audited _ _ _ _ _ h
  checked-keeps s (some _) w h = k.audited _ _ _ _ _ h

  duplicate_checked_state-keeps :
      (s : InvoiceState) (i : Option ExtractedInvoice) (w : World E)
      → P w
      → P (left (duplicate_checked_state x cfg client s i w))
  duplicate_checked_state-keeps s none w h = h
  duplicate_checked_state-keeps s (some _) w h = checked-keeps s _ w h

  pub duplicate_check_node-keeps :
      (s : InvoiceState) (w : World E) → P w → P (left (duplicate_check_node x cfg client s w))
  unfolding duplicate_check_node
  duplicate_check_node-keeps s w h = duplicate_checked_state-keeps s s.invoice w h

  resolved_state-keeps :
      (s : InvoiceState) (i : ExtractedInvoice) (r : Result ErpError (List Vendor)) (w : World E)
      → P w
      → P (left (resolved_state x cfg client s i r w))
  resolved_state-keeps s i (ok _) w h = k.audited _ _ _ _ _ h
  resolved_state-keeps s i (err _) w h = k.audited _ _ _ _ _ h

  resolve_for-keeps :
      (s : InvoiceState) (i : Option ExtractedInvoice) (w : World E)
      → P w
      → LeftBy P (resolve_for x cfg client s i w)
  resolve_for-keeps s none w h = h
  resolve_for-keeps s (some i) w h =
      let (vendors, erp) = client.get_vendors w.erp in
      let read : P (record w { erp = erp }) = k.vendors_read w h in
      trying-Leaves (λ o. P (left o)) P vendors _ s _ (λ r. resolved_state-keeps s i r _ read) read

  pub resolve_vendor_node-keeps :
      (s : InvoiceState) (w : World E) → P w → LeftBy P (resolve_vendor_node x cfg client s w)
  unfolding resolve_vendor_node
  resolve_vendor_node-keeps s w h = resolve_for-keeps s s.invoice w h

  fetch_receipts-keeps :
      (s : InvoiceState) (number : Text) (po : PurchaseOrder) (w : World E)
      → P w
      → LeftBy P (fetch_receipts x cfg client s number po w)
  fetch_receipts-keeps s number po w h =
      let (receipts, erp) = client.get_goods_receipts number w.erp in
      let read : P (record w { erp = erp }) = k.receipts_read number w h in
      trying-Leaves (λ o. P (left o)) P receipts _ s _ (λ r. k.audited _ _ _ _ _ read) read

  fetched-keeps :
      (s : InvoiceState) (number : Text) (r : Result ErpError PurchaseOrder) (w : World E)
      → P w
      → LeftBy P (fetched x cfg client s number r w)
  fetched-keeps s number (err (purchase_order_not_found _)) w h = k.audited _ _ _ _ _ h
  fetched-keeps s number (err (erp_error _)) w h = k.audited _ _ _ _ _ h
  fetched-keeps s number (ok po) w h =
      let found : P (audit s po_fetched "fetch_po" agent w) = k.audited _ _ _ _ _ h in
      if-Leaves (λ o. P (left o)) P po.goods_receipt_required _ _
        (fetch_receipts-keeps s number po _ found) found

  pub fetch_po_node-keeps :
      (s : InvoiceState) (w : World E) → P w → LeftBy P (fetch_po_node x cfg client s w)
  unfolding fetch_po_node
  fetch_po_node-keeps s w h =
      let number = text_or (wanted_po x cfg client s.invoice) [] in
      let (order, erp) = client.get_purchase_order number w.erp in
      let read : P (record w { erp = erp }) = k.order_read number w h in
      if-Leaves (λ o. P (left o)) P (is_given (wanted_po x cfg client s.invoice)) _ _
        (trying-Leaves (λ o. P (left o)) P order _ s _ (λ r. fetched-keeps s number r _ read) read)
        (k.audited _ _ _ _ _ h)
