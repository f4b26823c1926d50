-- ===== src/Agents/Receivable.antt =====
-- agents/nodes/receivable.py.
use invoice_to_payment_agent.Prelude.{
  is_empty, not, ◌&&◌, Option, none, some, List, [], ◌∷◌, ◌++◌, Result, ok, err, length,
  if◌then◌else◌,
}
use invoice_to_payment_agent.Prelude.Text.{Text, codes, is_given, text_or}
use invoice_to_payment_agent.Decimal.{Decimal, zero_decimal, is_nonzero}
use invoice_to_payment_agent.Schemas.Common.{
  posting, failed, completed, awaiting_approval, RunStatus, run_failed, po_fetched, cash_applied,
  unapplied_remittance,
}
use invoice_to_payment_agent.Schemas.Invoice.{RemittanceAdvice, ExtractedRemittance}
use invoice_to_payment_agent.Schemas.Erp.{Vendor, ArItem, CashApplicationResult}
use invoice_to_payment_agent.Store.Rows.{Store, RemittanceRow}
use invoice_to_payment_agent.Store.Runs.{save_remittance}
use invoice_to_payment_agent.Store.Cases.{NewCase, save_exception}
use invoice_to_payment_agent.Erp.Client.{
  ErpError, message, Raised, handled, uncaught, Call, ErpClient,
}
use invoice_to_payment_agent.Rag.Resolution.{resolve_vendor}
use invoice_to_payment_agent.Matching.Remittance.{
  Application, Unresolved, application_failed, match_remittance,
}
use invoice_to_payment_agent.Agents.State.{InvoiceState, fetched_receivables, applied_cash}
use invoice_to_payment_agent.Agents.World.{
  External, AppConfig, World, Outcome, Attempt, returns, raises, trying, with_store, audit,
  set_run_status, agent, status_only,
}

abbrev pub receivable_case : Text → NewCase
receivable_case run_id = record {
  run_id = run_id;
  exception_type = unapplied_remittance;
  severity = "medium";
  suggested_action =
      codes "Review the payment advice against open receivables. Residual cash is "
      ++ codes "posted to the unapplied account until collections identifies the item.";
}

abbrev pub remittance_row :
    Text
    → ExtractedRemittance
    → List CashApplicationResult
    → List Unresolved
    → Decimal
    → RemittanceRow
remittance_row run_id remittance applied unresolved residual = record {
  run_id = run_id;
  remittance_number = remittance.remittance_number;
  payment_date = remittance.payment_date;
  customer_name = remittance.customer_name;
  customer_id = remittance.customer_id;
  currency = remittance.currency;
  total_paid = remittance.total_paid;
  bank_reference = remittance.bank_reference;
  advices = remittance.advices;
  applied = not (is_empty applied) && is_empty unresolved;
  applications = applied;
  residual_amount = if is_nonzero residual then residual else zero_decimal;
  confidence = remittance.confidence;
}

abbrev pub cash_status : List CashApplicationResult → RunStatus
cash_status [] = awaiting_approval
cash_status (_ ∷ _) = completed

-- The case for what stays open.
abbrev pub raise_unresolved : Text → List Unresolved → Store → Store
raise_unresolved run_id [] store = store
raise_unresolved run_id (_ ∷ _) store =
    let (case, store') = save_exception (receivable_case run_id) store in store'

-- What the loop over the applications leaves.
pub record Posted (E : Type 0) : Type 0 where
  pub applied : List CashApplicationResult
  pub unresolved : List Unresolved
  pub erp : E
  pub raised : Option Text

module _ {E : Type 0} (client : ErpClient E) where
  abbrev pub record_result :
      ArItem → Result (Raised ErpError) CashApplicationResult × E → Posted E → Posted E
  record_result item (ok result, erp) acc = record acc {
    applied = acc.applied ++ (result ∷ []);
    erp = erp;
  }
  record_result item (err (handled exc), erp) acc = record acc {
    unresolved = acc.unresolved ++ (application_failed item.ar_item_id (message exc) ∷ []);
    erp = erp;
  }
  record_result item (err (uncaught text), erp) acc = record acc { raised = some text; erp = erp }

  -- One turn of the loop, unless an exception has left it.
  abbrev pub apply_one : Text → ArItem → Decimal → Posted E → Posted E
  apply_one reference item amount acc = elim acc.raised [
    | none ↦ record_result item (client.apply_cash item.ar_item_id amount reference acc.erp) acc
    | some text ↦ acc
  ]

  -- The loop that posts the applications one by one.
  unfoldable pub apply_all : Text → List Application → Posted E → Posted E
  apply_all reference [] acc = acc
  apply_all reference ((item, amount) ∷ rest) acc =
      apply_all reference rest (apply_one reference item amount acc)

  abbrev more_items :
      List ArItem → Result (Raised ErpError) (List ArItem) → Result (Raised ErpError) (List ArItem)
  more_items items (ok more) = ok (items ++ more)
  more_items items (err exc) = err exc

  abbrev lookup : RemittanceAdvice → Call E (List ArItem)
  lookup advice erp =
      if is_given advice.invoice_number
      then client.get_ar_items none advice.invoice_number erp
      else (ok [], erp)

  -- One lookup for each advice with an invoice number; an error ends the loop.
  unfoldable pub items_by_invoice : List RemittanceAdvice → Call E (List ArItem)
  items_by_invoice [] erp = (ok [], erp)
  items_by_invoice (advice ∷ advices) erp =
      let (first, erp') = lookup advice erp in
      elim first [
        | err exc ↦ (err exc, erp')
        | ok items ↦
            let (rest, erp'') = items_by_invoice advices erp' in (more_items items rest, erp'')
      ]

module _ {E : Type 0} (x : External) (cfg : AppConfig) (client : ErpClient E) where
  -- The customer of the master data, if the name resolves to one.
  abbrev resolved_customer :
      ExtractedRemittance
      → Result (Raised ErpError) (List Vendor) × E
      → Result Text (Option Text) × E
  resolved_customer remittance (err (handled exc), erp) = (ok remittance.customer_id, erp)
  resolved_customer remittance (err (uncaught text), erp) = (err text, erp)
  resolved_customer remittance (ok vendors, erp) =
      let resolution =
        resolve_vendor x.extract_one x.search_vendors cfg.matching.vendor_match_threshold vendors
          remittance.customer_name none none in
      elim resolution.vendor [
        | none ↦ (ok remittance.customer_id, erp)
        | some vendor ↦ (ok (some vendor.vendor_id), erp)
      ]

  unfoldable pub customer_of : ExtractedRemittance → E → Result Text (Option Text) × E
  customer_of remittance erp =
      if not (is_given remittance.customer_id) && is_given remittance.customer_name
      then resolved_customer remittance (client.get_vendors erp)
      else (ok remittance.customer_id, erp)

  abbrev pub fetch_items :
      ExtractedRemittance
      → Result Text (Option Text) × E
      → Result (Raised ErpError) (List ArItem) × E
  fetch_items remittance (err text, erp) = (err (uncaught text), erp)
  fetch_items remittance (ok customer_id, erp) =
      if is_given customer_id
      then client.get_ar_items customer_id none erp
      else items_by_invoice client remittance.advices erp

  abbrev pub with_items : InvoiceState → World E → Result ErpError (List ArItem) → Outcome E
  with_items state w (err exc) = (
    record state { open_ar_items = []; error = some (message exc) },
    audit state run_failed "fetch_ar_items" agent w,
  )
  with_items state w (ok items) = (
    record state {
      open_ar_items = items;
      decisions = state.decisions ++ (fetched_receivables (length items) ∷ []);
    },
    audit state po_fetched "fetch_ar_items" agent w,
  )

  abbrev pub fetch_ar_for : InvoiceState → Option ExtractedRemittance → World E → Attempt E
  fetch_ar_for state none w = returns (record state { open_ar_items = [] }, w)
  fetch_ar_for state (some remittance) w =
      let (items, erp) = fetch_items remittance (customer_of remittance w.erp) in
      trying items (λ result. returns (with_items state (record w { erp = erp }) result)) state
        (record w { erp = erp })

  unfoldable pub fetch_ar_items_node : InvoiceState → World E → Attempt E
  unfolding customer_of
  fetch_ar_items_node state w = fetch_ar_for state state.remittance w

  abbrev cash_reference : InvoiceState → ExtractedRemittance → Text
  cash_reference state remittance =
      text_or remittance.bank_reference (text_or remittance.remittance_number state.run_id)

  -- What follows the loop over the applications.
  unfoldable pub settle_cash :
      InvoiceState → ExtractedRemittance → Decimal → Posted E → World E → Outcome E
  settle_cash state remittance residual posted w =
      let straight = not (is_empty posted.applied) && is_empty posted.unresolved in
      let row = remittance_row state.run_id remittance posted.applied posted.unresolved residual in
      let w' =
        with_store (λ s. raise_unresolved state.run_id posted.unresolved (save_remittance row s))
          (record w { erp = posted.erp }) in
      (
        record state {
          cash_applications = posted.applied;
          residual_amount = some residual;
          straight_through = straight;
          status = cash_status posted.applied;
          decisions = state.decisions ++ (applied_cash (length posted.applied) residual ∷ []);
        },
        set_run_status state
            (record {
              status = cash_status posted.applied;
              error_message = none;
              straight_through = some straight;
            })
            (audit state cash_applied "apply_cash" agent w'),
      )

  -- An exception in the loop leaves the node: nothing of what was applied is saved.
  abbrev pub applied_or_raised :
      InvoiceState → ExtractedRemittance → Decimal → Option Text → Posted E → World E → Attempt E
  applied_or_raised state remittance residual none posted w =
      returns (settle_cash state remittance residual posted w)
  applied_or_raised state remittance residual (some text) posted w =
      raises text state (record w { erp = posted.erp })

  abbrev pub apply_for : InvoiceState → Option ExtractedRemittance → World E → Attempt E
  apply_for state none w =
      returns (
        record state { status = failed; error = some (codes "no extracted remittance to apply") },
        w,
      )
  apply_for state (some remittance) w =
      let (applications, unresolved, residual) =
        match_remittance cfg.matching remittance state.open_ar_items in
      let posted =
        apply_all client (cash_reference state remittance) applications
          (record { applied = []; unresolved = unresolved; erp = w.erp; raised = none }) in
      applied_or_raised state remittance residual posted.raised posted w

  unfoldable pub apply_cash_node : InvoiceState → World E → Attempt E
  unfolding settle_cash
  apply_cash_node state w =
      apply_for state state.remittance (set_run_status state (status_only posting) w)
