-- ===== src/Agents/Effects.antt =====
-- What whole runs do to the ERP, to the journals and to the trail.
use invoice_to_payment_agent.Prelude.{ℕ, ◌≡◌, refl, Option, none, List, true}
use invoice_to_payment_agent.Prelude.Text.{Text}
use invoice_to_payment_agent.Schemas.Erp.{JournalPostingRequest, is_balanced}
use invoice_to_payment_agent.Store.Rows.{PaymentJournal}
use invoice_to_payment_agent.Store.Runs.{update_run, save_invoice, save_match, save_journal}
use invoice_to_payment_agent.Store.Cases.{save_exception, resolve_exception}
use invoice_to_payment_agent.Store.Audit.{append_audit, trail}
use invoice_to_payment_agent.Store.Trail.{IsNumbered, append_audit-IsNumbered}
use invoice_to_payment_agent.Erp.Client.{ErpClient}
use invoice_to_payment_agent.Agents.State.{InvoiceState}
use invoice_to_payment_agent.Agents.World.{External, AppConfig, World}
use invoice_to_payment_agent.Agents.Decide.{Approval}
use invoice_to_payment_agent.Agents.Graph.{ApNode, at_parse, Point, at, ap_steps, start_ap}
use invoice_to_payment_agent.Agents.Kept.{Reads, audit-keeps, set_run_status-keeps}
use invoice_to_payment_agent.Agents.Runs.{
  Posts, HoldsAt, HoldsBefore, ap_steps-keeps, ap_steps-keeps_before,
}

-- The reading calls of the ERP keep a property of its state.
pub record ErpReads {E : Type 0} (client : ErpClient E) (Q : E → Type 0) : Type 0 where
  pub vendors_keep : (e : E) → Q e → Q (client.get_vendors e).1
  pub order_keeps : (number : Text) (e : E) → Q e → Q (client.get_purchase_order number e).1
  pub receipts_keep : (number : Text) (e : E) → Q e → Q (client.get_goods_receipts number e).1

-- The posting of a balanced entry keeps it too.
abbrev pub ErpPosts : {E : Type 0} → ErpClient E → (E → Type 0) → Type 0
ErpPosts {E = E} client Q =
    (request : JournalPostingRequest) (e : E)
    → is_balanced request ≡ true
    → Q e
    → Q (client.post_journal_entry request e).1

-- The state of the ERP, and the journals as they were.
abbrev pub Untouched : {E : Type 0} → (E → Type 0) → List PaymentJournal → World E → Type 0
Untouched Q journals w = Q w.erp × (w.store.journals ≡ journals)

abbrev pub TrailNumbered : {E : Type 0} → World E → Type 0
TrailNumbered w = IsNumbered w.store

module _ {E : Type 0} (client : ErpClient E) where
  pub Untouched-Reads :
      (Q : E → Type 0) (journals : List PaymentJournal)
      → ErpReads client Q
      → Reads client (Untouched Q journals)
  unfolding append_audit update_run save_invoice save_match save_exception resolve_exception
  Untouched-Reads Q journals reads = record {
    audited = audit-keeps (Untouched Q journals) (λ id new w h. h);
    status_set = set_run_status-keeps (Untouched Q journals) (λ id fields w h. h);
    invoice_saved = λ row w h. h;
    match_saved = λ row w h. h;
    case_saved = λ new w h. h;
    case_resolved = λ id status by note w h. h;
    vendors_read = λ w h. (reads.vendors_keep w.erp h.0, h.1);
    order_read = λ number w h. (reads.order_keeps number w.erp h.0, h.1);
    receipts_read = λ number w h. (reads.receipts_keep number w.erp h.0, h.1);
  }

  ledger-Reads : (Q : E → Type 0) → ErpReads client Q → Reads client (λ w. Q w.erp)
  ledger-Reads Q reads = record {
    audited = audit-keeps (λ w. Q w.erp) (λ id new w h. h);
    status_set = set_run_status-keeps (λ w. Q w.erp) (λ id fields w h. h);
    invoice_saved = λ row w h. h;
    match_saved = λ row w h. h;
    case_saved = λ new w h. h;
    case_resolved = λ id status by note w h. h;
    vendors_read = λ w h. reads.vendors_keep w.erp h;
    order_read = λ number w h. reads.order_keeps number w.erp h;
    receipts_read = λ number w h. reads.receipts_keep number w.erp h;
  }

  ledger-Posts : (Q : E → Type 0) → ErpPosts client Q → Posts client (λ w. Q w.erp)
  ledger-Posts Q posts = record {
    journal_saved = λ row w h. h;
    entry_posted = λ request w balanced h. posts request w.erp balanced h;
  }

  trail-Reads : Reads client TrailNumbered
  unfolding update_run save_invoice save_match save_exception resolve_exception trail
  trail-Reads = record {
    audited = audit-keeps TrailNumbered (λ id new w h. append_audit-IsNumbered id new w.store h);
    status_set = set_run_status-keeps TrailNumbered (λ id fields w h. h);
    invoice_saved = λ row w h. h;
    match_saved = λ row w h. h;
    case_saved = λ new w h. h;
    case_resolved = λ id status by note w h. h;
    vendors_read = λ w h. h;
    order_read = λ number w h. h;
    receipts_read = λ number w h. h;
  }

  trail-Posts : Posts client TrailNumbered
  unfolding save_journal trail
  trail-Posts = record { journal_saved = λ row w h. h; entry_posted = λ request w balanced h. h }

module _ {E : Type 0} (x : External) (cfg : AppConfig) (client : ErpClient E) where
  -- A run that was started and has neither ended nor been broken off by an exception, so one that
  -- waits for an approval, has posted nothing: the journals are as they were at its start, and the
  -- ERP still has every property that it had and that the reading calls keep.
  pub start_ap-posts_nothing :
      (Q : E → Type 0)
      → ErpReads client Q
      → (s : InvoiceState) (w : World E) → Q w.erp
      → HoldsBefore (Untouched Q w.store.journals) (start_ap x cfg client s w)
  unfolding start_ap
  start_ap-posts_nothing Q reads s w h =
      ap_steps-keeps_before x cfg client (Untouched-Reads client Q w.store.journals reads) none 9
        (at at_parse s w) (h, refl)

  -- Any number of steps of a run, resumed or not, keeps every property of the ERP's state that the
  -- reading calls and the posting of a balanced entry keep.
  pub run-keeps_ledger :
      (Q : E → Type 0)
      → ErpReads client Q
      → ErpPosts client Q
      → (resume : Option Approval) (n : ℕ) (p : Point ApNode E) → HoldsAt (λ w. Q w.erp) p
      → HoldsAt (λ w. Q w.erp) (ap_steps x cfg client resume n p)
  run-keeps_ledger Q reads posts resume n p h =
      ap_steps-keeps x cfg client (ledger-Reads client Q reads) (ledger-Posts client Q posts) resume
        n p h

  -- Any number of steps of a run, resumed or not, leaves the events of every run numbered 1, 2, 3, …
  -- in the order in which they were written.
  pub run-keeps_trail :
      (resume : Option Approval) (n : ℕ) (p : Point ApNode E)
      → HoldsAt TrailNumbered p
      → HoldsAt TrailNumbered (ap_steps x cfg client resume n p)
  run-keeps_trail resume n p h =
      ap_steps-keeps x cfg client (trail-Reads client) (trail-Posts client) resume n p h
