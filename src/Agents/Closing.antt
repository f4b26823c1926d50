-- ===== src/Agents/Closing.antt =====
-- The nodes that close a run of accounts payable, and the row of the run.
use invoice_to_payment_agent.Prelude.{
  ◌≡◌, refl, ◌∙◌, ap, or_else, Option, none, some, Result, ok, err, true, inl, inr, Bool-cases,
}
use invoice_to_payment_agent.Prelude.Text.{Text, codes, is_given}
use invoice_to_payment_agent.Schemas.Common.{posting, rejected, human_decision, failed}
use invoice_to_payment_agent.Schemas.Invoice.{ExtractedInvoice}
use invoice_to_payment_agent.Schemas.Erp.{JournalPostingRequest, JournalPostingResult, is_balanced}
use invoice_to_payment_agent.Store.Runs.{RunFields, is_final, save_journal}
use invoice_to_payment_agent.Store.Cases.{save_exception}
use invoice_to_payment_agent.Store.Audit.{append_audit}
use invoice_to_payment_agent.Store.Status.{run_status}
use invoice_to_payment_agent.Erp.Client.{ErpError, ErpClient}
use invoice_to_payment_agent.Agents.State.{InvoiceState}
use invoice_to_payment_agent.Agents.World.{
  External, AppConfig, World, Outcome, Attempt, set_run_status, status_only,
}
use invoice_to_payment_agent.Agents.Post.{
  unbalanced_message, settle_posting, post_request, post_for, post_journal_node, rejected_node,
  failed_node,
}
use invoice_to_payment_agent.Agents.Attempts.{Leaves, trying-Leaves}
use invoice_to_payment_agent.Agents.Kept.{audit-keeps}
use invoice_to_payment_agent.Agents.Live.{
  Statuses, RowKept, IsBroken, IsOwn, IsOwnAs, RowAt-RowKept, audit-RowKept, set_run_status-own,
  set_run_status-RowKept, set_run_status-RowAt,
}
use invoice_to_payment_agent.Agents.Settled.{IsClosed, HasInvoice}

module _ {E : Type 0} (x : External) (cfg : AppConfig) (client : ErpClient E) (r : Text)
    (before : Statuses) (named : is_given (some r) ≡ true) where
  abbrev Closed : Outcome E → Type 0
  Closed = IsClosed r before

  abbrev Own : InvoiceState → World E → Type 0
  Own = IsOwn r before

  -- The node closes the run, or an exception breaks the run off.
  abbrev Leaving : Attempt E → Type 0
  Leaving = Leaves Closed (IsBroken r before)

  -- A final status that is written for the run closes it.
  set_run_status-IsClosed :
      (s s' : InvoiceState) (fields : RunFields) (w : World E)
      → fields.status ≡ s'.status
      → is_final s'.status ≡ true
      → Own s w
      → Closed (s', set_run_status s fields w)
  set_run_status-IsClosed s s' fields w e final own = (
    set_run_status-own r before named s fields w own ∙ ap some e,
    final,
    set_run_status-RowKept r before named s fields w own,
  )

  settle_posting-IsClosed :
      (s : InvoiceState) (request : JournalPostingRequest)
      (result : Result ErpError JournalPostingResult) (w : World E)
      → Own s w
      → Closed (settle_posting x cfg client s request result w)
  unfolding settle_posting run_status save_journal save_exception
  settle_posting-IsClosed s request (ok result) w (o, h) =
      set_run_status-IsClosed s (settle_posting x cfg client s request (ok result) w).0 _ _ refl
        refl (o, audit-RowKept r before _ _ _ _ _ h)
  settle_posting-IsClosed s request (err exc) w (o, h) =
      set_run_status-IsClosed s (settle_posting x cfg client s request (err exc) w).0 _ _ refl refl
        (o, audit-RowKept r before _ _ _ _ _ h)

  post_request-IsClosed :
      (s : InvoiceState) (request : JournalPostingRequest) (w : World E)
      → IsOwnAs r before posting s w
      → Leaving (post_request x cfg client s request w)
  unfolding post_request
  post_request-IsClosed s request w (o, row) =
      let h : RowKept r before w = RowAt-RowKept r before posting w row in
      elim (Bool-cases (is_balanced request)) [
        | inl e ↦
            let (posted, erp) = client.post_journal_entry request w.erp in
            rw e (
              trying-Leaves Closed (IsBroken r before) posted _ s (record w { erp = erp })
                (λ result. settle_posting-IsClosed s request result (record w { erp = erp }) (o, h))
                (posting, refl, row))
        | inr e ↦ rw e (
            set_run_status-IsClosed s
              (record s { status = failed; error = some unbalanced_message }) _ _ refl refl
              (o, audit-RowKept r before _ _ _ _ _ h))
      ]

  post_for-IsClosed :
      (s : InvoiceState) (i : Option ExtractedInvoice) (w : World E)
      → HasInvoice s
      → s.invoice ≡ i
      → IsOwnAs r before posting s w
      → Leaving (post_for x cfg client s i w)
  post_for-IsClosed s none w (i, e) e' h = cc
  post_for-IsClosed s (some i) w has e' h = post_request-IsClosed s _ w h

  pub post_journal_node-IsClosed :
      (s : InvoiceState) (w : World E)
      → HasInvoice s
      → Own s w
      → Leaving (post_journal_node x cfg client s w)
  unfolding post_journal_node
  post_journal_node-IsClosed s w i (o, h) =
      post_for-IsClosed s s.invoice _ i refl (o, set_run_status-RowAt r before named _ _ _ (o, h))

  pub rejected_node-IsClosed :
      (s : InvoiceState) (w : World E) → Own s w → Closed (rejected_node s w)
  unfolding rejected_node run_status append_audit
  rejected_node-IsClosed s w (o, h) =
      let (row, final, kept) =
        set_run_status-IsClosed s (record s { status = rejected }) (status_only rejected) w refl
          refl (o, h) in
      let both =
        audit-keeps (λ w'. (run_status r w'.store ≡ some rejected) × RowKept r before w')
          (λ id new w h. h) s human_decision "rejected" (or_else s.approved_by (codes "approver"))
          (set_run_status s (status_only rejected) w) (row, kept) in
      (both.0, refl, both.1)

  pub failed_node-IsClosed : (s : InvoiceState) (w : World E) → Own s w → Closed (failed_node s w)
  unfolding failed_node
  failed_node-IsClosed s w h =
      set_run_status-IsClosed s (record s { status = failed }) _ _ refl refl h
