-- ===== src/Agents/Post.antt =====
-- agents/nodes/post.py: the posting of the journal and the two closing nodes.
use invoice_to_payment_agent.Prelude.{
  Bool, true, false, Option, none, some, [], ◌∷◌, ◌++◌, Result, ok, err, if◌then◌else◌, or_else,
}
use invoice_to_payment_agent.Prelude.Text.{Text, codes}
use invoice_to_payment_agent.Schemas.Common.{
  posting, failed, completed, rejected, run_failed, journal_posted, human_decision, posted_status,
  failed_status, erp_posting_failed,
}
use invoice_to_payment_agent.Schemas.Invoice.{ExtractedInvoice}
use invoice_to_payment_agent.Schemas.Erp.{
  JournalPostingRequest, JournalPostingResult, is_balanced, total_debits,
}
use invoice_to_payment_agent.Store.Rows.{PaymentJournal}
use invoice_to_payment_agent.Store.Runs.{save_journal}
use invoice_to_payment_agent.Store.Cases.{NewCase, save_exception}
use invoice_to_payment_agent.Erp.Client.{ErpError, message, ErpClient}
use invoice_to_payment_agent.Agents.State.{
  InvoiceState, posting_failed, posted_document, closed_unposted,
}
use invoice_to_payment_agent.Agents.World.{
  External, AppConfig, World, Outcome, Attempt, returns, trying, with_store, audit, set_run_status,
  agent, status_only, failed_with,
}
use invoice_to_payment_agent.Agents.Journal.{invoice_journal}

abbrev pub unbalanced_message : Text
unbalanced_message = codes "refusing to post an unbalanced journal"

-- `state.get("exception_case_id") is None`
abbrev pub no_case : InvoiceState → Bool
no_case state = elim state.exception_case_id [ none ↦ true | some _ ↦ false ]

abbrev pub failed_journal : InvoiceState → JournalPostingRequest → ErpError → PaymentJournal
failed_journal state request exc = record {
  run_id = state.run_id;
  status = failed_status;
  erp_document_number = none;
  fiscal_year = none;
  posting_date = none;
  reference = request.reference;
  company_code = request.company_code;
  currency = request.currency;
  total_amount = total_debits request.lines;
  lines = request.lines;
  approved_by = state.approved_by;
  error_message = some (message exc);
}

abbrev pub posted_journal :
    InvoiceState → JournalPostingRequest → JournalPostingResult → PaymentJournal
posted_journal state request result = record {
  run_id = state.run_id;
  status = posted_status;
  erp_document_number = some result.document_number;
  fiscal_year = some result.fiscal_year;
  posting_date = some result.posting_date;
  reference = result.reference;
  company_code = result.company_code;
  currency = result.currency;
  total_amount = result.total_amount;
  lines = request.lines;
  approved_by = state.approved_by;
  error_message = none;
}

abbrev pub posting_case : InvoiceState → NewCase
posting_case state = record {
  run_id = state.run_id;
  exception_type = erp_posting_failed;
  severity = "high";
  suggested_action =
      codes "Verify the journal reference has not already been posted, then retry "
      ++ codes "the run. Check ERP connectivity before re-releasing the invoice.";
}

module _ {E : Type 0} (x : External) (cfg : AppConfig) (client : ErpClient E) where
  -- What follows the call of the ERP.
  unfoldable pub settle_posting :
      InvoiceState
      → JournalPostingRequest
      → Result ErpError JournalPostingResult
      → World E
      → Outcome E
  settle_posting state request (err exc) w =
      let saved = with_store (save_journal (failed_journal state request exc)) w in
      let (case, store) = save_exception (posting_case state) saved.store in
      (
        record state {
          status = failed;
          error = some (message exc);
          decisions = state.decisions ++ (posting_failed (message exc) ∷ []);
        },
        set_run_status state (failed_with failed (message exc))
            (audit state run_failed "post_journal" agent (record saved { store = store })),
      )
  settle_posting state request (ok result) w = (
    record state {
      journal_result = some result;
      status = completed;
      straight_through = no_case state;
      decisions = state.decisions ++ (posted_document result.document_number ∷ []);
    },
    set_run_status state
        (record {
          status = completed;
          error_message = none;
          straight_through = some (no_case state);
        })
        (audit state journal_posted "post_journal" agent
          (with_store (save_journal (posted_journal state request result)) w)),
  )

  unfoldable pub post_request : InvoiceState → JournalPostingRequest → World E → Attempt E
  unfolding settle_posting
  post_request state request w =
      if is_balanced request
      then (let (posted, erp) = client.post_journal_entry request w.erp in
          trying posted
            (λ result. returns (settle_posting state request result (record w { erp = erp }))) state
            (record w { erp = erp }))
      else returns (
        record state { status = failed; error = some unbalanced_message },
        set_run_status state (failed_with failed unbalanced_message)
            (audit state run_failed "post_journal" agent w),
      )

  abbrev pub post_for : InvoiceState → Option ExtractedInvoice → World E → Attempt E
  post_for state none w =
      returns (record state { status = failed; error = some (codes "no invoice to post") }, w)
  post_for state (some invoice) w =
      post_request state (invoice_journal cfg.erp x.today state invoice) w

  unfoldable pub post_journal_node : InvoiceState → World E → Attempt E
  unfolding post_request
  post_journal_node state w =
      post_for state state.invoice (set_run_status state (status_only posting) w)

module _ {E : Type 0} where
  unfoldable pub rejected_node : InvoiceState → World E → Outcome E
  rejected_node state w = (
    record state { status = rejected; decisions = state.decisions ++ (closed_unposted ∷ []) },
    audit state human_decision "rejected" (or_else state.approved_by (codes "approver"))
        (set_run_status state (status_only rejected) w),
  )

  unfoldable pub failed_node : InvoiceState → World E → Outcome E
  failed_node state w = (
    record state { status = failed },
    set_run_status state (failed_with failed (or_else state.error (codes "unknown failure"))) w,
  )
