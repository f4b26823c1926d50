-- ===== src/Service/Summary.antt =====
-- `_summarise` of services/workflow.py, and what the methods return.
use invoice_to_payment_agent.Prelude.{
  Bool, true, false, Option, none, some, List, [], ◌∷◌, Result, ok, err, map, select,
}
use invoice_to_payment_agent.Prelude.Text.{Text, text_eq}
use invoice_to_payment_agent.Store.Rows.{
  WorkflowRun, MatchRow, PaymentJournal, ExceptionCase, Store,
}
use invoice_to_payment_agent.Store.Runs.{get_run, get_match_for_run, get_journal_for_run}
use invoice_to_payment_agent.Store.Cases.{list_exceptions}
use invoice_to_payment_agent.Agents.State.{Decision}
use invoice_to_payment_agent.Agents.Graph.{Point, at, paused, ended, aborted}
use invoice_to_payment_agent.Service.State.{
  waiting, finished, broken, Service, ServiceError, run_not_found, recursion_limit_reached,
  call_failed, MatchSummary, JournalSummary, CaseSummary, Summary, thread_of,
}

abbrev match_summary : MatchRow → MatchSummary
match_summary row = record {
  match_type = row.match_type;
  outcome = row.outcome;
  po_number = row.po_number;
  gr_numbers = row.gr_numbers;
  matched_amount = row.matched_amount;
  exceptions = row.exceptions;
  reasons = row.reasons;
}

abbrev journal_summary : PaymentJournal → JournalSummary
journal_summary journal = record {
  status = journal.status;
  erp_document_number = journal.erp_document_number;
  total_amount = journal.total_amount;
  currency = journal.currency;
  reference = journal.reference;
  approved_by = journal.approved_by;
}

abbrev case_summary : ExceptionCase → CaseSummary
case_summary case = record {
  id = case.id;
  exception_type = case.exception_type;
  status = case.status;
  suggested_action = case.suggested_action;
}

abbrev map_some : {A B : Type 0} → (A → B) → Option A → Option B
map_some f none = none
map_some f (some a) = some (f a)

abbrev summary_of : Text → Bool → List Decision → Store → WorkflowRun → Summary
summary_of run_id pending decisions store run = record {
  run_id = run_id;
  thread_id = run.thread_id;
  kind = run.kind;
  status = run.status;
  straight_through = run.straight_through;
  source_message_id = run.source_message_id;
  attachment_name = run.attachment_name;
  document_sha256 = run.document_sha256;
  error = run.error_message;
  match_found = map_some match_summary (get_match_for_run run_id store);
  journal = map_some journal_summary (get_journal_for_run run_id store);
  exceptions =
      map case_summary
        (select (λ case. text_eq case.run_id run_id) (list_exceptions none 200 0 store));
  awaiting_approval = pending;
  decisions = decisions;
}

abbrev pub summarise_row :
    Text → Bool → List Decision → Store → Option WorkflowRun → Result ServiceError Summary
summarise_row run_id pending decisions store none = err (run_not_found run_id)
summarise_row run_id pending decisions store (some run) =
    ok (summary_of run_id pending decisions store run)

-- `_summarise`
unfoldable pub summarise : Text → Bool → List Decision → Store → Result ServiceError Summary
summarise run_id pending decisions store =
    summarise_row run_id pending decisions store (get_run run_id store)

-- What a method returns or raises, and what it leaves.
abbrev pub Answer : Type 0 → Type 0
Answer E = Result ServiceError Summary × Service E

module _ {E : Type 0} where
  -- The checkpoint that the graph leaves, and the summary of the run.
  unfoldable pub deliver : {N : Type 0} → Text → Point N E → Service E → Answer E
  unfolding summarise
  deliver run_id (at _ state w) sv = (err recursion_limit_reached, record sv { world = w })
  deliver run_id (paused state w) sv = (
    summarise run_id true state.decisions w.store,
    record sv { world = w; threads = (thread_of run_id, waiting state) ∷ sv.threads },
  )
  deliver run_id (ended state w) sv = (
    summarise run_id false state.decisions w.store,
    record sv { world = w; threads = (thread_of run_id, finished state) ∷ sv.threads },
  )
  deliver run_id (aborted text state w) sv = (
    err (call_failed text),
    record sv { world = w; threads = (thread_of run_id, broken state) ∷ sv.threads },
  )

  abbrev pub get_run_summary : Text → Service E → Result ServiceError Summary
  get_run_summary run_id sv = summarise run_id false [] sv.world.store
