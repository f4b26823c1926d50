-- ===== src/Api/Journals.antt =====
-- api/v1/journal.py.
use invoice_to_payment_agent.Prelude.{
  ℕ, Bool, false, Option, none, some, Result, ok, err, if◌then◌else◌,
}
use invoice_to_payment_agent.Prelude.Text.{Text, codes}
use invoice_to_payment_agent.Decimal.{Decimal}
use invoice_to_payment_agent.Schemas.Common.{RunStatus, JournalStatus, posted_status}
use invoice_to_payment_agent.Schemas.Erp.{JournalPostingRequest, JournalPostingResult, is_balanced}
use invoice_to_payment_agent.Store.Rows.{WorkflowRun, PaymentJournal}
use invoice_to_payment_agent.Store.Runs.{get_run, get_journal_for_run, is_completed_status}
use invoice_to_payment_agent.Erp.Client.{ErpError, message, Raised, handled, uncaught, ErpClient}
use invoice_to_payment_agent.Agents.World.{External, AppConfig}
use invoice_to_payment_agent.Service.State.{Service, Summary, JournalSummary}
use invoice_to_payment_agent.Service.Summary.{Answer}
use invoice_to_payment_agent.Service.Resume.{resume_run}
use invoice_to_payment_agent.Api.Errors.{
  ApiError, http_error, erp_message, uncaught_error, journal_not_balanced, nothing_supplied,
  missing_run, no_journal, conflict, Response,
}

pub record PostJournalRequest : Type 0 where
  pub run_id : Option Text
  pub approved_by : Text
  pub note : Option Text
  pub journal : Option JournalPostingRequest

-- The status of a journal, or of a run that has none.
pub data PostedStatus : Type 0 where
  of_journal : JournalStatus → PostedStatus
  of_run_only : RunStatus → PostedStatus

pub record PostJournalResponse : Type 0 where
  pub run_id : Option Text
  pub status : PostedStatus
  pub erp_document_number : Option Text
  pub fiscal_year : Option ℕ
  pub total_amount : Option Decimal
  pub currency : Option Text
  pub reference : Option Text
  pub straight_through : Bool
  pub detail : Option Text

abbrev direct_response : JournalPostingResult → PostJournalResponse
direct_response result = record {
  run_id = none;
  status = of_journal posted_status;
  erp_document_number = some result.document_number;
  fiscal_year = some result.fiscal_year;
  total_amount = some result.total_amount;
  currency = some result.currency;
  reference = some result.reference;
  straight_through = false;
  detail = some (codes "posted directly from the supplied journal payload");
}

abbrev journal_response : Text → Bool → Option Text → PaymentJournal → PostJournalResponse
journal_response run_id straight detail journal = record {
  run_id = some run_id;
  status = of_journal journal.status;
  erp_document_number = journal.erp_document_number;
  fiscal_year = journal.fiscal_year;
  total_amount = some journal.total_amount;
  currency = some journal.currency;
  reference = some journal.reference;
  straight_through = straight;
  detail = detail;
}

abbrev released_response : Text → Summary → Option JournalSummary → PostJournalResponse
released_response run_id summary none = record {
  run_id = some run_id;
  status = of_run_only summary.status;
  erp_document_number = none;
  fiscal_year = none;
  total_amount = none;
  currency = none;
  reference = none;
  straight_through = summary.straight_through;
  detail = summary.error;
}
released_response run_id summary (some journal) = record {
  run_id = some run_id;
  status = of_journal journal.status;
  erp_document_number = journal.erp_document_number;
  fiscal_year = none;
  total_amount = some journal.total_amount;
  currency = some journal.currency;
  reference = some journal.reference;
  straight_through = summary.straight_through;
  detail = summary.error;
}

abbrev journal_or_404 : Text → Option PaymentJournal → Result ApiError PostJournalResponse
journal_or_404 run_id none = err (http_error 404 (no_journal run_id))
journal_or_404 run_id (some journal) =
    ok (journal_response run_id false journal.error_message journal)

module _ {E : Type 0} where
  abbrev pub direct_answer :
      Service E → Result (Raised ErpError) JournalPostingResult × E → Response PostJournalResponse E
  direct_answer sv (ok result, erp) =
      (ok (direct_response result), record sv { world = record sv.world { erp = erp } })
  direct_answer sv (err (uncaught text), erp) = (
    err (http_error 500 (uncaught_error text)),
    record sv { world = record sv.world { erp = erp } },
  )
  direct_answer sv (err (handled exc), erp) = (
    err (http_error 502 (erp_message (message exc))),
    record sv { world = record sv.world { erp = erp } },
  )

  abbrev pub released : Text → Answer E → Response PostJournalResponse E
  released run_id (ok summary, sv) = (ok (released_response run_id summary summary.journal), sv)
  released run_id (err error, sv) = (err (conflict error), sv)

  -- `get_journal`
  unfoldable pub read_journal : Text → Service E → Result ApiError PostJournalResponse
  read_journal run_id sv = journal_or_404 run_id (get_journal_for_run run_id sv.world.store)

module _ {E : Type 0} (x : External) (cfg : AppConfig) (client : ErpClient E) where
  -- An entry that is supplied is posted to the ERP, without a row of its own.
  unfoldable pub post_directly : JournalPostingRequest → Service E → Response PostJournalResponse E
  post_directly journal sv =
      if is_balanced journal
      then direct_answer sv (client.post_journal_entry journal sv.world.erp)
      else (err (http_error 422 journal_not_balanced), sv)

  abbrev pub release : Text → PostJournalRequest → Service E → Response PostJournalResponse E
  release run_id request sv =
      released run_id
        (resume_run x cfg client run_id (codes "approve") request.approved_by request.note sv)

  -- The document of a completed run is returned again.
  abbrev pub release_completed :
      Text
      → PostJournalRequest
      → WorkflowRun
      → Option PaymentJournal
      → Service E
      → Response PostJournalResponse E
  release_completed run_id request run none sv = release run_id request sv
  release_completed run_id request run (some journal) sv = (
    ok (
        journal_response run_id run.straight_through
          (some (codes "run already posted; returning the existing document")) journal),
    sv,
  )

  abbrev pub release_run :
      Text → PostJournalRequest → Option WorkflowRun → Service E → Response PostJournalResponse E
  release_run run_id request none sv = (err (http_error 404 (missing_run run_id)), sv)
  release_run run_id request (some run) sv =
      if is_completed_status run.status
      then release_completed run_id request run (get_journal_for_run run_id sv.world.store) sv
      else release run_id request sv

  abbrev pub post_for_run :
      Option Text → PostJournalRequest → Service E → Response PostJournalResponse E
  post_for_run none request sv = (err (http_error 400 nothing_supplied), sv)
  post_for_run (some run_id) request sv =
      release_run run_id request (get_run run_id sv.world.store) sv

  abbrev pub post_or_release :
      Option JournalPostingRequest → PostJournalRequest → Service E → Response PostJournalResponse E
  post_or_release (some journal) request sv = post_directly journal sv
  post_or_release none request sv = post_for_run request.run_id request sv

  unfoldable pub post_payment_journal :
      PostJournalRequest → Service E → Response PostJournalResponse E
  unfolding post_directly resume_run
  post_payment_journal request sv = post_or_release request.journal request sv
