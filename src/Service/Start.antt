-- ===== src/Service/Start.antt =====
-- `start_run` of services/workflow.py.
use invoice_to_payment_agent.Prelude.{◌+◌, false, none, some, [], err, if◌then◌else◌, or_else}
use invoice_to_payment_agent.Prelude.Text.{Text}
use invoice_to_payment_agent.Schemas.Common.{
  accounts_receivable, accounts_payable, WorkflowKind, received, email_received,
}
use invoice_to_payment_agent.Store.Rows.{WorkflowRun, Store}
use invoice_to_payment_agent.Store.Runs.{create_run}
use invoice_to_payment_agent.Store.Audit.{append_audit}
use invoice_to_payment_agent.Erp.Client.{ErpClient}
use invoice_to_payment_agent.Agents.State.{InvoiceState}
use invoice_to_payment_agent.Agents.World.{External, AppConfig, agent, with_store}
use invoice_to_payment_agent.Agents.Graph.{start_ap}
use invoice_to_payment_agent.Agents.ReceivableGraph.{start_ar}
use invoice_to_payment_agent.Service.State.{
  Host, Service, StartRequest, document_not_found, thread_of,
}
use invoice_to_payment_agent.Service.Summary.{Answer, deliver}

-- `source.name` in the directory of the run
abbrev pub store_document : Host → Text → Text → Text
store_document host source run_id =
    host.join (host.join host.document_store run_id) (host.file_name source)

abbrev pub run_row : Host → Text → Text → StartRequest → WorkflowRun
run_row host run_id stored request = record {
  id = run_id;
  thread_id = thread_of run_id;
  kind = request.kind;
  status = received;
  source = request.source;
  source_message_id = request.message_id;
  source_mailbox = request.mailbox;
  source_sender = request.sender;
  source_subject = request.subject;
  attachment_name = some (host.file_name stored);
  document_path = some stored;
  document_sha256 = some (host.sha256_file stored);
  straight_through = false;
  error_message = none;
  is_completed = false;
}

abbrev pub initial_state : Host → Text → Text → StartRequest → InvoiceState
initial_state host run_id stored request = record {
  run_id = run_id;
  thread_id = thread_of run_id;
  kind = request.kind;
  status = received;
  source_message_id = some (or_else request.message_id []);
  source_sender = or_else request.sender [];
  source_subject = or_else request.subject [];
  mailbox = or_else request.mailbox [];
  document_path = stored;
  document_sha256 = some (host.sha256_file stored);
  attachment_name = host.file_name stored;
  document_markdown = [];
  parser = [];
  page_count = 0;
  invoice = none;
  remittance = none;
  duplicate_of_run_id = none;
  vendor = none;
  vendor_match_method = [];
  purchase_order = none;
  goods_receipts = [];
  open_ar_items = [];
  match_report = none;
  policy_extracts = [];
  exception_case_id = none;
  exception_guidance = [];
  approval_decision = none;
  approved_by = none;
  approval_note = [];
  journal_result = none;
  cash_applications = [];
  residual_amount = none;
  straight_through = false;
  error = none;
  decisions = [];
}

-- The row of the run and the first event of its trail.
unfoldable pub record_run : Host → Text → Text → StartRequest → Store → Store
record_run host run_id stored request store =
    append_audit run_id
      (record {
        action = email_received;
        actor = agent;
        node = "ingest";
        source_message_id = request.message_id;
        document_sha256 = some (host.sha256_file stored);
      })
      (create_run (run_row host run_id stored request) store)

module _ {E : Type 0} (host : Host) (x : External) (cfg : AppConfig) (client : ErpClient E) where
  -- `graph.ainvoke(initial, …)` on the graph of the kind
  unfoldable pub launch : WorkflowKind → InvoiceState → Service E → Answer E
  unfolding deliver
  launch accounts_receivable state sv =
      deliver state.run_id (start_ar x cfg client state sv.world) sv
  launch accounts_payable state sv = deliver state.run_id (start_ap x cfg client state sv.world) sv

  abbrev pub start_as : Text → Text → StartRequest → Service E → Answer E
  start_as run_id stored request sv =
      launch request.kind (initial_state host run_id stored request) (record sv {
        world = with_store (record_run host run_id stored request) sv.world;
        next_run = sv.next_run + 1;
      })

  unfoldable pub start_run : StartRequest → Service E → Answer E
  unfolding launch record_run
  start_run request sv =
      let run_id = host.uuid sv.next_run in
      if host.exists request.document_path
      then start_as run_id (store_document host request.document_path run_id) request sv
      else (err (document_not_found request.document_path), sv)
