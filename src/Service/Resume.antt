-- ===== src/Service/Resume.antt =====
-- `resume_run` of services/workflow.py.
use invoice_to_payment_agent.Prelude.{
  Bool, true, false, ◌||◌, Option, none, some, err, if◌then◌else◌,
}
use invoice_to_payment_agent.Prelude.Text.{Text, codes, text_eq}
use invoice_to_payment_agent.Schemas.Common.{RunStatus, awaiting_approval, matching}
use invoice_to_payment_agent.Store.Rows.{WorkflowRun}
use invoice_to_payment_agent.Store.Runs.{get_run}
use invoice_to_payment_agent.Erp.Client.{ErpClient}
use invoice_to_payment_agent.Agents.World.{External, AppConfig}
use invoice_to_payment_agent.Agents.Decide.{Approval}
use invoice_to_payment_agent.Agents.Graph.{paused, resume_ap}
use invoice_to_payment_agent.Service.State.{
  Checkpoint, waiting, finished, broken, find_thread, Service, unknown_decision, run_not_found,
  not_awaiting_approval, unknown_thread, thread_of,
}
use invoice_to_payment_agent.Service.Summary.{Answer, summarise, deliver}

abbrev pub can_resume : RunStatus → Bool
can_resume awaiting_approval = true
can_resume matching = true
can_resume _ = false

abbrev pub is_decision : Text → Bool
is_decision decision = text_eq decision (codes "approve") || text_eq decision (codes "reject")

abbrev pub approval_of : Text → Text → Option Text → Approval
approval_of decision approved_by note = record {
  decision = some decision;
  approved_by = some approved_by;
  note = note;
}

module _ {E : Type 0} (x : External) (cfg : AppConfig) (client : ErpClient E) where
  -- `graph.ainvoke(Command(resume=…), …)`: a thread that has ended runs no node. Only the graph of
  -- accounts payable has an interrupt. A thread that an exception has broken off is not resumed here:
  -- its run is extracting or posting, and `resume_row` refuses such a run.
  unfoldable pub resume_thread : Text → Approval → Option Checkpoint → Service E → Answer E
  unfolding deliver summarise
  resume_thread run_id approval none sv = (err unknown_thread, sv)
  resume_thread run_id approval (some (finished state)) sv =
      (summarise run_id false state.decisions sv.world.store, sv)
  resume_thread run_id approval (some (broken state)) sv = (err unknown_thread, sv)
  resume_thread run_id approval (some (waiting state)) sv =
      deliver run_id (resume_ap x cfg client approval (paused state sv.world)) sv

  abbrev pub resume_row : Text → Approval → Option WorkflowRun → Service E → Answer E
  resume_row run_id approval none sv = (err (run_not_found run_id), sv)
  resume_row run_id approval (some run) sv =
      if can_resume run.status
      then resume_thread run_id approval (find_thread (thread_of run_id) sv.threads) sv
      else (err (not_awaiting_approval run_id run.status), sv)

  unfoldable pub resume_run : Text → Text → Text → Option Text → Service E → Answer E
  unfolding resume_thread find_thread thread_of
  resume_run run_id decision approved_by note sv =
      if is_decision decision
      then resume_row run_id (approval_of decision approved_by note) (get_run run_id sv.world.store)
          sv
      else (err unknown_decision, sv)
