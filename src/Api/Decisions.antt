-- ===== src/Api/Decisions.antt =====
-- api/v1/exceptions.py: the approval queue and the decisions on its cases.
use invoice_to_payment_agent.Prelude.{
  ℕ, Bool, Option, none, some, List, Result, ok, err, if◌then◌else◌,
}
use invoice_to_payment_agent.Prelude.Text.{Text}
use invoice_to_payment_agent.Schemas.Common.{ExceptionStatus, open_status}
use invoice_to_payment_agent.Store.Rows.{ExceptionCase}
use invoice_to_payment_agent.Store.Cases.{get_exception, list_exceptions, same_status}
use invoice_to_payment_agent.Erp.Client.{ErpClient}
use invoice_to_payment_agent.Agents.World.{External, AppConfig}
use invoice_to_payment_agent.Service.State.{Service, Summary}
use invoice_to_payment_agent.Service.Resume.{resume_run}
use invoice_to_payment_agent.Api.Errors.{
  ApiError, http_error, exception_not_found, already_decided, Response, answered,
}

-- `ExceptionDecisionRequest`. That `decision` is one of the two words is checked on the way in, and
-- again by `resume_run`.
pub record DecisionRequest : Type 0 where
  pub decision : Text
  pub approved_by : Text
  pub note : Option Text

abbrev case_or_404 : ℕ → Option ExceptionCase → Result ApiError ExceptionCase
case_or_404 id none = err (http_error 404 (exception_not_found id))
case_or_404 id (some case) = ok case

module _ {E : Type 0} where
  -- `list_exceptions`, by default of the open cases
  abbrev pub queue : Option ExceptionStatus → ℕ → ℕ → Service E → List ExceptionCase
  queue status limit offset sv = list_exceptions status limit offset sv.world.store

  -- `get_exception`
  unfoldable pub read_case : ℕ → Service E → Result ApiError ExceptionCase
  read_case id sv = case_or_404 id (get_exception id sv.world.store)

abbrev pub is_open : ExceptionCase → Bool
is_open case = same_status case.status open_status

module _ {E : Type 0} (x : External) (cfg : AppConfig) (client : ErpClient E) where
  abbrev pub decide_case :
      ℕ → DecisionRequest → Option ExceptionCase → Service E → Response Summary E
  decide_case id request none sv = (err (http_error 404 (exception_not_found id)), sv)
  decide_case id request (some case) sv =
      if is_open case
      then answered
          (resume_run x cfg client case.run_id request.decision request.approved_by request.note sv)
      else (err (http_error 409 (already_decided id case.status case.resolved_by)), sv)

  unfoldable pub decide_exception : ℕ → DecisionRequest → Service E → Response Summary E
  unfolding resume_run
  decide_exception id request sv = decide_case id request (get_exception id sv.world.store) sv
