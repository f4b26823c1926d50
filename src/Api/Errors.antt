-- ===== src/Api/Errors.antt =====
-- What the endpoints of api/v1 raise: an `HTTPException` with its status code, or an error of the
-- program that the handler of main.py answers with the code of its class in core/errors.py.
use invoice_to_payment_agent.Prelude.{ℕ, Option, Result, ok, err}
use invoice_to_payment_agent.Prelude.Text.{Text}
use invoice_to_payment_agent.Schemas.Common.{ExceptionStatus}
use invoice_to_payment_agent.Service.State.{
  Service, ServiceError, document_not_found, unknown_decision, run_not_found, not_awaiting_approval,
  Summary,
}
use invoice_to_payment_agent.Service.Summary.{Answer}

pub data Detail : Type 0 where
  exception_not_found : ℕ → Detail
  already_decided : ℕ → ExceptionStatus → Option Text → Detail
  service_error : ServiceError → Detail
  erp_message : Text → Detail
  uncaught_error : Text → Detail
  journal_not_balanced : Detail
  nothing_supplied : Detail
  missing_run : Text → Detail
  no_journal : Text → Detail
  no_invoice : Text → Detail
  bad_credentials : Detail
  unsupported_type : Detail
  too_large : Detail

pub record ApiError : Type 0 where
  pub status_code : ℕ
  pub detail : Detail

abbrev pub http_error : ℕ → Detail → ApiError
http_error code detail = record { status_code = code; detail = detail }

-- `ValidationError` and `NotFoundError` where a decision is passed on. What the graph raises is no
-- error of the program and is answered with 500.
abbrev pub conflict : ServiceError → ApiError
conflict (document_not_found path) = http_error 409 (service_error (document_not_found path))
conflict unknown_decision = http_error 409 (service_error unknown_decision)
conflict (run_not_found run_id) = http_error 404 (service_error (run_not_found run_id))
conflict (not_awaiting_approval run_id status) =
    http_error 409 (service_error (not_awaiting_approval run_id status))
conflict error = http_error 500 (service_error error)

-- `domain_error_handler`
abbrev pub domain_error : ServiceError → ApiError
domain_error (document_not_found path) = http_error 400 (service_error (document_not_found path))
domain_error unknown_decision = http_error 400 (service_error unknown_decision)
domain_error (run_not_found run_id) = http_error 404 (service_error (run_not_found run_id))
domain_error (not_awaiting_approval run_id status) =
    http_error 400 (service_error (not_awaiting_approval run_id status))
domain_error error = http_error 500 (service_error error)

-- What an endpoint that changes the service answers, and what it leaves.
abbrev pub Response : Type 0 → Type 0 → Type 0
Response A E = Result ApiError A × Service E

module _ {E : Type 0} where
  abbrev pub answered : Answer E → Response Summary E
  answered (ok summary, sv) = (ok summary, sv)
  answered (err error, sv) = (err (conflict error), sv)
