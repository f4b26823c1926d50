-- ===== src/Api/Refused.antt =====
-- The decisions that the endpoint refuses.
use invoice_to_payment_agent.Prelude.{
  ◌≡◌, ◌⊎◌, refl, ℕ, ◌==◌, ◌||◌, true, Bool, Option, none, some, ok, err, inl, inr, Bool-cases,
}
use invoice_to_payment_agent.Store.Rows.{ExceptionCase}
use invoice_to_payment_agent.Erp.Client.{ErpClient}
use invoice_to_payment_agent.Agents.World.{External, AppConfig}
use invoice_to_payment_agent.Service.State.{
  Service, ServiceError, Summary, document_not_found, unknown_decision, run_not_found,
  not_awaiting_approval, recursion_limit_reached, unknown_thread, call_failed,
}
use invoice_to_payment_agent.Service.Summary.{Answer}
use invoice_to_payment_agent.Service.Landing.{IsConsistent}
use invoice_to_payment_agent.Service.Refused.{
  is_refusal, is_call_failed, IsTaken, IsBrokenOff, IsAnsweredOrRefused,
  resume_run-IsAnsweredOrRefused,
}
use invoice_to_payment_agent.Api.Errors.{ApiError, conflict, Response, answered}
use invoice_to_payment_agent.Api.Decisions.{DecisionRequest, is_open, decide_case, decide_exception}

-- A case or a run that is not there, or a conflict.
abbrev pub is_404_or_409 : ApiError → Bool
is_404_or_409 error = error.status_code == 404 || error.status_code == 409

-- The decision was taken, or the run takes none and the service is as it was; or the decision was
-- refused and the service is as it was; or the run was broken off.
abbrev pub IsDecidedOrRefused : {E : Type 0} → Service E → Response Summary E → Type 0
IsDecidedOrRefused sv (ok summary, after) = (after ≡ sv) ⊎ IsTaken sv summary after
IsDecidedOrRefused sv (err error, after) =
    ((is_404_or_409 error ≡ true) × (after ≡ sv))
    ⊎ ((error.status_code ≡ 500) × IsBrokenOff sv after)

is_404_or_409-conflict :
    (error : ServiceError) → is_refusal error ≡ true → is_404_or_409 (conflict error) ≡ true
is_404_or_409-conflict (document_not_found _) h = cc
is_404_or_409-conflict unknown_decision h = refl
is_404_or_409-conflict (run_not_found _) h = refl
is_404_or_409-conflict (not_awaiting_approval _ _) h = refl
is_404_or_409-conflict recursion_limit_reached h = cc
is_404_or_409-conflict unknown_thread h = cc
is_404_or_409-conflict (call_failed _) h = cc

status_code-conflict :
    (error : ServiceError) → is_call_failed error ≡ true → (conflict error).status_code ≡ 500
status_code-conflict (document_not_found _) h = cc
status_code-conflict unknown_decision h = cc
status_code-conflict (run_not_found _) h = cc
status_code-conflict (not_awaiting_approval _ _) h = cc
status_code-conflict recursion_limit_reached h = refl
status_code-conflict unknown_thread h = refl
status_code-conflict (call_failed _) h = refl

module _ {E : Type 0} where
  answered-IsDecidedOrRefused :
      (sv : Service E) (a : Answer E)
      → IsAnsweredOrRefused sv a
      → IsDecidedOrRefused sv (answered a)
  answered-IsDecidedOrRefused sv (ok summary, after) h = h
  answered-IsDecidedOrRefused sv (err error, after) (inl (refused, same)) =
      inl (is_404_or_409-conflict error refused, same)
  answered-IsDecidedOrRefused sv (err error, after) (inr (failed, off)) =
      inr (status_code-conflict error failed, off)

module _ {E : Type 0} (x : External) (cfg : AppConfig) (client : ErpClient E) where
  decide_case-IsDecidedOrRefused :
      (id : ℕ) (request : DecisionRequest) (case : Option ExceptionCase) (sv : Service E)
      → IsConsistent sv
      → IsDecidedOrRefused sv (decide_case x cfg client id request case sv)
  decide_case-IsDecidedOrRefused id request none sv agree = inl (refl, refl)
  decide_case-IsDecidedOrRefused id request (some case) sv agree =
      elim (Bool-cases (is_open case)) [
        | inl e ↦ rw e (
            answered-IsDecidedOrRefused sv _ (
              resume_run-IsAnsweredOrRefused x cfg client case.run_id request.decision
                request.approved_by request.note sv agree))
        | inr e ↦ rw e (inl (refl, refl))
      ]

  -- A decision that reaches a consistent service through the endpoint comes to one of four ends. It
  -- is answered and taken: the run that the summary names waited for an approval and has ended with
  -- the final status of the summary. Or it is answered and leaves the service as it was. Or it is
  -- refused with 404 or 409 and leaves the service as it was. Or it is answered with 500: an
  -- exception that no node handles has broken off a run that waited for an approval, and the run is
  -- extracting or posting.
  pub decide_exception-IsDecidedOrRefused :
      (id : ℕ) (request : DecisionRequest) (sv : Service E)
      → IsConsistent sv
      → IsDecidedOrRefused sv (decide_exception x cfg client id request sv)
  unfolding decide_exception
  decide_exception-IsDecidedOrRefused id request sv agree =
      decide_case-IsDecidedOrRefused id request _ sv agree
