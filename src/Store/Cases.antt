-- ===== src/Store/Cases.antt =====
-- The approval queue of `WorkflowRepository`.
use mathlib.Core.List.{reverse}
use invoice_to_payment_agent.Prelude.{
  ℕ, ◌+◌, Bool, true, false, Option, none, some, List, [], ◌∷◌, ◌++◌, ◌==◌, if◌then◌else◌, find,
  select, take, drop, String,
}
use invoice_to_payment_agent.Prelude.Text.{Text}
use invoice_to_payment_agent.Schemas.Common.{
  ExceptionType, ExceptionStatus, open_status, approved_status, rejected_status,
}
use invoice_to_payment_agent.Store.Rows.{ExceptionCase, Store}

-- A new open case, before it has its number.
pub record NewCase : Type 0 where
  pub run_id : Text
  pub exception_type : ExceptionType
  pub severity : String
  pub suggested_action : Text

abbrev pub case_of : NewCase → ℕ → ExceptionCase
case_of new id = record {
  id = id;
  run_id = new.run_id;
  exception_type = new.exception_type;
  status = open_status;
  severity = new.severity;
  suggested_action = new.suggested_action;
  resolved_by = none;
  resolution_note = none;
}

-- The case that is saved, and the store with it.
unfoldable pub save_exception : NewCase → Store → ExceptionCase × Store
save_exception new s =
    let case = case_of new s.next_case in
    (case, record s { cases = s.cases ++ (case ∷ []); next_case = s.next_case + 1 })

abbrev pub is_case : ℕ → ExceptionCase → Bool
is_case id case = case.id == id

unfoldable pub get_exception : ℕ → Store → Option ExceptionCase
get_exception id s = find (is_case id) s.cases

abbrev pub same_status : ExceptionStatus → ExceptionStatus → Bool
same_status open_status open_status = true
same_status approved_status approved_status = true
same_status rejected_status rejected_status = true
same_status _ _ = false

abbrev pub has_status : Option ExceptionStatus → ExceptionCase → Bool
has_status none case = true
has_status (some status) case = same_status case.status status

-- Newest first.
unfoldable pub list_exceptions : Option ExceptionStatus → ℕ → ℕ → Store → List ExceptionCase
list_exceptions status limit offset s =
    take limit (drop offset (reverse (select (has_status status) s.cases)))

abbrev pub resolved : ExceptionStatus → Text → Option Text → ExceptionCase → ExceptionCase
resolved status resolved_by note case = record case {
  status = status;
  resolved_by = some resolved_by;
  resolution_note = note;
}

unfoldable pub resolve_rows :
    ℕ → ExceptionStatus → Text → Option Text → List ExceptionCase → List ExceptionCase
resolve_rows id status resolved_by _ [] = []
resolve_rows id status resolved_by note (case ∷ cases) =
    if is_case id case
    then resolved status resolved_by note case ∷ cases
    else case ∷ resolve_rows id status resolved_by note cases

unfoldable pub resolve_exception : ℕ → ExceptionStatus → Text → Option Text → Store → Store
unfolding resolve_rows
resolve_exception id status resolved_by note s = record s {
  cases = resolve_rows id status resolved_by note s.cases;
}
