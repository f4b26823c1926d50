-- ===== src/Store/Runs.antt =====
-- Runs, invoices, matches, journals and remittances of `WorkflowRepository`.
use invoice_to_payment_agent.Prelude.{
  ℕ, Bool, true, false, not, ◌&&◌, Option, none, some, List, [], ◌∷◌, ◌++◌, if◌then◌else◌, find,
  select, length,
}
use invoice_to_payment_agent.Prelude.Text.{Text, text_eq}
use invoice_to_payment_agent.Decimal.{Decimal, quantize}
use invoice_to_payment_agent.Schemas.Common.{RunStatus, completed, rejected, failed}
use invoice_to_payment_agent.Store.Rows.{
  WorkflowRun, InvoiceRow, MatchRow, PaymentJournal, RemittanceRow, Store,
}

unfoldable pub create_run : WorkflowRun → Store → Store
create_run run s = record s { runs = s.runs ++ (run ∷ []) }

abbrev pub is_run : Text → WorkflowRun → Bool
is_run run_id run = text_eq run.id run_id

unfoldable pub get_run : Text → Store → Option WorkflowRun
get_run run_id s = find (is_run run_id) s.runs

unfoldable pub get_run_by_thread : Text → Store → Option WorkflowRun
get_run_by_thread thread_id s = find (λ run. text_eq run.thread_id thread_id) s.runs

-- The keyword arguments with which the nodes call `update_run`: a status, and where given an error
-- message or the flag `straight_through`.
pub record RunFields : Type 0 where
  pub status : RunStatus
  pub error_message : Option Text
  pub straight_through : Option Bool

abbrev pub is_final : RunStatus → Bool
is_final completed = true
is_final rejected = true
is_final failed = true
is_final _ = false

abbrev pub given_or {ℓ} : {A : Type ℓ} → Option A → A → A
given_or none d = d
given_or (some a) d = a

abbrev pub written_or {ℓ} : {A : Type ℓ} → Option A → Option A → Option A
written_or none d = d
written_or (some a) d = some a

-- The row with the fields set.
unfoldable pub set_fields : RunFields → WorkflowRun → WorkflowRun
set_fields fields run = record run {
  status = fields.status;
  error_message = written_or fields.error_message run.error_message;
  straight_through = given_or fields.straight_through run.straight_through;
  is_completed = if is_final fields.status then true else run.is_completed;
}

-- The row of the key is replaced, if there is one.
unfoldable pub update_rows : Text → RunFields → List WorkflowRun → List WorkflowRun
unfolding set_fields
update_rows run_id fields [] = []
update_rows run_id fields (run ∷ runs) =
    if is_run run_id run then set_fields fields run ∷ runs else run ∷ update_rows run_id fields runs

unfoldable pub update_run : Text → RunFields → Store → Store
unfolding update_rows
update_run run_id fields s = record s { runs = update_rows run_id fields s.runs }

-- What a column of type `Numeric(18, 2)` keeps of a value: PostgreSQL rounds to two places, a half
-- away from zero.
abbrev pub numeric : Option Decimal → Option Decimal
numeric none = none
numeric (some d) = some (quantize d)

abbrev pub invoice_columns : InvoiceRow → InvoiceRow
invoice_columns invoice = record invoice {
  subtotal = numeric invoice.subtotal;
  tax_amount = numeric invoice.tax_amount;
  total_amount = numeric invoice.total_amount;
}

unfoldable pub save_invoice : InvoiceRow → Store → Store
save_invoice invoice s = record s { invoices = s.invoices ++ (invoice_columns invoice ∷ []) }

-- The oldest other run's invoice with the fingerprint.
unfoldable pub find_duplicate : Text → Text → Store → Option InvoiceRow
find_duplicate fingerprint exclude_run_id s =
    find (λ row. text_eq row.fingerprint fingerprint && not (text_eq row.run_id exclude_run_id))
      s.invoices

unfoldable pub save_match : MatchRow → Store → Store
save_match match s =
    let row = record match { matched_amount = quantize match.matched_amount } in
    record s { matches = s.matches ++ (row ∷ []) }

abbrev pub last_row {ℓ} : {A : Type ℓ} → List A → Option A
last_row [] = none
last_row (x ∷ []) = some x
last_row (x ∷ y ∷ ys) = last_row (y ∷ ys)

-- The newest match of the run.
unfoldable pub get_match_for_run : Text → Store → Option MatchRow
get_match_for_run run_id s = last_row (select (λ row. text_eq row.run_id run_id) s.matches)

unfoldable pub save_journal : PaymentJournal → Store → Store
save_journal journal s =
    let row = record journal { total_amount = quantize journal.total_amount } in
    record s { journals = s.journals ++ (row ∷ []) }

unfoldable pub get_journal_for_run : Text → Store → Option PaymentJournal
get_journal_for_run run_id s = find (λ row. text_eq row.run_id run_id) s.journals

unfoldable pub save_remittance : RemittanceRow → Store → Store
save_remittance remittance s =
    let row = record remittance {
      total_paid = numeric remittance.total_paid;
      residual_amount = quantize remittance.residual_amount;
    } in
    record s { remittances = s.remittances ++ (row ∷ []) }

pub record Stats : Type 0 where
  pub total_runs : ℕ
  pub completed_runs : ℕ
  pub straight_through : ℕ
  pub exceptions : ℕ

abbrev pub is_completed_status : RunStatus → Bool
is_completed_status completed = true
is_completed_status _ = false

unfoldable pub straight_through_stats : Store → Stats
straight_through_stats s = record {
  total_runs = length s.runs;
  completed_runs = length (select (λ run. is_completed_status run.status) s.runs);
  straight_through = length (select (λ run. run.straight_through) s.runs);
  exceptions = length s.cases;
}
