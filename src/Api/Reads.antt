-- ===== src/Api/Reads.antt =====
-- The endpoints that only read: api/v1/audit.py, api/v1/metrics.py, `get_run` of api/v1/ingest.py,
-- and the token check of api/deps.py.
use invoice_to_payment_agent.Prelude.{
  ℕ, Bool, not, ◌||◌, ◌&&◌, Option, none, some, List, [], Result, ok, err, length, take, drop, max,
  if◌then◌else◌,
}
use invoice_to_payment_agent.Prelude.Text.{Text, codes, text_eq, is_given, lower, text_or}
use invoice_to_payment_agent.Schemas.Common.{AuditAction}
use invoice_to_payment_agent.Store.Rows.{AuditEvent, Store}
use invoice_to_payment_agent.Store.Runs.{straight_through_stats}
use invoice_to_payment_agent.Store.Audit.{list_audit_events, count_events_of}
use invoice_to_payment_agent.Service.State.{Service, ServiceError, Summary}
use invoice_to_payment_agent.Service.Summary.{get_run_summary}
use invoice_to_payment_agent.Api.Errors.{ApiError, http_error, conflict, bad_credentials}

pub record AuditLogResponse : Type 0 where
  pub total : ℕ
  pub returned : ℕ
  pub limit : ℕ
  pub offset : ℕ
  pub events : List AuditEvent

-- `audit_log`, without `since`
unfoldable pub audit_log : Option Text → Option AuditAction → ℕ → ℕ → Store → AuditLogResponse
unfolding list_audit_events count_events_of
audit_log run_id action limit offset store =
    let events = list_audit_events run_id action limit offset store in
    record {
      total = count_events_of run_id store;
      returned = length events;
      limit = limit;
      offset = offset;
      events = events;
    }

-- A rate before it is rounded to four places.
pub record Rate : Type 0 where
  pub numerator : ℕ
  pub denominator : ℕ

pub record MetricsResponse : Type 0 where
  pub total_runs : ℕ
  pub completed : ℕ
  pub straight_through : ℕ
  pub exceptions : ℕ
  pub straight_through_rate : Rate
  pub completion_rate : Rate

-- `n or 1`
abbrev or_one : ℕ → ℕ
or_one n = max n 1

-- `straight_through` of metrics.py
unfoldable pub straight_through_metrics : Store → MetricsResponse
unfolding straight_through_stats
straight_through_metrics store =
    let stats = straight_through_stats store in
    record {
      total_runs = stats.total_runs;
      completed = stats.completed_runs;
      straight_through = stats.straight_through;
      exceptions = stats.exceptions;
      straight_through_rate = record {
        numerator = stats.straight_through;
        denominator = or_one stats.total_runs;
      };
      completion_rate = record {
        numerator = stats.completed_runs;
        denominator = or_one stats.total_runs;
      };
    }

abbrev found_summary : Result ServiceError Summary → Result ApiError Summary
found_summary (ok summary) = ok summary
found_summary (err error) = err (conflict error)

-- `get_run`, for an identifier that is a UUID
unfoldable pub read_run : {E : Type 0} → Text → Service E → Result ApiError Summary
read_run run_id sv = found_summary (get_run_summary run_id sv)

pub record Credentials : Type 0 where
  pub authorization : Option Text
  pub x_api_key : Option Text

abbrev is_bearer : Text → Bool
is_bearer header = text_eq (take 7 (lower header)) (codes "bearer ")

-- The token that a request supplies: the bearer token before the key.
abbrev token_of : Option Text → Option Text → Text
token_of none x_api_key = text_or x_api_key []
token_of (some header) x_api_key =
    if is_given (some header) && is_bearer header then drop 7 header else text_or x_api_key []

abbrev pub supplied_token : Credentials → Text
supplied_token credentials = token_of credentials.authorization credentials.x_api_key

-- `require_token`
unfoldable pub require_token : Bool → Text → Credentials → Result ApiError Unit
unfolding lower text_eq
require_token auth_enabled expected credentials =
    let supplied = supplied_token credentials in
    if not auth_enabled || (is_given (some supplied) && text_eq supplied expected)
    then ok tt
    else err (http_error 401 bad_credentials)
