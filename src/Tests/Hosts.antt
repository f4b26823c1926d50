-- ===== src/Tests/Hosts.antt =====
-- A host, and services with no run and with one run.
use invoice_to_payment_agent.Prelude.{
  ℕ, ◌≤◌, ◌≡◌, refl, true, false, none, some, [], ◌∷◌, arith, inl, inr, Bool-cases,
}
use invoice_to_payment_agent.Prelude.Text.{Text, codes, text_eq}
use invoice_to_payment_agent.Decimal.{Decimal, decimal}
use invoice_to_payment_agent.Prelude.Int.{pos}
use invoice_to_payment_agent.Schemas.Common.{
  RunStatus, accounts_payable, api_upload, total_variance, open_status,
}
use invoice_to_payment_agent.Store.Rows.{ExceptionCase, empty_store}
use invoice_to_payment_agent.Store.Runs.{get_run}
use invoice_to_payment_agent.Store.Status.{run_status}
use invoice_to_payment_agent.Service.State.{Host, Checkpoint, Service, StartRequest, thread_of}
use invoice_to_payment_agent.Service.Landing.{Agrees, find_thread-same}
use invoice_to_payment_agent.Service.Lifecycle.{HostLaws, IsSound}
use invoice_to_payment_agent.Tests.Fixtures.{Ledger, run}

abbrev pub too_much : Decimal
too_much = decimal (pos 99900) 2

abbrev pub host : Host
host = record {
  exists = λ path. true;
  file_name = λ path. path;
  join = λ dir name. name;
  document_store = codes "store";
  sha256_file = λ path. codes "abc";
  uuid = λ n. n ∷ [];
}

pub host_laws : HostLaws host
unfolding text_eq
host_laws = record { uuid_given = λ n. refl; uuid_distinct = λ m n e. ground arith }

abbrev pub request : StartRequest
request = record {
  document_path = codes "r1.pdf";
  kind = accounts_payable;
  source = api_upload;
  message_id = none;
  sender = none;
  subject = none;
  mailbox = none;
}

abbrev pub empty_service : Service Ledger
empty_service = record {
  world = record { store = empty_store; erp = [] };
  threads = [];
  next_run = 0;
}

pub empty_service-IsSound : IsSound host empty_service
unfolding run_status get_run
empty_service-IsSound = (λ r. tt, λ n le. refl)

abbrev pub first_id : Text
first_id = 0 ∷ []

abbrev pub first_case : ExceptionCase
first_case = record {
  id = 0;
  run_id = first_id;
  exception_type = total_variance;
  status = open_status;
  severity = "high";
  suggested_action = [];
  resolved_by = none;
  resolution_note = none;
}

-- A service with one run, its thread and its case.
abbrev pub service_with : RunStatus → Checkpoint → Service Ledger
service_with status checkpoint = record {
  world = record {
    store = record empty_store {
      runs = record run { id = first_id; status = status } ∷ [];
      cases = first_case ∷ [];
      next_case = 1;
    };
    erp = [];
  };
  threads = (thread_of first_id, checkpoint) ∷ [];
  next_run = 1;
}

first_id-differs : (n : ℕ) → 1 ≤ n → text_eq first_id (n ∷ []) ≡ false
unfolding text_eq
first_id-differs n le = ground arith

pub service_with-IsSound :
    (status : RunStatus) (c : Checkpoint)
    → ((r : Text) → text_eq first_id r ≡ true → Agrees r (some status) (some c))
    → IsSound host (service_with status c)
unfolding run_status get_run
service_with-IsSound status c agrees = (
  λ r. elim (Bool-cases (text_eq first_id r)) [
    | inl e ↦ rw (e, find_thread-same first_id r c [] e) (agrees r e)
    | inr e ↦ rw e tt
  ],
  λ n le. rw (first_id-differs n le) refl,
)
