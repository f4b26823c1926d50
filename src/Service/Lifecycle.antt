-- ===== src/Service/Lifecycle.antt =====
-- What `start_run` and `resume_run` do to the table of runs and the checkpoints.
use invoice_to_payment_agent.Prelude.{
  ℕ, ◌+◌, ◌≤◌, ◌≡◌, refl, ◌⊎◌, true, false, none, some, inl, inr, Bool-cases, arith,
}
use invoice_to_payment_agent.Prelude.Text.{Text, is_given, text_eq}
use invoice_to_payment_agent.Schemas.Common.{
  RunStatus, received, awaiting_approval, WorkflowKind, accounts_payable, accounts_receivable,
}
use invoice_to_payment_agent.Store.Rows.{Store}
use invoice_to_payment_agent.Store.Runs.{is_final}
use invoice_to_payment_agent.Store.Audit.{append_audit}
use invoice_to_payment_agent.Store.Status.{
  run_status, run_status-create_run, run_status-create_other,
}
use invoice_to_payment_agent.Erp.Client.{ErpClient}
use invoice_to_payment_agent.Agents.State.{InvoiceState}
use invoice_to_payment_agent.Agents.World.{External, AppConfig}
use invoice_to_payment_agent.Agents.Graph.{Point, start_ap}
use invoice_to_payment_agent.Agents.ReceivableGraph.{start_ar}
use invoice_to_payment_agent.Agents.Live.{Statuses, is_in_progress}
use invoice_to_payment_agent.Agents.Reach.{start_ap-stops}
use invoice_to_payment_agent.Agents.Cash.{start_ar-stops}
use invoice_to_payment_agent.Agents.Rests.{statuses, start_ap-IsSettled, start_ar-IsCashSettled}
use invoice_to_payment_agent.Service.State.{Host, Service, StartRequest}
use invoice_to_payment_agent.Service.Summary.{deliver}
use invoice_to_payment_agent.Service.Start.{run_row, record_run, launch}
use invoice_to_payment_agent.Service.Landing.{
  is_resting, IsConsistent, HasLanded, ap-HasLanded, ar-HasLanded,
}

-- What the host promises of its UUIDs: none is the empty text, and no two are one text.
pub record HostLaws (host : Host) : Type 0 where
  pub uuid_given : (n : ℕ) → is_given (some (host.uuid n)) ≡ true
  pub uuid_distinct : (m n : ℕ) → text_eq (host.uuid m) (host.uuid n) ≡ true → m ≡ n

-- The service is consistent, and the identifiers that are still to come have no row.
abbrev pub IsSound : {E : Type 0} → Host → Service E → Type 0
IsSound host sv =
    IsConsistent sv × ((n : ℕ) → sv.next_run ≤ n → run_status (host.uuid n) sv.world.store ≡ none)

abbrev pub OthersSame : Text → Statuses → Statuses → Type 0
OthersSame r before after = (o : Text) → text_eq r o ≡ false → after o ≡ before o

-- What the service promises of the statuses of all runs: a call starts one new run, which comes to
-- rest; or it closes one run that waited for an approval; or an exception breaks off one run, new or
-- waiting, and leaves it extracting or posting; or it changes none.
pub data Lifecycle (before after : Statuses) : Type 0 where
  run_started :
      (r : Text) (st : RunStatus)
      → before r ≡ none
      → after r ≡ some st
      → is_resting st ≡ true
      → OthersSame r before after
      → Lifecycle before after
  run_decided :
      (r : Text) (st : RunStatus)
      → before r ≡ some awaiting_approval
      → after r ≡ some st
      → is_final st ≡ true
      → OthersSame r before after
      → Lifecycle before after
  run_broken :
      (r : Text) (st : RunStatus)
      → (before r ≡ none) ⊎ (before r ≡ some awaiting_approval)
      → after r ≡ some st
      → is_in_progress st ≡ true
      → OthersSame r before after
      → Lifecycle before after
  unchanged : ((o : Text) → after o ≡ before o) → Lifecycle before after

pub record_run-own :
    (host : Host) (r stored : Text) (request : StartRequest) (store : Store)
    → run_status r store ≡ none
    → run_status r (record_run host r stored request store) ≡ some received
unfolding record_run append_audit run_status
record_run-own host r stored request store h =
    run_status-create_run (run_row host r stored request) store h

pub record_run-other :
    (host : Host) (r stored : Text) (request : StartRequest) (store : Store) (o : Text)
    → text_eq r o ≡ false
    → run_status o (record_run host r stored request store) ≡ run_status o store
unfolding record_run append_audit run_status
record_run-other host r stored request store o d =
    run_status-create_other o (run_row host r stored request) store d

pub later_uuid_differs :
    (host : Host)
    → HostLaws host
    → (m n : ℕ) → m + 1 ≤ n
    → text_eq (host.uuid m) (host.uuid n) ≡ false
later_uuid_differs host laws m n lt = elim (Bool-cases (text_eq (host.uuid m) (host.uuid n))) [
  | inl e ↦ let same = laws.uuid_distinct m n e in ground arith
  | inr e ↦ e
]

module _ {E : Type 0} (host : Host) (x : External) (cfg : AppConfig) (client : ErpClient E) where
  -- The graph of either kind lands.
  pub launch-lands :
      (kind : WorkflowKind) (s : InvoiceState) (sv : Service E) (st : RunStatus)
      → is_given (some s.run_id) ≡ true
      → s.exception_case_id ≡ none
      → run_status s.run_id sv.world.store ≡ some st
      → (N : Type 0) × (p : Point N E) × (launch host x cfg client kind s sv
          ≡ deliver s.run_id p sv)
        × HasLanded s.run_id (statuses sv.world) p
  unfolding launch
  launch-lands accounts_payable s sv st named fresh row = (
    _,
    start_ap x cfg client s sv.world,
    refl,
    ap-HasLanded s.run_id (statuses sv.world) _ named (start_ap-stops x cfg client s sv.world)
        (start_ap-IsSettled x cfg client s sv.world st named fresh row),
  )
  launch-lands accounts_receivable s sv st named fresh row = (
    _,
    start_ar x cfg client s sv.world,
    refl,
    ar-HasLanded s.run_id (statuses sv.world) _ (start_ar-stops x cfg client s sv.world)
        (start_ar-IsCashSettled x cfg client s sv.world st named fresh row),
  )
