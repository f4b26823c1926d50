-- ===== src/Agents/Live.antt =====
-- The row of a run in the table of runs while its nodes run, and the rows of the other runs.
use invoice_to_payment_agent.Prelude.{◌≡◌, ◌∙◌, Option, none, some, String, Bool, true, false}
use invoice_to_payment_agent.Prelude.Text.{Text, text_eq, is_given}
use invoice_to_payment_agent.Schemas.Common.{AuditAction, RunStatus, extracting, posting}
use invoice_to_payment_agent.Store.Runs.{RunFields}
use invoice_to_payment_agent.Store.Audit.{append_audit}
use invoice_to_payment_agent.Store.Status.{
  run_status, run_status-update_run, run_status-update_other,
}
use invoice_to_payment_agent.Agents.State.{InvoiceState}
use invoice_to_payment_agent.Agents.World.{World, Outcome, audit, set_run_status}
use invoice_to_payment_agent.Agents.Kept.{audit-keeps}

-- The statuses in which an exception may leave a run.
abbrev pub is_in_progress : RunStatus → Bool
is_in_progress extracting = true
is_in_progress posting = true
is_in_progress _ = false

-- The statuses of all runs.
abbrev pub Statuses : Type 0
Statuses = Text → Option RunStatus

module _ {E : Type 0} (r : Text) (before : Statuses) where
  -- The run has a row, and the other runs have the statuses that they had.
  abbrev pub RowKept : World E → Type 0
  RowKept w =
      ((st : RunStatus) × (run_status r w.store ≡ some st))
      × ((other : Text) → text_eq r other ≡ false → run_status other w.store ≡ before other)

  -- The same with the status of the run.
  abbrev pub RowAt : RunStatus → World E → Type 0
  RowAt st w =
      (run_status r w.store ≡ some st)
      × ((other : Text) → text_eq r other ≡ false → run_status other w.store ≡ before other)

  -- An exception has broken the run off: its row has the status of a run whose nodes are running.
  abbrev pub IsBroken : World E → Type 0
  IsBroken w = (st : RunStatus) × (is_in_progress st ≡ true) × RowAt st w

  pub RowAt-RowKept : (st : RunStatus) (w : World E) → RowAt st w → RowKept w
  RowAt-RowKept st w (row, others) = ((st, row), others)

  abbrev pub IsOwn : InvoiceState → World E → Type 0
  IsOwn s w = (s.run_id ≡ r) × RowKept w

  abbrev pub IsLive : Outcome E → Type 0
  IsLive (s, w) = (s.exception_case_id ≡ none) × IsOwn s w

  abbrev pub IsOwnAs : RunStatus → InvoiceState → World E → Type 0
  IsOwnAs st s w = (s.run_id ≡ r) × RowAt st w

  abbrev pub IsLiveAs : RunStatus → Outcome E → Type 0
  IsLiveAs st (s, w) = (s.exception_case_id ≡ none) × IsOwnAs st s w

  pub IsLiveAs-IsLive : (st : RunStatus) (o : Outcome E) → IsLiveAs st o → IsLive o
  IsLiveAs-IsLive st (s, w) (fresh, (own, row)) = (fresh, (own, RowAt-RowKept st w row))

  pub audit-RowAt :
      (st : RunStatus) (s : InvoiceState) (action : AuditAction) (node : String) (actor : Text)
      (w : World E)
      → RowAt st w
      → RowAt st (audit s action node actor w)
  unfolding run_status append_audit
  audit-RowAt st = audit-keeps (RowAt st) (λ id new w h. h)

  pub audit-RowKept :
      (s : InvoiceState) (action : AuditAction) (node : String) (actor : Text) (w : World E)
      → RowKept w
      → RowKept (audit s action node actor w)
  unfolding run_status append_audit
  audit-RowKept = audit-keeps RowKept (λ id new w h. h)

  module _ (named : is_given (some r) ≡ true) where
    pub set_run_status-own :
        (s : InvoiceState) (fields : RunFields) (w : World E)
        → IsOwn s w
        → run_status r (set_run_status s fields w).store ≡ some fields.status
    unfolding set_run_status
    set_run_status-own s fields w (own, ((st, row), others)) =
        rw (own, named) (run_status-update_run r fields w.store st row)

    pub set_run_status-RowKept :
        (s : InvoiceState) (fields : RunFields) (w : World E)
        → IsOwn s w
        → RowKept (set_run_status s fields w)
    unfolding set_run_status
    set_run_status-RowKept s fields w (own, ((st, row), others)) =
        rw (own, named)
          (
            (fields.status, run_status-update_run r fields w.store st row),
            λ other d. run_status-update_other r other fields w.store d ∙ others other d,
          )

    pub set_run_status-RowAt :
        (s : InvoiceState) (fields : RunFields) (w : World E)
        → IsOwn s w
        → RowAt fields.status (set_run_status s fields w)
    set_run_status-RowAt s fields w own =
        (set_run_status-own s fields w own, (set_run_status-RowKept s fields w own).1)
