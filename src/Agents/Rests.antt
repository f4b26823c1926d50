-- ===== src/Agents/Rests.antt =====
-- The row of a run when its graph has stopped: after the start, after the decision of an approver,
-- and after a run for a remittance.
use invoice_to_payment_agent.Prelude.{◌≡◌, refl, none, some, true}
use invoice_to_payment_agent.Prelude.Text.{Text, is_given}
use invoice_to_payment_agent.Schemas.Common.{RunStatus}
use invoice_to_payment_agent.Store.Status.{run_status}
use invoice_to_payment_agent.Erp.Client.{ErpClient}
use invoice_to_payment_agent.Agents.State.{InvoiceState}
use invoice_to_payment_agent.Agents.World.{External, AppConfig, World}
use invoice_to_payment_agent.Agents.Decide.{Approval}
use invoice_to_payment_agent.Agents.Graph.{
  ApNode, at_parse, at_raise_exception, Point, at, paused, ended, aborted, is_stopped, start_ap,
  resume_ap,
}
use invoice_to_payment_agent.Agents.ReceivableGraph.{ArNode, start_ar}
use invoice_to_payment_agent.Agents.Live.{Statuses, IsBroken}
use invoice_to_payment_agent.Agents.Settled.{HasInvoice, IsClosed, IsWaiting, IsSettled}
use invoice_to_payment_agent.Agents.SettledCash.{IsCashClosed, IsCashSettled, ar_steps-Settled}
use invoice_to_payment_agent.Agents.Settling.{ap_steps-IsSettled}
use invoice_to_payment_agent.Agents.Reach.{start_ap-stops}
use invoice_to_payment_agent.Agents.Resume.{is_ended, resume_ap-ends}
use invoice_to_payment_agent.Agents.Cash.{start_ar-stops}

abbrev pub statuses : {E : Type 0} → World E → Statuses
statuses w run_id = run_status run_id w.store

module _ {E : Type 0} (r : Text) (before : Statuses) where
  -- The run waits for an approval, or it has ended with a final status, or an exception has broken it
  -- off while it was extracting or posting, and its row says so; the rows of the other runs are as
  -- before.
  abbrev pub IsAtRest : Point ApNode E → Type 0
  IsAtRest (at _ _ _) = ⊥
  IsAtRest (paused s w) = IsWaiting r before w
  IsAtRest (ended s w) = IsClosed r before (s, w)
  IsAtRest (aborted text s w) = IsBroken r before w

  -- The run has ended with a final status, and its row says so, or an exception has broken it off.
  abbrev pub IsOver : Point ApNode E → Type 0
  IsOver (ended s w) = IsClosed r before (s, w)
  IsOver (aborted text s w) = IsBroken r before w
  IsOver _ = ⊥

  -- The run has ended, and its row says how, or an exception has broken it off.
  abbrev pub IsCashAtRest : Point ArNode E → Type 0
  IsCashAtRest (ended s w) = IsCashClosed r before (s, w)
  IsCashAtRest (aborted text s w) = IsBroken r before w
  IsCashAtRest _ = ⊥

  settled-IsAtRest : (p : Point ApNode E) → is_stopped p ≡ true → IsSettled r before p → IsAtRest p
  settled-IsAtRest (at n s w) e h = cc
  settled-IsAtRest (paused s w) e h = h.0
  settled-IsAtRest (ended s w) e h = h
  settled-IsAtRest (aborted text s w) e h = h

  settled-IsOver : (p : Point ApNode E) → is_ended p ≡ true → IsSettled r before p → IsOver p
  settled-IsOver (at n s w) e h = cc
  settled-IsOver (paused s w) e h = cc
  settled-IsOver (ended s w) e h = h
  settled-IsOver (aborted text s w) e h = h

  settled-IsCashAtRest :
      (p : Point ArNode E) → is_stopped p ≡ true → IsCashSettled r before p → IsCashAtRest p
  settled-IsCashAtRest (at n s w) e h = cc
  settled-IsCashAtRest (paused s w) e h = h
  settled-IsCashAtRest (ended s w) e h = h
  settled-IsCashAtRest (aborted text s w) e h = h

pub IsOver-own :
    {E : Type 0} (r r' : Text) (before : Statuses) (p : Point ApNode E)
    → r ≡ r'
    → IsOver r before p
    → IsOver r' before p
IsOver-own r r' before p e h = rw e at h

module _ {E : Type 0} (x : External) (cfg : AppConfig) (client : ErpClient E) where
  pub start_ap-IsSettled :
      (s : InvoiceState) (w : World E) (st : RunStatus)
      → is_given (some s.run_id) ≡ true
      → s.exception_case_id ≡ none
      → run_status s.run_id w.store ≡ some st
      → IsSettled s.run_id (statuses w) (start_ap x cfg client s w)
  unfolding start_ap
  start_ap-IsSettled s w st named fresh row =
      ap_steps-IsSettled x cfg client s.run_id (statuses w) named none 9 (at at_parse s w)
        (fresh, (refl, ((st, row), λ other d. refl)))

  -- A run that is started with an identifier, a row of its own and no case stops in one of three
  -- ways: it waits for an approval and its row is awaiting_approval; or it has ended, its status is
  -- a final one and its row has that status; or an exception that no node handles has broken it off
  -- and its row is extracting or posting. The statuses of the other runs are as they were.
  pub start_ap-IsAtRest :
      (s : InvoiceState) (w : World E) (st : RunStatus)
      → is_given (some s.run_id) ≡ true
      → s.exception_case_id ≡ none
      → run_status s.run_id w.store ≡ some st
      → IsAtRest s.run_id (statuses w) (start_ap x cfg client s w)
  start_ap-IsAtRest s w st named fresh row =
      settled-IsAtRest s.run_id (statuses w) _ (start_ap-stops x cfg client s w)
        (start_ap-IsSettled s w st named fresh row)

  -- A run with an identifier and a row that waits for an approval with an invoice and no case in
  -- its checkpoint, and is resumed with whatever decision, ends with a final status, and its row
  -- has that status, or an exception that no node handles has broken it off and its row is
  -- extracting or posting; it does not wait again. The statuses of the other runs are as they were.
  pub resume_ap-IsOver :
      (approval : Approval) (s : InvoiceState) (w : World E) (st : RunStatus)
      → is_given (some s.run_id) ≡ true
      → HasInvoice s
      → s.exception_case_id ≡ none
      → run_status s.run_id w.store ≡ some st
      → IsOver s.run_id (statuses w) (resume_ap x cfg client approval (paused s w))
  unfolding resume_ap
  resume_ap-IsOver approval s w st named i fresh row =
      settled-IsOver s.run_id (statuses w) _ (resume_ap-ends x cfg client approval s w) (
        ap_steps-IsSettled x cfg client s.run_id (statuses w) named (some approval) 2
          (at at_raise_exception s w) (i, (fresh, (refl, ((st, row), λ other d. refl)))))

  pub start_ar-IsCashSettled :
      (s : InvoiceState) (w : World E) (st : RunStatus)
      → is_given (some s.run_id) ≡ true
      → s.exception_case_id ≡ none
      → run_status s.run_id w.store ≡ some st
      → IsCashSettled s.run_id (statuses w) (start_ar x cfg client s w)
  unfolding start_ar
  start_ar-IsCashSettled s w st named fresh row =
      ar_steps-Settled x cfg client s.run_id (statuses w) named 4 (at ArNode.at_parse s w)
        (fresh, (refl, ((st, row), λ other d. refl)))

  -- A run for a remittance that is started with an identifier, a row of its own and no case ends
  -- completed, failed or awaiting_approval, and its row has that status, or an exception that no
  -- node handles has broken it off and its row is extracting or posting. The statuses of the other
  -- runs are as they were.
  pub start_ar-IsCashAtRest :
      (s : InvoiceState) (w : World E) (st : RunStatus)
      → is_given (some s.run_id) ≡ true
      → s.exception_case_id ≡ none
      → run_status s.run_id w.store ≡ some st
      → IsCashAtRest s.run_id (statuses w) (start_ar x cfg client s w)
  start_ar-IsCashAtRest s w st named fresh row =
      settled-IsCashAtRest s.run_id (statuses w) _ (start_ar-stops x cfg client s w)
        (start_ar-IsCashSettled s w st named fresh row)
