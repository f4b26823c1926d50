-- ===== src/Service/Once.antt =====
-- Decisions on one run that come one after the other.
use invoice_to_payment_agent.Prelude.{
  ◌≡◌, refl, ◌⊎◌, true, Option, none, some, inl, inr, Bool-cases,
}
use invoice_to_payment_agent.Prelude.Text.{Text, text_eq_refl}
use invoice_to_payment_agent.Store.Rows.{WorkflowRun}
use invoice_to_payment_agent.Erp.Client.{ErpClient}
use invoice_to_payment_agent.Agents.World.{External, AppConfig}
use invoice_to_payment_agent.Agents.Decide.{Approval}
use invoice_to_payment_agent.Agents.Graph.{ApNode, Point, at, paused, ended, aborted}
use invoice_to_payment_agent.Agents.Resume.{is_ended, resume_ap-ends}
use invoice_to_payment_agent.Service.State.{
  Checkpoint, waiting, finished, broken, find_thread, Service, thread_of,
}
use invoice_to_payment_agent.Service.Summary.{deliver}
use invoice_to_payment_agent.Service.Resume.{
  can_resume, resume_thread, resume_row, is_decision, approval_of, resume_run,
}
use invoice_to_payment_agent.Service.Landing.{find_thread-same}
use invoice_to_payment_agent.Service.Refused.{is_over, finished-unchanged}

-- The graph of the run has ended or was broken off.
abbrev pub HasFinished : {E : Type 0} → Text → Service E → Type 0
HasFinished r sv =
    (c : Checkpoint) × (find_thread (thread_of r) sv.threads ≡ some c) × (is_over c ≡ true)

-- The service is as it was, or the graph of the run has ended or was broken off.
abbrev pub IsSameOrFinished : {E : Type 0} → Text → Service E → Service E → Type 0
IsSameOrFinished r before after = (after ≡ before) ⊎ HasFinished r after

module _ {E : Type 0} (x : External) (cfg : AppConfig) (client : ErpClient E) where
  ended-HasFinished :
      (r : Text) (p : Point ApNode E) (sv : Service E)
      → is_ended p ≡ true
      → HasFinished r (deliver r p sv).1
  unfolding deliver
  ended-HasFinished r (at n s w) sv e = cc
  ended-HasFinished r (paused s w) sv e = cc
  ended-HasFinished r (ended s w) sv e =
      (finished s, find_thread-same r r (finished s) sv.threads (text_eq_refl r), refl)
  ended-HasFinished r (aborted text s w) sv e =
      (broken s, find_thread-same r r (broken s) sv.threads (text_eq_refl r), refl)

  thread-IsSameOrFinished :
      (r : Text) (approval : Approval) (c : Option Checkpoint) (sv : Service E)
      → IsSameOrFinished r sv (resume_thread x cfg client r approval c sv).1
  unfolding resume_thread
  thread-IsSameOrFinished r approval none sv = inl refl
  thread-IsSameOrFinished r approval (some (finished s)) sv = inl refl
  thread-IsSameOrFinished r approval (some (broken s)) sv = inl refl
  thread-IsSameOrFinished r approval (some (waiting s)) sv =
      inr (ended-HasFinished r _ sv (resume_ap-ends x cfg client approval s sv.world))

  row-IsSameOrFinished :
      (r : Text) (approval : Approval) (run : Option WorkflowRun) (sv : Service E)
      → IsSameOrFinished r sv (resume_row x cfg client r approval run sv).1
  row-IsSameOrFinished r approval none sv = inl refl
  row-IsSameOrFinished r approval (some run) sv = elim (Bool-cases (can_resume run.status)) [
    | inl can ↦ rw can (thread-IsSameOrFinished r approval _ sv)
    | inr stays ↦ rw stays (inl refl)
  ]

  pub resume_run-IsSameOrFinished :
      (r decision approved_by : Text) (text : Option Text) (sv : Service E)
      → IsSameOrFinished r sv (resume_run x cfg client r decision approved_by text sv).1
  unfolding resume_run
  resume_run-IsSameOrFinished r decision approved_by text sv =
      elim (Bool-cases (is_decision decision)) [
        | inl e ↦ rw e (row-IsSameOrFinished r (approval_of decision approved_by text) _ sv)
        | inr e ↦ rw e (inl refl)
      ]

  -- A run takes at most one decision: after a call of `resume_run` that changed the service, every
  -- further call for the run, with whatever decision, leaves the service as it is.
  pub second_decision_ignored :
      (r decision approved_by decision' approved_by' : Text) (text text' : Option Text)
      (sv : Service E)
      → let after = (resume_run x cfg client r decision approved_by text sv).1 in
        (after ≡ sv) ⊎ ((resume_run x cfg client r decision' approved_by' text' after).1 ≡ after)
  second_decision_ignored r decision approved_by decision' approved_by' text text' sv =
      elim (resume_run-IsSameOrFinished r decision approved_by text sv) [
        | inl same ↦ inl same
        | inr (c, e, o) ↦
            inr (finished-unchanged x cfg client r decision' approved_by' text' c _ e o)
      ]
