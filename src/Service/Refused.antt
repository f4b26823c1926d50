-- ===== src/Service/Refused.antt =====
-- Which errors the service raises, and what it leaves then; runs whose graph has ended.
use invoice_to_payment_agent.Prelude.{
  ◌≡◌, ◌⊎◌, refl, ap, ◌∙◌, true, false, Bool, Option, none, some, ok, err, inl, inr, Bool-cases,
  List, arith,
}
use invoice_to_payment_agent.Prelude.Text.{Text}
use invoice_to_payment_agent.Schemas.Common.{RunStatus, awaiting_approval}
use invoice_to_payment_agent.Store.Rows.{Store, WorkflowRun}
use invoice_to_payment_agent.Store.Runs.{get_run, is_final}
use invoice_to_payment_agent.Store.Status.{status_in, run_status}
use invoice_to_payment_agent.Erp.Client.{ErpClient}
use invoice_to_payment_agent.Agents.State.{Decision}
use invoice_to_payment_agent.Agents.World.{External, AppConfig}
use invoice_to_payment_agent.Agents.Decide.{Approval}
use invoice_to_payment_agent.Agents.Graph.{ApNode, Point, at, paused, ended, aborted, resume_ap}
use invoice_to_payment_agent.Agents.Live.{Statuses, is_in_progress}
use invoice_to_payment_agent.Agents.Rests.{statuses, IsOver, IsOver-own, resume_ap-IsOver}
use invoice_to_payment_agent.Service.State.{
  Checkpoint, waiting, finished, broken, find_thread, Service, ServiceError, unknown_decision,
  run_not_found, not_awaiting_approval, call_failed, Summary, thread_of,
}
use invoice_to_payment_agent.Service.Summary.{Answer, summarise_row, summarise, deliver}
use invoice_to_payment_agent.Service.Resume.{
  can_resume, resume_thread, resume_row, is_decision, approval_of, resume_run,
}
use invoice_to_payment_agent.Service.Landing.{Agrees, IsConsistent}

-- The errors that `resume_run` raises itself.
abbrev pub is_refusal : ServiceError → Bool
is_refusal unknown_decision = true
is_refusal (run_not_found _) = true
is_refusal (not_awaiting_approval _ _) = true
is_refusal _ = false

abbrev pub is_call_failed : ServiceError → Bool
is_call_failed (call_failed _) = true
is_call_failed _ = false

-- A decision is taken: the run of the summary waited for an approval, and it has ended with the
-- status that the summary names.
abbrev pub IsTaken : {E : Type 0} → Service E → Summary → Service E → Type 0
IsTaken sv summary after =
    (run_status summary.run_id sv.world.store ≡ some awaiting_approval)
    × (run_status summary.run_id after.world.store ≡ some summary.status)
    × (is_final summary.status ≡ true)

-- An exception has broken off a run that waited for an approval.
abbrev pub IsBrokenOff : {E : Type 0} → Service E → Service E → Type 0
IsBrokenOff sv after =
    (r : Text) × (st : RunStatus) × (run_status r sv.world.store ≡ some awaiting_approval)
    × (run_status r after.world.store ≡ some st)
    × (is_in_progress st ≡ true)

-- The call took the decision, or answered for a run that takes none, or was refused; the last two
-- left the service as it was. Or an exception broke the run off.
abbrev pub IsAnsweredOrRefused : {E : Type 0} → Service E → Answer E → Type 0
IsAnsweredOrRefused sv (ok summary, after) = (after ≡ sv) ⊎ IsTaken sv summary after
IsAnsweredOrRefused sv (err error, after) =
    ((is_refusal error ≡ true) × (after ≡ sv))
    ⊎ ((is_call_failed error ≡ true) × IsBrokenOff sv after)

-- The graph of the thread has ended or was broken off.
abbrev pub is_over : Checkpoint → Bool
is_over (waiting _) = false
is_over _ = true

some_final : (st st' : RunStatus) → some st ≡ some st' → is_final st' ≡ true → is_final st ≡ true
some_final st st' e final = cc

-- A run that an exception has broken off is not resumed.
progress_resumes : (st : RunStatus) → is_in_progress st ≡ true → can_resume st ≡ true → ⊥
progress_resumes st h can = ground arith

module _ {E : Type 0} where
  same-summarised :
      (r : Text) (pending : Bool) (ds : List Decision) (run : Option WorkflowRun) (st : RunStatus)
      (store : Store) (sv : Service E)
      → status_in run ≡ some st
      → IsAnsweredOrRefused sv (summarise_row r pending ds store run, sv)
  same-summarised r pending ds none st store sv h = cc
  same-summarised r pending ds (some run) st store sv h = inl refl

  taken-summarised :
      (r : Text) (pending : Bool) (ds : List Decision) (run : Option WorkflowRun) (st : RunStatus)
      (store : Store) (before after : Service E)
      → run_status r before.world.store ≡ some awaiting_approval
      → run_status r after.world.store ≡ status_in run
      → status_in run ≡ some st
      → is_final st ≡ true
      → IsAnsweredOrRefused before (summarise_row r pending ds store run, after)
  taken-summarised r pending ds none st store before after waits row h final = cc
  taken-summarised r pending ds (some run) st store before after waits row h final =
      inr (waits, row, some_final run.status st h final)

module _ {E : Type 0} (x : External) (cfg : AppConfig) (client : ErpClient E) where
  over-answers :
      (r : Text) (before : Statuses) (p : Point ApNode E) (sv : Service E)
      → run_status r sv.world.store ≡ some awaiting_approval
      → IsOver r before p
      → IsAnsweredOrRefused sv (deliver r p sv)
  unfolding deliver summarise run_status
  over-answers r before (at n s w) sv waits over = elim over [ ]
  over-answers r before (paused s w) sv waits over = elim over [ ]
  over-answers r before (ended s w) sv waits (row, final, kept) =
      taken-summarised r false s.decisions _ s.status w.store sv _ waits refl row final
  over-answers r before (aborted text s w) sv waits (st, progress, (row, same)) =
      inr (refl, (r, st, waits, row, progress))

  resume_thread-refused :
      (r : Text) (approval : Approval) (st : RunStatus) (c : Option Checkpoint) (sv : Service E)
      → run_status r sv.world.store ≡ some st
      → can_resume st ≡ true
      → Agrees r (some st) c
      → IsAnsweredOrRefused sv (resume_thread x cfg client r approval c sv)
  unfolding resume_thread summarise run_status
  resume_thread-refused r approval st none sv row can agrees = elim agrees [ ]
  resume_thread-refused r approval st (some (finished s)) sv row can agrees =
      same-summarised r false s.decisions _ st sv.world.store sv row
  resume_thread-refused r approval st (some (broken s)) sv row can agrees =
      elim (progress_resumes st agrees can) [ ]
  resume_thread-refused r approval st (some (waiting s)) sv row can
        (waits, (named, own, i, no_case)) =
      let row' : run_status r sv.world.store ≡ some awaiting_approval = row ∙ ap some waits in
      let over : IsOver s.run_id (statuses sv.world)
          (resume_ap x cfg client approval (paused s sv.world)) =
        resume_ap-IsOver x cfg client approval s sv.world awaiting_approval (rw own named) i no_case
          (rw own row') in
      over-answers r (statuses sv.world) (resume_ap x cfg client approval (paused s sv.world)) sv
        row' (IsOver-own s.run_id r (statuses sv.world) _ own over)

  resume_row-refused :
      (r : Text) (approval : Approval) (run : Option WorkflowRun) (sv : Service E)
      → IsConsistent sv
      → get_run r sv.world.store ≡ run
      → IsAnsweredOrRefused sv (resume_row x cfg client r approval run sv)
  unfolding run_status
  resume_row-refused r approval none sv agree e = inl (refl, refl)
  resume_row-refused r approval (some run) sv agree e =
      let thread = find_thread (thread_of r) sv.threads in
      let here : Agrees r (status_in (get_run r sv.world.store)) thread = agree r in
      elim (Bool-cases (can_resume run.status)) [
        | inl can ↦
            rw can
              (resume_thread-refused r approval run.status thread sv (rw e refl) can (rw e at here))
        | inr stays ↦ rw stays (inl (refl, refl))
      ]

  -- `resume_run` on a consistent service takes the decision, or answers for a run that takes none and
  -- leaves the service as it was, or raises one of its own errors, for an unknown decision, an
  -- unknown run or a run that does not wait, and leaves the service as it was, or raises the
  -- exception that has broken the run off.
  pub resume_run-IsAnsweredOrRefused :
      (r decision approved_by : Text) (text : Option Text) (sv : Service E)
      → IsConsistent sv
      → IsAnsweredOrRefused sv (resume_run x cfg client r decision approved_by text sv)
  unfolding resume_run
  resume_run-IsAnsweredOrRefused r decision approved_by text sv agree =
      elim (Bool-cases (is_decision decision)) [
        | inl e ↦
            rw e (resume_row-refused r (approval_of decision approved_by text) _ sv agree refl)
        | inr e ↦ rw e (inl (refl, refl))
      ]

  over-unchanged :
      (r : Text) (approval : Approval) (c : Checkpoint) (sv : Service E)
      → is_over c ≡ true
      → (resume_thread x cfg client r approval (some c) sv).1 ≡ sv
  unfolding resume_thread
  over-unchanged r approval (waiting s) sv o = cc
  over-unchanged r approval (finished s) sv o = refl
  over-unchanged r approval (broken s) sv o = refl

  thread-unchanged :
      (r : Text) (approval : Approval) (run : Option WorkflowRun) (c : Checkpoint) (sv : Service E)
      → find_thread (thread_of r) sv.threads ≡ some c
      → is_over c ≡ true
      → (resume_row x cfg client r approval run sv).1 ≡ sv
  thread-unchanged r approval none c sv e o = refl
  thread-unchanged r approval (some run) c sv e o = elim (Bool-cases (can_resume run.status)) [
    | inl can ↦ rw (can, e) (over-unchanged r approval c sv o)
    | inr stays ↦ rw stays refl
  ]

  -- A decision on a run whose graph has ended or was broken off changes nothing.
  pub finished-unchanged :
      (r decision approved_by : Text) (text : Option Text) (c : Checkpoint) (sv : Service E)
      → find_thread (thread_of r) sv.threads ≡ some c
      → is_over c ≡ true
      → (resume_run x cfg client r decision approved_by text sv).1 ≡ sv
  unfolding resume_run
  finished-unchanged r decision approved_by text c sv e o =
      elim (Bool-cases (is_decision decision)) [
        | inl f ↦ rw f (thread-unchanged r (approval_of decision approved_by text) _ c sv e o)
        | inr f ↦ rw f refl
      ]
