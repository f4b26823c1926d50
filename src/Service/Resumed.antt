-- ===== src/Service/Resumed.antt =====
-- What `resume_run` leaves.
use invoice_to_payment_agent.Prelude.{
  ◌≡◌, refl, ap, ◌∙◌, false, Option, none, some, inl, inr, Bool-cases,
}
use invoice_to_payment_agent.Prelude.Text.{Text, text_eq, text_eq→eq}
use invoice_to_payment_agent.Schemas.Common.{RunStatus, awaiting_approval}
use invoice_to_payment_agent.Store.Rows.{Store, WorkflowRun}
use invoice_to_payment_agent.Store.Runs.{get_run}
use invoice_to_payment_agent.Store.Status.{status_in, run_status}
use invoice_to_payment_agent.Erp.Client.{ErpClient}
use invoice_to_payment_agent.Agents.State.{InvoiceState}
use invoice_to_payment_agent.Agents.World.{External, AppConfig, World}
use invoice_to_payment_agent.Agents.Decide.{Approval}
use invoice_to_payment_agent.Agents.Graph.{ApNode, Point, at, paused, ended, aborted, resume_ap}
use invoice_to_payment_agent.Agents.Settled.{IsClosed}
use invoice_to_payment_agent.Agents.Rests.{statuses, IsOver, IsOver-own, resume_ap-IsOver}
use invoice_to_payment_agent.Agents.Live.{IsBroken}
use invoice_to_payment_agent.Service.State.{
  Host, Checkpoint, waiting, finished, broken, find_thread, Service, thread_of,
}
use invoice_to_payment_agent.Service.Summary.{deliver}
use invoice_to_payment_agent.Service.Resume.{
  can_resume, resume_thread, resume_row, is_decision, approval_of, resume_run,
}
use invoice_to_payment_agent.Service.Landing.{
  Agrees, IsResumable, deliver-IsConsistent, final-is_resting, final-is_resting,
}
use invoice_to_payment_agent.Service.Lifecycle.{
  IsSound, Lifecycle, run_decided, run_broken, unchanged,
}

module _ {E : Type 0} (host : Host) (x : External) (cfg : AppConfig) (client : ErpClient E) where
  abbrev Resumed : Service E → Service E → Type 0
  Resumed before after =
      IsSound host after × Lifecycle (statuses before.world) (statuses after.world)

  same-Resumed : (sv : Service E) → IsSound host sv → Resumed sv sv
  same-Resumed sv sound = (sound, unchanged (λ o. refl))

  -- An identifier without a row is not that of a run with one.
  differs :
      (r o : Text) (store : Store) (st : RunStatus)
      → run_status r store ≡ some st
      → run_status o store ≡ none
      → text_eq r o ≡ false
  differs r o store st row none_yet = elim (Bool-cases (text_eq r o)) [
    | inl e ↦ cc (row, none_yet, text_eq→eq r o e)
    | inr e ↦ e
  ]

  closed-Resumed :
      (r : Text) (s' : InvoiceState) (w' : World E) (sv : Service E)
      → IsSound host sv
      → run_status r sv.world.store ≡ some awaiting_approval
      → IsClosed r (statuses sv.world) (s', w')
      → Resumed sv (deliver {N = ApNode} r (ended s' w') sv).1
  unfolding deliver
  closed-Resumed r s' w' sv (agree, fresh) row (row', final, kept) = (
    (
      deliver-IsConsistent r (statuses sv.world) {N = ApNode} (ended s' w') sv
          (row', final-is_resting s'.status final, kept) (λ o d. agree o),
      λ n le.
          let free = fresh n le in
          kept.1 (host.uuid n) (differs r (host.uuid n) sv.world.store awaiting_approval row free)
          ∙ free,
    ),
    run_decided r s'.status row row' final kept.1,
  )

  broken-Resumed :
      (r text : Text) (s' : InvoiceState) (w' : World E) (sv : Service E)
      → IsSound host sv
      → run_status r sv.world.store ≡ some awaiting_approval
      → IsBroken r (statuses sv.world) w'
      → Resumed sv (deliver {N = ApNode} r (aborted text s' w') sv).1
  unfolding deliver
  broken-Resumed r text s' w' sv (agree, fresh) row (st, progress, (row', same)) = (
    (
      deliver-IsConsistent r (statuses sv.world) {N = ApNode} (aborted text s' w') sv
          (st, progress, (row', same)) (λ o d. agree o),
      λ n le.
          let free = fresh n le in
          same (host.uuid n) (differs r (host.uuid n) sv.world.store awaiting_approval row free)
          ∙ free,
    ),
    run_broken r st (inr row) row' progress same,
  )

  over-Resumed :
      (r : Text) (p : Point ApNode E) (sv : Service E)
      → IsSound host sv
      → run_status r sv.world.store ≡ some awaiting_approval
      → IsOver r (statuses sv.world) p
      → Resumed sv (deliver r p sv).1
  over-Resumed r (at n s w) sv sound row over = elim over [ ]
  over-Resumed r (paused s w) sv sound row over = elim over [ ]
  over-Resumed r (ended s w) sv sound row over = closed-Resumed r s w sv sound row over
  over-Resumed r (aborted text s w) sv sound row over = broken-Resumed r text s w sv sound row over

  resume_waiting-Resumed :
      (r : Text) (approval : Approval) (s : InvoiceState) (sv : Service E)
      → IsSound host sv
      → run_status r sv.world.store ≡ some awaiting_approval
      → IsResumable r s
      → Resumed sv (deliver r (resume_ap x cfg client approval (paused s sv.world)) sv).1
  resume_waiting-Resumed r approval s sv sound row (named, own, i, no_case) =
      let over : IsOver s.run_id (statuses sv.world)
          (resume_ap x cfg client approval (paused s sv.world)) =
        resume_ap-IsOver x cfg client approval s sv.world awaiting_approval (rw own named) i no_case
          (rw own row) in
      over-Resumed r (resume_ap x cfg client approval (paused s sv.world)) sv sound row
        (IsOver-own s.run_id r (statuses sv.world) _ own over)

  resume_thread-Resumed :
      (r : Text) (approval : Approval) (st : RunStatus) (c : Option Checkpoint) (sv : Service E)
      → IsSound host sv
      → run_status r sv.world.store ≡ some st
      → Agrees r (some st) c
      → Resumed sv (resume_thread x cfg client r approval c sv).1
  unfolding resume_thread
  resume_thread-Resumed r approval st none sv sound row agrees = elim agrees [ ]
  resume_thread-Resumed r approval st (some (finished s)) sv sound row agrees =
      same-Resumed sv sound
  resume_thread-Resumed r approval st (some (broken s)) sv sound row agrees = same-Resumed sv sound
  resume_thread-Resumed r approval st (some (waiting s)) sv sound row (waits, can) =
      resume_waiting-Resumed r approval s sv sound (row ∙ ap some waits) can

  resume_row-Resumed :
      (r : Text) (approval : Approval) (run : Option WorkflowRun) (sv : Service E)
      → IsSound host sv
      → get_run r sv.world.store ≡ run
      → Resumed sv (resume_row x cfg client r approval run sv).1
  unfolding run_status
  resume_row-Resumed r approval none sv sound e = same-Resumed sv sound
  resume_row-Resumed r approval (some run) sv sound e =
      let thread = find_thread (thread_of r) sv.threads in
      let here : Agrees r (status_in (get_run r sv.world.store)) thread = sound.0 r in
      elim (Bool-cases (can_resume run.status)) [
        | inl can ↦
            rw can (
              resume_thread-Resumed r approval run.status thread sv sound (rw e refl)
                (rw e at here))
        | inr stays ↦ rw stays (same-Resumed sv sound)
      ]

  -- A call of `resume_run` leaves a sound service sound, and it closes or breaks off at most one run,
  -- one that waited for an approval; the statuses of the other runs stay as they were.
  pub resume_run-Lifecycle :
      (r decision approved_by : Text) (text : Option Text) (sv : Service E)
      → IsSound host sv
      → Resumed sv (resume_run x cfg client r decision approved_by text sv).1
  unfolding resume_run
  resume_run-Lifecycle r decision approved_by text sv sound =
      elim (Bool-cases (is_decision decision)) [
        | inl e ↦
            rw e (resume_row-Resumed r (approval_of decision approved_by text) _ sv sound refl)
        | inr e ↦ rw e (same-Resumed sv sound)
      ]
