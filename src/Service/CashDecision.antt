-- ===== src/Service/CashDecision.antt =====
-- A decision on a run for a remittance.
use invoice_to_payment_agent.Prelude.{◌+◌, ◌≡◌, refl, true, Option, some, arith}
use invoice_to_payment_agent.Prelude.Text.{Text, text_eq_refl}
use invoice_to_payment_agent.Schemas.Common.{accounts_receivable, received}
use invoice_to_payment_agent.Erp.Client.{ErpClient}
use invoice_to_payment_agent.Agents.State.{InvoiceState}
use invoice_to_payment_agent.Agents.World.{External, AppConfig, with_store}
use invoice_to_payment_agent.Agents.Graph.{Point, at, paused, ended, aborted}
use invoice_to_payment_agent.Agents.ReceivableGraph.{ArNode, start_ar}
use invoice_to_payment_agent.Agents.Live.{Statuses}
use invoice_to_payment_agent.Agents.Rests.{statuses, IsCashAtRest, start_ar-IsCashAtRest}
use invoice_to_payment_agent.Service.State.{
  Host, Checkpoint, finished, broken, find_thread, Service, StartRequest, thread_of,
}
use invoice_to_payment_agent.Service.Summary.{deliver}
use invoice_to_payment_agent.Service.Start.{
  record_run, launch, initial_state, store_document, start_run,
}
use invoice_to_payment_agent.Service.Resume.{resume_run}
use invoice_to_payment_agent.Service.Landing.{find_thread-same}
use invoice_to_payment_agent.Service.Lifecycle.{HostLaws, IsSound, record_run-own}
use invoice_to_payment_agent.Service.Refused.{is_over, finished-unchanged}

module _ {E : Type 0} (x : External) (cfg : AppConfig) (client : ErpClient E) where
  -- The thread of a run for a remittance whose graph has stopped has ended or was broken off.
  ar-finished :
      (r : Text) (before : Statuses) (p : Point ArNode E) (sv : Service E)
      → IsCashAtRest r before p
      → (c : Checkpoint) × (find_thread (thread_of r) (deliver r p sv).1.threads ≡ some c)
        × (is_over c ≡ true)
  unfolding deliver
  ar-finished r before (at n s w) sv h = elim h [ ]
  ar-finished r before (paused s w) sv h = elim h [ ]
  ar-finished r before (ended s w) sv h =
      (finished s, find_thread-same r r (finished s) sv.threads (text_eq_refl r), refl)
  ar-finished r before (aborted text s w) sv h =
      (broken s, find_thread-same r r (broken s) sv.threads (text_eq_refl r), refl)

  launched-unchanged :
      (host : Host) (s : InvoiceState) (sv : Service E) (decision approved_by : Text)
      (text : Option Text) (p : Point ArNode E)
      → start_ar x cfg client s sv.world ≡ p
      → IsCashAtRest s.run_id (statuses sv.world) p
      → (resume_run x cfg client s.run_id decision approved_by text
          (launch host x cfg client accounts_receivable s sv).1).1
        ≡ (launch host x cfg client accounts_receivable s sv).1
  unfolding launch
  launched-unchanged host s sv decision approved_by text p e rest =
      let (c, found, over) = ar-finished s.run_id (statuses sv.world) p sv rest in
      rw e (finished-unchanged x cfg client s.run_id decision approved_by text c _ found over)

  -- A run for a remittance takes no decision: after it was started on a sound service with a
  -- document that is there, `resume_run` with whatever decision leaves the service as it is, also
  -- where the run is awaiting_approval.
  pub receivable_decision_ignored :
      (host : Host) (request : StartRequest) (sv : Service E) (decision approved_by : Text)
      (text : Option Text)
      → HostLaws host
      → IsSound host sv
      → host.exists request.document_path ≡ true
      → let after =
          (start_run host x cfg client (record request { kind = accounts_receivable }) sv).1 in
        (resume_run x cfg client (host.uuid sv.next_run) decision approved_by text after).1 ≡ after
  unfolding start_run
  receivable_decision_ignored host request sv decision approved_by text laws sound e =
      let cash : StartRequest = record request { kind = accounts_receivable } in
      let r = host.uuid sv.next_run in
      let stored = store_document host request.document_path r in
      let state = initial_state host r stored cash in
      let sv1 : Service E = record sv {
        world = with_store (record_run host r stored cash) sv.world;
        next_run = sv.next_run + 1;
      } in
      rw e (
        launched-unchanged host state sv1 decision approved_by text _ refl (
          start_ar-IsCashAtRest x cfg client state sv1.world received (laws.uuid_given sv.next_run)
            refl
            (record_run-own host r stored cash sv.world.store (sound.1 sv.next_run (omega arith)))))
