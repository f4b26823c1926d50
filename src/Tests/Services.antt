-- ===== src/Tests/Services.antt =====
-- The service and the endpoints at concrete runs: none, one that waits for an approval, and one
-- that is completed.
use invoice_to_payment_agent.Prelude.{
  ℕ, ◌==◌, ◌≤◌, ◌≡◌, ◌⊎◌, refl, true, false, none, some, Option, [], ◌∷◌, arith, inl, inr,
  Bool-cases,
}
use invoice_to_payment_agent.Prelude.Text.{Text, codes, text_eq, lower, text_eq→eq, is_given}
use invoice_to_payment_agent.Schemas.Common.{
  awaiting_approval, completed, received, accounts_receivable,
}
use invoice_to_payment_agent.Store.Runs.{get_run}
use invoice_to_payment_agent.Store.Cases.{get_exception}
use invoice_to_payment_agent.Store.Status.{run_status}
use invoice_to_payment_agent.Agents.State.{InvoiceState}
use invoice_to_payment_agent.Agents.World.{World}
use invoice_to_payment_agent.Agents.Graph.{ended, paused, resume_ap, start_ap}
use invoice_to_payment_agent.Agents.Decide.{Approval, evaluate}
use invoice_to_payment_agent.Agents.ReceivableGraph.{start_ar}
use invoice_to_payment_agent.Agents.Rests.{
  statuses, IsAtRest, start_ap-IsAtRest, IsOver, resume_ap-IsOver, IsCashAtRest,
  start_ar-IsCashAtRest,
}
use invoice_to_payment_agent.Agents.Effects.{ErpReads, Untouched}
use invoice_to_payment_agent.Agents.Rejection.{IsRejectedIn, resume_ap-rejects}
use invoice_to_payment_agent.Service.State.{
  Host, Checkpoint, waiting, finished, find_thread, Service, StartRequest, thread_of,
}
use invoice_to_payment_agent.Service.Start.{start_run}
use invoice_to_payment_agent.Service.Resume.{resume_run}
use invoice_to_payment_agent.Service.Lifecycle.{IsSound, Lifecycle}
use invoice_to_payment_agent.Service.Closed.{
  start, resume, command, commands, command-Lifecycle, commands-keep_closed,
}
use invoice_to_payment_agent.Service.CashDecision.{receivable_decision_ignored}
use invoice_to_payment_agent.Api.Decisions.{DecisionRequest, decide_exception}
use invoice_to_payment_agent.Api.Journals.{PostJournalRequest, post_payment_journal}
use invoice_to_payment_agent.Api.Once.{post_payment_journal-idempotent, decide_exception_once}
use invoice_to_payment_agent.Api.Refused.{IsDecidedOrRefused, decide_exception-IsDecidedOrRefused}
use invoice_to_payment_agent.Tests.Fixtures.{
  outside, config, client, Ledger, world, initial, invoice_of, vendor, order, receipt,
}
use invoice_to_payment_agent.Tests.Hosts.{
  too_much, host, host_laws, request, empty_service, empty_service-IsSound, first_id, first_case,
  service_with, service_with-IsSound,
}

-- The state of a run that waits for an approval.
abbrev waiting_state : InvoiceState
waiting_state = record initial {
  run_id = first_id;
  invoice = some (invoice_of too_much);
  vendor = some vendor;
  purchase_order = some order;
  goods_receipts = receipt ∷ [];
  match_report = some (evaluate (outside too_much) config initial (invoice_of too_much));
}

abbrev waiting_service : Service Ledger
waiting_service = service_with awaiting_approval (waiting waiting_state)

given : (r : Text) → text_eq first_id r ≡ true → is_given (some r) ≡ true
unfolding text_eq
given [] e = cc
given (c ∷ s) e = refl

waiting_service-IsSound : IsSound host waiting_service
waiting_service-IsSound = service_with-IsSound awaiting_approval (waiting waiting_state) (λ r e.
    let own = text_eq→eq first_id r e in
    (refl, (given r e, own, (invoice_of too_much, refl), refl)))

abbrev closed_service : Service Ledger
closed_service = service_with completed (finished (record initial { status = completed }))

closed_service-IsSound : IsSound host closed_service
closed_service-IsSound =
    service_with-IsSound completed (finished (record initial { status = completed }))
      (λ r e. (refl, refl))

commands-keep_closed_example :
    run_status first_id
      (commands host
        (outside too_much)
        config
        client
        (start request ∷ resume first_id (codes "reject") (codes "kim") none ∷ [])
        closed_service).world.store
    ≡ some completed
unfolding run_status get_run text_eq
commands-keep_closed_example =
    commands-keep_closed host (outside too_much) config client host_laws
      (start request ∷ resume first_id (codes "reject") (codes "kim") none ∷ []) closed_service
      first_id completed closed_service-IsSound refl refl

receivable_decision_ignored_example :
    (resume_run
      (outside too_much)
      config
      client
      first_id
      (codes "approve")
      (codes "kim")
      none
      (start_run host
        (outside too_much)
        config
        client
        (record request { kind = accounts_receivable })
        empty_service).1).1
    ≡ (start_run host
        (outside too_much)
        config
        client
        (record request { kind = accounts_receivable })
        empty_service).1
receivable_decision_ignored_example =
    receivable_decision_ignored (outside too_much) config client host request empty_service
      (codes "approve") (codes "kim") none host_laws empty_service-IsSound refl

abbrev release : PostJournalRequest
release = record { run_id = some first_id; approved_by = codes "kim"; note = none; journal = none }

post_payment_journal-idempotent_example :
    (post_payment_journal
      (outside too_much)
      config
      client
      release
      (post_payment_journal (outside too_much) config client release waiting_service).1).1
    ≡ (post_payment_journal (outside too_much) config client release waiting_service).1
post_payment_journal-idempotent_example =
    post_payment_journal-idempotent (outside too_much) config client first_id release
      waiting_service

abbrev decision : DecisionRequest
decision = record { decision = codes "reject"; approved_by = codes "kim"; note = none }

decide_exception-IsDecidedOrRefused_example :
    IsDecidedOrRefused closed_service
      (decide_exception (outside too_much) config client 0 decision closed_service)
decide_exception-IsDecidedOrRefused_example =
    decide_exception-IsDecidedOrRefused (outside too_much) config client 0 decision closed_service
      closed_service-IsSound.0

abbrev refusal : Approval
refusal = record { decision = some (codes "reject"); approved_by = some (codes "kim"); note = none }

abbrev IsEmpty : Ledger → Type 0
IsEmpty ledger = ledger ≡ []

IsEmpty-reads : ErpReads client IsEmpty
IsEmpty-reads = record {
  vendors_keep = λ e h. h;
  order_keeps = λ number e h. h;
  receipts_keep = λ number e h. h;
}

resume_ap-rejects_example :
    IsRejectedIn
      (Untouched IsEmpty [])
      (resume_ap (outside too_much) config client refusal (paused waiting_state world))
unfolding text_eq lower
resume_ap-rejects_example =
    resume_ap-rejects (outside too_much) config client IsEmpty [] refusal waiting_state
      (evaluate (outside too_much) config initial (invoice_of too_much)) world IsEmpty-reads refl
      refl (refl, refl)

start_ap-IsAtRest_example :
    IsAtRest (codes "r1") (statuses world) (start_ap (outside too_much) config client initial world)
unfolding run_status get_run text_eq
start_ap-IsAtRest_example =
    start_ap-IsAtRest (outside too_much) config client initial world received refl refl refl

start_ar-IsCashAtRest_example :
    IsCashAtRest
      (codes "r1")
      (statuses world)
      (start_ar (outside too_much) config client initial world)
unfolding run_status get_run text_eq
start_ar-IsCashAtRest_example =
    start_ar-IsCashAtRest (outside too_much) config client initial world received refl refl refl

resume_ap-IsOver_example : IsOver first_id (statuses waiting_service.world) (
    resume_ap (outside too_much) config client refusal (paused waiting_state waiting_service.world))
unfolding run_status get_run text_eq
resume_ap-IsOver_example =
    resume_ap-IsOver (outside too_much) config client refusal waiting_state waiting_service.world
      awaiting_approval refl (invoice_of too_much, refl) refl refl

decide_exception_once_example :
    (let after = (decide_exception (outside too_much) config client 0 decision waiting_service).1 in
      after ≡ waiting_service)
    ⊎ (let after =
          (decide_exception (outside too_much) config client 0 decision waiting_service).1 in
        (decide_exception (outside too_much) config client 0 decision after).1 ≡ after)
unfolding get_exception invoice_to_payment_agent.Prelude.Text.text_eq
    invoice_to_payment_agent.Prelude.Text.lower
    invoice_to_payment_agent.Api.Decisions.decide_exception
    invoice_to_payment_agent.Service.Resume.resume_run
    invoice_to_payment_agent.Service.Resume.resume_thread
    invoice_to_payment_agent.Service.State.find_thread
    invoice_to_payment_agent.Service.State.thread_of
    invoice_to_payment_agent.Service.Summary.deliver invoice_to_payment_agent.Store.Runs.get_run
    invoice_to_payment_agent.Agents.Graph.resume_ap invoice_to_payment_agent.Agents.Graph.ap_steps
    invoice_to_payment_agent.Agents.Graph.ap_step
    invoice_to_payment_agent.Agents.Decide.exception_node
    invoice_to_payment_agent.Agents.Decide.open_case
    invoice_to_payment_agent.Agents.Decide.close_case
    invoice_to_payment_agent.Agents.Decide.route_after_approval
    invoice_to_payment_agent.Agents.Post.rejected_node invoice_to_payment_agent.Agents.World.audit
    invoice_to_payment_agent.Agents.World.set_run_status
    invoice_to_payment_agent.Store.Runs.update_run invoice_to_payment_agent.Store.Runs.update_rows
    invoice_to_payment_agent.Store.Runs.set_fields invoice_to_payment_agent.Store.Audit.append_audit
    invoice_to_payment_agent.Store.Cases.save_exception
    invoice_to_payment_agent.Store.Cases.resolve_exception
    invoice_to_payment_agent.Store.Cases.resolve_rows
decide_exception_once_example =
    decide_exception_once (outside too_much) config client 0 0 decision decision first_case
      first_case waiting_service refl refl refl

command-Lifecycle_example :
    IsSound host (
      command host
        (outside too_much)
        config
        client
        (resume first_id (codes "approve") (codes "kim") none)
        waiting_service)
    × Lifecycle (statuses waiting_service.world) (
        statuses
          (command host
            (outside too_much)
            config
            client
            (resume first_id (codes "approve") (codes "kim") none)
            waiting_service).world)
command-Lifecycle_example =
    command-Lifecycle host (outside too_much) config client host_laws
      (resume first_id (codes "approve") (codes "kim") none) waiting_service waiting_service-IsSound
