-- ===== src/Api/Once.antt =====
-- The endpoints that release or decide a run, called more than once.
use invoice_to_payment_agent.Prelude.{
  ◌≡◌, refl, ap, ◌∙◌, ℕ, ◌⊎◌, Option, none, some, ok, err, inl, inr, Bool-cases,
}
use invoice_to_payment_agent.Prelude.Text.{Text, codes}
use invoice_to_payment_agent.Store.Rows.{WorkflowRun, PaymentJournal, ExceptionCase}
use invoice_to_payment_agent.Store.Runs.{get_run, is_completed_status}
use invoice_to_payment_agent.Store.Cases.{get_exception}
use invoice_to_payment_agent.Erp.Client.{ErpClient}
use invoice_to_payment_agent.Agents.World.{External, AppConfig}
use invoice_to_payment_agent.Service.State.{Service}
use invoice_to_payment_agent.Service.Summary.{Answer}
use invoice_to_payment_agent.Service.Resume.{resume_run}
use invoice_to_payment_agent.Service.Refused.{finished-unchanged}
use invoice_to_payment_agent.Service.Once.{
  HasFinished, IsSameOrFinished, resume_run-IsSameOrFinished,
}
use invoice_to_payment_agent.Api.Errors.{answered}
use invoice_to_payment_agent.Api.Decisions.{DecisionRequest, is_open, decide_case, decide_exception}
use invoice_to_payment_agent.Api.Journals.{
  PostJournalRequest, released, release, release_completed, release_run, post_payment_journal,
}

module _ {E : Type 0} where
  released-service : (r : Text) (a : Answer E) → (released r a).1 ≡ a.1
  released-service r (ok summary, sv) = refl
  released-service r (err error, sv) = refl

  answered-service : (a : Answer E) → (answered a).1 ≡ a.1
  answered-service (ok summary, sv) = refl
  answered-service (err error, sv) = refl

module _ {E : Type 0} (x : External) (cfg : AppConfig) (client : ErpClient E) where
  release-IsSameOrFinished :
      (r : Text) (request : PostJournalRequest) (sv : Service E)
      → IsSameOrFinished r sv (release x cfg client r request sv).1
  release-IsSameOrFinished r request sv =
      let call = resume_run x cfg client r (codes "approve") request.approved_by request.note sv in
      rw (released-service r call)
        (resume_run-IsSameOrFinished x cfg client r _ request.approved_by request.note sv)

  completed-IsSameOrFinished :
      (r : Text) (request : PostJournalRequest) (run : WorkflowRun)
      (journal : Option PaymentJournal) (sv : Service E)
      → IsSameOrFinished r sv (release_completed x cfg client r request run journal sv).1
  completed-IsSameOrFinished r request run none sv = release-IsSameOrFinished r request sv
  completed-IsSameOrFinished r request run (some journal) sv = inl refl

  release_run-IsSameOrFinished :
      (r : Text) (request : PostJournalRequest) (run : Option WorkflowRun) (sv : Service E)
      → IsSameOrFinished r sv (release_run x cfg client r request run sv).1
  release_run-IsSameOrFinished r request none sv = inl refl
  release_run-IsSameOrFinished r request (some run) sv =
      elim (Bool-cases (is_completed_status run.status)) [
        | inl e ↦ rw e (completed-IsSameOrFinished r request run _ sv)
        | inr e ↦ rw e (release-IsSameOrFinished r request sv)
      ]

  release-finished :
      (r : Text) (request : PostJournalRequest) (sv : Service E)
      → HasFinished r sv
      → (release x cfg client r request sv).1 ≡ sv
  release-finished r request sv (c, e, o) =
      let call = resume_run x cfg client r (codes "approve") request.approved_by request.note sv in
      released-service r call
      ∙ finished-unchanged x cfg client r _ request.approved_by request.note c sv e o

  completed-finished :
      (r : Text) (request : PostJournalRequest) (run : WorkflowRun)
      (journal : Option PaymentJournal) (sv : Service E)
      → HasFinished r sv
      → (release_completed x cfg client r request run journal sv).1 ≡ sv
  completed-finished r request run none sv h = release-finished r request sv h
  completed-finished r request run (some journal) sv h = refl

  release_run-finished :
      (r : Text) (request : PostJournalRequest) (run : Option WorkflowRun) (sv : Service E)
      → HasFinished r sv
      → (release_run x cfg client r request run sv).1 ≡ sv
  release_run-finished r request none sv h = refl
  release_run-finished r request (some run) sv h =
      elim (Bool-cases (is_completed_status run.status)) [
        | inl e ↦ rw e (completed-finished r request run _ sv h)
        | inr e ↦ rw e (release-finished r request sv h)
      ]

  repeated-release :
      (r : Text) (request : PostJournalRequest) (sv : Service E)
      → let after = (release_run x cfg client r request (get_run r sv.world.store) sv).1 in
        (release_run x cfg client r request (get_run r after.world.store) after).1 ≡ after
  repeated-release r request sv =
      elim (release_run-IsSameOrFinished r request (get_run r sv.world.store) sv) [
        | inl same ↦
            ap (λ v. (release_run x cfg client r request (get_run r v.world.store) v).1) same
        | inr h ↦ release_run-finished r request _ _ h
      ]

  -- `post_payment_journal` for a run is idempotent: the same request again leaves the service, and
  -- with it the ERP and the journals, as the first one left it.
  pub post_payment_journal-idempotent :
      (r : Text) (request : PostJournalRequest) (sv : Service E)
      → let released = record request { journal = none; run_id = some r } in
        let after = (post_payment_journal x cfg client released sv).1 in
        (post_payment_journal x cfg client released after).1 ≡ after
  unfolding post_payment_journal
  post_payment_journal-idempotent r request sv =
      repeated-release r (record request { journal = none; run_id = some r }) sv

  decide_case-IsSameOrFinished :
      (id : ℕ) (request : DecisionRequest) (case : ExceptionCase) (sv : Service E)
      → IsSameOrFinished case.run_id sv (decide_case x cfg client id request (some case) sv).1
  decide_case-IsSameOrFinished id request case sv = elim (Bool-cases (is_open case)) [
    | inl e ↦
        let call =
          resume_run x cfg client case.run_id request.decision request.approved_by request.note
            sv in
        rw (e, answered-service call)
          (resume_run-IsSameOrFinished x cfg client case.run_id request.decision request.approved_by
            request.note sv)
    | inr e ↦ rw e (inl refl)
  ]

  decide_case-finished :
      (id : ℕ) (request : DecisionRequest) (case : ExceptionCase) (sv : Service E)
      → HasFinished case.run_id sv
      → (decide_case x cfg client id request (some case) sv).1 ≡ sv
  decide_case-finished id request case sv (c, f, o) = elim (Bool-cases (is_open case)) [
    | inl e ↦
        let call =
          resume_run x cfg client case.run_id request.decision request.approved_by request.note
            sv in
        rw (e, answered-service call)
          (finished-unchanged x cfg client case.run_id request.decision request.approved_by
            request.note c sv f o)
    | inr e ↦ rw e refl
  ]

  -- Of the cases of one run, one decision at most takes effect: after a decision on a case that
  -- changed the service, a decision on the same case or on another case of the run, open or not,
  -- leaves the service as it is.
  pub decide_exception_once :
      (id id' : ℕ) (request request' : DecisionRequest) (case case' : ExceptionCase)
      (sv : Service E)
      → get_exception id sv.world.store ≡ some case
      → let after = (decide_exception x cfg client id request sv).1 in
        get_exception id' after.world.store ≡ some case'
        → case'.run_id ≡ case.run_id
        → (after ≡ sv) ⊎ ((decide_exception x cfg client id' request' after).1 ≡ after)
  unfolding decide_exception
  decide_exception_once id id' request request' case case' sv found found' own =
      let after = (decide_exception x cfg client id request sv).1 in
      let effect : IsSameOrFinished case.run_id sv after =
        rw found (decide_case-IsSameOrFinished id request case sv) in
      elim effect [
        | inl same ↦ inl same
        | inr h ↦ inr (rw found' (decide_case-finished id' request' case' after (rw own h)))
      ]
