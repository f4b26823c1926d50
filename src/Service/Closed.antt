-- ===== src/Service/Closed.antt =====
-- Sequences of calls of the service, and the runs that are closed.
use invoice_to_payment_agent.Prelude.{
  ◌≡◌, sym, ◌∙◌, true, Option, some, List, [], ◌∷◌, inl, inr, Bool-cases,
}
use invoice_to_payment_agent.Prelude.Text.{Text, text_eq, text_eq→eq}
use invoice_to_payment_agent.Schemas.Common.{RunStatus, awaiting_approval}
use invoice_to_payment_agent.Store.Runs.{is_final}
use invoice_to_payment_agent.Store.Status.{run_status}
use invoice_to_payment_agent.Erp.Client.{ErpClient}
use invoice_to_payment_agent.Agents.World.{External, AppConfig}
use invoice_to_payment_agent.Agents.Live.{Statuses}
use invoice_to_payment_agent.Agents.Rests.{statuses}
use invoice_to_payment_agent.Service.State.{Host, Service, StartRequest}
use invoice_to_payment_agent.Service.Start.{start_run}
use invoice_to_payment_agent.Service.Resume.{resume_run}
use invoice_to_payment_agent.Service.Lifecycle.{
  HostLaws, IsSound, Lifecycle, run_started, run_decided, run_broken, unchanged,
}
use invoice_to_payment_agent.Service.Started.{start_run-Lifecycle}
use invoice_to_payment_agent.Service.Resumed.{resume_run-Lifecycle}

pub data Command : Type 0 where
  start : StartRequest → Command
  resume : Text → Text → Text → Option Text → Command

closed-Lifecycle :
    (before after : Statuses) (r : Text) (st : RunStatus)
    → Lifecycle before after
    → before r ≡ some st
    → is_final st ≡ true
    → after r ≡ some st
closed-Lifecycle before after r st (run_started r' st' new row rests others) h final =
    elim (Bool-cases (text_eq r' r)) [
      | inl e ↦ cc (text_eq→eq r' r e, new, h)
      | inr e ↦ others r e ∙ h
    ]
closed-Lifecycle before after r st (run_decided r' st' waits row done others) h final =
    elim (Bool-cases (text_eq r' r)) [
      | inl e ↦
          let same : some awaiting_approval ≡ some st = sym waits ∙ (rw (text_eq→eq r' r e) h) in cc
      | inr e ↦ others r e ∙ h
    ]
closed-Lifecycle before after r st (run_broken r' st' was row progress others) h final =
    elim (Bool-cases (text_eq r' r)) [
      | inl e ↦
          let here : before r' ≡ some st = rw (text_eq→eq r' r e) h in
          elim was [
            | inl new ↦ cc (new, here)
            | inr waits ↦ let same : some awaiting_approval ≡ some st = sym waits ∙ here in cc
          ]
      | inr e ↦ others r e ∙ h
    ]
closed-Lifecycle before after r st (unchanged same) h final = same r ∙ h

module _ {E : Type 0} (host : Host) (x : External) (cfg : AppConfig) (client : ErpClient E) where
  abbrev pub command : Command → Service E → Service E
  command (start request) sv = (start_run host x cfg client request sv).1
  command (resume r decision approved_by text) sv =
      (resume_run x cfg client r decision approved_by text sv).1

  unfoldable pub commands : List Command → Service E → Service E
  commands [] sv = sv
  commands (c ∷ cs) sv = commands cs (command c sv)

  -- A call of `start_run` or `resume_run` on a sound service implements one step of the lifecycle
  -- of runs: it starts one run, which comes to rest, or closes one that waited for an approval, or
  -- leaves one run, new or waiting before, extracting or posting where an exception that no node
  -- handles has broken it off, or changes no status. It leaves the service sound.
  pub command-Lifecycle :
      HostLaws host
      → (c : Command) (sv : Service E) → IsSound host sv
      → IsSound host (command c sv) × Lifecycle (statuses sv.world) (statuses (command c sv).world)
  command-Lifecycle laws (start request) sv sound =
      start_run-Lifecycle host x cfg client laws request sv sound
  command-Lifecycle laws (resume r decision by text) sv sound =
      resume_run-Lifecycle host x cfg client r decision by text sv sound

  -- Whatever is called, in whatever order, a sound service stays sound: every run has a checkpoint
  -- that agrees with its row.
  pub commands-IsSound :
      HostLaws host
      → (cs : List Command) (sv : Service E) → IsSound host sv
      → IsSound host (commands cs sv)
  unfolding commands
  commands-IsSound laws [] sv sound = sound
  commands-IsSound laws (c ∷ cs) sv sound =
      commands-IsSound laws cs _ (command-Lifecycle laws c sv sound).0

  -- On a sound service, whatever is called of `start_run` and `resume_run`, in whatever order, a
  -- run that is completed, rejected or failed keeps its status.
  pub commands-keep_closed :
      HostLaws host
      → (cs : List Command) (sv : Service E) (r : Text) (st : RunStatus) → IsSound host sv
      → run_status r sv.world.store ≡ some st
      → is_final st ≡ true
      → run_status r (commands cs sv).world.store ≡ some st
  unfolding commands
  commands-keep_closed laws [] sv r st sound row final = row
  commands-keep_closed laws (c ∷ cs) sv r st sound row final =
      let (sound', life) = command-Lifecycle laws c sv sound in
      commands-keep_closed laws cs _ r st sound'
        (closed-Lifecycle (statuses sv.world) (statuses (command c sv).world) r st life row final)
        final
