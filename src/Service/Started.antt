-- ===== src/Service/Started.antt =====
-- What `start_run` leaves.
use invoice_to_payment_agent.Prelude.{◌+◌, refl, ◌∙◌, inl, inr, Bool-cases, arith}
use invoice_to_payment_agent.Prelude.Text.{Text}
use invoice_to_payment_agent.Schemas.Common.{received}
use invoice_to_payment_agent.Erp.Client.{ErpClient}
use invoice_to_payment_agent.Agents.World.{External, AppConfig, with_store}
use invoice_to_payment_agent.Agents.Graph.{Point}
use invoice_to_payment_agent.Agents.Rests.{statuses}
use invoice_to_payment_agent.Service.State.{Host, Service, StartRequest}
use invoice_to_payment_agent.Service.Summary.{deliver}
use invoice_to_payment_agent.Service.Start.{initial_state, record_run, store_document, start_run}
use invoice_to_payment_agent.Service.Landing.{
  HasLanded, deliver-IsConsistent, deliver-rests, deliver-next_run,
}
use invoice_to_payment_agent.Service.Lifecycle.{
  HostLaws, IsSound, OthersSame, Lifecycle, run_started, run_broken, unchanged, record_run-own,
  later_uuid_differs, record_run-other, launch-lands,
}

module _ {E : Type 0} (host : Host) (x : External) (cfg : AppConfig) (client : ErpClient E)
    (laws : HostLaws host) where
  -- What a run that is started leaves: a sound service, and one more row.
  abbrev Started : Service E → Service E → Type 0
  Started before after =
      IsSound host after × Lifecycle (statuses before.world) (statuses after.world)

  recorded : Text → StartRequest → Service E → Service E
  recorded stored request sv = record sv {
    world = with_store (record_run host (host.uuid sv.next_run) stored request) sv.world;
    next_run = sv.next_run + 1;
  }

  landed-Started :
      {N : Type 0} (stored : Text) (request : StartRequest) (sv : Service E) (p : Point N E)
      → IsSound host sv
      → HasLanded (host.uuid sv.next_run) (statuses (recorded stored request sv).world) p
      → Started sv (deliver (host.uuid sv.next_run) p (recorded stored request sv)).1
  unfolding recorded
  landed-Started stored request sv p (agree, fresh) lands =
      let r = host.uuid sv.next_run in
      let sv1 = recorded stored request sv in
      let ((st, row, rests), kept) = deliver-rests r (statuses sv1.world) p sv1 lands in
      let others : OthersSame r (statuses sv.world) (statuses (deliver r p sv1).1.world) =
        λ o d. kept.1 o d ∙ record_run-other host r stored request sv.world.store o d in
      (
        (
          deliver-IsConsistent r (statuses sv1.world) p sv1 lands
              (λ o d. rw (record_run-other host r stored request sv.world.store o d) (agree o)),
          λ n le.
              let lt = rw (deliver-next_run r (statuses sv1.world) p sv1) at le in
              others (host.uuid n) (later_uuid_differs host laws sv.next_run n lt)
              ∙ fresh n (omega arith),
        ),
        elim rests [
          | inl rest ↦ run_started r st (fresh sv.next_run (omega arith)) row rest others
          | inr progress ↦
              run_broken r st (inl (fresh sv.next_run (omega arith))) row progress others
        ],
      )

  -- A call of `start_run` leaves a sound service sound, and it starts at most one run, which comes
  -- to rest or is broken off; the statuses of the other runs stay as they were.
  pub start_run-Lifecycle :
      (request : StartRequest) (sv : Service E)
      → IsSound host sv
      → Started sv (start_run host x cfg client request sv).1
  unfolding start_run recorded
  start_run-Lifecycle request sv sound = elim (Bool-cases (host.exists request.document_path)) [
    | inl e ↦
        let r = host.uuid sv.next_run in
        let stored = store_document host request.document_path r in
        let state = initial_state host r stored request in
        let sv1 = recorded stored request sv in
        let (N, p, eq, lands) =
          launch-lands host x cfg client request.kind state sv1 received
            (laws.uuid_given sv.next_run) refl
            (record_run-own host r stored request sv.world.store
              (sound.1 sv.next_run (omega arith))) in
        rw (e, eq) (landed-Started stored request sv p sound lands)
    | inr e ↦ rw e (sound, unchanged (λ o. refl))
  ]
