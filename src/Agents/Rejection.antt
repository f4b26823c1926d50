-- ===== src/Agents/Rejection.antt =====
-- A run that is resumed with a decision other than to approve.
use invoice_to_payment_agent.Prelude.{◌≡◌, refl, false, Option, none, some, List}
use invoice_to_payment_agent.Schemas.Common.{rejected}
use invoice_to_payment_agent.Schemas.Matching.{MatchReport}
use invoice_to_payment_agent.Store.Rows.{PaymentJournal}
use invoice_to_payment_agent.Erp.Client.{ErpClient}
use invoice_to_payment_agent.Agents.State.{InvoiceState}
use invoice_to_payment_agent.Agents.World.{External, AppConfig, World, Outcome}
use invoice_to_payment_agent.Agents.Decide.{
  Approval, is_approve, verdict_of, close_case, open_case, at_interrupt, raise_for, exception_node,
  route_after_approval,
}
use invoice_to_payment_agent.Agents.Post.{rejected_node}
use invoice_to_payment_agent.Agents.Graph.{
  ApNode, Point, paused, ended, after_raise, ap_step, resume_ap,
}
use invoice_to_payment_agent.Agents.Kept.{Reads}
use invoice_to_payment_agent.Agents.Runs.{HoldsAt, raise_step-HoldsAt, rejected_node-keeps}
use invoice_to_payment_agent.Agents.Effects.{ErpReads, Untouched, Untouched-Reads}

-- The run has ended as rejected, in a world of which the property holds.
abbrev pub IsRejectedIn : {E : Type 0} → (World E → Type 0) → Point ApNode E → Type 0
IsRejectedIn P (ended s w) = (s.status ≡ rejected) × P w
IsRejectedIn P _ = ⊥

module _ {E : Type 0} (x : External) (cfg : AppConfig) (client : ErpClient E) {P : World E → Type 0}
    (k : Reads client P) (approval : Approval)
    (refused : is_approve (verdict_of approval) ≡ false) where
  at_interrupt-IsRejectedIn :
      (s : InvoiceState) (o : Outcome E)
      → HoldsAt P (after_raise s (at_interrupt x cfg (some approval) o))
      → IsRejectedIn P (
          ap_step x cfg client
            (some approval)
            (after_raise s (at_interrupt x cfg (some approval) o)))
  unfolding ap_step close_case route_after_approval rejected_node
  at_interrupt-IsRejectedIn s (s', w') h =
      rw refused (refl, rejected_node-keeps x cfg client k _ _ h)

  raise_for-IsRejectedIn :
      (s : InvoiceState) (report : Option MatchReport) (found : MatchReport) (w : World E)
      → report ≡ some found
      → HoldsAt P (after_raise s (raise_for x cfg (some approval) s report w))
      → IsRejectedIn P (
          ap_step x cfg client
            (some approval)
            (after_raise s (raise_for x cfg (some approval) s report w)))
  raise_for-IsRejectedIn s none found w e h = cc
  raise_for-IsRejectedIn s (some report) found w e h =
      at_interrupt-IsRejectedIn s (open_case x cfg s report w) h

-- A run that waits for an approval with a match report and is resumed with a verdict other than to
-- approve ends as rejected. It has left the journals as they were and the ERP with every property
-- that its reading calls keep.
pub resume_ap-rejects :
    {E : Type 0} (x : External) (cfg : AppConfig) (client : ErpClient E) (Q : E → Type 0)
    (journals : List PaymentJournal) (approval : Approval) (s : InvoiceState) (report : MatchReport)
    (w : World E)
    → ErpReads client Q
    → is_approve (verdict_of approval) ≡ false
    → s.match_report ≡ some report
    → Untouched Q journals w
    → IsRejectedIn (Untouched Q journals) (resume_ap x cfg client approval (paused s w))
unfolding resume_ap ap_step exception_node
resume_ap-rejects x cfg client Q journals approval s report w reads refused found h =
    let k = Untouched-Reads client Q journals reads in
    raise_for-IsRejectedIn x cfg client k approval refused s s.match_report report w found
      (raise_step-HoldsAt x cfg client k (some approval) s w h)
