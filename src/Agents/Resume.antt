-- ===== src/Agents/Resume.antt =====
-- Where a resumed run of accounts payable stands after its two steps.
use invoice_to_payment_agent.Prelude.{◌≡◌, refl, Bool, true, false, Option, none, some}
use invoice_to_payment_agent.Schemas.Matching.{MatchReport}
use invoice_to_payment_agent.Erp.Client.{ErpClient}
use invoice_to_payment_agent.Agents.State.{InvoiceState}
use invoice_to_payment_agent.Agents.World.{External, AppConfig, World, Outcome}
use invoice_to_payment_agent.Agents.Decide.{
  Approval, at_interrupt, raise_for, exception_node, open_case, AfterApproval, to_post_approved,
  to_rejected,
}
use invoice_to_payment_agent.Agents.Post.{post_journal_node}
use invoice_to_payment_agent.Agents.Attempts.{leave-any}
use invoice_to_payment_agent.Agents.Graph.{
  ApNode, Point, at, paused, ended, aborted, end_at, after_approval, after_raise, ap_step,
  resume_ap,
}

-- The run has ended, or an exception has broken it off.
abbrev pub is_ended : {E : Type 0} → Point ApNode E → Bool
is_ended (ended _ _) = true
is_ended (aborted _ _ _) = true
is_ended _ = false

module _ {E : Type 0} (x : External) (cfg : AppConfig) (client : ErpClient E)
    (approval : Approval) where
  after_approval-ends :
      (r : AfterApproval) (s : InvoiceState) (w : World E)
      → is_ended (ap_step x cfg client (some approval) (at (after_approval r) s w)) ≡ true
  unfolding ap_step
  after_approval-ends to_post_approved s w =
      leave-any (λ p. is_ended p ≡ true) end_at (post_journal_node x cfg client s w) (λ o. refl)
        (λ text s w. refl)
  after_approval-ends to_rejected s w = refl

  at_interrupt-ends :
      (s : InvoiceState) (o : Outcome E)
      → is_ended (
          ap_step x cfg client
            (some approval)
            (after_raise s (at_interrupt x cfg (some approval) o)))
        ≡ true
  at_interrupt-ends s (s', w') = after_approval-ends _ _ _

  raise_for-ends :
      (s : InvoiceState) (report : Option MatchReport) (w : World E)
      → is_ended (
          ap_step x cfg client
            (some approval)
            (after_raise s (raise_for x cfg (some approval) s report w)))
        ≡ true
  raise_for-ends s none w = after_approval-ends _ _ _
  raise_for-ends s (some report) w = at_interrupt-ends s (open_case x cfg s report w)

  -- A run that waits for an approval and is resumed, with whatever decision, comes to its end or is
  -- broken off by an exception; it does not wait again.
  pub resume_ap-ends :
      (s : InvoiceState) (w : World E)
      → is_ended (resume_ap x cfg client approval (paused s w)) ≡ true
  unfolding resume_ap ap_step exception_node
  resume_ap-ends s w = raise_for-ends s s.match_report w
