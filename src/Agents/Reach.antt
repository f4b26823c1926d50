-- ===== src/Agents/Reach.antt =====
-- The points that a run of accounts payable reaches, and how many steps are left at each.
use invoice_to_payment_agent.Prelude.{
  ℕ, zero, suc, ◌-◌, ◌≤◌, ◌≡◌, inl, inr, refl, Option, none, true, Bool-cases, arith,
}
use invoice_to_payment_agent.Erp.Client.{ErpClient}
use invoice_to_payment_agent.Agents.State.{InvoiceState}
use invoice_to_payment_agent.Agents.World.{External, AppConfig, World, Outcome}
use invoice_to_payment_agent.Agents.Decide.{
  Approval, NodeResult, done, interrupted, AfterMatch, to_failed, to_post, to_exception,
  AfterApproval, to_post_approved, to_rejected, route_after_approval,
}
use invoice_to_payment_agent.Agents.Extract.{extract_invoice_node}
use invoice_to_payment_agent.Agents.Enrich.{resolve_vendor_node, fetch_po_node}
use invoice_to_payment_agent.Agents.Post.{post_journal_node}
use invoice_to_payment_agent.Agents.Attempts.{leave-any}
use invoice_to_payment_agent.Agents.Graph.{
  ApNode, at_parse, at_extract_invoice, at_persist_invoice, at_duplicate_check, at_resolve_vendor,
  at_fetch_po, at_match, at_raise_exception, at_post_journal, at_rejected, at_failed, Point, at,
  paused, ended, aborted, halts, unless_failed, enter, steps_left, after_raise, after_match,
  after_approval, is_stopped, ap_step, ap_steps, start_ap,
}

module _ {E : Type 0} (x : External) (cfg : AppConfig) (client : ErpClient E) where
  -- The points that the steps reach from a point, with the decision that `interrupt` returns.
  pub data ApReach (resume : Option Approval) (p : Point ApNode E) : Point ApNode E → Type 0 where
    here : ApReach resume p p
    next :
        {q : Point ApNode E} → ApReach resume p q → ApReach resume p (ap_step x cfg client resume q)

module _ {E : Type 0} where
  unless_failed-steps :
      (o : Outcome E) (n : ApNode) (m : ℕ)
      → ((s : InvoiceState) (w : World E) → steps_left (at n s w) ≡ m)
      → 1 ≤ m
      → steps_left (enter (unless_failed n) o) ≤ m
  unfolding steps_left
  unless_failed-steps (s, w) n m e h = elim (Bool-cases (halts s)) [
    | inl t ↦ rw t h
    | inr f ↦ rw (f, e s w) (omega arith)
  ]

  after_match-steps :
      (r : AfterMatch) (s : InvoiceState) (w : World E) → steps_left (at (after_match r) s w) ≤ 2
  unfolding steps_left
  after_match-steps to_failed s w = omega arith
  after_match-steps to_post s w = omega arith
  after_match-steps to_exception s w = omega arith

  after_approval-steps :
      (r : AfterApproval) (s : InvoiceState) (w : World E)
      → steps_left (at (after_approval r) s w) ≤ 1
  unfolding steps_left
  after_approval-steps to_post_approved s w = omega arith
  after_approval-steps to_rejected s w = omega arith

  after_raise-steps : (s : InvoiceState) (r : NodeResult E) → steps_left (after_raise s r) ≤ 1
  unfolding steps_left
  after_raise-steps s (done s' w') = after_approval-steps (route_after_approval s') s' w'
  after_raise-steps s (interrupted w') = omega arith

  stopped_at_zero : (p : Point ApNode E) → steps_left p ≤ 0 → is_stopped p ≡ true
  unfolding steps_left
  stopped_at_zero (at at_parse s w) h = ground arith
  stopped_at_zero (at at_extract_invoice s w) h = ground arith
  stopped_at_zero (at at_persist_invoice s w) h = ground arith
  stopped_at_zero (at at_duplicate_check s w) h = ground arith
  stopped_at_zero (at at_resolve_vendor s w) h = ground arith
  stopped_at_zero (at at_fetch_po s w) h = ground arith
  stopped_at_zero (at at_match s w) h = ground arith
  stopped_at_zero (at at_raise_exception s w) h = ground arith
  stopped_at_zero (at at_post_journal s w) h = ground arith
  stopped_at_zero (at at_rejected s w) h = ground arith
  stopped_at_zero (at at_failed s w) h = ground arith
  stopped_at_zero (paused s w) h = refl
  stopped_at_zero (ended s w) h = refl
  stopped_at_zero (aborted text s w) h = refl

module _ {E : Type 0} (x : External) (cfg : AppConfig) (client : ErpClient E) where
  -- Every step brings a run nearer to its end.
  ap_step-steps :
      (resume : Option Approval) (p : Point ApNode E)
      → steps_left (ap_step x cfg client resume p) ≤ steps_left p - 1
  unfolding ap_step steps_left
  ap_step-steps resume (at at_parse s w) =
      unless_failed-steps _ at_extract_invoice 8 (λ s w. refl) (omega arith)
  ap_step-steps resume (at at_extract_invoice s w) =
      leave-any (λ p. steps_left p ≤ 7) _ (extract_invoice_node x s w)
        (λ o. unless_failed-steps o at_persist_invoice 7 (λ s w. refl) (omega arith))
        (λ text s w. omega arith)
  ap_step-steps resume (at at_persist_invoice s w) = omega arith
  ap_step-steps resume (at at_duplicate_check s w) = omega arith
  ap_step-steps resume (at at_resolve_vendor s w) =
      leave-any (λ p. steps_left p ≤ 4) _ (resolve_vendor_node x cfg client s w) (λ o. omega arith)
        (λ text s w. omega arith)
  ap_step-steps resume (at at_fetch_po s w) =
      leave-any (λ p. steps_left p ≤ 3) _ (fetch_po_node x cfg client s w) (λ o. omega arith)
        (λ text s w. omega arith)
  ap_step-steps resume (at at_match s w) = after_match-steps _ _ _
  ap_step-steps resume (at at_raise_exception s w) = after_raise-steps s _
  ap_step-steps resume (at at_post_journal s w) =
      leave-any (λ p. steps_left p ≤ 0) _ (post_journal_node x cfg client s w) (λ o. omega arith)
        (λ text s w. omega arith)
  ap_step-steps resume (at at_rejected s w) = omega arith
  ap_step-steps resume (at at_failed s w) = omega arith
  ap_step-steps resume (paused s w) = omega arith
  ap_step-steps resume (ended s w) = omega arith
  ap_step-steps resume (aborted text s w) = omega arith

  -- As many steps as are left bring a run to where no node is left to run, from wherever it is.
  pub ap_steps-stops :
      (resume : Option Approval) (n : ℕ) (p : Point ApNode E)
      → steps_left p ≤ n
      → is_stopped (ap_steps x cfg client resume n p) ≡ true
  unfolding ap_steps
  ap_steps-stops resume zero p h = stopped_at_zero p h
  ap_steps-stops resume (suc n) p h =
      ap_steps-stops resume n _ (omega (arith, ap_step-steps resume p))

  -- A run that is started ends, waits for an approval or is broken off by an exception.
  pub start_ap-stops :
      (s : InvoiceState) (w : World E) → is_stopped (start_ap x cfg client s w) ≡ true
  unfolding start_ap steps_left
  start_ap-stops s w = ap_steps-stops none 9 (at at_parse s w) (omega arith)
