-- ===== src/Agents/Cash.antt =====
-- Runs for a remittance: how long they take.
use invoice_to_payment_agent.Prelude.{
  ℕ, zero, suc, ◌-◌, ◌≤◌, true, ◌≡◌, refl, inl, inr, arith, Bool-cases,
}
use invoice_to_payment_agent.Erp.Client.{ErpClient}
use invoice_to_payment_agent.Agents.State.{InvoiceState}
use invoice_to_payment_agent.Agents.World.{External, AppConfig, World, Outcome}
use invoice_to_payment_agent.Agents.Receivable.{fetch_ar_items_node, apply_cash_node}
use invoice_to_payment_agent.Agents.Extract.{extract_remittance_node}
use invoice_to_payment_agent.Agents.Attempts.{leave-any}
use invoice_to_payment_agent.Agents.Graph.{Point, at, paused, ended, aborted, halts, is_stopped}
use invoice_to_payment_agent.Agents.ReceivableGraph.{
  ArNode, at_parse, at_extract_remittance, at_fetch_ar_items, at_apply_cash, at_failed,
  enter_unless_failed, ar_step, ar_steps, start_ar,
}

abbrev pub ar_left : {E : Type 0} → Point ArNode E → ℕ
ar_left (at at_parse _ _) = 4
ar_left (at at_extract_remittance _ _) = 3
ar_left (at at_fetch_ar_items _ _) = 2
ar_left (at _ _ _) = 1
ar_left _ = 0

unless_failed-left :
    {E : Type 0} (o : Outcome E) (n : ArNode) (m : ℕ)
    → ((s : InvoiceState) (w : World E) → ar_left (at n s w) ≡ m)
    → 1 ≤ m
    → ar_left (enter_unless_failed n o) ≤ m
unless_failed-left (s, w) n m e h = elim (Bool-cases (halts s)) [
  | inl t ↦ rw t h
  | inr f ↦ rw (f, e s w) (omega arith)
]

none_left-stopped : {E : Type 0} (p : Point ArNode E) → ar_left p ≤ 0 → is_stopped p ≡ true
none_left-stopped (at at_parse s w) h = ground arith
none_left-stopped (at at_extract_remittance s w) h = ground arith
none_left-stopped (at at_fetch_ar_items s w) h = ground arith
none_left-stopped (at at_apply_cash s w) h = ground arith
none_left-stopped (at at_failed s w) h = ground arith
none_left-stopped (paused s w) h = refl
none_left-stopped (ended s w) h = refl
none_left-stopped (aborted text s w) h = refl

module _ {E : Type 0} (x : External) (cfg : AppConfig) (client : ErpClient E) where
  ar_step-left : (p : Point ArNode E) → ar_left (ar_step x cfg client p) ≤ ar_left p - 1
  unfolding ar_step
  ar_step-left (at at_parse s w) =
      unless_failed-left _ at_extract_remittance 3 (λ s w. refl) (omega arith)
  ar_step-left (at at_extract_remittance s w) =
      leave-any (λ p. ar_left p ≤ 2) _ (extract_remittance_node x s w)
        (λ o. unless_failed-left o at_fetch_ar_items 2 (λ s w. refl) (omega arith))
        (λ text s w. omega arith)
  ar_step-left (at at_fetch_ar_items s w) =
      leave-any (λ p. ar_left p ≤ 1) _ (fetch_ar_items_node x cfg client s w) (λ o. omega arith)
        (λ text s w. omega arith)
  ar_step-left (at at_apply_cash s w) =
      leave-any (λ p. ar_left p ≤ 0) _ (apply_cash_node x cfg client s w) (λ o. omega arith)
        (λ text s w. omega arith)
  ar_step-left (at at_failed s w) = omega arith
  ar_step-left (paused s w) = omega arith
  ar_step-left (ended s w) = omega arith
  ar_step-left (aborted text s w) = omega arith

  ar_steps-stops :
      (n : ℕ) (p : Point ArNode E) → ar_left p ≤ n → is_stopped (ar_steps x cfg client n p) ≡ true
  unfolding ar_steps
  ar_steps-stops zero p h = none_left-stopped p h
  ar_steps-stops (suc n) p h = ar_steps-stops n _ (omega (arith, ar_step-left p))

  -- A run for a remittance ends or is broken off by an exception.
  pub start_ar-stops :
      (s : InvoiceState) (w : World E) → is_stopped (start_ar x cfg client s w) ≡ true
  unfolding start_ar
  start_ar-stops s w = ar_steps-stops 4 (at at_parse s w) (omega arith)
