-- ===== src/Agents/KeptDecide.antt =====
-- What the match and the exception node keep.
use invoice_to_payment_agent.Prelude.{ℕ, ◌≡◌, refl, Option, none, some}
use invoice_to_payment_agent.Schemas.Invoice.{ExtractedInvoice}
use invoice_to_payment_agent.Schemas.Matching.{MatchReport}
use invoice_to_payment_agent.Erp.Client.{ErpClient}
use invoice_to_payment_agent.Agents.State.{InvoiceState}
use invoice_to_payment_agent.Agents.World.{External, AppConfig, World, Outcome}
use invoice_to_payment_agent.Agents.Decide.{
  NodeResult, done, interrupted, matched_state, raise_for, at_interrupt, exception_node, Approval,
  match_node, open_case, close_case, resolve_case,
}
use invoice_to_payment_agent.Agents.Kept.{Reads, left}

abbrev pub world_after : {E : Type 0} → NodeResult E → World E
world_after (done s w) = w
world_after (interrupted w) = w

module _ {E : Type 0} (x : External) (cfg : AppConfig) (client : ErpClient E) {P : World E → Type 0}
    (k : Reads client P) where
  matched_state-keeps :
      (s : InvoiceState) (i : Option ExtractedInvoice) (w : World E)
      → P w
      → P (left (matched_state x cfg s i w))
  matched_state-keeps s none w h = h
  matched_state-keeps s (some _) w h = k.audited _ _ _ _ _ (k.match_saved _ _ h)

  pub match_node-keeps : (s : InvoiceState) (w : World E) → P w → P (left (match_node x cfg s w))
  unfolding match_node
  match_node-keeps s w h = matched_state-keeps s s.invoice _ (k.status_set _ _ _ h)

  opened-keeps :
      (s : InvoiceState) (id : Option ℕ) (report : MatchReport) (w : World E)
      → s.exception_case_id ≡ id
      → P w
      → P (left (open_case x cfg s report w))
  unfolding open_case
  opened-keeps s none report w e h =
      rw e (k.audited _ _ _ _ _ (k.status_set _ _ _ (k.case_saved _ _ h)))
  opened-keeps s (some _) report w e h = rw e h

  resolve_case-keeps :
      (id : Option ℕ) (approval : Approval) (w : World E) → P w → P (resolve_case id approval w)
  resolve_case-keeps none approval w h = h
  resolve_case-keeps (some id) approval w h = k.case_resolved _ _ _ _ _ h

  close_case-keeps :
      (s : InvoiceState) (approval : Approval) (w : World E)
      → P w
      → P (left (close_case s approval w))
  unfolding close_case
  close_case-keeps s approval w h = k.audited _ _ _ _ _ (resolve_case-keeps _ approval w h)

  at_interrupt-keeps :
      (resume : Option Approval) (o : Outcome E)
      → P (left o)
      → P (world_after (at_interrupt x cfg resume o))
  at_interrupt-keeps none (s, w) h = h
  at_interrupt-keeps (some approval) (s, w) h = close_case-keeps s approval w h

  raise_for-keeps :
      (resume : Option Approval) (s : InvoiceState) (r : Option MatchReport) (w : World E)
      → P w
      → P (world_after (raise_for x cfg resume s r w))
  raise_for-keeps resume s none w h = h
  raise_for-keeps resume s (some report) w h =
      at_interrupt-keeps resume (open_case x cfg s report w) (opened-keeps s _ report w refl h)

  pub exception_node-keeps :
      (resume : Option Approval) (s : InvoiceState) (w : World E)
      → P w
      → P (world_after (exception_node x cfg resume s w))
  unfolding exception_node
  exception_node-keeps resume s w h = raise_for-keeps resume s s.match_report w h
