-- ===== src/Agents/Graph.antt =====
-- agents/graph.py: the two compiled graphs. A graph stops at an interrupt, where the checkpoint holds
-- the state from before the node that was interrupted; a resumed graph runs that node again, from
-- its first line, with the decision as the value of `interrupt`. An exception that leaves a node
-- leaves the graph too: its checkpoint holds the state from before that node.
use invoice_to_payment_agent.Prelude.{
  ℕ, zero, suc, Option, none, some, ◌||◌, if◌then◌else◌, Bool, true, false,
}
use invoice_to_payment_agent.Prelude.Text.{Text, is_given}
use invoice_to_payment_agent.Agents.State.{InvoiceState}
use invoice_to_payment_agent.Agents.World.{External, AppConfig, World, Outcome, Attempt}
use invoice_to_payment_agent.Agents.Extract.{parse_node, extract_invoice_node}
use invoice_to_payment_agent.Agents.Enrich.{
  persist_invoice_node, duplicate_check_node, resolve_vendor_node, fetch_po_node,
}
use invoice_to_payment_agent.Agents.Decide.{
  Approval, NodeResult, done, interrupted, match_node, exception_node, is_failed, AfterMatch,
  to_failed, to_post, to_exception, route_after_match, AfterApproval, to_post_approved, to_rejected,
  route_after_approval,
}
use invoice_to_payment_agent.Agents.Post.{post_journal_node, rejected_node, failed_node}
use invoice_to_payment_agent.Erp.Client.{ErpClient}

pub data ApNode : Type 0 where
  at_parse at_extract_invoice at_persist_invoice at_duplicate_check at_resolve_vendor at_fetch_po
        at_match at_raise_exception at_post_journal at_rejected at_failed :
      ApNode

-- Where a run is: before a node, paused at the interrupt, at the end, or broken off by an exception.
pub data Point (N : Type 0) (E : Type 0) : Type 0 where
  at : N → InvoiceState → World E → Point N E
  paused : InvoiceState → World E → Point N E
  ended : InvoiceState → World E → Point N E
  aborted : Text → InvoiceState → World E → Point N E

-- `_halt_on_failure`
unfoldable pub halts : InvoiceState → Bool
halts state = is_failed state.status || is_given state.error

abbrev pub unless_failed : ApNode → InvoiceState → ApNode
unless_failed next state = if halts state then at_failed else next

abbrev pub after_match : AfterMatch → ApNode
after_match to_failed = at_failed
after_match to_post = at_post_journal
after_match to_exception = at_raise_exception

abbrev pub after_approval : AfterApproval → ApNode
after_approval to_post_approved = at_post_journal
after_approval to_rejected = at_rejected

module _ {E : Type 0} where
  abbrev pub enter : (InvoiceState → ApNode) → Outcome E → Point ApNode E
  enter next (state, w) = at (next state) state w

  abbrev pub end_at : {N : Type 0} → Outcome E → Point N E
  end_at (state, w) = ended state w

  -- After a node that an exception may break off.
  abbrev pub leave : {N : Type 0} → (Outcome E → Point N E) → Attempt E → Point N E
  leave go (none, o) = go o
  leave go (some text, (state, w)) = aborted text state w

  abbrev pub after_raise : InvoiceState → NodeResult E → Point ApNode E
  after_raise state (interrupted w) = paused state w
  after_raise state (done state' w) = at (after_approval (route_after_approval state')) state' w

  abbrev pub is_stopped : {N : Type 0} → Point N E → Bool
  is_stopped (at _ _ _) = false
  is_stopped _ = true

  -- How many steps a point is from the end of the run at most.
  unfoldable pub steps_left : Point ApNode E → ℕ
  steps_left (at at_parse _ _) = 9
  steps_left (at at_extract_invoice _ _) = 8
  steps_left (at at_persist_invoice _ _) = 7
  steps_left (at at_duplicate_check _ _) = 6
  steps_left (at at_resolve_vendor _ _) = 5
  steps_left (at at_fetch_po _ _) = 4
  steps_left (at at_match _ _) = 3
  steps_left (at at_raise_exception _ _) = 2
  steps_left (at _ _ _) = 1
  steps_left _ = 0

module _ {E : Type 0} (x : External) (cfg : AppConfig) (client : ErpClient E) where
  -- `build_ap_graph`: the node at the point and the edge that leaves it.
  unfoldable pub ap_step : Option Approval → Point ApNode E → Point ApNode E
  ap_step resume (at at_parse state w) =
      enter (unless_failed at_extract_invoice) (parse_node x state w)
  ap_step resume (at at_extract_invoice state w) =
      leave (enter (unless_failed at_persist_invoice)) (extract_invoice_node x state w)
  ap_step resume (at at_persist_invoice state w) =
      enter (λ _. at_duplicate_check) (persist_invoice_node x cfg client state w)
  ap_step resume (at at_duplicate_check state w) =
      enter (λ _. at_resolve_vendor) (duplicate_check_node x cfg client state w)
  ap_step resume (at at_resolve_vendor state w) =
      leave (enter (λ _. at_fetch_po)) (resolve_vendor_node x cfg client state w)
  ap_step resume (at at_fetch_po state w) =
      leave (enter (λ _. at_match)) (fetch_po_node x cfg client state w)
  ap_step resume (at at_match state w) =
      enter (λ s. after_match (route_after_match s)) (match_node x cfg state w)
  ap_step resume (at at_raise_exception state w) =
      after_raise state (exception_node x cfg resume state w)
  ap_step resume (at at_post_journal state w) =
      leave end_at (post_journal_node x cfg client state w)
  ap_step resume (at at_rejected state w) = end_at (rejected_node state w)
  ap_step resume (at at_failed state w) = end_at (failed_node state w)
  ap_step resume (paused state w) = paused state w
  ap_step resume (ended state w) = ended state w
  ap_step resume (aborted text state w) = aborted text state w

  unfoldable pub ap_steps : Option Approval → ℕ → Point ApNode E → Point ApNode E
  ap_steps resume zero p = p
  ap_steps resume (suc n) p = ap_steps resume n (ap_step resume p)

  -- `graph.ainvoke(initial)`
  unfoldable pub start_ap : InvoiceState → World E → Point ApNode E
  unfolding ap_steps
  start_ap state w = ap_steps none 9 (at at_parse state w)

  -- `graph.ainvoke(Command(resume=…))`
  unfoldable pub resume_ap : Approval → Point ApNode E → Point ApNode E
  unfolding ap_steps
  resume_ap approval (paused state w) = ap_steps (some approval) 2 (at at_raise_exception state w)
  resume_ap approval p = p
