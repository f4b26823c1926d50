-- ===== src/Agents/ReceivableGraph.antt =====
-- `build_ar_graph` of agents/graph.py.
use invoice_to_payment_agent.Prelude.{ℕ, zero, suc, if◌then◌else◌}
use invoice_to_payment_agent.Agents.State.{InvoiceState}
use invoice_to_payment_agent.Agents.World.{External, AppConfig, World, Outcome}
use invoice_to_payment_agent.Agents.Extract.{parse_node, extract_remittance_node}
use invoice_to_payment_agent.Agents.Post.{failed_node}
use invoice_to_payment_agent.Agents.Receivable.{fetch_ar_items_node, apply_cash_node}
use invoice_to_payment_agent.Agents.Graph.{Point, at, paused, ended, aborted, halts, end_at, leave}
use invoice_to_payment_agent.Erp.Client.{ErpClient}

pub data ArNode : Type 0 where
  at_parse at_extract_remittance at_fetch_ar_items at_apply_cash at_failed : ArNode

module _ {E : Type 0} where
  abbrev pub enter_unless_failed : ArNode → Outcome E → Point ArNode E
  enter_unless_failed next (state, w) = at (if halts state then at_failed else next) state w

  abbrev pub enter_cash : Outcome E → Point ArNode E
  enter_cash (state, w) = at at_apply_cash state w

module _ {E : Type 0} (x : External) (cfg : AppConfig) (client : ErpClient E) where
  unfoldable pub ar_step : Point ArNode E → Point ArNode E
  ar_step (at at_parse state w) = enter_unless_failed at_extract_remittance (parse_node x state w)
  ar_step (at at_extract_remittance state w) =
      leave (enter_unless_failed at_fetch_ar_items) (extract_remittance_node x state w)
  ar_step (at at_fetch_ar_items state w) =
      leave enter_cash (fetch_ar_items_node x cfg client state w)
  ar_step (at at_apply_cash state w) = leave end_at (apply_cash_node x cfg client state w)
  ar_step (at at_failed state w) = end_at (failed_node state w)
  ar_step (paused state w) = paused state w
  ar_step (ended state w) = ended state w
  ar_step (aborted text state w) = aborted text state w

  unfoldable pub ar_steps : ℕ → Point ArNode E → Point ArNode E
  ar_steps zero p = p
  ar_steps (suc n) p = ar_steps n (ar_step p)

  -- The longest way through the graph has four nodes.
  unfoldable pub start_ar : InvoiceState → World E → Point ArNode E
  unfolding ar_steps
  start_ar state w = ar_steps 4 (at at_parse state w)
