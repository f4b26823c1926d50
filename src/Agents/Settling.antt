-- ===== src/Agents/Settling.antt =====
-- The steps of a run of accounts payable, and the row of the run.
use invoice_to_payment_agent.Prelude.{ℕ, zero, suc, ◌≡◌, refl, Option, some, true}
use invoice_to_payment_agent.Prelude.Text.{Text, is_given}
use invoice_to_payment_agent.Schemas.Common.{parsing, extracting}
use invoice_to_payment_agent.Erp.Client.{ErpClient}
use invoice_to_payment_agent.Agents.World.{External, AppConfig, Outcome, Attempt}
use invoice_to_payment_agent.Agents.Decide.{Approval, match_node, exception_node}
use invoice_to_payment_agent.Agents.Graph.{
  ApNode, at_parse, at_extract_invoice, at_persist_invoice, at_duplicate_check, at_resolve_vendor,
  at_fetch_po, at_match, at_raise_exception, at_post_journal, at_rejected, at_failed, Point, at,
  paused, ended, aborted, leave, end_at, ap_step, ap_steps,
}
use invoice_to_payment_agent.Agents.Post.{post_journal_node}
use invoice_to_payment_agent.Agents.Attempts.{Leaves, leave-Leaves}
use invoice_to_payment_agent.Agents.Live.{
  Statuses, RowKept, IsBroken, IsLiveAs, IsLiveAs-IsLive, set_run_status-RowKept,
}
use invoice_to_payment_agent.Agents.LiveNodes.{
  parse_node-IsLive, extract_invoice_node-IsLive, persist_invoice_node-IsLive,
  duplicate_check_node-IsLive, resolve_vendor_node-IsLive, fetch_po_node-IsLive,
}
use invoice_to_payment_agent.Agents.Settled.{
  IsClosed, IsSettled, unless_failed-IsSettled, matched_state-IsSettled, raise_for-IsSettled,
}
use invoice_to_payment_agent.Agents.Closing.{
  post_journal_node-IsClosed, rejected_node-IsClosed, failed_node-IsClosed,
}

module _ {E : Type 0} (x : External) (cfg : AppConfig) (client : ErpClient E) (r : Text)
    (before : Statuses) (named : is_given (some r) ≡ true) where
  abbrev Settled : Point ApNode E → Type 0
  Settled = IsSettled r before

  left-IsSettled :
      (go : Outcome E → Point ApNode E) (a : Attempt E)
      → ((o : Outcome E) → IsLiveAs r before extracting o → Settled (go o))
      → Leaves (IsLiveAs r before extracting) (IsBroken r before) a
      → Settled (leave go a)
  left-IsSettled go a returned =
      leave-Leaves (IsLiveAs r before extracting) (IsBroken r before) Settled go a returned
        (λ text s w h. h)

  ap_step-IsSettled :
      (resume : Option Approval) (p : Point ApNode E)
      → Settled p
      → Settled (ap_step x cfg client resume p)
  unfolding ap_step match_node exception_node
  ap_step-IsSettled resume (at at_parse s w) (f, (o, ((st, row), others))) =
      unless_failed-IsSettled r before parsing _ at_extract_invoice
        (λ s w h. IsLiveAs-IsLive r before parsing (s, w) h)
        (parse_node-IsLive x cfg client r before named st s w (f, (o, (row, others))))
  ap_step-IsSettled resume (at at_extract_invoice s w) (f, (o, ((st, row), others))) =
      left-IsSettled _ _
        (λ o h. unless_failed-IsSettled r before extracting o at_persist_invoice (λ s w h. h) h)
        (extract_invoice_node-IsLive x cfg client r before named st s w (f, (o, (row, others))))
  ap_step-IsSettled resume (at at_persist_invoice s w) h =
      persist_invoice_node-IsLive x cfg client r before named extracting s w h
  ap_step-IsSettled resume (at at_duplicate_check s w) h =
      duplicate_check_node-IsLive x cfg client r before named extracting s w h
  ap_step-IsSettled resume (at at_resolve_vendor s w) h =
      left-IsSettled _ _ (λ o h. h) (resolve_vendor_node-IsLive x cfg client r before named s w h)
  ap_step-IsSettled resume (at at_fetch_po s w) h =
      left-IsSettled _ _ (λ o h. h) (fetch_po_node-IsLive x cfg client r before named s w h)
  ap_step-IsSettled resume (at at_match s w) (f, (o, (row, others))) =
      let h : RowKept r before w = ((extracting, row), others) in
      matched_state-IsSettled r before named x cfg client s s.invoice _ refl
        (f, (o, set_run_status-RowKept r before named _ _ _ (o, h)))
  ap_step-IsSettled resume (at at_raise_exception s w) (i, h) =
      raise_for-IsSettled r before named x cfg client resume s s.match_report w i h
  ap_step-IsSettled resume (at at_post_journal s w) (i, h) =
      leave-Leaves (IsClosed r before) (IsBroken r before) Settled end_at
        (post_journal_node x cfg client s w) (λ o h. h) (λ text s w h. h)
        (post_journal_node-IsClosed x cfg client r before named s w i h)
  ap_step-IsSettled resume (at at_rejected s w) h =
      rejected_node-IsClosed x cfg client r before named s w h
  ap_step-IsSettled resume (at at_failed s w) h =
      failed_node-IsClosed x cfg client r before named s w h
  ap_step-IsSettled resume (paused s w) h = h
  ap_step-IsSettled resume (ended s w) h = h
  ap_step-IsSettled resume (aborted text s w) h = h

  pub ap_steps-IsSettled :
      (resume : Option Approval) (n : ℕ) (p : Point ApNode E)
      → Settled p
      → Settled (ap_steps x cfg client resume n p)
  unfolding ap_steps
  ap_steps-IsSettled resume zero p h = h
  ap_steps-IsSettled resume (suc n) p h =
      ap_steps-IsSettled resume n _ (ap_step-IsSettled resume p h)
