-- ===== src/Agents/Settled.antt =====
-- Where the points of a run of accounts payable stand in the table of runs.
use invoice_to_payment_agent.Prelude.{ℕ, ◌≡◌, Option, none, some, true, inl, inr, Bool-cases}
use invoice_to_payment_agent.Prelude.Text.{Text, is_given}
use invoice_to_payment_agent.Schemas.Common.{RunStatus, extracting, awaiting_approval}
use invoice_to_payment_agent.Schemas.Invoice.{ExtractedInvoice}
use invoice_to_payment_agent.Schemas.Matching.{MatchReport}
use invoice_to_payment_agent.Store.Runs.{is_final, save_match}
use invoice_to_payment_agent.Store.Cases.{save_exception, resolve_exception}
use invoice_to_payment_agent.Store.Audit.{append_audit}
use invoice_to_payment_agent.Store.Status.{run_status}
use invoice_to_payment_agent.Erp.Client.{ErpClient}
use invoice_to_payment_agent.Agents.State.{InvoiceState}
use invoice_to_payment_agent.Agents.World.{External, AppConfig, World, Outcome}
use invoice_to_payment_agent.Agents.Decide.{
  Approval, matched_state, open_case, close_case, resolve_case, at_interrupt, raise_for, AfterMatch,
  to_failed, to_post, to_exception, route_after_match, AfterApproval, to_post_approved, to_rejected,
}
use invoice_to_payment_agent.Agents.Graph.{
  ApNode, at_parse, at_extract_invoice, at_raise_exception, at_post_journal, at_rejected, at_failed,
  Point, at, paused, ended, aborted, halts, unless_failed, enter, after_match, after_approval,
  after_raise,
}
use invoice_to_payment_agent.Agents.Kept.{audit-keeps}
use invoice_to_payment_agent.Agents.Live.{
  Statuses, RowKept, IsBroken, IsOwn, IsLive, IsLiveAs, RowAt-RowKept, audit-RowKept,
  set_run_status-own, set_run_status-RowKept,
}

abbrev pub HasInvoice : InvoiceState → Type 0
HasInvoice s = (i : ExtractedInvoice) × (s.invoice ≡ some i)

module _ {E : Type 0} (r : Text) (before : Statuses) where
  -- The end of a run: its row has the status of the state, which is a final one.
  abbrev pub IsClosed : Outcome E → Type 0
  IsClosed (s, w) =
      (run_status r w.store ≡ some s.status) × (is_final s.status ≡ true) × RowKept r before w

  abbrev pub IsWaiting : World E → Type 0
  IsWaiting w = (run_status r w.store ≡ some awaiting_approval) × RowKept r before w

  abbrev pub IsSettled : Point ApNode E → Type 0
  IsSettled (at at_post_journal s w) = HasInvoice s × IsOwn r before s w
  IsSettled (at at_raise_exception s w) = HasInvoice s × IsLive r before (s, w)
  IsSettled (at at_rejected s w) = IsOwn r before s w
  IsSettled (at at_failed s w) = IsOwn r before s w
  IsSettled (at at_parse s w) = IsLive r before (s, w)
  IsSettled (at at_extract_invoice s w) = IsLive r before (s, w)
  IsSettled (at n s w) = IsLiveAs r before extracting (s, w)
  IsSettled (paused s w) = IsWaiting w × HasInvoice s × IsLive r before (s, w)
  IsSettled (ended s w) = IsClosed (s, w)
  IsSettled (aborted text s w) = IsBroken r before w

  pub unless_failed-IsSettled :
      (st : RunStatus) (o : Outcome E) (n : ApNode)
      → ((s : InvoiceState) (w : World E) → IsLiveAs r before st (s, w) → IsSettled (at n s w))
      → IsLiveAs r before st o
      → IsSettled (enter (unless_failed n) o)
  unless_failed-IsSettled st (s, w) n early h = elim (Bool-cases (halts s)) [
    | inl e ↦ rw e (h.1.0, RowAt-RowKept r before st w h.1.1)
    | inr e ↦ rw e (early s w h)
  ]

  after_match-IsSettled :
      (a : AfterMatch) (s : InvoiceState) (w : World E)
      → HasInvoice s
      → IsLive r before (s, w)
      → IsSettled (at (after_match a) s w)
  after_match-IsSettled to_failed s w i h = h.1
  after_match-IsSettled to_post s w i h = (i, h.1)
  after_match-IsSettled to_exception s w i h = (i, h)

  after_approval-IsSettled :
      (a : AfterApproval) (s : InvoiceState) (w : World E)
      → HasInvoice s
      → IsOwn r before s w
      → IsSettled (at (after_approval a) s w)
  after_approval-IsSettled to_post_approved s w i h = (i, h)
  after_approval-IsSettled to_rejected s w i h = h

  resolve_case-RowKept :
      (id : Option ℕ) (approval : Approval) (w : World E)
      → RowKept r before w
      → RowKept r before (resolve_case id approval w)
  unfolding run_status resolve_exception
  resolve_case-RowKept none approval w h = h
  resolve_case-RowKept (some id) approval w h = h

  module _ (named : is_given (some r) ≡ true) (x : External) (cfg : AppConfig)
      (client : ErpClient E) where
    pub matched_state-IsSettled :
        (s : InvoiceState) (i : Option ExtractedInvoice) (w : World E)
        → s.invoice ≡ i
        → IsLive r before (s, w)
        → IsSettled (enter (λ s'. after_match (route_after_match s')) (matched_state x cfg s i w))
    unfolding route_after_match run_status save_match
    matched_state-IsSettled s none w e h = h.1
    matched_state-IsSettled s (some i) w e (f, (o, h)) =
        after_match-IsSettled _ _ _ (i, e) (f, (o, audit-RowKept r before _ _ _ _ _ h))

    -- What the node leaves before the interrupt.
    open_case-IsWaiting :
        (s : InvoiceState) (report : MatchReport) (w : World E)
        → HasInvoice s
        → IsLive r before (s, w)
        → let (s', w') = open_case x cfg s report w in
          HasInvoice s' × (s'.run_id ≡ r) × IsWaiting w'
    unfolding open_case run_status save_exception append_audit
    open_case-IsWaiting s report w i (f, (o, h)) = rw f (
      i,
      o,
      audit-keeps IsWaiting (λ id new w h. h) _ _ _ _ _
          (
            set_run_status-own r before named _ _ _ (o, h),
            set_run_status-RowKept r before named _ _ _ (o, h),
          ),
    )

    close_case-IsOwn :
        (s : InvoiceState) (approval : Approval) (w : World E)
        → IsOwn r before s w
        → let (s', w') = close_case s approval w in IsOwn r before s' w'
    unfolding close_case
    close_case-IsOwn s approval w (o, h) = (
      o,
      audit-RowKept r before _ _ _ _ _ (resolve_case-RowKept s.exception_case_id approval w h),
    )

    at_interrupt-IsSettled :
        (resume : Option Approval) (s : InvoiceState) (o : Outcome E)
        → HasInvoice s × IsLive r before (s, o.1)
        → HasInvoice o.0 × (o.0.run_id ≡ r) × IsWaiting o.1
        → IsSettled (after_raise s (at_interrupt x cfg resume o))
    unfolding close_case
    at_interrupt-IsSettled none s (s', w') (i, l) (i', o', (h, k)) = ((h, k), i, l)
    at_interrupt-IsSettled (some approval) s (s', w') p (i', o', (h, k)) =
        after_approval-IsSettled _ _ _ i' (close_case-IsOwn s' approval w' (o', k))

    pub raise_for-IsSettled :
        (resume : Option Approval) (s : InvoiceState) (report : Option MatchReport) (w : World E)
        → HasInvoice s
        → IsLive r before (s, w)
        → IsSettled (after_raise s (raise_for x cfg resume s report w))
    raise_for-IsSettled resume s none w i h = after_approval-IsSettled _ _ _ i h.1
    raise_for-IsSettled resume s (some report) w i h =
        let opened = open_case-IsWaiting s report w i h in
        at_interrupt-IsSettled resume s (open_case x cfg s report w) (i, (h.0, (h.1.0, opened.2.1)))
          opened
