-- ===== src/Agents/SettledCash.antt =====
-- Where the points of a run for a remittance stand in the table of runs.
use invoice_to_payment_agent.Prelude.{
  ℕ, zero, suc, ◌≡◌, refl, Option, none, some, Result, ok, err, Bool, true, false, inl, inr,
  Bool-cases, List, [], ◌∷◌,
}
use invoice_to_payment_agent.Prelude.Text.{Text, is_given}
use invoice_to_payment_agent.Decimal.{Decimal}
use invoice_to_payment_agent.Schemas.Common.{
  RunStatus, parsing, extracting, posting, cash_applied, awaiting_approval, completed, failed,
}
use invoice_to_payment_agent.Schemas.Invoice.{ExtractedRemittance}
use invoice_to_payment_agent.Schemas.Erp.{ArItem, CashApplicationResult}
use invoice_to_payment_agent.Matching.Remittance.{Unresolved}
use invoice_to_payment_agent.Store.Rows.{RemittanceRow}
use invoice_to_payment_agent.Store.Runs.{save_remittance}
use invoice_to_payment_agent.Store.Cases.{save_exception}
use invoice_to_payment_agent.Store.Status.{run_status}
use invoice_to_payment_agent.Erp.Client.{ErpError, ErpClient}
use invoice_to_payment_agent.Agents.State.{InvoiceState}
use invoice_to_payment_agent.Agents.World.{
  External, AppConfig, World, Outcome, set_run_status, status_only, agent, with_store,
}
use invoice_to_payment_agent.Agents.Extract.{parse_node, remittance_state, extract_remittance_node}
use invoice_to_payment_agent.Agents.Post.{failed_node}
use invoice_to_payment_agent.Agents.Receivable.{
  Posted, cash_status, raise_unresolved, remittance_row, customer_of, fetch_items, with_items,
  fetch_ar_for, fetch_ar_items_node, settle_cash, applied_or_raised, apply_for, apply_cash_node,
}
use invoice_to_payment_agent.Agents.Graph.{Point, at, paused, ended, aborted, halts, end_at}
use invoice_to_payment_agent.Agents.ReceivableGraph.{
  ArNode, at_parse, at_extract_remittance, at_fetch_ar_items, at_apply_cash, at_failed,
  enter_unless_failed, enter_cash, ar_step, ar_steps,
}
use invoice_to_payment_agent.Agents.Attempts.{Leaves, trying-Leaves, leave-Leaves}
use invoice_to_payment_agent.Agents.Live.{
  Statuses, RowKept, IsBroken, IsOwn, IsOwnAs, IsLive, IsLiveAs, RowAt-RowKept, IsLiveAs-IsLive,
  audit-RowAt, audit-RowKept, set_run_status-own, set_run_status-RowKept, set_run_status-RowAt,
}
use invoice_to_payment_agent.Agents.LiveNodes.{parse_node-IsLive}

-- How a run for a remittance ends: closed, or with nothing applied.
abbrev pub is_cash_end : RunStatus → Bool
is_cash_end completed = true
is_cash_end failed = true
is_cash_end awaiting_approval = true
is_cash_end _ = false

abbrev pub HasRemittance : InvoiceState → Type 0
HasRemittance s = (m : ExtractedRemittance) × (s.remittance ≡ some m)

is_cash_end-cash_status :
    (applied : List CashApplicationResult) → is_cash_end (cash_status applied) ≡ true
is_cash_end-cash_status [] = refl
is_cash_end-cash_status (_ ∷ _) = refl

module _ {E : Type 0} (r : Text) (before : Statuses) where
  abbrev pub IsCashClosed : Outcome E → Type 0
  IsCashClosed (s, w) =
      (run_status r w.store ≡ some s.status) × (is_cash_end s.status ≡ true) × RowKept r before w

  abbrev pub IsCashSettled : Point ArNode E → Type 0
  IsCashSettled (at at_fetch_ar_items s w) = HasRemittance s × IsOwnAs r before extracting s w
  IsCashSettled (at at_apply_cash s w) = HasRemittance s × IsOwn r before s w
  IsCashSettled (at at_failed s w) = IsOwn r before s w
  IsCashSettled (at n s w) = IsLive r before (s, w)
  IsCashSettled (paused s w) = ⊥
  IsCashSettled (ended s w) = IsCashClosed (s, w)
  IsCashSettled (aborted text s w) = IsBroken r before w

module _ {E : Type 0} (x : External) (cfg : AppConfig) (client : ErpClient E) (r : Text)
    (before : Statuses) (named : is_given (some r) ≡ true) where
  abbrev Settled : Point ArNode E → Type 0
  Settled = IsCashSettled r before

  parsed-Settled :
      (o : Outcome E) → IsLive r before o → Settled (enter_unless_failed at_extract_remittance o)
  parsed-Settled (s, w) h = elim (Bool-cases (halts s)) [ inl e ↦ rw e h.1 | inr e ↦ rw e h ]

  remittance_state-Settled :
      (s : InvoiceState) (m : Result Text ExtractedRemittance) (w : World E)
      → IsLiveAs r before extracting (s, w)
      → Settled (enter_unless_failed at_fetch_ar_items (remittance_state x s m w))
  unfolding halts
  remittance_state-Settled s (err _) w (f, (o, h)) =
      (o, audit-RowKept r before _ _ _ _ _ (RowAt-RowKept r before extracting w h))
  remittance_state-Settled s (ok m) w (f, (o, h)) = elim (Bool-cases (halts s)) [
    | inl e ↦ rw e (o, audit-RowKept r before _ _ _ _ _ (RowAt-RowKept r before extracting w h))
    | inr e ↦ rw e ((m, refl), (o, audit-RowAt r before extracting _ _ _ _ _ h))
  ]

  with_items-IsOwn :
      (s : InvoiceState) (w : World E) (a : Result ErpError (List ArItem))
      → HasRemittance s × IsOwn r before s w
      → let (s', w') = with_items x cfg client s w a in HasRemittance s' × IsOwn r before s' w'
  with_items-IsOwn s w (ok _) (m, (o, h)) = (m, (o, audit-RowKept r before _ _ _ _ _ h))
  with_items-IsOwn s w (err _) (m, (o, h)) = (m, (o, audit-RowKept r before _ _ _ _ _ h))

  abbrev Fetched : Outcome E → Type 0
  Fetched (s, w) = HasRemittance s × IsOwn r before s w

  fetch_ar_for-IsOwn :
      (s : InvoiceState) (m : Option ExtractedRemittance) (w : World E)
      → HasRemittance s × IsOwnAs r before extracting s w
      → Leaves Fetched (IsBroken r before) (fetch_ar_for x cfg client s m w)
  fetch_ar_for-IsOwn s none w (m, (o, row)) = (m, (o, RowAt-RowKept r before extracting w row))
  fetch_ar_for-IsOwn s (some m) w (has, (o, row)) =
      let (items, erp) = fetch_items x cfg client m (customer_of x cfg client m w.erp) in
      trying-Leaves Fetched (IsBroken r before) items _ s (record w { erp = erp })
        (λ a.
          with_items-IsOwn s (record w { erp = erp }) a
            (has, (o, RowAt-RowKept r before extracting w row)))
        (extracting, refl, row)

  cash_row-RowKept :
      (id : Text) (unresolved : List Unresolved) (row : RemittanceRow) (w : World E)
      → RowKept r before w
      → RowKept r before
          (with_store (λ s. raise_unresolved id unresolved (save_remittance row s)) w)
  unfolding run_status save_exception save_remittance
  cash_row-RowKept id [] row w h = h
  cash_row-RowKept id (_ ∷ _) row w h = h

  settle_cash-IsCashClosed :
      (s : InvoiceState) (m : ExtractedRemittance) (residual : Decimal) (posted : Posted E)
      (w : World E)
      → IsOwn r before s w
      → IsCashClosed r before (settle_cash x cfg client s m residual posted w)
  unfolding settle_cash
  settle_cash-IsCashClosed s m residual posted w (o, h) =
      let kept = audit-RowKept r before s cash_applied "apply_cash" agent _ (
        cash_row-RowKept s.run_id posted.unresolved
          (remittance_row s.run_id m posted.applied posted.unresolved residual)
          (record w { erp = posted.erp }) h) in
      (
        set_run_status-own r before named s _ _ (o, kept),
        is_cash_end-cash_status posted.applied,
        set_run_status-RowKept r before named s _ _ (o, kept),
      )

  applied_or_raised-IsCashClosed :
      (s : InvoiceState) (m : ExtractedRemittance) (residual : Decimal) (raised : Option Text)
      (posted : Posted E) (w : World E)
      → IsOwnAs r before posting s w
      → Leaves
          (IsCashClosed r before)
          (IsBroken r before)
          (applied_or_raised x cfg client s m residual raised posted w)
  applied_or_raised-IsCashClosed s m residual none posted w (o, row) =
      settle_cash-IsCashClosed s m residual posted w (o, RowAt-RowKept r before posting w row)
  applied_or_raised-IsCashClosed s m residual (some text) posted w (o, row) = (posting, refl, row)

  apply_for-IsCashClosed :
      (s : InvoiceState) (m : Option ExtractedRemittance) (w : World E)
      → HasRemittance s
      → s.remittance ≡ m
      → IsOwnAs r before posting s w
      → Leaves (IsCashClosed r before) (IsBroken r before) (apply_for x cfg client s m w)
  apply_for-IsCashClosed s none w (m, e) e' h = cc
  apply_for-IsCashClosed s (some m) w has e' h = applied_or_raised-IsCashClosed s m _ _ _ w h

  ar_step-Settled : (p : Point ArNode E) → Settled p → Settled (ar_step x cfg client p)
  unfolding ar_step extract_remittance_node fetch_ar_items_node apply_cash_node failed_node
  ar_step-Settled (at at_parse s w) (f, (o, ((st, row), others))) =
      parsed-Settled (parse_node x s w) (
        IsLiveAs-IsLive r before parsing (parse_node x s w)
          (parse_node-IsLive x cfg client r before named st s w (f, (o, (row, others)))))
  ar_step-Settled (at at_extract_remittance s w) (f, h) =
      let w' = set_run_status s (status_only extracting) w in
      let live : IsLiveAs r before extracting (s, w') =
        (f, (h.0, set_run_status-RowAt r before named _ _ _ h)) in
      leave-Leaves (λ o. Settled (enter_unless_failed at_fetch_ar_items o)) (IsBroken r before)
        Settled (enter_unless_failed at_fetch_ar_items) _ (λ o h. h) (λ text s w h. h)
        (trying-Leaves (λ o. Settled (enter_unless_failed at_fetch_ar_items o)) (IsBroken r before)
          (x.extract_remittance s.document_markdown) _ s w'
          (λ m. remittance_state-Settled s m w' live) (extracting, refl, live.1.1))
  ar_step-Settled (at at_fetch_ar_items s w) h =
      leave-Leaves Fetched (IsBroken r before) Settled enter_cash _ (λ o h. h) (λ text s w h. h)
        (fetch_ar_for-IsOwn s s.remittance w h)
  ar_step-Settled (at at_apply_cash s w) (m, h) =
      leave-Leaves (IsCashClosed r before) (IsBroken r before) Settled end_at _ (λ o h. h)
        (λ text s w h. h)
        (apply_for-IsCashClosed s s.remittance _ m refl
          (h.0, set_run_status-RowAt r before named _ _ _ h))
  ar_step-Settled (at at_failed s w) h = (
    set_run_status-own r before named s _ w h,
    refl,
    set_run_status-RowKept r before named s _ w h,
  )
  ar_step-Settled (paused s w) h = h
  ar_step-Settled (ended s w) h = h
  ar_step-Settled (aborted text s w) h = h

  pub ar_steps-Settled :
      (n : ℕ) (p : Point ArNode E) → Settled p → Settled (ar_steps x cfg client n p)
  unfolding ar_steps
  ar_steps-Settled zero p h = h
  ar_steps-Settled (suc n) p h = ar_steps-Settled n _ (ar_step-Settled p h)
