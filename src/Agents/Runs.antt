-- ===== src/Agents/Runs.antt =====
-- Whole runs of the graph of accounts payable: a property of the world at each of its points.
use invoice_to_payment_agent.Prelude.{
  ℕ, zero, suc, ◌≡◌, inl, inr, Option, none, some, true, Bool-cases, Result, ok, err,
}
use invoice_to_payment_agent.Schemas.Invoice.{ExtractedInvoice}
use invoice_to_payment_agent.Schemas.Erp.{JournalPostingRequest, JournalPostingResult, is_balanced}
use invoice_to_payment_agent.Store.Rows.{PaymentJournal}
use invoice_to_payment_agent.Store.Runs.{save_journal}
use invoice_to_payment_agent.Erp.Client.{ErpError, ErpClient}
use invoice_to_payment_agent.Agents.State.{InvoiceState}
use invoice_to_payment_agent.Agents.World.{External, AppConfig, World, Outcome, Attempt, with_store}
use invoice_to_payment_agent.Agents.Decide.{Approval, NodeResult, done, interrupted, exception_node}
use invoice_to_payment_agent.Agents.Post.{
  post_journal_node, post_request, post_for, settle_posting, rejected_node, failed_node,
}
use invoice_to_payment_agent.Agents.Graph.{
  ApNode, at_parse, at_extract_invoice, at_persist_invoice, at_duplicate_check, at_resolve_vendor,
  at_fetch_po, at_match, at_raise_exception, at_post_journal, at_rejected, at_failed, Point, at,
  paused, ended, aborted, after_raise, leave, end_at, ap_step, ap_steps,
}
use invoice_to_payment_agent.Agents.Attempts.{trying-Leaves, leave-Leaves, leave-any}
use invoice_to_payment_agent.Agents.Kept.{
  Reads, left, LeftBy, parse_node-keeps, extract_invoice_node-keeps, persist_invoice_node-keeps,
  duplicate_check_node-keeps, resolve_vendor_node-keeps, fetch_po_node-keeps,
}
use invoice_to_payment_agent.Agents.KeptDecide.{match_node-keeps, exception_node-keeps, world_after}

-- The calls that the posting adds.
pub record Posts {E : Type 0} (client : ErpClient E) (P : World E → Type 0) : Type 0 where
  pub journal_saved :
      (row : PaymentJournal) (w : World E) → P w → P (with_store (save_journal row) w)
  pub entry_posted :
      (request : JournalPostingRequest) (w : World E)
      → is_balanced request ≡ true
      → P w
      → P (let (a, erp) = client.post_journal_entry request w.erp in record w { erp = erp })

abbrev pub HoldsAt : {E : Type 0} → (World E → Type 0) → Point ApNode E → Type 0
HoldsAt P (at n s w) = P w
HoldsAt P (paused s w) = P w
HoldsAt P (ended s w) = P w
HoldsAt P (aborted text s w) = P w

-- The same of the points before the end, be it an end by an exception.
abbrev pub HoldsBefore : {E : Type 0} → (World E → Type 0) → Point ApNode E → Type 0
HoldsBefore P (at n s w) = P w
HoldsBefore P (paused s w) = P w
HoldsBefore P (ended s w) = Unit
HoldsBefore P (aborted text s w) = Unit

module _ {E : Type 0} (x : External) (cfg : AppConfig) (client : ErpClient E) {P : World E → Type 0}
    (k : Reads client P) where
  after_raise-HoldsAt :
      (s : InvoiceState) (r : NodeResult E) → P (world_after r) → HoldsAt P (after_raise s r)
  after_raise-HoldsAt s (done _ _) h = h
  after_raise-HoldsAt s (interrupted _) h = h

  pub raise_step-HoldsAt :
      (resume : Option Approval) (s : InvoiceState) (w : World E)
      → P w
      → HoldsAt P (after_raise s (exception_node x cfg resume s w))
  raise_step-HoldsAt resume s w h =
      after_raise-HoldsAt s _ (exception_node-keeps x cfg client k resume s w h)

  settle_posting-keeps :
      Posts client P
      → (s : InvoiceState) (request : JournalPostingRequest)
        (r : Result ErpError JournalPostingResult) (w : World E)
      → P w
      → P (left (settle_posting x cfg client s request r w))
  unfolding settle_posting
  settle_posting-keeps p s request (ok _) w h =
      k.status_set _ _ _ (k.audited _ _ _ _ _ (p.journal_saved _ _ h))
  settle_posting-keeps p s request (err _) w h =
      k.status_set _ _ _ (k.audited _ _ _ _ _ (k.case_saved _ _ (p.journal_saved _ _ h)))

  post_request-keeps :
      Posts client P
      → (s : InvoiceState) (request : JournalPostingRequest) (w : World E) → P w
      → LeftBy P (post_request x cfg client s request w)
  unfolding post_request
  post_request-keeps p s request w h = elim (Bool-cases (is_balanced request)) [
    | inl e ↦
        let (posted, erp) = client.post_journal_entry request w.erp in
        let sent : P (record w { erp = erp }) = p.entry_posted request w e h in
        rw e (
          trying-Leaves (λ o. P (left o)) P posted _ s _
            (λ r. settle_posting-keeps p s request r _ sent) sent)
    | inr e ↦ rw e (k.status_set _ _ _ (k.audited _ _ _ _ _ h))
  ]

  post_for-keeps :
      Posts client P
      → (s : InvoiceState) (i : Option ExtractedInvoice) (w : World E) → P w
      → LeftBy P (post_for x cfg client s i w)
  post_for-keeps p s none w h = h
  post_for-keeps p s (some i) w h = post_request-keeps p s _ w h

  post_journal_node-keeps :
      Posts client P
      → (s : InvoiceState) (w : World E) → P w
      → LeftBy P (post_journal_node x cfg client s w)
  unfolding post_journal_node
  post_journal_node-keeps p s w h = post_for-keeps p s s.invoice _ (k.status_set _ _ _ h)

  pub rejected_node-keeps : (s : InvoiceState) (w : World E) → P w → P (left (rejected_node s w))
  unfolding rejected_node
  rejected_node-keeps s w h = k.audited _ _ _ _ _ (k.status_set _ _ _ h)

  failed_node-keeps : (s : InvoiceState) (w : World E) → P w → P (left (failed_node s w))
  unfolding failed_node
  failed_node-keeps s w h = k.status_set _ _ _ h

  left-HoldsAt :
      (go : Outcome E → Point ApNode E) (a : Attempt E)
      → ((o : Outcome E) → P (left o) → HoldsAt P (go o))
      → LeftBy P a
      → HoldsAt P (leave go a)
  left-HoldsAt go a returned =
      leave-Leaves (λ o. P (left o)) P (HoldsAt P) go a returned (λ text s w h. h)

  left-HoldsBefore :
      (go : Outcome E → Point ApNode E) (a : Attempt E)
      → ((o : Outcome E) → P (left o) → HoldsBefore P (go o))
      → LeftBy P a
      → HoldsBefore P (leave go a)
  left-HoldsBefore go a returned =
      leave-Leaves (λ o. P (left o)) P (HoldsBefore P) go a returned (λ text s w h. tt)

  -- Every step keeps what the calls keep.
  pub ap_step-keeps :
      Posts client P
      → (resume : Option Approval) (p : Point ApNode E) → HoldsAt P p
      → HoldsAt P (ap_step x cfg client resume p)
  unfolding ap_step
  ap_step-keeps q resume (at at_parse s w) h = parse_node-keeps x cfg client k s w h
  ap_step-keeps q resume (at at_extract_invoice s w) h =
      left-HoldsAt _ _ (λ o h'. h') (extract_invoice_node-keeps x cfg client k s w h)
  ap_step-keeps q resume (at at_persist_invoice s w) h =
      persist_invoice_node-keeps x cfg client k s w h
  ap_step-keeps q resume (at at_duplicate_check s w) h =
      duplicate_check_node-keeps x cfg client k s w h
  ap_step-keeps q resume (at at_resolve_vendor s w) h =
      left-HoldsAt _ _ (λ o h'. h') (resolve_vendor_node-keeps x cfg client k s w h)
  ap_step-keeps q resume (at at_fetch_po s w) h =
      left-HoldsAt _ _ (λ o h'. h') (fetch_po_node-keeps x cfg client k s w h)
  ap_step-keeps q resume (at at_match s w) h = match_node-keeps x cfg client k s w h
  ap_step-keeps q resume (at at_raise_exception s w) h = raise_step-HoldsAt resume s w h
  ap_step-keeps q resume (at at_post_journal s w) h =
      left-HoldsAt _ _ (λ o h'. h') (post_journal_node-keeps q s w h)
  ap_step-keeps q resume (at at_rejected s w) h = rejected_node-keeps s w h
  ap_step-keeps q resume (at at_failed s w) h = failed_node-keeps s w h
  ap_step-keeps q resume (paused s w) h = h
  ap_step-keeps q resume (ended s w) h = h
  ap_step-keeps q resume (aborted text s w) h = h

  pub ap_steps-keeps :
      Posts client P
      → (resume : Option Approval) (n : ℕ) (p : Point ApNode E) → HoldsAt P p
      → HoldsAt P (ap_steps x cfg client resume n p)
  unfolding ap_steps
  ap_steps-keeps q resume zero p h = h
  ap_steps-keeps q resume (suc n) p h = ap_steps-keeps q resume n _ (ap_step-keeps q resume p h)

  after_raise-HoldsBefore :
      (s : InvoiceState) (r : NodeResult E) → P (world_after r) → HoldsBefore P (after_raise s r)
  after_raise-HoldsBefore s (done _ _) h = h
  after_raise-HoldsBefore s (interrupted _) h = h

  -- Up to the end of the run, the steps keep what the calls before the posting keep.
  ap_step-keeps_before :
      (resume : Option Approval) (p : Point ApNode E)
      → HoldsBefore P p
      → HoldsBefore P (ap_step x cfg client resume p)
  unfolding ap_step
  ap_step-keeps_before resume (at at_parse s w) h = parse_node-keeps x cfg client k s w h
  ap_step-keeps_before resume (at at_extract_invoice s w) h =
      left-HoldsBefore _ _ (λ o h'. h') (extract_invoice_node-keeps x cfg client k s w h)
  ap_step-keeps_before resume (at at_persist_invoice s w) h =
      persist_invoice_node-keeps x cfg client k s w h
  ap_step-keeps_before resume (at at_duplicate_check s w) h =
      duplicate_check_node-keeps x cfg client k s w h
  ap_step-keeps_before resume (at at_resolve_vendor s w) h =
      left-HoldsBefore _ _ (λ o h'. h') (resolve_vendor_node-keeps x cfg client k s w h)
  ap_step-keeps_before resume (at at_fetch_po s w) h =
      left-HoldsBefore _ _ (λ o h'. h') (fetch_po_node-keeps x cfg client k s w h)
  ap_step-keeps_before resume (at at_match s w) h = match_node-keeps x cfg client k s w h
  ap_step-keeps_before resume (at at_raise_exception s w) h =
      after_raise-HoldsBefore s _ (exception_node-keeps x cfg client k resume s w h)
  ap_step-keeps_before resume (at at_post_journal s w) h =
      leave-any (HoldsBefore P) end_at (post_journal_node x cfg client s w) (λ o. tt)
        (λ text s w. tt)
  ap_step-keeps_before resume (at at_rejected s w) h = tt
  ap_step-keeps_before resume (at at_failed s w) h = tt
  ap_step-keeps_before resume (paused s w) h = h
  ap_step-keeps_before resume (ended s w) h = h
  ap_step-keeps_before resume (aborted text s w) h = h

  pub ap_steps-keeps_before :
      (resume : Option Approval) (n : ℕ) (p : Point ApNode E)
      → HoldsBefore P p
      → HoldsBefore P (ap_steps x cfg client resume n p)
  unfolding ap_steps
  ap_steps-keeps_before resume zero p h = h
  ap_steps-keeps_before resume (suc n) p h =
      ap_steps-keeps_before resume n _ (ap_step-keeps_before resume p h)
