-- ===== src/Agents/Guard.antt =====
-- What must hold of a run before it posts.
use invoice_to_payment_agent.Prelude.{
  ◌≡◌, ◌⊎◌, inl, inr, refl, Option, none, some, true, false, ◌||◌, Bool-cases, arith,
}
use invoice_to_payment_agent.Prelude.Text.{Text, is_given}
use invoice_to_payment_agent.Schemas.Invoice.{ExtractedInvoice}
use invoice_to_payment_agent.Schemas.Erp.{Vendor}
use invoice_to_payment_agent.Schemas.Matching.{MatchReport, is_postable}
use invoice_to_payment_agent.Matching.Engine.{match_invoice}
use invoice_to_payment_agent.Erp.Client.{ErpClient}
use invoice_to_payment_agent.Agents.State.{InvoiceState}
use invoice_to_payment_agent.Agents.World.{External, AppConfig, World, Outcome}
use invoice_to_payment_agent.Agents.Decide.{
  Approval, NodeResult, done, interrupted, evaluate, mark_duplicate, mark_vendor, matched_state,
  match_node, AfterMatch, to_failed, to_post, to_exception, route_after_match, route_after_approval,
  is_failed, is_postable_report, is_approve_decision,
}
use invoice_to_payment_agent.Agents.Graph.{
  ApNode, at_parse, at_extract_invoice, at_persist_invoice, at_duplicate_check, at_resolve_vendor,
  at_fetch_po, at_match, at_raise_exception, at_post_journal, at_rejected, at_failed, Point, at,
  paused, ended, aborted, halts, unless_failed, enter, after_raise, after_match, ap_step,
}
use invoice_to_payment_agent.Agents.Extract.{extract_invoice_node}
use invoice_to_payment_agent.Agents.Enrich.{resolve_vendor_node, fetch_po_node}
use invoice_to_payment_agent.Agents.Post.{post_journal_node}
use invoice_to_payment_agent.Agents.Attempts.{leave-any}
use invoice_to_payment_agent.Agents.Reach.{ApReach, here, next}

-- The vendor stands in the vendor master, or the invoice names none.
abbrev pub VendorKnown : Option Vendor → Option Text → Type 0
VendorKnown none vendor_name = is_given vendor_name ≡ false
VendorKnown (some _) vendor_name = Unit

mark_duplicate-postable :
    (duplicate : Option Text) (report : MatchReport)
    → is_postable (mark_duplicate duplicate report) ≡ true
    → (is_given duplicate ≡ false) × (is_postable report ≡ true)
unfolding is_postable
mark_duplicate-postable duplicate report h = elim (Bool-cases (is_given duplicate)) [
  | inl e ↦ ground arith
  | inr e ↦ (e, ground arith)
]

mark_vendor-postable :
    (vendor : Option Vendor) (vendor_name : Option Text) (report : MatchReport)
    → is_postable (mark_vendor vendor vendor_name report) ≡ true
    → VendorKnown vendor vendor_name × (is_postable report ≡ true)
unfolding is_postable
mark_vendor-postable (some v) vendor_name report h = (tt, h)
mark_vendor-postable none vendor_name report h = elim (Bool-cases (is_given vendor_name)) [
  | inl e ↦ ground arith
  | inr e ↦ (e, ground arith)
]

-- The evaluation of an invoice is postable only if the invoice was not processed before, its vendor
-- is known, and the match of its amounts and lines is postable by itself.
pub evaluate-postable :
    (x : External) (cfg : AppConfig) (state : InvoiceState) (invoice : ExtractedInvoice)
    → is_postable (evaluate x cfg state invoice) ≡ true
    → (is_given state.duplicate_of_run_id ≡ false)
      × VendorKnown state.vendor invoice.vendor_name
      × (is_postable (
            match_invoice x.token_set_ratio cfg.matching invoice state.purchase_order
              state.goods_receipts)
          ≡ true)
unfolding evaluate
evaluate-postable x cfg state invoice h =
    let (known, rest) = mark_vendor-postable state.vendor invoice.vendor_name _ h in
    let (fresh, passed) = mark_duplicate-postable state.duplicate_of_run_id _ rest in
    (fresh, known, passed)

-- The state holds the evaluation of its own invoice, and that is postable.
pub record Evaluated (x : External) (cfg : AppConfig) (s : InvoiceState) : Type 0 where
  pub invoice : ExtractedInvoice
  pub has_invoice : s.invoice ≡ some invoice
  pub has_report : s.match_report ≡ some (evaluate x cfg s invoice)
  pub postable : is_postable (evaluate x cfg s invoice) ≡ true

abbrev pub IsGuarded : {E : Type 0} → External → AppConfig → Point ApNode E → Type 0
IsGuarded x cfg (at at_post_journal s w) =
    Evaluated x cfg s ⊎ (is_approve_decision s.approval_decision ≡ true)
IsGuarded x cfg _ = Unit

route_after_match-to_post :
    (s : InvoiceState) → route_after_match s ≡ to_post → is_postable_report s.match_report ≡ true
unfolding route_after_match
route_after_match-to_post s h = elim (Bool-cases (is_given s.error || is_failed s.status)) [
  | inl e ↦ ground arith
  | inr e ↦ ground arith
]

module _ {E : Type 0} (x : External) (cfg : AppConfig) where
  after_match-IsGuarded :
      (r : AfterMatch) (s : InvoiceState) (w : World E)
      → (r ≡ to_post → Evaluated x cfg s)
      → IsGuarded x cfg (at (after_match r) s w)
  after_match-IsGuarded to_failed s w h = tt
  after_match-IsGuarded to_post s w h = inl (h refl)
  after_match-IsGuarded to_exception s w h = tt

  matched_state-IsGuarded :
      (s : InvoiceState) (i : Option ExtractedInvoice) (w : World E)
      → s.invoice ≡ i
      → IsGuarded x cfg
          (enter (λ s'. after_match (route_after_match s')) (matched_state x cfg s i w))
  unfolding route_after_match evaluate
  matched_state-IsGuarded s none w e = elim (Bool-cases (is_given s.error)) [
    | inl t ↦ tt
    | inr t ↦ tt
  ]
  matched_state-IsGuarded s (some invoice) w e = after_match-IsGuarded _ _ _ (λ h. record {
    invoice = invoice;
    has_invoice = e;
    has_report = refl;
    postable = route_after_match-to_post (matched_state x cfg s (some invoice) w).0 h;
  })

  after_raise-IsGuarded : (s : InvoiceState) (r : NodeResult E) → IsGuarded x cfg (after_raise s r)
  unfolding route_after_approval
  after_raise-IsGuarded s (interrupted w) = tt
  after_raise-IsGuarded s (done s' w) =
      elim (Bool-cases (is_approve_decision s'.approval_decision)) [
        | inl e ↦ rw e (inr e)
        | inr e ↦ rw e tt
      ]

  unless_failed-IsGuarded :
      (o : Outcome E) (n : ApNode)
      → ((s : InvoiceState) (w : World E) → IsGuarded x cfg (at n s w))
      → IsGuarded x cfg (enter (unless_failed n) o)
  unless_failed-IsGuarded (s, w) n h = elim (Bool-cases (halts s)) [
    | inl e ↦ rw e tt
    | inr e ↦ rw e (h s w)
  ]

module _ {E : Type 0} (x : External) (cfg : AppConfig) (client : ErpClient E) where
  ap_step-IsGuarded :
      (resume : Option Approval) (p : Point ApNode E)
      → IsGuarded x cfg (ap_step x cfg client resume p)
  unfolding ap_step match_node
  ap_step-IsGuarded resume (at at_parse s w) =
      unless_failed-IsGuarded x cfg _ at_extract_invoice (λ s w. tt)
  ap_step-IsGuarded resume (at at_extract_invoice s w) =
      leave-any (IsGuarded x cfg) _ (extract_invoice_node x s w)
        (λ o. unless_failed-IsGuarded x cfg o at_persist_invoice (λ s w. tt)) (λ text s w. tt)
  ap_step-IsGuarded resume (at at_persist_invoice s w) = tt
  ap_step-IsGuarded resume (at at_duplicate_check s w) = tt
  ap_step-IsGuarded resume (at at_resolve_vendor s w) =
      leave-any (IsGuarded x cfg) _ (resolve_vendor_node x cfg client s w) (λ o. tt)
        (λ text s w. tt)
  ap_step-IsGuarded resume (at at_fetch_po s w) =
      leave-any (IsGuarded x cfg) _ (fetch_po_node x cfg client s w) (λ o. tt) (λ text s w. tt)
  ap_step-IsGuarded resume (at at_match s w) = matched_state-IsGuarded x cfg s s.invoice _ refl
  ap_step-IsGuarded resume (at at_raise_exception s w) = after_raise-IsGuarded x cfg s _
  ap_step-IsGuarded resume (at at_post_journal s w) =
      leave-any (IsGuarded x cfg) _ (post_journal_node x cfg client s w) (λ o. tt) (λ text s w. tt)
  ap_step-IsGuarded resume (at at_rejected s w) = tt
  ap_step-IsGuarded resume (at at_failed s w) = tt
  ap_step-IsGuarded resume (paused s w) = tt
  ap_step-IsGuarded resume (ended s w) = tt
  ap_step-IsGuarded resume (aborted text s w) = tt

  -- Whenever a run that did not start there, or that was guarded where it started, stands before the
  -- posting, its state holds a postable evaluation of its own invoice or the decision to approve.
  pub ApReach-IsGuarded :
      (resume : Option Approval) (p q : Point ApNode E)
      → IsGuarded x cfg p
      → ApReach x cfg client resume p q
      → IsGuarded x cfg q
  ApReach-IsGuarded resume p q h here = h
  ApReach-IsGuarded resume p q h (next {q = q'} r) = ap_step-IsGuarded resume q'
