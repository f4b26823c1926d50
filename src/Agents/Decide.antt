-- ===== src/Agents/Decide.antt =====
-- agents/nodes/decide.py: the match, the approval queue and the two routings.
use invoice_to_payment_agent.Prelude.{
  Bool, true, false, ◌||◌, ℕ, none, some, Option, List, [], ◌∷◌, ◌++◌, String, if◌then◌else◌,
  or_else,
}
use invoice_to_payment_agent.Prelude.Text.{Text, codes, is_given, text_or, text_eq, lower}
use invoice_to_payment_agent.Schemas.Common.{
  ExceptionType, total_variance, tax_variance, missing_po, duplicate_invoice, unknown_vendor,
  low_confidence_extraction, over_auto_post_ceiling, currency_mismatch, erp_posting_failed,
  exception, matching, awaiting_approval, failed, RunStatus, approved_status, rejected_status,
  match_evaluated, exception_raised, human_decision,
}
use invoice_to_payment_agent.Schemas.Invoice.{ExtractedInvoice}
use invoice_to_payment_agent.Schemas.Erp.{Vendor}
use invoice_to_payment_agent.Schemas.Matching.{
  MatchReport, is_postable, already_processed, vendor_unresolved,
}
use invoice_to_payment_agent.Store.Rows.{MatchRow}
use invoice_to_payment_agent.Store.Runs.{save_match}
use invoice_to_payment_agent.Store.Cases.{NewCase, save_exception, resolve_exception}
use invoice_to_payment_agent.Matching.Engine.{dedupe, match_invoice}
use invoice_to_payment_agent.Agents.State.{InvoiceState, match_summary, human_verdict}
use invoice_to_payment_agent.Agents.World.{
  External, AppConfig, World, Outcome, with_store, audit, set_run_status, agent, status_only,
}

-- `_SEVERITY.get(exception_type, "medium")`
unfoldable pub severity : ExceptionType → String
severity duplicate_invoice = "high"
severity unknown_vendor = "high"
severity missing_po = "high"
severity over_auto_post_ceiling = "high"
severity currency_mismatch = "high"
severity erp_posting_failed = "high"
severity tax_variance = "low"
severity low_confidence_extraction = "low"
severity _ = "medium"

-- The report after the check for a duplicate.
abbrev pub mark_duplicate : Option Text → MatchReport → MatchReport
mark_duplicate duplicate report =
    if is_given duplicate
    then record report {
      exceptions = dedupe (duplicate_invoice ∷ report.exceptions);
      outcome = exception;
      reasons = already_processed (text_or duplicate []) ∷ report.reasons;
    }
    else report

-- The report after the check of the vendor.
abbrev pub mark_vendor : Option Vendor → Option Text → MatchReport → MatchReport
mark_vendor none vendor_name report =
    if is_given vendor_name
    then record report {
      exceptions = dedupe (report.exceptions ++ (unknown_vendor ∷ []));
      outcome = exception;
      reasons = report.reasons ++ (vendor_unresolved (text_or vendor_name []) ∷ []);
    }
    else report
mark_vendor (some vendor) vendor_name report = record report { vendor_id = some vendor.vendor_id }

-- The decision of an approver, which resumes the run: the value of `interrupt`.
pub record Approval : Type 0 where
  pub decision : Option Text
  pub approved_by : Option Text
  pub note : Option Text

abbrev pub is_approve : Text → Bool
is_approve verdict = text_eq verdict (codes "approve")

abbrev pub is_approve_decision : Option Text → Bool
is_approve_decision none = false
is_approve_decision (some verdict) = is_approve verdict

-- A node that may stop at an interrupt.
pub data NodeResult (E : Type 0) : Type 0 where
  done : InvoiceState → World E → NodeResult E
  interrupted : World E → NodeResult E

abbrev pub match_row : InvoiceState → MatchReport → MatchRow
match_row state report = record {
  run_id = state.run_id;
  match_type = report.match_type;
  outcome = report.outcome;
  po_number = report.po_number;
  gr_numbers = report.gr_numbers;
  matched_amount = report.matched_amount;
  confidence = report.confidence;
  header_variances = report.header_variances;
  line_matches = report.line_matches;
  exceptions = report.exceptions;
  reasons = report.reasons;
}

-- `report.exceptions[0] if report.exceptions else TOTAL_VARIANCE`
abbrev pub primary_of : List ExceptionType → ExceptionType
primary_of [] = total_variance
primary_of (e ∷ _) = e

abbrev pub verdict_of : Approval → Text
verdict_of approval = lower (or_else approval.decision (codes "reject"))

abbrev pub approver_of : Approval → Text
approver_of approval = or_else approval.approved_by (codes "unknown")

module _ (x : External) (cfg : AppConfig) where
  unfoldable pub evaluate : InvoiceState → ExtractedInvoice → MatchReport
  evaluate state invoice = mark_vendor state.vendor invoice.vendor_name (
      mark_duplicate state.duplicate_of_run_id (
        match_invoice x.token_set_ratio cfg.matching invoice state.purchase_order
          state.goods_receipts))

module _ (x : External) where
  abbrev pub new_case : InvoiceState → MatchReport → List Text → NewCase
  new_case state report policy = record {
    run_id = state.run_id;
    exception_type = primary_of report.exceptions;
    severity = severity (primary_of report.exceptions);
    suggested_action = x.draft_guidance report policy;
  }

module _ {E : Type 0} where
  abbrev pub resolve_case : Option ℕ → Approval → World E → World E
  resolve_case none approval w = w
  resolve_case (some id) approval w =
      with_store
        (resolve_exception id
          (if is_approve (verdict_of approval) then approved_status else rejected_status)
          (approver_of approval) approval.note)
        w

  -- The node from the interrupt on.
  unfoldable pub close_case : InvoiceState → Approval → World E → Outcome E
  close_case state approval w = (
    record state {
      approval_decision = some (verdict_of approval);
      approved_by = some (approver_of approval);
      approval_note = text_or approval.note [];
      decisions = state.decisions ++ (human_verdict (verdict_of approval) approval.note ∷ []);
    },
    audit state human_decision "human_approval" (approver_of approval)
        (resolve_case state.exception_case_id approval w),
  )

module _ {E : Type 0} (x : External) (cfg : AppConfig) where
  abbrev pub matched_state : InvoiceState → Option ExtractedInvoice → World E → Outcome E
  matched_state state none w =
      (record state { status = failed; error = some (codes "no extracted invoice to match") }, w)
  matched_state state (some invoice) w =
      let report = evaluate x cfg state invoice in
      (
        record state {
          match_report = some report;
          decisions = state.decisions ++ (match_summary report ∷ []);
        },
        audit state match_evaluated "match" agent
            (with_store (save_match (match_row state report)) w),
      )

  unfoldable pub match_node : InvoiceState → World E → Outcome E
  unfolding evaluate
  match_node state w =
      matched_state state state.invoice (set_run_status state (status_only matching) w)

  -- The node up to the interrupt: the case is saved unless the state has one.
  unfoldable pub open_case : InvoiceState → MatchReport → World E → Outcome E
  open_case state report w = elim state.exception_case_id [
    | some _ ↦ (state, w)
    | none ↦
        let policy = x.retrieve_policy report.exceptions in
        let (case, store) = save_exception (new_case x state report policy) w.store in
        (
          record state {
            exception_case_id = some case.id;
            exception_guidance = x.draft_guidance report policy;
            policy_extracts = policy;
          },
          audit state exception_raised "raise_exception" agent
              (set_run_status state (status_only awaiting_approval) (record w { store = store })),
        )
  ]

  abbrev pub at_interrupt : Option Approval → Outcome E → NodeResult E
  at_interrupt none (state, w) = interrupted w
  at_interrupt (some approval) (state, w) =
      let (state', w') = close_case state approval w in done state' w'

  abbrev pub raise_for :
      Option Approval → InvoiceState → Option MatchReport → World E → NodeResult E
  raise_for resume state none w =
      done (record state { status = failed; error = some (codes "no match report to escalate") }) w
  raise_for resume state (some report) w = at_interrupt resume (open_case state report w)

  -- The whole node. `interrupt` raises where there is no decision yet, and returns the decision where
  -- the run is resumed with one. The state that the node had before the interrupt is not kept.
  unfoldable pub exception_node : Option Approval → InvoiceState → World E → NodeResult E
  unfolding open_case close_case
  exception_node resume state w = raise_for resume state state.match_report w

abbrev pub is_failed : RunStatus → Bool
is_failed failed = true
is_failed _ = false

abbrev pub is_postable_report : Option MatchReport → Bool
is_postable_report none = false
is_postable_report (some report) = is_postable report

pub data AfterMatch : Type 0 where
  to_failed to_post to_exception : AfterMatch

unfoldable pub route_after_match : InvoiceState → AfterMatch
unfolding is_postable
route_after_match state =
    if is_given state.error || is_failed state.status
    then to_failed
    else (if is_postable_report state.match_report then to_post else to_exception)

pub data AfterApproval : Type 0 where
  to_post_approved to_rejected : AfterApproval

unfoldable pub route_after_approval : InvoiceState → AfterApproval
route_after_approval state =
    if is_approve_decision state.approval_decision then to_post_approved else to_rejected
