-- ===== src/Tests/Nodes.antt =====
-- The nodes and the graph at concrete documents: one invoice that matches its order, and one that
-- does not.
use invoice_to_payment_agent.Prelude.{ℕ, ◌≡◌, refl, true, false, none, some, [], ◌∷◌, ◌↔◌}
use invoice_to_payment_agent.Prelude.Int.{pos}
use invoice_to_payment_agent.Prelude.Text.{text_eq, lower, codes, is_given}
use invoice_to_payment_agent.Decimal.{Decimal, decimal, zero_decimal, lt}
use invoice_to_payment_agent.Schemas.Common.{approved_status}
use invoice_to_payment_agent.Schemas.Erp.{is_balanced}
use invoice_to_payment_agent.Schemas.Matching.{MatchReport, is_postable}
use invoice_to_payment_agent.Matching.Engine.{match_invoice}
use invoice_to_payment_agent.Store.Audit.{trail}
use invoice_to_payment_agent.Store.Cases.{resolved}
use invoice_to_payment_agent.Agents.State.{InvoiceState}
use invoice_to_payment_agent.Agents.Decide.{Approval, evaluate, exception_node}
use invoice_to_payment_agent.Agents.Journal.{journal_amounts, invoice_journal}
use invoice_to_payment_agent.Agents.Balance.{AddUp, journal_amounts-AddUp, is_balanced_iff}
use invoice_to_payment_agent.Agents.Graph.{
  ApNode, at_parse, at_raise_exception, Point, at, ap_step, ap_steps, start_ap,
}
use invoice_to_payment_agent.Agents.KeptDecide.{world_after}
use invoice_to_payment_agent.Agents.Runs.{HoldsAt, HoldsBefore}
use invoice_to_payment_agent.Agents.Reach.{here, next}
use invoice_to_payment_agent.Agents.Guard.{
  VendorKnown, evaluate-postable, IsGuarded, ApReach-IsGuarded,
}
use invoice_to_payment_agent.Agents.Effects.{
  ErpReads, ErpPosts, Untouched, TrailNumbered, start_ap-posts_nothing, run-keeps_ledger,
  run-keeps_trail,
}
use invoice_to_payment_agent.Agents.Replay.{raised, exception_node-saves_twice}
use invoice_to_payment_agent.Tests.Fixtures.{
  outside, config, client, Ledger, world, initial, invoice, invoice_of, vendor, order, receipt,
}

abbrev exact : Decimal
exact = decimal (pos 14280) 2

abbrev too_much : Decimal
too_much = decimal (pos 99900) 2

abbrev start : Point ApNode Ledger
start = at at_parse initial world

-- The state before the match.
abbrev enriched : Decimal → InvoiceState
enriched total = record initial {
  invoice = some (invoice_of total);
  vendor = some vendor;
  purchase_order = some order;
  goods_receipts = receipt ∷ [];
}

evaluate_test : is_postable (evaluate (outside exact) config (enriched exact) invoice) ≡ true
unfolding evaluate match_invoice is_postable invoice_to_payment_agent.Prelude.Text.text_eq
    invoice_to_payment_agent.Prelude.Text.upper invoice_to_payment_agent.Prelude.Text.lower
    invoice_to_payment_agent.Prelude.Text.lstrip invoice_to_payment_agent.Prelude.Text.strip
    invoice_to_payment_agent.Matching.Variance.build_variance
    invoice_to_payment_agent.Matching.Variance.percent_delta
    invoice_to_payment_agent.Matching.Variance.price_variance_of invoice_to_payment_agent.Decimal.le
    invoice_to_payment_agent.Decimal.lt invoice_to_payment_agent.Decimal.eq
    invoice_to_payment_agent.Decimal.abs invoice_to_payment_agent.Decimal.add
    invoice_to_payment_agent.Decimal.sub invoice_to_payment_agent.Decimal.mul
    invoice_to_payment_agent.Decimal.div invoice_to_payment_agent.Decimal.is_nonzero
    invoice_to_payment_agent.Decimal.coef_at invoice_to_payment_agent.Decimal.shift_up
    invoice_to_payment_agent.Decimal.to_cents invoice_to_payment_agent.Decimal.quantize
    invoice_to_payment_agent.Decimal.round_half_up
    invoice_to_payment_agent.Decimal.Context.digit_count
    invoice_to_payment_agent.Decimal.Context.fix invoice_to_payment_agent.Decimal.Context.quotient
    invoice_to_payment_agent.Decimal.Context.round_digits
    invoice_to_payment_agent.Matching.Lines.match_lines
    invoice_to_payment_agent.Matching.Lines.match_lines_from
    invoice_to_payment_agent.Matching.Lines.paired_line
    invoice_to_payment_agent.Matching.Lines.unpaired_line
    invoice_to_payment_agent.Matching.Pairing.pair_line
    invoice_to_payment_agent.Matching.Pairing.pair_by_number
    invoice_to_payment_agent.Matching.Pairing.pair_by_code
    invoice_to_payment_agent.Matching.Pairing.pair_by_description
    invoice_to_payment_agent.Matching.Pairing.add_receipt_lines
    invoice_to_payment_agent.Matching.Pairing.add_receipts
    invoice_to_payment_agent.Matching.Pairing.received_quantities
    invoice_to_payment_agent.Matching.Pairing.score_lines
    invoice_to_payment_agent.Matching.Pairing.sort_scored
    invoice_to_payment_agent.Matching.Pairing.insert_scored
    invoice_to_payment_agent.Matching.Engine.all_exceptions
    invoice_to_payment_agent.Matching.Engine.all_reasons
    invoice_to_payment_agent.Matching.Engine.dedupe
    invoice_to_payment_agent.Matching.Engine.from_keys
    invoice_to_payment_agent.Matching.Engine.po_report
    invoice_to_payment_agent.Matching.Engine.tax_variances
    invoice_to_payment_agent.Matching.Engine.total_variance_of
    invoice_to_payment_agent.Prelude.Int.◌*ℤ◌ invoice_to_payment_agent.Prelude.Int.◌+ℤ◌
    invoice_to_payment_agent.Prelude.Int.◌-ℤ◌ invoice_to_payment_agent.Schemas.Common.same_exception
evaluate_test = refl

evaluate-postable_example :
    (is_given (enriched exact).duplicate_of_run_id ≡ false)
    × VendorKnown (some vendor) invoice.vendor_name
    × (is_postable (match_invoice (λ a b. 100) config.matching invoice (some order) (receipt ∷ []))
        ≡ true)
evaluate-postable_example =
    evaluate-postable (outside exact) config (enriched exact) invoice evaluate_test

ApReach-IsGuarded_example : IsGuarded (outside exact) config (
    ap_step
      (outside exact)
      config
      client
      none
      (ap_step (outside exact) config client none (at at_raise_exception (enriched exact) world)))
ApReach-IsGuarded_example =
    ApReach-IsGuarded (outside exact) config client none
      (at at_raise_exception (enriched exact) world) _ tt (next (next here))

-- Every entry of the ledger is balanced.
abbrev AllBalanced : Ledger → Type 0
AllBalanced [] = Unit
AllBalanced (request ∷ requests) = (is_balanced request ≡ true) × AllBalanced requests

reads : ErpReads client AllBalanced
reads = record {
  vendors_keep = λ e h. h;
  order_keeps = λ number e h. h;
  receipts_keep = λ number e h. h;
}

posts : ErpPosts client AllBalanced
posts = λ request e balanced h. (balanced, h)

run-keeps_ledger_example :
    HoldsAt (λ w. AllBalanced w.erp) (ap_steps (outside exact) config client none 9 start)
run-keeps_ledger_example =
    run-keeps_ledger (outside exact) config client AllBalanced reads posts none 9 start tt

abbrev IsEmpty : Ledger → Type 0
IsEmpty ledger = ledger ≡ []

IsEmpty-reads : ErpReads client IsEmpty
IsEmpty-reads = record {
  vendors_keep = λ e h. h;
  order_keeps = λ number e h. h;
  receipts_keep = λ number e h. h;
}

start_ap-posts_nothing_example :
    HoldsBefore (Untouched IsEmpty []) (start_ap (outside too_much) config client initial world)
start_ap-posts_nothing_example =
    start_ap-posts_nothing (outside too_much) config client IsEmpty IsEmpty-reads initial world refl

run-keeps_trail_example :
    HoldsAt TrailNumbered (ap_steps (outside too_much) config client none 9 start)
unfolding trail
run-keeps_trail_example =
    run-keeps_trail (outside too_much) config client none 9 start (λ run_id. tt)

abbrev report : MatchReport
report = evaluate (outside too_much) config (enriched too_much) (invoice_of too_much)

abbrev matched : InvoiceState
matched = record (enriched too_much) { match_report = some report }

abbrev approval : Approval
approval = record {
  decision = some (codes "Approve");
  approved_by = some (codes "kim");
  note = none;
}

exception_node-saves_twice_example :
    (world_after (
      exception_node
        (outside too_much)
        config
        (some approval)
        matched
        (world_after (exception_node (outside too_much) config none matched world)))).store.cases
    ≡ (raised (outside too_much) matched report 0
        ∷ resolved approved_status (codes "kim") none (raised (outside too_much) matched report 1)
        ∷ [])
unfolding text_eq lower
exception_node-saves_twice_example =
    exception_node-saves_twice (outside too_much) config matched report approval world refl refl tt

journal_amounts-AddUp_example : AddUp (journal_amounts invoice)
journal_amounts-AddUp_example = journal_amounts-AddUp invoice

is_balanced_iff_example :
    (is_balanced (invoice_journal config.erp 20001 (enriched exact) invoice) ≡ true) ↔ (
      (lt zero_decimal (journal_amounts invoice).gross ≡ true)
      × (lt (journal_amounts invoice).tax zero_decimal ≡ false))
is_balanced_iff_example = is_balanced_iff config.erp 20001 (enriched exact) invoice
