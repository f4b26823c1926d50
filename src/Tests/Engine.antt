-- ===== src/Tests/Engine.antt =====
-- The matching engine and the arithmetic at concrete inputs.
use invoice_to_payment_agent.Prelude.{ℕ, ◌≤◌, ◌≡◌, ◌↔◌, refl, true, none, some, [], ◌∷◌, In}
use invoice_to_payment_agent.Prelude.Int.{pos, negsuc, magnitude}
use invoice_to_payment_agent.Prelude.Dict.{lookup}
use invoice_to_payment_agent.Prelude.Text.{Text}
use invoice_to_payment_agent.Decimal.{decimal, quantize}
use invoice_to_payment_agent.Decimal.Rounding.{IsNearest, quantize-IsNearest}
use invoice_to_payment_agent.Schemas.Erp.{PurchaseOrderLine}
use invoice_to_payment_agent.Schemas.Matching.{is_postable}
use invoice_to_payment_agent.Schemas.Config.{default_matching}
use invoice_to_payment_agent.Matching.Pairing.{
  is_free, pair_by_description, description_threshold, received_quantities,
}
use invoice_to_payment_agent.Matching.Lines.{match_lines}
use invoice_to_payment_agent.Matching.Engine.{match_invoice}
use invoice_to_payment_agent.Matching.Clean.{IsClean, is_postable-iff-IsClean}
use invoice_to_payment_agent.Matching.Distinct.{AreFresh, paired_numbers, match_lines-AreFresh}
use invoice_to_payment_agent.Matching.BestScore.{score_of, pair_by_description_best}
use invoice_to_payment_agent.Matching.Receipts.{sum_onto, received_quantities_lem}
use invoice_to_payment_agent.Tests.Fixtures.{po_line, order, receipt, line_item, invoice}

-- A stand-in for `token_set_ratio`.
abbrev ratio : Text → Text → ℕ
ratio a b = 10000

-- -1.2345 is rounded to -1.23.
quantize-IsNearest_example :
    IsNearest (magnitude (quantize (decimal (negsuc 12344) 4)).coef) 12345 100
quantize-IsNearest_example = quantize-IsNearest (negsuc 12344) 2

is_postable-iff-IsClean_example :
    (is_postable (match_invoice ratio default_matching invoice (some order) (receipt ∷ [])) ≡ true)
    ↔ IsClean ratio default_matching invoice order (receipt ∷ [])
is_postable-iff-IsClean_example =
    is_postable-iff-IsClean ratio default_matching invoice order (receipt ∷ [])

match_lines-AreFresh_example : AreFresh ratio order [] (
    paired_numbers ratio
      (match_lines ratio invoice order
        (received_quantities (receipt ∷ []))
        true
        default_matching).0)
match_lines-AreFresh_example =
    match_lines-AreFresh ratio invoice order (received_quantities (receipt ∷ [])) true
      default_matching

paired_test : pair_by_description ratio line_item (po_line ∷ []) [] ≡ some po_line
unfolding pair_by_description
paired_test = refl

pair_by_description_best_example :
    (description_threshold ≤ score_of ratio line_item po_line)
    × ((q : PurchaseOrderLine)
        → In q (po_line ∷ [])
        → is_free [] q ≡ true
        → score_of ratio line_item q ≤ score_of ratio line_item po_line)
pair_by_description_best_example =
    pair_by_description_best ratio line_item (po_line ∷ []) [] po_line paired_test

received_quantities_lem_example :
    lookup 10 (received_quantities (receipt ∷ receipt ∷ []))
    ≡ sum_onto none (decimal (pos 10) 0 ∷ decimal (pos 10) 0 ∷ [])
received_quantities_lem_example = received_quantities_lem 10 (receipt ∷ receipt ∷ [])
