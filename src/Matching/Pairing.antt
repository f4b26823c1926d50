-- ===== src/Matching/Pairing.antt =====
-- `_received_quantities` and `_pair_line` of matching/engine.py. The score of two descriptions is
-- computed by a library (`rapidfuzz.fuzz.token_set_ratio`), so it is a parameter, in hundredths of
-- its unit.
use invoice_to_payment_agent.Prelude.{
  ℕ, Bool, false, not, ◌&&◌, ◌||◌, Option, none, some, List, [], ◌∷◌, map, leb, ◌==◌, if◌then◌else◌,
  find, select, or_else,
}
use invoice_to_payment_agent.Prelude.Dict.{Dict, lookup, insert}
use invoice_to_payment_agent.Prelude.Text.{Text, text_eq, strip, upper, lower, text_or, is_given}
use invoice_to_payment_agent.Decimal.{Decimal, zero_decimal, add}
use invoice_to_payment_agent.Schemas.Invoice.{InvoiceLineItem}
use invoice_to_payment_agent.Schemas.Erp.{PurchaseOrderLine, GoodsReceipt, GoodsReceiptLine}

-- One pass of the inner loop of `_received_quantities`.
abbrev pub add_receipt_line : GoodsReceiptLine → Dict Decimal → Dict Decimal
add_receipt_line line totals =
    insert line.po_line_number
      (add (or_else (lookup line.po_line_number totals) zero_decimal) line.quantity_received) totals

unfoldable pub add_receipt_lines : List GoodsReceiptLine → Dict Decimal → Dict Decimal
add_receipt_lines [] totals = totals
add_receipt_lines (l ∷ ls) totals = add_receipt_lines ls (add_receipt_line l totals)

unfoldable pub add_receipts : List GoodsReceipt → Dict Decimal → Dict Decimal
unfolding add_receipt_lines
add_receipts [] totals = totals
add_receipts (gr ∷ grs) totals = add_receipts grs (add_receipt_lines gr.lines totals)

unfoldable pub received_quantities : List GoodsReceipt → Dict Decimal
unfolding add_receipts
received_quantities goods_receipts = add_receipts goods_receipts []

-- `n in consumed`
abbrev pub member : ℕ → List ℕ → Bool
member n [] = false
member n (m ∷ ms) = n == m || member n ms

-- `s.strip().upper()`
abbrev pub normal_code : Text → Text
normal_code s = upper (strip s)

abbrev pub description_threshold : ℕ
description_threshold = 7500

abbrev pub has_number : ℕ → PurchaseOrderLine → Bool
has_number n line = line.line_number == n

abbrev pub is_free : List ℕ → PurchaseOrderLine → Bool
is_free consumed line = not (member line.line_number consumed)

unfoldable pub pair_by_number :
    InvoiceLineItem → List PurchaseOrderLine → List ℕ → Option PurchaseOrderLine
pair_by_number invoice_line po_lines consumed = elim invoice_line.po_line_number [
  | none ↦ none
  | some n ↦ find (λ line. has_number n line && is_free consumed line) po_lines
]

unfoldable pub pair_by_code :
    InvoiceLineItem → List PurchaseOrderLine → List ℕ → Option PurchaseOrderLine
pair_by_code invoice_line po_lines consumed =
    if is_given invoice_line.material_code
    then (let code = normal_code (text_or invoice_line.material_code []) in
        find
          (λ line.
            text_eq (normal_code (text_or line.material_code [])) code && is_free consumed line)
          po_lines)
    else none

abbrev pub Scored : Type 0
Scored = ℕ × PurchaseOrderLine

-- A stable sort by falling score: an element goes before the first one that does not beat it.
unfoldable pub insert_scored : Scored → List Scored → List Scored
insert_scored p [] = p ∷ []
insert_scored p (q ∷ qs) = if leb q.0 p.0 then p ∷ q ∷ qs else q ∷ insert_scored p qs

unfoldable pub sort_scored : List Scored → List Scored
unfolding insert_scored
sort_scored [] = []
sort_scored (p ∷ ps) = insert_scored p (sort_scored ps)

-- `scored[0][1]`, if it reaches the threshold.
abbrev pub best_scored : List Scored → Option PurchaseOrderLine
best_scored [] = none
best_scored ((score, line) ∷ _) = if leb description_threshold score then some line else none

module _ (ratio : Text → Text → ℕ) where
  unfoldable pub score_lines : InvoiceLineItem → List PurchaseOrderLine → List ℕ → List Scored
  score_lines invoice_line po_lines consumed =
      map (λ line. (ratio (lower invoice_line.description) (lower line.description), line))
        (select (is_free consumed) po_lines)

  unfoldable pub pair_by_description :
      InvoiceLineItem → List PurchaseOrderLine → List ℕ → Option PurchaseOrderLine
  unfolding score_lines sort_scored
  pair_by_description invoice_line po_lines consumed =
      if is_given (some invoice_line.description)
      then best_scored (sort_scored (score_lines invoice_line po_lines consumed))
      else none

  -- `_pair_line`: each attempt is made only if those before it found no line.
  unfoldable pub pair_line :
      InvoiceLineItem → List PurchaseOrderLine → List ℕ → Option PurchaseOrderLine
  pair_line invoice_line po_lines consumed = elim (pair_by_number invoice_line po_lines consumed) [
    | some exact ↦ some exact
    | none ↦ elim (pair_by_code invoice_line po_lines consumed) [
      | some by_code ↦ some by_code
      | none ↦ pair_by_description invoice_line po_lines consumed
    ]
  ]
