-- ===== src/Matching/Receipts.antt =====
-- `_received_quantities`, compared with the sums over the receipts.
use mathlib.Core.List.{append-nil}
use invoice_to_payment_agent.Prelude.{
  ℕ, ◌≡◌, refl, ◌∙◌, sym, ap, inl, inr, Bool-cases, ==→eq, Option, none, some, List, [], ◌∷◌, ◌++◌,
  ◌==◌, if◌then◌else◌, or_else,
}
use invoice_to_payment_agent.Prelude.Dict.{Dict, lookup, lookup-insert}
use invoice_to_payment_agent.Decimal.{Decimal, zero_decimal, add}
use invoice_to_payment_agent.Schemas.Erp.{GoodsReceipt, GoodsReceiptLine}
use invoice_to_payment_agent.Matching.Pairing.{
  add_receipt_line, add_receipt_lines, add_receipts, received_quantities,
}

-- The quantities that the receipts' lines state for one line of the order, in order.
abbrev pub quantities_of : ℕ → List GoodsReceiptLine → List Decimal
quantities_of n [] = []
quantities_of n (l ∷ ls) =
    let rest = quantities_of n ls in
    if n == l.po_line_number then l.quantity_received ∷ rest else rest

abbrev pub all_quantities_of : ℕ → List GoodsReceipt → List Decimal
all_quantities_of n [] = []
all_quantities_of n (gr ∷ grs) = quantities_of n gr.lines ++ all_quantities_of n grs

-- `sum(quantities, start)`
abbrev pub sum_from : Decimal → List Decimal → Decimal
sum_from acc [] = acc
sum_from acc (q ∷ qs) = sum_from (add acc q) qs

-- The sum of the quantities on top of a total, where there is any of them.
abbrev pub sum_onto : Option Decimal → List Decimal → Option Decimal
sum_onto total [] = total
sum_onto total (q ∷ qs) = some (sum_from (or_else total zero_decimal) (q ∷ qs))

sum_onto-cons :
    (total : Option Decimal) (q : Decimal) (qs : List Decimal)
    → sum_onto (some (add (or_else total zero_decimal) q)) qs ≡ sum_onto total (q ∷ qs)
sum_onto-cons total q [] = refl
sum_onto-cons total q (r ∷ rs) = refl

sum_from-append :
    (acc : Decimal) (ps qs : List Decimal) → sum_from acc (ps ++ qs) ≡ sum_from (sum_from acc ps) qs
sum_from-append acc [] qs = refl
sum_from-append acc (p ∷ ps) qs = sum_from-append (add acc p) ps qs

sum_onto-append :
    (total : Option Decimal) (ps qs : List Decimal)
    → sum_onto (sum_onto total ps) qs ≡ sum_onto total (ps ++ qs)
sum_onto-append total [] qs = refl
sum_onto-append total (p ∷ ps) [] = rw append-nil
sum_onto-append total (p ∷ ps) (q ∷ qs) =
    ap some (sym (sum_from-append (add (or_else total zero_decimal) p) ps (q ∷ qs)))

lookup-add_receipt_lines :
    (n : ℕ) (ls : List GoodsReceiptLine) (totals : Dict Decimal)
    → lookup n (add_receipt_lines ls totals) ≡ sum_onto (lookup n totals) (quantities_of n ls)
unfolding add_receipt_lines
lookup-add_receipt_lines n [] totals = refl
lookup-add_receipt_lines n (l ∷ ls) totals =
    lookup-add_receipt_lines n ls (add_receipt_line l totals)
    ∙ rw
        (lookup-insert n l.po_line_number
          (add (or_else (lookup l.po_line_number totals) zero_decimal) l.quantity_received) totals)
        (elim (Bool-cases (n == l.po_line_number)) [
          | inl e ↦
              rw (e, ← ==→eq n l.po_line_number e)
                (sum_onto-cons (lookup n totals) l.quantity_received (quantities_of n ls))
          | inr e ↦ rw e
        ])

lookup-add_receipts :
    (n : ℕ) (grs : List GoodsReceipt) (totals : Dict Decimal)
    → lookup n (add_receipts grs totals) ≡ sum_onto (lookup n totals) (all_quantities_of n grs)
unfolding add_receipts
lookup-add_receipts n [] totals = refl
lookup-add_receipts n (gr ∷ grs) totals =
    lookup-add_receipts n grs (add_receipt_lines gr.lines totals)
    ∙ rw (lookup-add_receipt_lines n gr.lines totals)
        (sum_onto-append (lookup n totals) (quantities_of n gr.lines) (all_quantities_of n grs))

-- A line of the order has a received quantity exactly if a receipt names it, and then it is the sum
-- of all that the receipts say of it, from zero and in order.
pub received_quantities_lem :
    (n : ℕ) (grs : List GoodsReceipt)
    → lookup n (received_quantities grs) ≡ sum_onto none (all_quantities_of n grs)
unfolding received_quantities
received_quantities_lem n grs = lookup-add_receipts n grs []
