-- ===== src/Ingestion/Confidence.antt =====
-- ingestion/confidence.py. The signals and their weights are floats there; here they are exact, and
-- the score is counted in ten-thousandths, the unit to which it is rounded.
use invoice_to_payment_agent.Prelude.{
  ℕ, ◌+◌, ◌*◌, ◌/◌, ◌%◌, Bool, not, ◌&&◌, ◌||◌, Option, none, some, List, [], ◌∷◌, is_empty,
  if◌then◌else◌, length, select, ltb, leb, ◌==◌,
}
use invoice_to_payment_agent.Prelude.Int.{pos}
use invoice_to_payment_agent.Prelude.Text.{is_given}
use invoice_to_payment_agent.Decimal.{Decimal, decimal, add, sub, abs, le, is_nonzero}
use invoice_to_payment_agent.Schemas.Invoice.{InvoiceLineItem, ExtractedInvoice}
use invoice_to_payment_agent.Schemas.Amounts.{recomputed_total, computed_subtotal}

-- `_ARITHMETIC_TOLERANCE`
abbrev pub arithmetic_tolerance : Decimal
arithmetic_tolerance = decimal (pos 5) 2

abbrev pub is_close : Decimal → Decimal → Bool
is_close a b = le (abs (sub a b)) arithmetic_tolerance

abbrev pub present {ℓ} : {A : Type ℓ} → Option A → ℕ
present none = 0
present (some _) = 1

-- How many of `_REQUIRED_FIELDS` are there.
unfoldable pub required_fields : ExtractedInvoice → ℕ
required_fields invoice =
    present invoice.invoice_number
    + present invoice.invoice_date
    + present invoice.vendor_name
    + present invoice.total_amount
    + present invoice.currency

-- A signal that is 1, 0, or 0.5 where there is nothing to check.
pub data Check : Type 0 where
  passed missed unknown : Check

abbrev pub check : Bool → Check
check b = if b then passed else missed

abbrev sum_check : ExtractedInvoice → Option Decimal → Check
sum_check invoice none = unknown
sum_check invoice (some subtotal) =
    if is_empty invoice.line_items
    then unknown
    else check (is_close (computed_subtotal invoice) subtotal)

unfoldable pub lines_sum_to_subtotal : ExtractedInvoice → Check
unfolding computed_subtotal sub abs le
lines_sum_to_subtotal invoice = sum_check invoice invoice.subtotal

abbrev totals_check : Option Decimal → Option Decimal → Option Decimal → Check
totals_check (some subtotal) (some tax) (some total) = check (is_close (add subtotal tax) total)
totals_check _ _ _ = unknown

unfoldable pub totals_reconcile : ExtractedInvoice → Check
unfolding add sub abs le
totals_reconcile invoice = totals_check invoice.subtotal invoice.tax_amount invoice.total_amount

-- The items that have a total, and those of them whose price and quantity make it.
abbrev pub priced : List InvoiceLineItem → List InvoiceLineItem
priced items = select (λ item. is_nonzero item.line_total) items

abbrev pub is_consistent : InvoiceLineItem → Bool
is_consistent item = is_close (recomputed_total item) item.line_total

-- `line_arithmetic` as a fraction
abbrev pub share : List InvoiceLineItem → ℕ × ℕ
share [] = (1, 2)
share (item ∷ items) = (length (select is_consistent (item ∷ items)), length (item ∷ items))

unfoldable pub line_arithmetic : ExtractedInvoice → ℕ × ℕ
unfolding recomputed_total sub abs le is_nonzero
line_arithmetic invoice = share (priced invoice.line_items)

-- `max(0.0, min(1.0, invoice.confidence))`
abbrev pub self_report : ℕ → ℕ
self_report confidence = if leb confidence 10000 then confidence else 10000

-- A check at its weight.
abbrev pub weigh : ℕ → Check → ℕ
weigh weight passed = weight
weigh weight missed = 0
weigh weight unknown = weight / 2

-- a / b rounded half to even
unfoldable pub round_fraction : ℕ → ℕ → ℕ
round_fraction a b =
    let q = a / b in
    let r = a % b in if ltb b (2 * r) || (b == 2 * r && not (q % 2 == 0)) then q + 1 else q

-- The signals with a weight in whole ten-thousandths.
unfoldable pub whole_part : ExtractedInvoice → ℕ
unfolding required_fields lines_sum_to_subtotal totals_reconcile
whole_part invoice =
    500 * required_fields invoice
    + weigh 2000 (totals_reconcile invoice)
    + weigh 1500 (lines_sum_to_subtotal invoice)
    + (if is_empty invoice.line_items then 0 else 500)
    + (if is_given invoice.purchase_order_number then 500 else 0)

-- The score of `score_extraction`. With `n` items, the sum is a number of (100 · n)ths.
unfoldable pub score_extraction : ExtractedInvoice → ℕ
unfolding whole_part line_arithmetic round_fraction
score_extraction invoice =
    let (good, n) = line_arithmetic invoice in
    round_fraction
      (whole_part invoice * (100 * n) + 150000 * good + 15 * (self_report invoice.confidence * n))
      (100 * n)
