-- ===== src/Schemas/Amounts.antt =====
-- `recomputed_total` and `computed_subtotal` of src/invoice_agent/schemas/invoice.py, which round with
-- the default of `quantize`: half to even.
use invoice_to_payment_agent.Prelude.{ℕ, ◌+◌, ◌-◌, List, [], ◌∷◌, leb, if◌then◌else◌}
use invoice_to_payment_agent.Prelude.Int.{ℤ, pos, negsuc, neg}
use invoice_to_payment_agent.Decimal.{Decimal, cents, zero_decimal, shift_up, add, mul}
use invoice_to_payment_agent.Decimal.Context.{round_digits}
use invoice_to_payment_agent.Schemas.Invoice.{InvoiceLineItem, ExtractedInvoice}

-- The coefficient without its last `k` digits, half to even.
unfoldable pub round_half_even : ℤ → ℕ → ℤ
unfolding round_digits
round_half_even (pos n) k = pos (round_digits n k)
round_half_even (negsuc n) k = neg (round_digits (n + 1) k)

-- `value.quantize(Decimal("0.01"))`
unfoldable pub quantize_even : Decimal → Decimal
unfolding round_half_even shift_up
quantize_even d =
    cents (
      if leb d.scale 2 then shift_up d.coef (2 - d.scale) else round_half_even d.coef (d.scale - 2))

unfoldable pub recomputed_total : InvoiceLineItem → Decimal
unfolding quantize_even mul
recomputed_total item = quantize_even (mul item.quantity item.unit_price)

-- `sum(…, start)`
unfoldable pub sum_from : Decimal → List InvoiceLineItem → Decimal
unfolding add
sum_from start [] = start
sum_from start (item ∷ items) = sum_from (add start item.line_total) items

unfoldable pub computed_subtotal : ExtractedInvoice → Decimal
unfolding sum_from quantize_even
computed_subtotal invoice = quantize_even (sum_from zero_decimal invoice.line_items)
