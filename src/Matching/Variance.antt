-- ===== src/Matching/Variance.antt =====
-- Variances of matching/engine.py: `_build_variance` and `_price_variance`.
use invoice_to_payment_agent.Prelude.{◌||◌, none, some, String, if◌then◌else◌}
use invoice_to_payment_agent.Prelude.Int.{pos}
use invoice_to_payment_agent.Decimal.{
  Decimal, decimal, zero_decimal, hundred, decimal_or, sub, mul, div, abs, lt, le, is_nonzero,
  quantize,
}
use invoice_to_payment_agent.Schemas.Common.{ExceptionType, price_variance}
use invoice_to_payment_agent.Schemas.Invoice.{InvoiceLineItem}
use invoice_to_payment_agent.Schemas.Erp.{PurchaseOrderLine}
use invoice_to_payment_agent.Schemas.Matching.{Variance}
use invoice_to_payment_agent.Schemas.Config.{MatchingConfig}

-- `pct_delta`, which both functions compute alike.
unfoldable pub percent_delta : Decimal → Decimal → Decimal
percent_delta abs_delta reference =
    if is_nonzero reference
    then quantize (mul (div abs_delta (abs reference)) hundred)
    else (if lt zero_decimal abs_delta then decimal (pos 10000) 2 else decimal (pos 0) 2)

unfoldable pub build_variance :
    String → Decimal → Decimal → Decimal → Decimal → ExceptionType → Variance
unfolding percent_delta
build_variance field invoice_value reference_value tolerance_abs tolerance_pct exception_type =
    let delta = sub invoice_value reference_value in
    let abs_delta = abs delta in
    let pct_delta = percent_delta abs_delta reference_value in
    let within = le abs_delta tolerance_abs || le pct_delta tolerance_pct in
    record {
      field = field;
      invoice_value = quantize invoice_value;
      reference_value = quantize reference_value;
      absolute_delta = quantize delta;
      percent_delta = pct_delta;
      tolerance_abs = tolerance_abs;
      tolerance_pct = tolerance_pct;
      within_tolerance = within;
      exception_type = if within then none else some exception_type;
      value_impact = none;
    }

unfoldable pub price_variance_of : InvoiceLineItem → PurchaseOrderLine → MatchingConfig → Variance
unfolding percent_delta
price_variance_of invoice_line po_line cfg =
    let delta = sub invoice_line.unit_price po_line.unit_price in
    let abs_delta = abs delta in
    let reference = po_line.unit_price in
    let pct_delta = percent_delta abs_delta reference in
    let quantity = decimal_or invoice_line.quantity po_line.quantity_ordered in
    let value_impact = quantize (mul abs_delta quantity) in
    let within = le pct_delta cfg.price_tolerance_pct || le value_impact cfg.price_tolerance_abs in
    record {
      field = "unit_price";
      invoice_value = quantize invoice_line.unit_price;
      reference_value = quantize reference;
      absolute_delta = quantize delta;
      percent_delta = pct_delta;
      tolerance_abs = cfg.price_tolerance_abs;
      tolerance_pct = cfg.price_tolerance_pct;
      within_tolerance = within;
      exception_type = if within then none else some price_variance;
      value_impact = some value_impact;
    }
