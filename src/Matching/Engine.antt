-- ===== src/Matching/Engine.antt =====
-- `match_invoice` of matching/engine.py. The configuration that the source takes from `get_config()`
-- by default is an argument.
use invoice_to_payment_agent.Prelude.{
  ℕ, Bool, false, not, ◌&&◌, ◌||◌, Option, none, some, List, [], ◌∷◌, ◌++◌, map, ltb, if◌then◌else◌,
  is_empty,
}
use invoice_to_payment_agent.Prelude.Text.{Text, text_eq, text_or, upper}
use invoice_to_payment_agent.Decimal.{Decimal, zero_decimal, some_or, lt, eq, is_nonzero, quantize}
use invoice_to_payment_agent.Schemas.Common.{
  two_way, three_way, non_po, MatchOutcome, matched, matched_within_tolerance, exception,
  ExceptionType, total_variance, tax_variance, missing_po, missing_goods_receipt,
  low_confidence_extraction, over_auto_post_ceiling, currency_mismatch, same_exception,
}
use invoice_to_payment_agent.Schemas.Invoice.{ExtractedInvoice}
use invoice_to_payment_agent.Schemas.Erp.{PurchaseOrder, GoodsReceipt}
use invoice_to_payment_agent.Schemas.Matching.{
  Variance, Reason, no_po_reference, receipt_missing, currency_differs, total_differs, tax_differs,
  confidence_below, over_ceiling, all_within, exact_match, MatchReport,
}
use invoice_to_payment_agent.Schemas.Config.{MatchingConfig}
use invoice_to_payment_agent.Matching.Variance.{build_variance}
use invoice_to_payment_agent.Matching.Pairing.{received_quantities}
use invoice_to_payment_agent.Matching.Lines.{flag, match_lines}

abbrev pub has_exception : ExceptionType → List ExceptionType → Bool
has_exception e [] = false
has_exception e (x ∷ xs) = same_exception e x || has_exception e xs

-- `dict.fromkeys`: the keys so far, in order, then each new one.
unfoldable pub from_keys : List ExceptionType → List ExceptionType → List ExceptionType
from_keys seen [] = seen
from_keys seen (e ∷ es) = from_keys (if has_exception e seen then seen else seen ++ (e ∷ [])) es

-- `list(dict.fromkeys(exceptions))`
unfoldable pub dedupe : List ExceptionType → List ExceptionType
unfolding from_keys
dedupe = from_keys []

abbrev pub invoice_total : ExtractedInvoice → Decimal
invoice_total invoice = some_or invoice.total_amount zero_decimal

abbrev pub invoice_currency : ExtractedInvoice → PurchaseOrder → Text
invoice_currency invoice po = upper (text_or invoice.currency po.currency)

unfoldable pub total_variance_of : ExtractedInvoice → PurchaseOrder → MatchingConfig → Variance
total_variance_of invoice po cfg =
    build_variance "total_amount" (invoice_total invoice) po.gross_amount cfg.total_tolerance_abs
      cfg.total_tolerance_pct total_variance

-- The tax is compared only where the invoice states it and the order has some.
abbrev pub tax_variances_at : Option Decimal → PurchaseOrder → MatchingConfig → List Variance
tax_variances_at none po cfg = []
tax_variances_at (some tax) po cfg = flag (is_nonzero po.tax_amount) (
    build_variance "tax_amount" tax po.tax_amount cfg.tax_tolerance_abs cfg.total_tolerance_pct
      tax_variance)

unfoldable pub tax_variances : ExtractedInvoice → PurchaseOrder → MatchingConfig → List Variance
tax_variances invoice po cfg = tax_variances_at invoice.tax_amount po cfg

-- The exceptions and reasons of the tax comparison, if it was made.
abbrev pub tax_exceptions : List Variance → List ExceptionType
tax_exceptions [] = []
tax_exceptions (v ∷ _) = flag (not v.within_tolerance) tax_variance

abbrev pub tax_reasons : List Variance → List Reason
tax_reasons [] = []
tax_reasons (v ∷ _) = flag (not v.within_tolerance) (tax_differs v.invoice_value v.reference_value)

-- `any(v.absolute_delta != 0 for v in header_variances)`
abbrev pub any_delta : List Variance → Bool
any_delta [] = false
any_delta (v ∷ vs) = not (eq v.absolute_delta zero_decimal) || any_delta vs

-- The report on an invoice without an order.
unfoldable pub non_po_report : ExtractedInvoice → MatchReport
non_po_report invoice = record {
  match_type = non_po;
  outcome = exception;
  po_number = none;
  gr_numbers = [];
  vendor_id = none;
  header_variances = [];
  line_matches = [];
  exceptions = missing_po ∷ [];
  reasons = no_po_reference ∷ [];
  matched_amount = invoice_total invoice;
  confidence = invoice.confidence;
}

-- The outcome and the closing reason.
abbrev pub outcome_of : List ExceptionType → List Variance → MatchOutcome
outcome_of (_ ∷ _) variances = exception
outcome_of [] variances = if any_delta variances then matched_within_tolerance else matched

abbrev pub closing_reason : List ExceptionType → List Variance → List Reason
closing_reason (_ ∷ _) variances = []
closing_reason [] variances = (if any_delta variances then all_within else exact_match) ∷ []

module _ (ratio : Text → Text → ℕ) (cfg : MatchingConfig) where
  -- The exceptions in the order in which the source appends them.
  unfoldable pub all_exceptions :
      ExtractedInvoice → PurchaseOrder → List GoodsReceipt → List ExceptionType
  unfolding total_variance_of tax_variances
  all_exceptions invoice po goods_receipts =
      flag (po.goods_receipt_required && is_empty goods_receipts) missing_goods_receipt
      ++ (flag (not (text_eq (invoice_currency invoice po) (upper po.currency))) currency_mismatch
          ++ (flag (not (total_variance_of invoice po cfg).within_tolerance) total_variance
              ++ (tax_exceptions (tax_variances invoice po cfg)
                  ++ ((match_lines ratio invoice po (received_quantities goods_receipts)
                        po.goods_receipt_required cfg).1
                      ++ (flag (ltb invoice.confidence cfg.min_extraction_confidence)
                            low_confidence_extraction
                          ++ flag (lt cfg.auto_post_ceiling (invoice_total invoice))
                              over_auto_post_ceiling)))))

  -- The reasons that go with them.
  unfoldable pub all_reasons : ExtractedInvoice → PurchaseOrder → List GoodsReceipt → List Reason
  unfolding total_variance_of tax_variances
  all_reasons invoice po goods_receipts =
      let total = total_variance_of invoice po cfg in
      flag (po.goods_receipt_required && is_empty goods_receipts) (receipt_missing po.po_number)
      ++ (flag (not (text_eq (invoice_currency invoice po) (upper po.currency)))
            (currency_differs (invoice_currency invoice po) po.currency)
          ++ (flag (not total.within_tolerance) (
                total_differs total.invoice_value total.reference_value total.absolute_delta
                  total.percent_delta)
              ++ (tax_reasons (tax_variances invoice po cfg)
                  ++ ((match_lines ratio invoice po (received_quantities goods_receipts)
                        po.goods_receipt_required cfg).2
                      ++ (flag (ltb invoice.confidence cfg.min_extraction_confidence)
                            (confidence_below invoice.confidence cfg.min_extraction_confidence)
                          ++ flag (lt cfg.auto_post_ceiling (invoice_total invoice)) (
                              over_ceiling (quantize (invoice_total invoice))
                                cfg.auto_post_ceiling))))))

  -- The report on an invoice with an order.
  unfoldable pub po_report : ExtractedInvoice → PurchaseOrder → List GoodsReceipt → MatchReport
  unfolding all_exceptions all_reasons dedupe total_variance_of tax_variances
  po_report invoice po goods_receipts =
      let header_variances = total_variance_of invoice po cfg ∷ tax_variances invoice po cfg in
      let deduped = dedupe (all_exceptions invoice po goods_receipts) in
      record {
        match_type = if po.goods_receipt_required then three_way else two_way;
        outcome = outcome_of deduped header_variances;
        po_number = some po.po_number;
        gr_numbers = map (λ gr. gr.gr_number) goods_receipts;
        vendor_id = some po.vendor_id;
        header_variances = header_variances;
        line_matches =
            (match_lines ratio invoice po (received_quantities goods_receipts)
              po.goods_receipt_required cfg).0;
        exceptions = deduped;
        reasons = all_reasons invoice po goods_receipts ++ closing_reason deduped header_variances;
        matched_amount = quantize (invoice_total invoice);
        confidence = invoice.confidence;
      }

  unfoldable pub match_invoice :
      ExtractedInvoice → Option PurchaseOrder → List GoodsReceipt → MatchReport
  unfolding non_po_report po_report
  match_invoice invoice none goods_receipts = non_po_report invoice
  match_invoice invoice (some po) goods_receipts = po_report invoice po goods_receipts
