-- ===== src/Matching/Lines.antt =====
-- `_match_lines` of matching/engine.py.
use invoice_to_payment_agent.Prelude.{
  ℕ, zero, suc, ◌+◌, ◌≡◌, Bool, false, not, ◌&&◌, String, Option, none, some, List, [], ◌∷◌, ◌++◌,
  if◌then◌else◌, is_empty, take, or_else,
}
use invoice_to_payment_agent.Prelude.Dict.{Dict, lookup}
use invoice_to_payment_agent.Prelude.Text.{Text, text_or}
use invoice_to_payment_agent.Decimal.{Decimal, zero_decimal, lt}
use invoice_to_payment_agent.Schemas.Common.{
  ExceptionType, price_variance, quantity_variance, missing_goods_receipt, line_not_on_po,
}
use invoice_to_payment_agent.Schemas.Invoice.{InvoiceLineItem, ExtractedInvoice}
use invoice_to_payment_agent.Schemas.Erp.{PurchaseOrder, PurchaseOrderLine}
use invoice_to_payment_agent.Schemas.Matching.{
  Variance, LineMatch, Reason, no_counterpart, price_differs, quantity_differs, short_receipt,
}
use invoice_to_payment_agent.Schemas.Config.{MatchingConfig}
use invoice_to_payment_agent.Matching.Variance.{build_variance, price_variance_of}
use invoice_to_payment_agent.Matching.Pairing.{pair_line}

-- `n or index`: the number 0 counts as absent.
abbrev pub number_or : Option ℕ → ℕ → ℕ
number_or none d = d
number_or (some zero) d = d
number_or (some (suc n)) d = suc n

-- `[e] if flagged else []`
abbrev pub flag {ℓ} : {A : Type ℓ} → Bool → A → List A
flag b e = if b then e ∷ [] else []

abbrev pub quantity_variance_of : InvoiceLineItem → Decimal → String → MatchingConfig → Variance
quantity_variance_of invoice_line reference field cfg =
    build_variance field invoice_line.quantity reference cfg.quantity_tolerance_abs
      cfg.quantity_tolerance_pct quantity_variance

-- What one round of the loop appends to the three lists.
pub record LineOutcome : Type 0 where
  pub line_match : LineMatch
  pub exceptions : List ExceptionType
  pub reasons : List Reason

-- The round of a line that is paired with no line of the order.
unfoldable pub unpaired_line : ℕ → InvoiceLineItem → Text → LineOutcome
unpaired_line index invoice_line po_number = record {
  line_match = record {
    invoice_line_number = some (number_or invoice_line.line_number index);
    po_line_number = none;
    description = invoice_line.description;
    is_matched = false;
    quantity_invoiced = invoice_line.quantity;
    quantity_ordered = zero_decimal;
    quantity_received = zero_decimal;
    variances = [];
    exceptions = line_not_on_po ∷ [];
  };
  exceptions = line_not_on_po ∷ [];
  reasons =
      no_counterpart (number_or invoice_line.line_number index) (take 60 invoice_line.description)
        po_number
      ∷ [];
}

-- `received.get(po_line.line_number, po_line.quantity_received)`
abbrev pub received_for : Dict Decimal → PurchaseOrderLine → Decimal
received_for received po_line =
    or_else (lookup po_line.line_number received) po_line.quantity_received

-- The round of a line that is paired with `po_line`.
unfoldable pub paired_line :
    ℕ → InvoiceLineItem → PurchaseOrderLine → Dict Decimal → Bool → MatchingConfig → LineOutcome
paired_line index invoice_line po_line received three_way cfg =
    let quantity_received = received_for received po_line in
    let price = price_variance_of invoice_line po_line cfg in
    let ordered = quantity_variance_of invoice_line po_line.quantity_ordered "quantity" cfg in
    let receipt = quantity_variance_of invoice_line quantity_received "quantity_received" cfg in
    let over_received = three_way && lt quantity_received invoice_line.quantity in
    let line_exceptions =
      flag (not price.within_tolerance) price_variance
      ++ (flag (not ordered.within_tolerance) quantity_variance
          ++ flag over_received missing_goods_receipt) in
    record {
      line_match = record {
        invoice_line_number = some (number_or invoice_line.line_number index);
        po_line_number = some po_line.line_number;
        description = text_or (some invoice_line.description) po_line.description;
        is_matched = is_empty line_exceptions;
        quantity_invoiced = invoice_line.quantity;
        quantity_ordered = po_line.quantity_ordered;
        quantity_received = quantity_received;
        variances = (price ∷ ordered ∷ []) ++ flag three_way receipt;
        exceptions = line_exceptions;
      };
      exceptions = line_exceptions;
      reasons =
          flag (not price.within_tolerance) (
            price_differs po_line.line_number price.invoice_value price.reference_value
              price.percent_delta cfg.price_tolerance_pct price.value_impact)
          ++ (flag (not ordered.within_tolerance)
                (quantity_differs po_line.line_number ordered.invoice_value ordered.reference_value)
              ++ flag over_received
                  (short_receipt po_line.line_number invoice_line.quantity quantity_received));
    }

abbrev pub Lines : Type 0
Lines = List LineMatch × List ExceptionType × List Reason

abbrev pub prepend : LineOutcome → Lines → Lines
prepend o (matches, exceptions, reasons) =
    (o.line_match ∷ matches, o.exceptions ++ exceptions, o.reasons ++ reasons)

module _ (ratio : Text → Text → ℕ) where
  -- The loop from the line at `index` on, with the order's lines that are taken.
  unfoldable pub match_lines_from :
      ℕ
      → List InvoiceLineItem
      → PurchaseOrder
      → Dict Decimal
      → Bool
      → MatchingConfig
      → List ℕ
      → Lines
  unfolding unpaired_line paired_line
  match_lines_from index [] po received three_way cfg consumed = ([], [], [])
  match_lines_from index (line ∷ lines) po received three_way cfg consumed =
      elim (pair_line ratio line po.lines consumed) [
        | none ↦
            prepend (unpaired_line index line po.po_number)
              (match_lines_from (index + 1) lines po received three_way cfg consumed)
        | some po_line ↦ prepend (paired_line index line po_line received three_way cfg) (
            match_lines_from (index + 1) lines po received three_way cfg
              (po_line.line_number ∷ consumed))
      ]

  unfoldable pub match_lines :
      ExtractedInvoice → PurchaseOrder → Dict Decimal → Bool → MatchingConfig → Lines
  unfolding match_lines_from
  match_lines invoice po received three_way cfg =
      match_lines_from 1 invoice.line_items po received three_way cfg []

module _ (ratio : Text → Text → ℕ) (index : ℕ) (line : InvoiceLineItem)
    (lines : List InvoiceLineItem) (po : PurchaseOrder) (received : Dict Decimal) (three_way : Bool)
    (cfg : MatchingConfig) (consumed : List ℕ) where
  -- The loop's two equations, by the result of the pairing.
  pub match_lines_from_unpaired :
      pair_line ratio line po.lines consumed ≡ none
      → match_lines_from ratio index (line ∷ lines) po received three_way cfg consumed
        ≡ prepend
            (unpaired_line index line po.po_number)
            (match_lines_from ratio (index + 1) lines po received three_way cfg consumed)
  unfolding match_lines_from
  match_lines_from_unpaired e = rw (e, match_lines_from)

  pub match_lines_from_paired :
      {po_line : PurchaseOrderLine}
      → pair_line ratio line po.lines consumed ≡ some po_line
      → match_lines_from ratio index (line ∷ lines) po received three_way cfg consumed
        ≡ prepend (paired_line index line po_line received three_way cfg) (
            match_lines_from ratio
              (index + 1)
              lines
              po
              received
              three_way
              cfg
              (po_line.line_number ∷ consumed))
  unfolding match_lines_from
  match_lines_from_paired e = rw (e, match_lines_from)
