-- ===== src/Schemas/Matching.antt =====
-- src/invoice_agent/schemas/matching.py. A reason is the message template of matching/engine.py or
-- agents/nodes/decide.py with the values that are put into it.
use invoice_to_payment_agent.Prelude.{ℕ, Bool, true, false, Option, List, String}
use invoice_to_payment_agent.Prelude.Text.{Text}
use invoice_to_payment_agent.Decimal.{Decimal}
use invoice_to_payment_agent.Schemas.Common.{
  MatchType, MatchOutcome, matched, matched_within_tolerance, exception, ExceptionType,
}

pub record Variance : Type 0 where
  pub field : String
  pub invoice_value : Decimal
  pub reference_value : Decimal
  pub absolute_delta : Decimal
  pub percent_delta : Decimal
  pub tolerance_abs : Decimal
  pub tolerance_pct : Decimal
  pub within_tolerance : Bool
  pub exception_type : Option ExceptionType
  pub value_impact : Option Decimal

pub record LineMatch : Type 0 where
  pub invoice_line_number : Option ℕ
  pub po_line_number : Option ℕ
  pub description : Text
  pub is_matched : Bool
  pub quantity_invoiced : Decimal
  pub quantity_ordered : Decimal
  pub quantity_received : Decimal
  pub variances : List Variance
  pub exceptions : List ExceptionType

pub data Reason : Type 0 where
  no_counterpart : ℕ → Text → Text → Reason
  price_differs : ℕ → Decimal → Decimal → Decimal → Decimal → Option Decimal → Reason
  quantity_differs : ℕ → Decimal → Decimal → Reason
  short_receipt : ℕ → Decimal → Decimal → Reason
  no_po_reference : Reason
  receipt_missing : Text → Reason
  currency_differs : Text → Text → Reason
  total_differs : Decimal → Decimal → Decimal → Decimal → Reason
  tax_differs : Decimal → Decimal → Reason
  confidence_below : ℕ → ℕ → Reason
  over_ceiling : Decimal → Decimal → Reason
  all_within : Reason
  exact_match : Reason
  already_processed : Text → Reason
  vendor_unresolved : Text → Reason

pub record MatchReport : Type 0 where
  pub match_type : MatchType
  pub outcome : MatchOutcome
  pub po_number : Option Text
  pub gr_numbers : List Text
  pub vendor_id : Option Text
  pub header_variances : List Variance
  pub line_matches : List LineMatch
  pub exceptions : List ExceptionType
  pub reasons : List Reason
  pub matched_amount : Decimal
  pub confidence : ℕ

abbrev pub is_passed : MatchOutcome → Bool
is_passed matched = true
is_passed matched_within_tolerance = true
is_passed exception = false

unfoldable pub is_postable : MatchReport → Bool
is_postable report = is_passed report.outcome
