-- ===== src/Schemas/Config.antt =====
-- `MatchingConfig` and the part of `ERPConfig` that the agent reads (core/config.py). A percentage
-- is a decimal, the confidence threshold is in ten-thousandths.
use invoice_to_payment_agent.Prelude.{ℕ}
use invoice_to_payment_agent.Prelude.Int.{pos}
use invoice_to_payment_agent.Prelude.Text.{Text, codes}
use invoice_to_payment_agent.Decimal.{Decimal, decimal}

pub record MatchingConfig : Type 0 where
  pub price_tolerance_pct : Decimal
  pub price_tolerance_abs : Decimal
  pub quantity_tolerance_pct : Decimal
  pub quantity_tolerance_abs : Decimal
  pub total_tolerance_pct : Decimal
  pub total_tolerance_abs : Decimal
  pub tax_tolerance_abs : Decimal
  pub auto_post_ceiling : Decimal
  pub min_extraction_confidence : ℕ
  pub vendor_match_threshold : ℕ
  pub duplicate_amount_tolerance_abs : Decimal
  pub remittance_tolerance_abs : Decimal

-- The defaults.
abbrev pub default_matching : MatchingConfig
default_matching = record {
  price_tolerance_pct = decimal (pos 20) 1;
  price_tolerance_abs = decimal (pos 500) 2;
  quantity_tolerance_pct = decimal (pos 0) 1;
  quantity_tolerance_abs = decimal (pos 0) 0;
  total_tolerance_pct = decimal (pos 10) 1;
  total_tolerance_abs = decimal (pos 1000) 2;
  tax_tolerance_abs = decimal (pos 100) 2;
  auto_post_ceiling = decimal (pos 2500000) 2;
  min_extraction_confidence = 7500;
  vendor_match_threshold = 88;
  duplicate_amount_tolerance_abs = decimal (pos 1) 2;
  remittance_tolerance_abs = decimal (pos 200) 2;
}

pub record ErpConfig : Type 0 where
  pub company_code : Text
  pub default_currency : Text

abbrev pub default_erp : ErpConfig
default_erp = record { company_code = codes "1000"; default_currency = codes "EUR" }
