-- ===== src/Schemas/Invoice.antt =====
-- src/invoice_agent/schemas/invoice.py: what the extraction returns. Dates are day numbers, line
-- numbers are naturals, and a confidence is counted in ten-thousandths, the unit to which
-- `score_extraction` rounds it.
use invoice_to_payment_agent.Prelude.{ℕ, Option, List}
use invoice_to_payment_agent.Prelude.Text.{Text}
use invoice_to_payment_agent.Decimal.{Decimal}

pub record InvoiceLineItem : Type 0 where
  pub line_number : Option ℕ
  pub po_line_number : Option ℕ
  pub description : Text
  pub material_code : Option Text
  pub quantity : Decimal
  pub unit : Option Text
  pub unit_price : Decimal
  pub line_total : Decimal
  pub tax_rate : Option Decimal

pub record ExtractedInvoice : Type 0 where
  pub invoice_number : Option Text
  pub invoice_date : Option ℕ
  pub due_date : Option ℕ
  pub purchase_order_number : Option Text
  pub vendor_name : Option Text
  pub vendor_tax_id : Option Text
  pub vendor_iban : Option Text
  pub vendor_id : Option Text
  pub currency : Option Text
  pub subtotal : Option Decimal
  pub tax_amount : Option Decimal
  pub total_amount : Option Decimal
  pub payment_terms : Option Text
  pub line_items : List InvoiceLineItem
  pub confidence : ℕ
  pub field_confidence : List (Text × ℕ)
  pub extraction_notes : Option Text

pub record RemittanceAdvice : Type 0 where
  pub invoice_number : Option Text
  pub amount_paid : Option Decimal
  pub deduction : Option Decimal
  pub reference : Option Text

pub record ExtractedRemittance : Type 0 where
  pub remittance_number : Option Text
  pub payment_date : Option ℕ
  pub customer_name : Option Text
  pub customer_id : Option Text
  pub currency : Option Text
  pub total_paid : Option Decimal
  pub bank_reference : Option Text
  pub advices : List RemittanceAdvice
  pub confidence : ℕ
  pub extraction_notes : Option Text
