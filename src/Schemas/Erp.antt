-- ===== src/Schemas/Erp.antt =====
-- src/invoice_agent/schemas/erp.py: the ERP's documents and the journal that the agent posts.
use invoice_to_payment_agent.Prelude.{ℕ, Bool, ◌&&◌, Option, List, [], ◌∷◌}
use invoice_to_payment_agent.Prelude.Text.{Text}
use invoice_to_payment_agent.Decimal.{Decimal, zero_decimal, add, eq, lt}

pub record Vendor : Type 0 where
  pub vendor_id : Text
  pub name : Text
  pub tax_id : Option Text
  pub iban : Option Text
  pub payment_terms : Option Text
  pub currency : Text
  pub aliases : List Text
  pub blocked : Bool

pub record PurchaseOrderLine : Type 0 where
  pub line_number : ℕ
  pub material_code : Option Text
  pub description : Text
  pub quantity_ordered : Decimal
  pub quantity_received : Decimal
  pub quantity_invoiced : Decimal
  pub unit : Text
  pub unit_price : Decimal
  pub line_total : Decimal

pub record PurchaseOrder : Type 0 where
  pub po_number : Text
  pub vendor_id : Text
  pub vendor_name : Text
  pub company_code : Text
  pub currency : Text
  pub order_date : Option ℕ
  pub status : Text
  pub goods_receipt_required : Bool
  pub net_amount : Decimal
  pub tax_amount : Decimal
  pub gross_amount : Decimal
  pub lines : List PurchaseOrderLine

pub record GoodsReceiptLine : Type 0 where
  pub po_line_number : ℕ
  pub material_code : Option Text
  pub quantity_received : Decimal
  pub unit : Text
  pub receipt_date : Option ℕ

pub record GoodsReceipt : Type 0 where
  pub gr_number : Text
  pub po_number : Text
  pub posting_date : Option ℕ
  pub lines : List GoodsReceiptLine

pub record ArItem : Type 0 where
  pub ar_item_id : Text
  pub invoice_number : Text
  pub customer_id : Text
  pub customer_name : Text
  pub currency : Text
  pub open_amount : Decimal
  pub original_amount : Decimal
  pub due_date : Option ℕ
  pub status : Text

pub record JournalLine : Type 0 where
  pub account : Text
  pub description : Text
  pub debit : Decimal
  pub credit : Decimal
  pub cost_center : Option Text
  pub tax_code : Option Text

pub record JournalPostingRequest : Type 0 where
  pub reference : Text
  pub company_code : Text
  pub currency : Text
  pub posting_date : Option ℕ
  pub vendor_id : Option Text
  pub customer_id : Option Text
  pub po_number : Option Text
  pub memo : Text
  pub lines : List JournalLine

pub record JournalPostingResult : Type 0 where
  pub document_number : Text
  pub fiscal_year : ℕ
  pub posting_date : ℕ
  pub reference : Text
  pub company_code : Text
  pub total_amount : Decimal
  pub currency : Text
  pub status : Text

pub record CashApplicationResult : Type 0 where
  pub application_id : Text
  pub ar_item_id : Text
  pub applied_amount : Decimal
  pub residual_amount : Decimal
  pub status : Text

-- `sum((line.f for line in lines), acc)`
unfoldable pub sum_lines : (JournalLine → Decimal) → Decimal → List JournalLine → Decimal
sum_lines f acc [] = acc
sum_lines f acc (l ∷ ls) = sum_lines f (add acc (f l)) ls

unfoldable pub total_debits : List JournalLine → Decimal
unfolding sum_lines
total_debits = sum_lines (λ l. l.debit) zero_decimal

unfoldable pub total_credits : List JournalLine → Decimal
unfolding sum_lines
total_credits = sum_lines (λ l. l.credit) zero_decimal

unfoldable pub is_balanced : JournalPostingRequest → Bool
unfolding total_debits total_credits
is_balanced request =
    let debits = total_debits request.lines in
    let credits = total_credits request.lines in eq debits credits && lt zero_decimal debits
