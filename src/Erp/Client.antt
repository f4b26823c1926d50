-- ===== src/Erp/Client.antt =====
-- The protocol `ERPClient` of erp/client.py over the state `E` of the system behind it. A call
-- returns its value, or it raises an `ERPError`, or an exception that is none: `_request` raises the
-- timeouts, the failed connections and the failed reads of `httpx` again after three attempts. It
-- leaves a new state. `find_purchase_orders` and `aclose` are not called by the agent.
use invoice_to_payment_agent.Prelude.{Option, List, Result}
use invoice_to_payment_agent.Prelude.Text.{Text}
use invoice_to_payment_agent.Decimal.{Decimal}
use invoice_to_payment_agent.Schemas.Erp.{
  Vendor, PurchaseOrder, GoodsReceipt, ArItem, JournalPostingRequest, JournalPostingResult,
  CashApplicationResult,
}

-- `PurchaseOrderNotFoundError` is an `ERPError`.
pub data ErpError : Type 0 where
  purchase_order_not_found : Text → ErpError
  erp_error : Text → ErpError

abbrev pub message : ErpError → Text
message (purchase_order_not_found m) = m
message (erp_error m) = m

-- What a call raises: an error of the class that its caller handles, or another exception, of which
-- the text is kept.
pub data Raised (X : Type 0) : Type 0 where
  handled : X → Raised X
  uncaught : Text → Raised X

abbrev pub Call : Type 0 → Type 0 → Type 0
Call E A = E → Result (Raised ErpError) A × E

pub record ErpClient (E : Type 0) : Type 0 where
  pub get_vendors : Call E (List Vendor)
  pub get_purchase_order : Text → Call E PurchaseOrder
  pub get_goods_receipts : Text → Call E (List GoodsReceipt)
  pub post_journal_entry : JournalPostingRequest → Call E JournalPostingResult
  pub get_ar_items : Option Text → Option Text → Call E (List ArItem)
  pub apply_cash : Text → Decimal → Text → Call E CashApplicationResult
