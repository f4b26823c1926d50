-- ===== src/Erp/Mock.antt =====
-- mock_erp/main.py: the state of the module and its handlers. The API key is taken to be right.
-- Documents and cash applications are numbered by the module's two counters.
use invoice_to_payment_agent.Prelude.{
  ℕ, ◌+◌, Bool, not, ◌||◌, Option, none, some, List, [], ◌∷◌, ◌++◌, Result, ok, err, find, select,
  map, is_empty, if◌then◌else◌, or_else,
}
use invoice_to_payment_agent.Prelude.Text.{Text, codes, text_eq, is_given, text_or}
use invoice_to_payment_agent.Decimal.{Decimal, zero_decimal, sub, lt, le, eq}
use invoice_to_payment_agent.Schemas.Erp.{
  Vendor, PurchaseOrderLine, PurchaseOrder, GoodsReceipt, ArItem, JournalLine,
  JournalPostingRequest, total_debits, total_credits,
}

-- The status codes with which the handlers refuse.
pub data HttpError : Type 0 where
  unprocessable_entity conflict not_found : HttpError

pub record JournalDocument : Type 0 where
  pub document_number : ℕ
  pub fiscal_year : ℕ
  pub posting_date : ℕ
  pub reference : Text
  pub company_code : Text
  pub total_amount : Decimal
  pub currency : Text
  pub vendor_id : Option Text
  pub po_number : Option Text
  pub memo : Text
  pub lines : List JournalLine

pub record CashApplication : Type 0 where
  pub application_number : ℕ
  pub ar_item_id : Text
  pub applied_amount : Decimal
  pub residual_amount : Decimal
  pub payment_reference : Text

-- `_state` and the two counters.
pub record MockErp : Type 0 where
  pub vendors : List Vendor
  pub purchase_orders : List PurchaseOrder
  pub goods_receipts : List GoodsReceipt
  pub ar_items : List ArItem
  pub journals : List JournalDocument
  pub applications : List CashApplication
  pub next_document : ℕ
  pub next_application : ℕ

abbrev pub is_order : Text → PurchaseOrder → Bool
is_order po_number po = text_eq po.po_number po_number

unfoldable pub get_purchase_order : Text → MockErp → Result HttpError PurchaseOrder
get_purchase_order po_number s = elim (find (is_order po_number) s.purchase_orders) [
  | none ↦ err not_found
  | some po ↦ ok po
]

unfoldable pub list_goods_receipts : Option Text → MockErp → List GoodsReceipt
list_goods_receipts po_number s =
    if is_given po_number
    then select (λ g. text_eq g.po_number (text_or po_number [])) s.goods_receipts
    else s.goods_receipts

abbrev pub where_given : Option Text → (ArItem → Text) → List ArItem → List ArItem
where_given wanted field items =
    if is_given wanted then select (λ i. text_eq (field i) (text_or wanted [])) items else items

-- The filters of the query: customer, invoice number and status.
unfoldable pub list_ar_items : Option Text → Option Text → Option Text → MockErp → List ArItem
list_ar_items customer_id invoice_number status s =
    where_given status (λ i. i.status)
      (where_given invoice_number (λ i. i.invoice_number)
        (where_given customer_id (λ i. i.customer_id) s.ar_items))

abbrev pub invoiced_line : PurchaseOrderLine → PurchaseOrderLine
invoiced_line line = record line { quantity_invoiced = line.quantity_ordered }

abbrev pub invoiced : PurchaseOrder → PurchaseOrder
invoiced po = record po { lines = map invoiced_line po.lines; status = codes "invoiced" }

-- The first order of the number is invoiced in full.
unfoldable pub invoice_order : Text → List PurchaseOrder → List PurchaseOrder
invoice_order po_number [] = []
invoice_order po_number (po ∷ pos') =
    if is_order po_number po then invoiced po ∷ pos' else po ∷ invoice_order po_number pos'

abbrev pub has_reference : Text → JournalDocument → Bool
has_reference reference document = text_eq document.reference reference

module _ (today : ℕ) (year_of : ℕ → ℕ) where
  abbrev pub document_of : JournalPostingRequest → ℕ → JournalDocument
  document_of entry number = record {
    document_number = number;
    fiscal_year = year_of (or_else entry.posting_date today);
    posting_date = or_else entry.posting_date today;
    reference = entry.reference;
    company_code = entry.company_code;
    total_amount = total_debits entry.lines;
    currency = entry.currency;
    vendor_id = entry.vendor_id;
    po_number = entry.po_number;
    memo = entry.memo;
    lines = entry.lines;
  }

  abbrev pub with_document : JournalPostingRequest → MockErp → MockErp
  with_document entry s = record s {
    journals = s.journals ++ (document_of entry s.next_document ∷ []);
    next_document = s.next_document + 1;
    purchase_orders =
        if is_given entry.po_number
        then invoice_order (text_or entry.po_number []) s.purchase_orders
        else s.purchase_orders;
  }

  abbrev pub post_new :
      JournalPostingRequest
      → Option JournalDocument
      → MockErp
      → Result HttpError JournalDocument × MockErp
  post_new entry (some existing) s = (err conflict, s)
  post_new entry none s = (ok (document_of entry s.next_document), with_document entry s)

  unfoldable pub post_journal_entry :
      JournalPostingRequest → MockErp → Result HttpError JournalDocument × MockErp
  unfolding invoice_order
  post_journal_entry entry s =
      if is_empty entry.lines || not (eq (total_debits entry.lines) (total_credits entry.lines))
      then (err unprocessable_entity, s)
      else post_new entry (find (has_reference entry.reference) s.journals) s

-- `min(amount, open_amount)`
abbrev pub min_decimal : Decimal → Decimal → Decimal
min_decimal a b = if lt b a then b else a

abbrev pub open_text : Text
open_text = codes "open"

-- The item after a payment.
unfoldable pub paid : Decimal → ArItem → ArItem
paid amount item =
    let left_open = sub item.open_amount (min_decimal amount item.open_amount) in
    record item {
      open_amount = left_open;
      status = if le left_open zero_decimal then codes "cleared" else item.status;
    }

abbrev pub is_item : Text → ArItem → Bool
is_item ar_item_id item = text_eq item.ar_item_id ar_item_id

unfoldable pub pay_item : Text → Decimal → List ArItem → List ArItem
unfolding paid
pay_item ar_item_id amount [] = []
pay_item ar_item_id amount (item ∷ items) =
    if is_item ar_item_id item
    then paid amount item ∷ items
    else item ∷ pay_item ar_item_id amount items

abbrev pub application_for : ArItem → Decimal → Text → ℕ → CashApplication
application_for item amount reference number = record {
  application_number = number;
  ar_item_id = item.ar_item_id;
  applied_amount = min_decimal amount item.open_amount;
  residual_amount = (paid amount item).open_amount;
  payment_reference = reference;
}

abbrev pub pay_found :
    Option ArItem → Decimal → Text → MockErp → Result HttpError CashApplication × MockErp
pay_found none amount reference s = (err not_found, s)
pay_found (some item) amount reference s =
    if text_eq item.status open_text
    then (let application = application_for item amount reference s.next_application in
        (
          ok application,
          record s {
            ar_items = pay_item item.ar_item_id amount s.ar_items;
            applications = s.applications ++ (application ∷ []);
            next_application = s.next_application + 1;
          },
        ))
    else (err conflict, s)

unfoldable pub apply_cash :
    Text → Decimal → Text → MockErp → Result HttpError CashApplication × MockErp
unfolding pay_item
apply_cash ar_item_id amount reference s =
    pay_found (find (is_item ar_item_id) s.ar_items) amount reference s
