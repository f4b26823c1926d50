-- ===== src/Erp/MockReads.antt =====
-- The handlers of mock_erp/main.py that only read, and the check of the API key.
use invoice_to_payment_agent.Prelude.{
  Bool, false, [], Option, none, some, List, Result, ok, err, find, select, length, ℕ,
  if◌then◌else◌,
}
use invoice_to_payment_agent.Prelude.Text.{Text, text_eq, is_given, text_or}
use invoice_to_payment_agent.Schemas.Erp.{Vendor, PurchaseOrder}
use invoice_to_payment_agent.Erp.Mock.{HttpError, not_found, JournalDocument, MockErp}

-- `[x for x in xs if x[key] == wanted]`, where a value is wanted
abbrev only_wanted : {A : Type 0} → Option Text → (A → Text) → List A → List A
only_wanted wanted key xs =
    if is_given wanted then select (λ x. text_eq (key x) (text_or wanted [])) xs else xs

abbrev list_vendors : MockErp → List Vendor
list_vendors s = s.vendors

abbrev vendor_or_404 : Option Vendor → Result HttpError Vendor
vendor_or_404 none = err not_found
vendor_or_404 (some vendor) = ok vendor

unfoldable get_vendor : Text → MockErp → Result HttpError Vendor
get_vendor vendor_id s = vendor_or_404 (find (λ v. text_eq v.vendor_id vendor_id) s.vendors)

-- The filters of the query: vendor and status.
unfoldable list_purchase_orders : Option Text → Option Text → MockErp → List PurchaseOrder
list_purchase_orders vendor_id status s =
    only_wanted status (λ po. po.status)
      (only_wanted vendor_id (λ po. po.vendor_id) s.purchase_orders)

unfoldable list_journal_entries : Option Text → MockErp → List JournalDocument
list_journal_entries reference s = only_wanted reference (λ j. j.reference) s.journals

-- The counts that `health` answers with.
abbrev health : MockErp → ℕ × ℕ
health s = (length s.purchase_orders, length s.journals)

-- `require_api_key`
abbrev has_api_key : Text → Option Text → Bool
has_api_key api_key given = elim given [ none ↦ false | some key ↦ text_eq key api_key ]
