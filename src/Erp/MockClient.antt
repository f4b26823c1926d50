-- ===== src/Erp/MockClient.antt =====
-- `HttpERPClient` of erp/client.py in front of the mock server: each request reaches its handler
-- once, and `_raise_for_status` turns a refusal into an error.
use invoice_to_payment_agent.Prelude.{ℕ, ◌-◌, some, ◌++◌, Result, ok, err, length}
use invoice_to_payment_agent.Prelude.Text.{Text, codes}
use invoice_to_payment_agent.Decimal.Print.{digits, zeros}
use invoice_to_payment_agent.Schemas.Erp.{
  PurchaseOrder, JournalPostingRequest, JournalPostingResult, CashApplicationResult,
}
use invoice_to_payment_agent.Erp.Client.{
  ErpError, purchase_order_not_found, erp_error, Raised, handled, ErpClient,
}
use invoice_to_payment_agent.Erp.Mock.{
  HttpError, unprocessable_entity, conflict, not_found, JournalDocument, CashApplication, MockErp,
  get_purchase_order, list_goods_receipts, list_ar_items, post_journal_entry, apply_cash, open_text,
}

-- `f"{prefix}{n:0{width}d}"`
abbrev pub numbered : Text → ℕ → ℕ → Text
numbered prefix width n = let ds = digits n in prefix ++ zeros (width - length ds) ds

abbrev pub status_text : HttpError → Text
status_text unprocessable_entity = codes "422"
status_text conflict = codes "409"
status_text not_found = codes "404"

unfoldable pub raise_for_status : HttpError → Text → ErpError
raise_for_status not_found context = purchase_order_not_found (context ++ codes ": not found")
raise_for_status e context = erp_error (context ++ (codes ": ERP returned " ++ status_text e))

abbrev pub posting_result : JournalDocument → JournalPostingResult
posting_result document = record {
  document_number = numbered (codes "51") 8 document.document_number;
  fiscal_year = document.fiscal_year;
  posting_date = document.posting_date;
  reference = document.reference;
  company_code = document.company_code;
  total_amount = document.total_amount;
  currency = document.currency;
  status = codes "posted";
}

abbrev pub cash_result : CashApplication → CashApplicationResult
cash_result application = record {
  application_id = numbered (codes "CA-") 6 application.application_number;
  ar_item_id = application.ar_item_id;
  applied_amount = application.applied_amount;
  residual_amount = application.residual_amount;
  status = codes "applied";
}

abbrev pub posting_response :
    JournalPostingRequest → Result HttpError JournalDocument → Result ErpError JournalPostingResult
posting_response request (ok document) = ok (posting_result document)
posting_response request (err conflict) =
    err (erp_error (codes "journal reference " ++ (request.reference ++ codes " already posted")))
posting_response request (err e) = err (raise_for_status e (codes "post_journal_entry"))

abbrev pub order_response : Text → Result HttpError PurchaseOrder → Result ErpError PurchaseOrder
order_response number (ok po) = ok po
order_response number (err _) =
    err
      (purchase_order_not_found (codes "purchase order " ++ (number ++ codes " not found in ERP")))

abbrev pub cash_response :
    Text → Result HttpError CashApplication → Result ErpError CashApplicationResult
cash_response ar_item_id (ok application) = ok (cash_result application)
cash_response ar_item_id (err e) = err (raise_for_status e (codes "apply_cash " ++ ar_item_id))

-- The server always answers.
abbrev pub answer : {A : Type 0} → Result ErpError A → Result (Raised ErpError) A
answer (ok a) = ok a
answer (err exc) = err (handled exc)

module _ (today : ℕ) (year_of : ℕ → ℕ) where
  unfoldable pub mock_client : ErpClient MockErp
  unfolding raise_for_status post_journal_entry apply_cash
  mock_client = record {
    get_vendors = λ s. (ok s.vendors, s);
    get_purchase_order =
        λ number s. (answer (order_response number (get_purchase_order number s)), s);
    get_goods_receipts = λ number s. (ok (list_goods_receipts (some number) s), s);
    post_journal_entry = λ request s.
        let (response, s') = post_journal_entry today year_of request s in
        (answer (posting_response request response), s');
    get_ar_items = λ customer_id invoice_number s.
        (ok (list_ar_items customer_id invoice_number (some open_text) s), s);
    apply_cash = λ ar_item_id amount reference s.
        let (response, s') = apply_cash ar_item_id amount reference s in
        (answer (cash_response ar_item_id response), s');
  }
