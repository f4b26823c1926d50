-- ===== src/Tests/Ledger.antt =====
-- The mock server, the vendor master and the receivables at concrete inputs.
use invoice_to_payment_agent.Prelude.{ℕ, ◌≡◌, refl, none, some, List, [], ◌∷◌, ok, err}
use invoice_to_payment_agent.Prelude.Int.{pos, leb_ℤ}
use invoice_to_payment_agent.Prelude.Text.{codes}
use invoice_to_payment_agent.Decimal.{Decimal, decimal, cents, zero_decimal, add, le}
use invoice_to_payment_agent.Schemas.Erp.{JournalPostingRequest, JournalLine}
use invoice_to_payment_agent.Erp.Mock.{
  MockErp, conflict, document_of, post_journal_entry, min_decimal, paid,
}
use invoice_to_payment_agent.Erp.MockCash.{paid-splits}
use invoice_to_payment_agent.Erp.MockLedger.{
  IsSoundLedger, post_journal_entry-IsSoundLedger, post_journal_entry_again,
}
use invoice_to_payment_agent.Matching.Remittance.{Application}
use invoice_to_payment_agent.Agents.Receivable.{apply_all}
use invoice_to_payment_agent.Agents.Applied.{answers, IsAccounted, apply_all-IsAccounted}
use invoice_to_payment_agent.Tests.Fixtures.{vendor, order, receipt, ar_item, client}

abbrev line : Decimal → Decimal → JournalLine
line debit credit = record {
  account = codes "160000";
  description = [];
  debit = debit;
  credit = credit;
  cost_center = none;
  tax_code = none;
}

abbrev entry : JournalPostingRequest
entry = record {
  reference = codes "Acme/R-7";
  company_code = codes "1000";
  currency = codes "EUR";
  posting_date = none;
  vendor_id = none;
  customer_id = none;
  po_number = some (codes "4500001");
  memo = [];
  lines = line (cents (pos 100)) zero_decimal ∷ line zero_decimal (cents (pos 100)) ∷ [];
}

abbrev server : MockErp
server = record {
  vendors = vendor ∷ [];
  purchase_orders = order ∷ [];
  goods_receipts = receipt ∷ [];
  ar_items = ar_item ∷ [];
  journals = [];
  applications = [];
  next_document = 1;
  next_application = 1;
}

abbrev year : ℕ → ℕ
year date = 2025

post_journal_entry-IsSoundLedger_example :
    IsSoundLedger (post_journal_entry 20001 year entry server).1
post_journal_entry-IsSoundLedger_example =
    post_journal_entry-IsSoundLedger 20001 year entry server (tt, tt)

posted_test : (post_journal_entry 20001 year entry server).0 ≡ ok (document_of 20001 year entry 1)
unfolding post_journal_entry invoice_to_payment_agent.Decimal.eq
    invoice_to_payment_agent.Schemas.Erp.total_debits add
    invoice_to_payment_agent.Schemas.Erp.total_credits
posted_test = refl

post_journal_entry_again_example :
    post_journal_entry 20001 year entry (post_journal_entry 20001 year entry server).1
    ≡ (err conflict, (post_journal_entry 20001 year entry server).1)
post_journal_entry_again_example =
    post_journal_entry_again 20001 year entry server (document_of 20001 year entry 1) posted_test

paid-splits_example :
    (add
        (min_decimal (cents (pos 40000)) (cents (pos 100000)))
        (paid (cents (pos 40000)) ar_item).open_amount
      ≡ cents (pos 100000))
    × (le (paid (cents (pos 40000)) ar_item).open_amount zero_decimal
        ≡ leb_ℤ (pos 100000) (pos 40000))
paid-splits_example = paid-splits ar_item (pos 40000) (pos 100000) refl

abbrev cash_applications : List Application
cash_applications = (ar_item, cents (pos 99900)) ∷ []

apply_all-IsAccounted_example :
    IsAccounted client
      (codes "P-1")
      cash_applications
      (answers client (codes "P-1") cash_applications [])
      []
      []
      (apply_all client
        (codes "P-1")
        cash_applications
        (record { applied = []; unresolved = []; erp = []; raised = none }))
unfolding apply_all
apply_all-IsAccounted_example =
    apply_all-IsAccounted client (codes "P-1") cash_applications [] [] [] refl
