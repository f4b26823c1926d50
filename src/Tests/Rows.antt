-- ===== src/Tests/Rows.antt =====
-- Lookups in a small database.
use invoice_to_payment_agent.Prelude.{◌==◌, ◌≡◌, none, some, [], ◌∷◌, if◌then◌else◌, arith}
use invoice_to_payment_agent.Prelude.Text.{Text, codes}
use invoice_to_payment_agent.Schemas.Common.{price_variance, tax_variance}
use invoice_to_payment_agent.Store.Rows.{InvoiceRow, Store, empty_store}
use invoice_to_payment_agent.Store.Runs.{find_duplicate}
use invoice_to_payment_agent.Store.Cases.{NewCase, case_of, save_exception, get_exception}
use invoice_to_payment_agent.Store.Queue.{
  get_exception-save_exception, IsDuplicateOf, find_duplicate-IsDuplicateOf,
}

abbrev first_case : NewCase
first_case = record {
  run_id = codes "r1";
  exception_type = price_variance;
  severity = "medium";
  suggested_action = [];
}

abbrev second_case : NewCase
second_case = record first_case { run_id = codes "r2"; exception_type = tax_variance }

abbrev row_of : Text → Text → InvoiceRow
row_of run_id fingerprint = record {
  run_id = run_id;
  invoice_number = none;
  invoice_date = none;
  due_date = none;
  purchase_order_number = none;
  vendor_name = none;
  vendor_tax_id = none;
  vendor_iban = none;
  currency = none;
  subtotal = none;
  tax_amount = none;
  total_amount = none;
  payment_terms = none;
  line_items = [];
  field_confidence = [];
  confidence = 0;
  fingerprint = fingerprint;
  raw_markdown = [];
}

abbrev rows : Store
rows = record empty_store {
  invoices = row_of (codes "r1") (codes "f") ∷ row_of (codes "r2") (codes "f") ∷ [];
  cases = case_of first_case 0 ∷ [];
  next_case = 1;
}

get_exception-save_exception_example :
    get_exception 1 (save_exception second_case rows).1
    ≡ (if 1 == 1 then some (save_exception second_case rows).0 else get_exception 1 rows)
get_exception-save_exception_example =
    get_exception-save_exception second_case rows 1 (omega arith, tt)

find_duplicate-IsDuplicateOf_example :
    IsDuplicateOf
      (codes "f")
      (codes "r2")
      rows.invoices
      (find_duplicate (codes "f") (codes "r2") rows)
find_duplicate-IsDuplicateOf_example = find_duplicate-IsDuplicateOf (codes "f") (codes "r2") rows
