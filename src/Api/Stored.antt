-- ===== src/Api/Stored.antt =====
-- The invoice of a run, from the node that stores it to the endpoint that matches it again.
use invoice_to_payment_agent.Prelude.{Option, none, some}
use invoice_to_payment_agent.Schemas.Invoice.{ExtractedInvoice}
use invoice_to_payment_agent.Store.Rows.{InvoiceRow}
use invoice_to_payment_agent.Agents.World.{World}
use invoice_to_payment_agent.Api.Matches.{stored_invoice}

abbrev pub read_back : Option InvoiceRow → Option ExtractedInvoice
read_back none = none
read_back (some row) = some (stored_invoice row)
