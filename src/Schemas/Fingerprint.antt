-- ===== src/Schemas/Fingerprint.antt =====
-- `ExtractedInvoice.fingerprint` (schemas/invoice.py): the key of the search for duplicates. The hash
-- is SHA-256 of the standard library, here a function of the text that is hashed.
use invoice_to_payment_agent.Prelude.{[], ◌++◌}
use invoice_to_payment_agent.Prelude.Text.{Text, codes, text_or, strip, lower}
use invoice_to_payment_agent.Decimal.{zero_decimal, some_or}
use invoice_to_payment_agent.Decimal.Print.{decimal_text}
use invoice_to_payment_agent.Schemas.Invoice.{ExtractedInvoice}

-- `"|".join(parts)`
unfoldable pub fingerprint_parts : ExtractedInvoice → Text
unfolding decimal_text
fingerprint_parts invoice =
    lower (strip (text_or invoice.vendor_name []))
    ++ (codes "|"
        ++ (lower (strip (text_or invoice.invoice_number []))
            ++ (codes "|" ++ decimal_text (some_or invoice.total_amount zero_decimal))))

unfoldable pub fingerprint : (Text → Text) → ExtractedInvoice → Text
unfolding fingerprint_parts
fingerprint sha256_hex invoice = sha256_hex (fingerprint_parts invoice)
