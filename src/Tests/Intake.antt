-- ===== src/Tests/Intake.antt =====
-- A poll of a mailbox with one mail, an invoice whose amounts contradict each other, and an invoice
-- that is stored.
use invoice_to_payment_agent.Prelude.{
  ◌+◌, ℕ, ◌≡◌, refl, true, false, none, some, Option, List, [], ◌∷◌, arith, length, inl,
}
use invoice_to_payment_agent.Prelude.Int.{pos}
use invoice_to_payment_agent.Prelude.Text.{Text, codes, text_eq}
use invoice_to_payment_agent.Decimal.{decimal}
use invoice_to_payment_agent.Schemas.Invoice.{ExtractedInvoice}
use invoice_to_payment_agent.Schemas.Matching.{is_postable}
use invoice_to_payment_agent.Matching.Engine.{match_invoice}
use invoice_to_payment_agent.Ingestion.Confidence.{score_extraction}
use invoice_to_payment_agent.Ingestion.Scores.{contradictory-not-postable}
use invoice_to_payment_agent.Ingestion.Folder.{Entry, Folder, Paths, message_of, mark_processed}
use invoice_to_payment_agent.Ingestion.Moves.{count_entries, mark_processed-moves_one}
use invoice_to_payment_agent.Service.Poll.{EmailMessage, MailboxClient}
use invoice_to_payment_agent.Tests.Fixtures.{config, invoice, order, receipt}

abbrev mail : EmailMessage
mail = record {
  message_id = codes "m1";
  subject = codes "invoice";
  sender = codes "ap@example.com";
  body_text = [];
  mailbox = codes "inbox";
  attachments =
      record {
        filename = codes "r1.pdf";
        content_type = codes "application/pdf";
        size_bytes = 100;
        local_path = codes "r1.pdf";
      }
      ∷ [];
}

-- A mailbox that keeps the identifiers of the mails that were processed.
abbrev inbox : MailboxClient (List Text)
inbox = record { fetch_messages = λ limit m. (mail ∷ [], m); mark_processed = λ id m. id ∷ m }

-- The items make 120.00 and the total is 142.80.
abbrev contradictory : ExtractedInvoice
contradictory = record invoice { subtotal = some (decimal (pos 50000) 2) }

contradictory-not-postable_example :
    is_postable (
      match_invoice
        (λ a b. 100)
        config.matching
        (record contradictory { confidence = score_extraction contradictory })
        (some order)
        (receipt ∷ []))
    ≡ false
unfolding invoice_to_payment_agent.Ingestion.Confidence.totals_reconcile
    invoice_to_payment_agent.Ingestion.Confidence.lines_sum_to_subtotal
    invoice_to_payment_agent.Schemas.Amounts.computed_subtotal
    invoice_to_payment_agent.Schemas.Amounts.sum_from
    invoice_to_payment_agent.Schemas.Amounts.quantize_even invoice_to_payment_agent.Decimal.add
    invoice_to_payment_agent.Decimal.sub invoice_to_payment_agent.Decimal.abs
    invoice_to_payment_agent.Decimal.le invoice_to_payment_agent.Decimal.coef_at
    invoice_to_payment_agent.Decimal.shift_up invoice_to_payment_agent.Prelude.Int.◌+ℤ◌
    invoice_to_payment_agent.Prelude.Int.◌-ℤ◌
contradictory-not-postable_example =
    contradictory-not-postable (λ a b. 100) config.matching contradictory (some order)
      (receipt ∷ []) refl refl (omega arith)

abbrev paths : Paths
paths = record {
  root = codes "inbox";
  join = λ dir name. name;
  suffix = λ name. codes ".pdf";
  stem = λ name. name;
  guess_type = λ name. none;
  digest = λ name. name;
}

abbrev letter : Entry
letter = record {
  name = codes "r1.pdf";
  is_dir = false;
  size_bytes = 100;
  sidecar = record { message_id = none; subject = none; sender = none; body = none };
}

abbrev folder : Folder
folder = record {
  is_there = true;
  has_processed_dir = false;
  entries = letter ∷ [];
  processed = [];
}

mark_processed-moves_one_example :
    let after = mark_processed paths (message_of paths letter).message_id folder in
    (length after.entries + 1 ≡ 1)
    × (count_entries (λ entry. text_eq entry.name (codes "r1.pdf")) after.entries after.processed
        ≡ count_entries (λ entry. text_eq entry.name (codes "r1.pdf")) (letter ∷ []) [])
    × (after.has_processed_dir ≡ true)
mark_processed-moves_one_example =
    mark_processed-moves_one paths letter folder (λ entry. text_eq entry.name (codes "r1.pdf"))
      (inl refl) (refl, tt) refl
