-- ===== src/Agents/Extract.antt =====
-- agents/nodes/extract.py.
use invoice_to_payment_agent.Prelude.{ℕ, some, [], ◌∷◌, ◌++◌, Result, ok, err, length, take}
use invoice_to_payment_agent.Prelude.Text.{Text}
use invoice_to_payment_agent.Schemas.Common.{
  parsing, extracting, failed, run_failed, document_parsed, fields_extracted,
}
use invoice_to_payment_agent.Schemas.Invoice.{ExtractedInvoice, ExtractedRemittance}
use invoice_to_payment_agent.Ingestion.Confidence.{score_extraction}
use invoice_to_payment_agent.Agents.State.{
  InvoiceState, parse_failed, parsed_with, extraction_failed, extracted_lines, remittance_failed,
  extracted_advices,
}
use invoice_to_payment_agent.Agents.World.{
  ParsedDocument, External, World, Outcome, Attempt, returns, trying, audit, set_run_status, agent,
  status_only,
}

abbrev pub max_document_chars : ℕ
max_document_chars = 24000

module _ {E : Type 0} (x : External) where
  abbrev pub parsed_state : InvoiceState → Result Text ParsedDocument → World E → Outcome E
  parsed_state state (err text) w = (
    record state {
      status = failed;
      error = some text;
      decisions = state.decisions ++ (parse_failed text ∷ []);
    },
    audit state run_failed "parse" agent w,
  )
  parsed_state state (ok parsed) w = (
    record state {
      document_markdown = take max_document_chars parsed.markdown;
      document_sha256 = some parsed.sha256;
      parser = parsed.parser;
      page_count = parsed.page_count;
      decisions = state.decisions ++ (parsed_with parsed.parser ∷ []);
    },
    audit state document_parsed "parse" agent w,
  )

  unfoldable pub parse_node : InvoiceState → World E → Outcome E
  parse_node state w =
      parsed_state state (x.parse_document state.document_path)
        (set_run_status state (status_only parsing) w)

  abbrev pub extracted_state : InvoiceState → Result Text ExtractedInvoice → World E → Outcome E
  extracted_state state (err text) w = (
    record state {
      status = failed;
      error = some text;
      decisions = state.decisions ++ (extraction_failed text ∷ []);
    },
    audit state run_failed "extract_invoice" agent w,
  )
  extracted_state state (ok invoice) w =
      let score = score_extraction invoice in
      (
        record state {
          invoice = some (record invoice { confidence = score });
          decisions = state.decisions ++ (extracted_lines (length invoice.line_items) score ∷ []);
        },
        audit state fields_extracted "extract_invoice" agent w,
      )

  unfoldable pub extract_invoice_node : InvoiceState → World E → Attempt E
  extract_invoice_node state w =
      let w' = set_run_status state (status_only extracting) w in
      trying (x.extract_invoice state.document_markdown)
        (λ result. returns (extracted_state state result w')) state w'

  abbrev pub remittance_state : InvoiceState → Result Text ExtractedRemittance → World E → Outcome E
  remittance_state state (err text) w = (
    record state {
      status = failed;
      error = some text;
      decisions = state.decisions ++ (remittance_failed text ∷ []);
    },
    audit state run_failed "extract_remittance" agent w,
  )
  remittance_state state (ok remittance) w = (
    record state {
      remittance = some remittance;
      decisions = state.decisions ++ (extracted_advices (length remittance.advices) ∷ []);
    },
    audit state fields_extracted "extract_remittance" agent w,
  )

  unfoldable pub extract_remittance_node : InvoiceState → World E → Attempt E
  extract_remittance_node state w =
      let w' = set_run_status state (status_only extracting) w in
      trying (x.extract_remittance state.document_markdown)
        (λ result. returns (remittance_state state result w')) state w'
