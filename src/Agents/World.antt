-- ===== src/Agents/World.antt =====
-- What the nodes act on, what they call that is not the program's own, and the two helpers of
-- agents/nodes/_common.py. The database accepts every write: the branches that log a failed write
-- of the trail or of the run's status are not taken.
use invoice_to_payment_agent.Prelude.{
  ℕ, Option, none, some, List, String, Result, ok, err, if◌then◌else◌,
}
use invoice_to_payment_agent.Prelude.Text.{Text, codes, is_given}
use invoice_to_payment_agent.Schemas.Common.{AuditAction, ExceptionType, RunStatus}
use invoice_to_payment_agent.Schemas.Invoice.{ExtractedInvoice, ExtractedRemittance}
use invoice_to_payment_agent.Schemas.Config.{MatchingConfig, ErpConfig}
use invoice_to_payment_agent.Schemas.Matching.{MatchReport}
use invoice_to_payment_agent.Rag.Resolution.{VendorHit}
use invoice_to_payment_agent.Store.Rows.{Store}
use invoice_to_payment_agent.Store.Runs.{RunFields, update_run}
use invoice_to_payment_agent.Store.Audit.{append_audit}
use invoice_to_payment_agent.Erp.Client.{Raised, handled, uncaught}
use invoice_to_payment_agent.Agents.State.{InvoiceState}

-- A parsed document (`ParsedDocument` of ingestion/parser.py), as far as the graph reads it.
pub record ParsedDocument : Type 0 where
  pub markdown : Text
  pub sha256 : Text
  pub parser : Text
  pub page_count : ℕ

-- The models and libraries that the nodes call: the document parser, the language model behind
-- `extract_structured` and the guidance, the scores of `rapidfuzz`, the searches of the knowledge
-- base, SHA-256 and the calendar. A score of `rapidfuzz` is in hundredths, one of a search and a
-- confidence in ten-thousandths. An error carries its message. `extract_structured` raises an
-- `ExtractionError`, or what the call of the model raised.
pub record External : Type 0 where
  pub parse_document : Text → Result Text ParsedDocument
  pub extract_invoice : Text → Result (Raised Text) ExtractedInvoice
  pub extract_remittance : Text → Result (Raised Text) ExtractedRemittance
  pub draft_guidance : MatchReport → List Text → Text
  pub retrieve_policy : List ExceptionType → List Text
  pub token_set_ratio : Text → Text → ℕ
  pub extract_one : Text → List Text → Option (Text × ℕ)
  pub search_vendors : Text → List VendorHit
  pub sha256_hex : Text → Text
  pub today : ℕ

-- `get_config()`
pub record AppConfig : Type 0 where
  pub matching : MatchingConfig
  pub erp : ErpConfig

pub record World (E : Type 0) : Type 0 where
  pub store : Store
  pub erp : E

-- What a node leaves: the state with its update merged in, and the world.
abbrev pub Outcome : Type 0 → Type 0
Outcome E = InvoiceState × World E

-- What a node leaves that an exception may break off: the text of the exception, where there was
-- one, and then the state from before the node with the world as far as the node has changed it.
abbrev pub Attempt : Type 0 → Type 0
Attempt E = Option Text × Outcome E

module _ {E : Type 0} where
  abbrev pub returns : Outcome E → Attempt E
  returns o = (none, o)

  abbrev pub raises : Text → InvoiceState → World E → Attempt E
  raises text state w = (some text, (state, w))

  -- `try: … except …:` around a call: its value and the errors of the class are handled, any other
  -- exception leaves the node.
  abbrev pub trying :
      {X A : Type 0}
      → Result (Raised X) A
      → (Result X A → Attempt E)
      → InvoiceState
      → World E
      → Attempt E
  trying (ok a) handle state w = handle (ok a)
  trying (err (handled x)) handle state w = handle (err x)
  trying (err (uncaught text)) handle state w = raises text state w

module _ {E : Type 0} where
  abbrev pub with_store : (Store → Store) → World E → World E
  with_store f w = record w { store = f w.store }

  -- `audit(state, action, …, node=…, actor=…)`
  unfoldable pub audit : InvoiceState → AuditAction → String → Text → World E → World E
  audit state action node actor w =
      if is_given (some state.run_id)
      then with_store
          (append_audit state.run_id (record {
            action = action;
            actor = actor;
            node = node;
            source_message_id = state.source_message_id;
            document_sha256 = state.document_sha256;
          }))
          w
      else w

  -- `set_run_status(state, status=…, error_message=…, straight_through=…)`
  unfoldable pub set_run_status : InvoiceState → RunFields → World E → World E
  set_run_status state fields w =
      if is_given (some state.run_id) then with_store (update_run state.run_id fields) w else w

abbrev pub agent : Text
agent = codes "agent"

-- `status=…` alone, and with an error message.
abbrev pub status_only : RunStatus → RunFields
status_only status = record { status = status; error_message = none; straight_through = none }

abbrev pub failed_with : RunStatus → Text → RunFields
failed_with status text = record {
  status = status;
  error_message = some text;
  straight_through = none;
}
