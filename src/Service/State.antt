-- ===== src/Service/State.antt =====
-- What services/workflow.py acts on: the database and the ERP, the checkpoints of the graphs, and
-- the host's files and identifiers.
use invoice_to_payment_agent.Prelude.{
  ℕ, Bool, Option, none, some, List, [], ◌∷◌, ◌++◌, if◌then◌else◌,
}
use invoice_to_payment_agent.Prelude.Text.{Text, codes, text_eq}
use invoice_to_payment_agent.Schemas.Common.{
  WorkflowKind, DocumentSource, RunStatus, MatchType, MatchOutcome, ExceptionType, ExceptionStatus,
  JournalStatus,
}
use invoice_to_payment_agent.Schemas.Matching.{Reason}
use invoice_to_payment_agent.Decimal.{Decimal}
use invoice_to_payment_agent.Agents.State.{InvoiceState, Decision}
use invoice_to_payment_agent.Agents.World.{World}

-- The host: the files, the directory of the stored documents, SHA-256 of a file and the UUIDs, in
-- the order in which they are generated. The copy of a document into its directory changes files
-- alone, which nothing else of the model reads.
pub record Host : Type 0 where
  pub exists : Text → Bool
  pub file_name : Text → Text
  pub join : Text → Text → Text
  pub document_store : Text
  pub sha256_file : Text → Text
  pub uuid : ℕ → Text

-- The last checkpoint of a thread: the state from before the node that was interrupted, the state at
-- the end, or the state from before the node that an exception has broken off.
pub data Checkpoint : Type 0 where
  waiting : InvoiceState → Checkpoint
  finished : InvoiceState → Checkpoint
  broken : InvoiceState → Checkpoint

-- The checkpoints with the newest first.
abbrev pub Threads : Type 0
Threads = List (Text × Checkpoint)

unfoldable pub find_thread : Text → Threads → Option Checkpoint
find_thread id [] = none
find_thread id ((thread, checkpoint) ∷ threads) =
    let rest = find_thread id threads in if text_eq thread id then some checkpoint else rest

pub record Service (E : Type 0) : Type 0 where
  pub world : World E
  pub threads : Threads
  pub next_run : ℕ

-- The arguments of `start_run`, without `received_at`.
pub record StartRequest : Type 0 where
  pub document_path : Text
  pub kind : WorkflowKind
  pub source : DocumentSource
  pub message_id : Option Text
  pub sender : Option Text
  pub subject : Option Text
  pub mailbox : Option Text

-- What the methods raise: each `ValidationError` and `NotFoundError`, the errors of the graph (a run
-- that takes more steps than `recursion_limit`, and a thread with no checkpoint or with a broken
-- one), and the exception of a call that has left a node.
pub data ServiceError : Type 0 where
  document_not_found : Text → ServiceError
  unknown_decision : ServiceError
  run_not_found : Text → ServiceError
  not_awaiting_approval : Text → RunStatus → ServiceError
  recursion_limit_reached : ServiceError
  unknown_thread : ServiceError
  call_failed : Text → ServiceError

pub record MatchSummary : Type 0 where
  pub match_type : MatchType
  pub outcome : MatchOutcome
  pub po_number : Option Text
  pub gr_numbers : List Text
  pub matched_amount : Decimal
  pub exceptions : List ExceptionType
  pub reasons : List Reason

pub record JournalSummary : Type 0 where
  pub status : JournalStatus
  pub erp_document_number : Option Text
  pub total_amount : Decimal
  pub currency : Text
  pub reference : Text
  pub approved_by : Option Text

pub record CaseSummary : Type 0 where
  pub id : ℕ
  pub exception_type : ExceptionType
  pub status : ExceptionStatus
  pub suggested_action : Text

-- `awaiting_approval` tells whether the graph stopped at an interrupt.
pub record Summary : Type 0 where
  pub run_id : Text
  pub thread_id : Text
  pub kind : WorkflowKind
  pub status : RunStatus
  pub straight_through : Bool
  pub source_message_id : Option Text
  pub attachment_name : Option Text
  pub document_sha256 : Option Text
  pub error : Option Text
  pub match_found : Option MatchSummary
  pub journal : Option JournalSummary
  pub exceptions : List CaseSummary
  pub awaiting_approval : Bool
  pub decisions : List Decision

-- `_thread_id`
unfoldable pub thread_of : Text → Text
thread_of run_id = codes "run-" ++ run_id
