-- ===== src/Service/Poll.antt =====
-- `poll_mailbox` of services/workflow.py and the protocol of ingestion/mailbox/base.py.
use invoice_to_payment_agent.Prelude.{
  ℕ, zero, suc, Option, none, some, List, [], ◌∷◌, ◌++◌, ok, err,
}
use invoice_to_payment_agent.Prelude.Text.{Text}
use invoice_to_payment_agent.Schemas.Common.{WorkflowKind, email_attachment}
use invoice_to_payment_agent.Erp.Client.{ErpClient}
use invoice_to_payment_agent.Agents.World.{External, AppConfig}
use invoice_to_payment_agent.Service.State.{Host, Service, StartRequest, Summary}
use invoice_to_payment_agent.Service.Summary.{Answer}
use invoice_to_payment_agent.Service.Start.{start_run}

pub record EmailAttachment : Type 0 where
  pub filename : Text
  pub content_type : Text
  pub size_bytes : ℕ
  pub local_path : Text

-- Without `received_at`.
pub record EmailMessage : Type 0 where
  pub message_id : Text
  pub subject : Text
  pub sender : Text
  pub body_text : Text
  pub mailbox : Text
  pub attachments : List EmailAttachment

-- `MailboxClient` over the state `M` of the mailbox behind it.
pub record MailboxClient (M : Type 0) : Type 0 where
  pub fetch_messages : ℕ → M → List EmailMessage × M
  pub mark_processed : Text → M → M

abbrev pub request_of : WorkflowKind → EmailMessage → EmailAttachment → StartRequest
request_of kind message attachment = record {
  document_path = attachment.local_path;
  kind = kind;
  source = email_attachment;
  message_id = some message.message_id;
  sender = some message.sender;
  subject = some message.subject;
  mailbox = some message.mailbox;
}

-- `limit or cfg.max_messages_per_poll`
abbrev pub limit_or : Option ℕ → ℕ → ℕ
limit_or none most = most
limit_or (some zero) most = most
limit_or (some (suc n)) most = suc n

-- What the loops leave.
pub record Polled (E : Type 0) : Type 0 where
  pub summaries : List Summary
  pub service : Service E

module _ {E : Type 0} where
  -- An error of a run is logged.
  abbrev pub collect : List Summary → Answer E → Polled E
  collect summaries (ok summary, sv) = record {
    summaries = summaries ++ (summary ∷ []);
    service = sv;
  }
  collect summaries (err error, sv) = record { summaries = summaries; service = sv }

module _ {E : Type 0} (host : Host) (x : External) (cfg : AppConfig) (client : ErpClient E)
    (kind : WorkflowKind) where
  unfoldable pub poll_attachments : EmailMessage → List EmailAttachment → Polled E → Polled E
  unfolding start_run
  poll_attachments message [] acc = acc
  poll_attachments message (attachment ∷ rest) acc = poll_attachments message rest (
      collect acc.summaries
        (start_run host x cfg client (request_of kind message attachment) acc.service))

  module _ {M : Type 0} (mailbox : MailboxClient M) where
    unfoldable pub poll_messages : List EmailMessage → Polled E → M → Polled E × M
    unfolding poll_attachments
    poll_messages [] acc m = (acc, m)
    poll_messages (message ∷ rest) acc m =
        poll_messages rest (poll_attachments message message.attachments acc)
          (mailbox.mark_processed message.message_id m)

    unfoldable pub poll_mailbox : Option ℕ → ℕ → Service E → M → Polled E × M
    unfolding poll_messages
    poll_mailbox limit max_messages_per_poll sv m =
        let (messages, m') = mailbox.fetch_messages (limit_or limit max_messages_per_poll) m in
        poll_messages messages (record { summaries = []; service = sv }) m'
