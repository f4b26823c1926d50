-- ===== src/Store/Audit.antt =====
-- The audit trail of `WorkflowRepository`.
use mathlib.Core.List.{reverse}
use invoice_to_payment_agent.Prelude.{
  true, ℕ, ◌+◌, max, Bool, Option, List, [], ◌∷◌, ◌++◌, if◌then◌else◌, select, length, String, none,
  some, leb, ◌==◌, take, drop,
}
use invoice_to_payment_agent.Prelude.Text.{Text, text_eq}
use invoice_to_payment_agent.Schemas.Common.{AuditAction, action_index}
use invoice_to_payment_agent.Store.Rows.{AuditEvent, Store}

abbrev pub of_run : Text → AuditEvent → Bool
of_run run_id event = text_eq event.run_id run_id

-- `coalesce(max(sequence), 0)` over the run's events
unfoldable pub max_sequence : Text → List AuditEvent → ℕ
max_sequence run_id [] = 0
max_sequence run_id (event ∷ events) =
    let rest = max_sequence run_id events in
    if of_run run_id event then max event.sequence rest else rest

-- What the caller gives of an event.
pub record NewEvent : Type 0 where
  pub action : AuditAction
  pub actor : Text
  pub node : String
  pub source_message_id : Option Text
  pub document_sha256 : Option Text

unfoldable pub append_audit : Text → NewEvent → Store → Store
unfolding max_sequence
append_audit run_id new s =
    let event : AuditEvent = record {
      run_id = run_id;
      sequence = max_sequence run_id s.audits + 1;
      action = new.action;
      actor = new.actor;
      node = new.node;
      source_message_id = new.source_message_id;
      document_sha256 = new.document_sha256;
    } in
    record s { audits = s.audits ++ (event ∷ []) }

-- The trail of one run.
unfoldable pub trail : Text → Store → List AuditEvent
trail run_id s = select (of_run run_id) s.audits

unfoldable pub count_audit_events : Text → Store → ℕ
unfolding trail
count_audit_events run_id s = length (trail run_id s)

-- Python's stable sort by the sequence.
unfoldable pub insert_event : AuditEvent → List AuditEvent → List AuditEvent
insert_event event [] = event ∷ []
insert_event event (e ∷ events) =
    let rest = insert_event event events in
    if leb event.sequence e.sequence then event ∷ e ∷ events else e ∷ rest

unfoldable pub by_sequence : List AuditEvent → List AuditEvent
unfolding insert_event
by_sequence [] = []
by_sequence (event ∷ events) = insert_event event (by_sequence events)

abbrev has_action : Option AuditAction → AuditEvent → Bool
has_action none event = true
has_action (some action) event = action_index event.action == action_index action

-- In the order of the run, or of all runs the newest first.
abbrev pub ordered_events : Option Text → List AuditEvent → List AuditEvent
ordered_events none events = reverse events
ordered_events (some run_id) events = by_sequence (select (of_run run_id) events)

-- `list_audit_events`, without `since`
unfoldable pub list_audit_events :
    Option Text → Option AuditAction → ℕ → ℕ → Store → List AuditEvent
unfolding by_sequence
list_audit_events run_id action limit offset s =
    take limit (drop offset (ordered_events run_id (select (has_action action) s.audits)))

-- `count_audit_events`, with or without a run
unfoldable pub count_events_of : Option Text → Store → ℕ
unfolding count_audit_events
count_events_of none s = length s.audits
count_events_of (some run_id) s = count_audit_events run_id s
