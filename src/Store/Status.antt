-- ===== src/Store/Status.antt =====
-- The status of each run in the table of runs, and what the methods of the repository do to it.
use invoice_to_payment_agent.Prelude.{
  false, ◌≡◌, refl, inl, inr, Option, none, some, List, [], ◌∷◌, ◌++◌, find, Bool-cases,
}
use invoice_to_payment_agent.Prelude.Text.{Text, text_eq, text_eq→eq, text_eq_refl}
use invoice_to_payment_agent.Schemas.Common.{RunStatus}
use invoice_to_payment_agent.Store.Rows.{WorkflowRun, Store}
use invoice_to_payment_agent.Store.Runs.{
  is_run, get_run, create_run, RunFields, set_fields, update_rows, update_run,
}

abbrev pub status_in : Option WorkflowRun → Option RunStatus
status_in none = none
status_in (some run) = some run.status

-- The status of the run with an id, if there is one.
unfoldable pub run_status : Text → Store → Option RunStatus
unfolding get_run
run_status run_id s = status_in (get_run run_id s)

abbrev rows_status : Text → List WorkflowRun → Option RunStatus
rows_status run_id rows = status_in (find (is_run run_id) rows)

rows_status-update_rows :
    (run_id : Text) (fields : RunFields) (rows : List WorkflowRun) (before : RunStatus)
    → rows_status run_id rows ≡ some before
    → rows_status run_id (update_rows run_id fields rows) ≡ some fields.status
unfolding update_rows set_fields
rows_status-update_rows run_id fields [] before h = cc
rows_status-update_rows run_id fields (run ∷ rows) before h =
    elim (Bool-cases (is_run run_id run)) [
      | inl e ↦ rw (e, e) refl
      | inr e ↦ rw (e, e) (rows_status-update_rows run_id fields rows before (rw e at h))
    ]

rows_status-update_other :
    (run_id other : Text) (fields : RunFields) (rows : List WorkflowRun)
    → text_eq run_id other ≡ false
    → rows_status other (update_rows run_id fields rows) ≡ rows_status other rows
unfolding update_rows set_fields
rows_status-update_other run_id other fields [] d = refl
rows_status-update_other run_id other fields (run ∷ rows) d =
    let rest = rows_status-update_other run_id other fields rows d in
    elim (Bool-cases (is_run run_id run)) [
      | inl e ↦
          let differs : is_run other run ≡ false = rw (text_eq→eq run.id run_id e) d in
          rw (e, differs) refl
      | inr e ↦ elim (Bool-cases (is_run other run)) [
        | inl f ↦ rw (e, f) refl
        | inr f ↦ rw (e, f) rest
      ]
    ]

rows_status-append :
    (run : WorkflowRun) (rows : List WorkflowRun)
    → rows_status run.id rows ≡ none
    → rows_status run.id (rows ++ (run ∷ [])) ≡ some run.status
rows_status-append run [] h = rw (text_eq_refl run.id) refl
rows_status-append run (r ∷ rows) h = elim (Bool-cases (is_run run.id r)) [
  | inl e ↦ cc (rw e at h)
  | inr e ↦ rw e (rows_status-append run rows (rw e at h))
]

rows_status-append_other :
    (other : Text) (run : WorkflowRun) (rows : List WorkflowRun)
    → text_eq run.id other ≡ false
    → rows_status other (rows ++ (run ∷ [])) ≡ rows_status other rows
rows_status-append_other other run [] d = rw d refl
rows_status-append_other other run (r ∷ rows) d = elim (Bool-cases (is_run other r)) [
  | inl e ↦ rw e refl
  | inr e ↦ rw e (rows_status-append_other other run rows d)
]

pub run_status-update_run :
    (run_id : Text) (fields : RunFields) (s : Store) (before : RunStatus)
    → run_status run_id s ≡ some before
    → run_status run_id (update_run run_id fields s) ≡ some fields.status
unfolding run_status update_run
run_status-update_run run_id fields s before h =
    rows_status-update_rows run_id fields s.runs before h

pub run_status-update_other :
    (run_id other : Text) (fields : RunFields) (s : Store)
    → text_eq run_id other ≡ false
    → run_status other (update_run run_id fields s) ≡ run_status other s
unfolding run_status update_run
run_status-update_other run_id other fields s d =
    rows_status-update_other run_id other fields s.runs d

pub run_status-create_run :
    (run : WorkflowRun) (s : Store)
    → run_status run.id s ≡ none
    → run_status run.id (create_run run s) ≡ some run.status
unfolding run_status create_run
run_status-create_run run s h = rows_status-append run s.runs h

pub run_status-create_other :
    (other : Text) (run : WorkflowRun) (s : Store)
    → text_eq run.id other ≡ false
    → run_status other (create_run run s) ≡ run_status other s
unfolding run_status create_run
run_status-create_other other run s d = rows_status-append_other other run s.runs d
