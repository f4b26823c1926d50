-- ===== src/Agents/Replay.antt =====
-- What the replay of the exception node leaves in the approval queue.
use invoice_to_payment_agent.Prelude.{
  ℕ, ◌+◌, ◌≤◌, ◌≡◌, refl, ap, Option, none, some, List, [], ◌∷◌, ◌++◌, true, false, if◌then◌else◌,
  arith,
}
use mathlib.Core.List.{append_assoc}
use invoice_to_payment_agent.Prelude.Text.{Text}
use invoice_to_payment_agent.Schemas.Common.{ExceptionStatus, approved_status, rejected_status}
use invoice_to_payment_agent.Schemas.Matching.{MatchReport}
use invoice_to_payment_agent.Store.Rows.{ExceptionCase}
use invoice_to_payment_agent.Store.Runs.{update_run}
use invoice_to_payment_agent.Store.Audit.{append_audit}
use invoice_to_payment_agent.Store.Cases.{
  case_of, is_case, resolved, save_exception, resolve_rows, resolve_exception,
}
use invoice_to_payment_agent.Store.Queue.{AreBelow}
use invoice_to_payment_agent.Agents.State.{InvoiceState}
use invoice_to_payment_agent.Agents.World.{External, AppConfig, World}
use invoice_to_payment_agent.Agents.Decide.{
  Approval, new_case, open_case, close_case, exception_node, raise_for, at_interrupt, is_approve,
  verdict_of, approver_of,
}
use invoice_to_payment_agent.Agents.Kept.{left, audit-keeps, set_run_status-keeps}
use invoice_to_payment_agent.Agents.KeptDecide.{world_after}

resolve_rows-append :
    (id : ℕ) (status : ExceptionStatus) (by : Text) (remark : Option Text)
    (xs ys : List ExceptionCase) (n : ℕ)
    → AreBelow n xs
    → n ≤ id
    → resolve_rows id status by remark (xs ++ ys) ≡ xs ++ resolve_rows id status by remark ys
unfolding resolve_rows
resolve_rows-append id status by remark [] ys n h le = refl
resolve_rows-append id status by remark (x ∷ xs) ys n (lt, h) le =
    let other : is_case id x ≡ false = ground arith in
    rw (other, resolve_rows-append id status by remark xs ys n h le)

-- The cases of the queue, and the number of the next one.
abbrev pub QueueIs : {E : Type 0} → List ExceptionCase → ℕ → World E → Type 0
QueueIs cases n w = (w.store.cases ≡ cases) × (w.store.next_case ≡ n)

-- The case that the node saves.
abbrev pub raised : External → InvoiceState → MatchReport → ℕ → ExceptionCase
raised x s report id = case_of (new_case x s report (x.retrieve_policy report.exceptions)) id

module _ {E : Type 0} (x : External) (cfg : AppConfig) (s : InvoiceState)
    (report : MatchReport) where
  open_case-QueueIs :
      (w : World E)
      → s.exception_case_id ≡ none
      → QueueIs
          (w.store.cases ++ (raised x s report w.store.next_case ∷ []))
          (w.store.next_case + 1)
          (left (open_case x cfg s report w))
  unfolding open_case save_exception append_audit update_run
  open_case-QueueIs w e =
      let queue =
        QueueIs (w.store.cases ++ (raised x s report w.store.next_case ∷ []))
          (w.store.next_case + 1) in
      rw e (
        audit-keeps queue (λ id new w h. h) _ _ _ _ _
          (set_run_status-keeps queue (λ id fields w h. h) _ _ _ (refl, refl)))

  open_case-case :
      (w : World E)
      → s.exception_case_id ≡ none
      → (open_case x cfg s report w).0.exception_case_id ≡ some w.store.next_case
  unfolding open_case save_exception
  open_case-case w e = rw e

  close_case-QueueIs :
      (s' : InvoiceState) (approval : Approval) (id n : ℕ) (cases : List ExceptionCase)
      (w : World E)
      → s'.exception_case_id ≡ some id
      → QueueIs cases n w
      → QueueIs
          (resolve_rows id
            (if is_approve (verdict_of approval) then approved_status else rejected_status)
            (approver_of approval)
            approval.note
            cases)
          n
          (left (close_case s' approval w))
  unfolding close_case resolve_exception append_audit
  close_case-QueueIs s' approval id n cases w e (q, q') =
      let status = if is_approve (verdict_of approval) then approved_status else rejected_status in
      let queue = QueueIs (resolve_rows id status (approver_of approval) approval.note cases) n in
      audit-keeps queue (λ id new w h. h) _ _ _ _ _ (rw e (rw q refl, q'))

  raised_again-cases :
      (n : ℕ) (cases : List ExceptionCase) (approval : Approval) (w : World E)
      → s.exception_case_id ≡ none
      → AreBelow n cases
      → QueueIs (cases ++ (raised x s report n ∷ [])) (n + 1) w
      → QueueIs
          (cases
            ++ (raised x s report n
                ∷ resolved
                    (if is_approve (verdict_of approval) then approved_status else rejected_status)
                    (approver_of approval)
                    approval.note
                    (raised x s report (n + 1))
                ∷ []))
          (n + 1 + 1)
          (world_after (at_interrupt x cfg (some approval) (open_case x cfg s report w)))
  unfolding resolve_rows
  raised_again-cases n cases approval w e below (q, q') =
      let status = if is_approve (verdict_of approval) then approved_status else rejected_status in
      let by = approver_of approval in
      let second = raised x s report (n + 1) in
      let both = cases ++ (raised x s report n ∷ second ∷ []) in
      let opened : QueueIs both (n + 1 + 1) (left (open_case x cfg s report w)) =
        rw⁻¹ (append_assoc cases (raised x s report n ∷ []) (second ∷ []))
          (rw⁻¹ q (rw⁻¹ q' (open_case-QueueIs w e))) in
      let id : (open_case x cfg s report w).0.exception_case_id ≡ some (n + 1) =
        rw⁻¹ q' (open_case-case w e) in
      let first_other : is_case (n + 1) (raised x s report n) ≡ false = ground arith in
      let second_same : is_case (n + 1) second ≡ true = ground arith in
      let closed = close_case-QueueIs _ approval (n + 1) (n + 1 + 1) both _ id opened in
      let rows : resolve_rows (n + 1) status by approval.note both
          ≡ cases ++ (raised x s report n ∷ resolved status by approval.note second ∷ []) =
        rw (
          resolve_rows-append (n + 1) status by approval.note cases
              (raised x s report n ∷ second ∷ []) n below (omega arith),
          first_other,
          second_same,
        ) in
      rw⁻¹ rows closed

  -- A run without a case that is paused at the interrupt and then resumed has two cases in the queue:
  -- the first, which the approver sees, stays open, and a second one, which the replay saves, takes
  -- the verdict.
  pub exception_node-saves_twice :
      (approval : Approval) (w : World E)
      → s.exception_case_id ≡ none
      → s.match_report ≡ some report
      → AreBelow w.store.next_case w.store.cases
      → let first = world_after (exception_node x cfg none s w) in
        (world_after (exception_node x cfg (some approval) s first)).store.cases
        ≡ w.store.cases
          ++ (raised x s report w.store.next_case
              ∷ resolved
                  (if is_approve (verdict_of approval) then approved_status else rejected_status)
                  (approver_of approval)
                  approval.note
                  (raised x s report (w.store.next_case + 1))
              ∷ [])
  unfolding exception_node
  exception_node-saves_twice approval w e e' below =
      let node : (resume : Option Approval) (w' : World E)
          → exception_node x cfg resume s w'
            ≡ at_interrupt x cfg resume (open_case x cfg s report w') =
        λ resume w'. ap (λ r. raise_for x cfg resume s r w') e' in
      rw (node none w, node (some approval) (left (open_case x cfg s report w)))
        (raised_again-cases w.store.next_case w.store.cases approval _ e below
          (open_case-QueueIs w e)).0
