-- ===== src/Store/Trail.antt =====
-- The numbers of the events in the trail of a run.
use mathlib.Core.List.{append-nil}
use invoice_to_payment_agent.Prelude.{
  ℕ, zero, suc, ◌+◌, max, Bool, ◌≡◌, refl, List, [], ◌∷◌, ◌++◌, select, length, arith, Bool-cases,
  inl, inr,
}
use invoice_to_payment_agent.Prelude.Text.{Text, text_eq, text_eq→eq}
use invoice_to_payment_agent.Store.Rows.{AuditEvent, Store}
use invoice_to_payment_agent.Store.Audit.{of_run, max_sequence, NewEvent, append_audit, trail}

abbrev pub AreNumbered : ℕ → List AuditEvent → Type 0
AreNumbered n [] = Unit
AreNumbered n (event ∷ events) = (event.sequence ≡ n) × AreNumbered (suc n) events

-- Every run's trail counts from 1.
abbrev pub IsNumbered : Store → Type 0
IsNumbered s = (run_id : Text) → AreNumbered 1 (trail run_id s)

abbrev max_of : List AuditEvent → ℕ
max_of [] = 0
max_of (event ∷ events) = max event.sequence (max_of events)

max_sequence-eq-max_of :
    (run_id : Text) (events : List AuditEvent)
    → max_sequence run_id events ≡ max_of (select (of_run run_id) events)
unfolding max_sequence
max_sequence-eq-max_of run_id [] = refl
max_sequence-eq-max_of run_id (event ∷ events) = elim (Bool-cases (of_run run_id event)) [
  | inl e ↦ rw (e, max_sequence-eq-max_of run_id events)
  | inr e ↦ rw (e, max_sequence-eq-max_of run_id events)
]

max_of-AreNumbered :
    (n : ℕ) (events : List AuditEvent)
    → AreNumbered (suc n) events
    → max n (max_of events) ≡ n + length events
max_of-AreNumbered n [] h = omega arith
max_of-AreNumbered n (event ∷ events) (e, h) = omega (arith, max_of-AreNumbered (suc n) events h)

AreNumbered-append :
    (n : ℕ) (events : List AuditEvent) (event : AuditEvent)
    → AreNumbered n events
    → event.sequence ≡ n + length events
    → AreNumbered n (events ++ (event ∷ []))
AreNumbered-append n [] event h e = (omega arith, tt)
AreNumbered-append n (x ∷ xs) event (e0, h) e =
    (e0, AreNumbered-append (suc n) xs event h (omega arith))

select-append :
    (test : AuditEvent → Bool) (xs ys : List AuditEvent)
    → select test (xs ++ ys) ≡ select test xs ++ select test ys
select-append test [] ys = refl
select-append test (x ∷ xs) ys = elim (Bool-cases (test x)) [
  | inl e ↦ rw (e, select-append test xs ys)
  | inr e ↦ rw (e, select-append test xs ys)
]

-- Appending an event to the trail of one run keeps the numbering of every run.
pub append_audit-IsNumbered :
    (run_id : Text) (new : NewEvent) (s : Store)
    → IsNumbered s
    → IsNumbered (append_audit run_id new s)
unfolding append_audit trail
append_audit-IsNumbered run_id new s h other =
    rw (select-append (of_run other) s.audits) (elim (Bool-cases (text_eq run_id other)) [
      | inl e ↦
          let same = text_eq→eq run_id other e in
          let next = max_of-AreNumbered zero (select (of_run other) s.audits) (h other) in
          rw e (
            AreNumbered-append 1 (select (of_run other) s.audits) _ (h other)
              (rw (same, max_sequence-eq-max_of other s.audits) (omega arith)))
      | inr e ↦ rw (e, append-nil) (h other)
    ])
