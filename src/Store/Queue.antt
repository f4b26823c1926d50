-- ===== src/Store/Queue.antt =====
-- What a lookup finds: in the approval queue after a case is saved, and among the stored invoices.
use invoice_to_payment_agent.Prelude.{
  ℕ, ◌<◌, ◌==◌, ◌≡◌, refl, not, ◌&&◌, true, false, Bool, Option, none, some, List, [], ◌∷◌, ◌++◌,
  find, find-eq-some, In, All, arith, Bool-cases, Option-cases, inl, inr, if◌then◌else◌,
}
use invoice_to_payment_agent.Prelude.Text.{Text, text_eq}
use invoice_to_payment_agent.Store.Rows.{ExceptionCase, InvoiceRow, Store}
use invoice_to_payment_agent.Store.Runs.{find_duplicate}
use invoice_to_payment_agent.Store.Cases.{NewCase, case_of, is_case, save_exception, get_exception}

-- The case numbers that are given are below the next one.
abbrev pub AreBelow : ℕ → List ExceptionCase → Type 0
AreBelow n [] = Unit
AreBelow n (case ∷ cases) = (case.id < n) × AreBelow n cases

find-snoc :
    (id n : ℕ) (cases : List ExceptionCase) (case : ExceptionCase)
    → AreBelow n cases
    → case.id ≡ n
    → find (is_case id) (cases ++ (case ∷ []))
      ≡ (if id == n then some case else find (is_case id) cases)
find-snoc id n [] case h e = ground arith
find-snoc id n (c ∷ cases) case (lt, h) e = elim (Bool-cases (is_case id c)) [
  | inl same ↦ let other : (id == n) ≡ false = ground arith in rw (same, other) refl
  | inr differs ↦ rw differs (find-snoc id n cases case h e)
]

-- After a case is saved, its number finds it, and every other number finds what it found before.
pub get_exception-save_exception :
    (new : NewCase) (s : Store) (id : ℕ)
    → AreBelow s.next_case s.cases
    → get_exception id (save_exception new s).1
      ≡ (if id == s.next_case then some (save_exception new s).0 else get_exception id s)
unfolding get_exception save_exception
get_exception-save_exception new s id h =
    find-snoc id s.next_case s.cases (case_of new s.next_case) h refl

find-eq-none :
    (test : InvoiceRow → Bool) (rows : List InvoiceRow)
    → find test rows ≡ none
    → All (λ row. test row ≡ false) rows
find-eq-none test [] h = tt
find-eq-none test (row ∷ rows) h = elim (Bool-cases (test row)) [
  | inl e ↦ cc (rw e at h)
  | inr e ↦ (e, find-eq-none test rows (rw e at h))
]

-- What `find_duplicate` promises of its answer.
abbrev pub IsDuplicateOf : Text → Text → List InvoiceRow → Option InvoiceRow → Type 0
IsDuplicateOf fingerprint run_id rows (some row) =
    In row rows × (text_eq row.fingerprint fingerprint ≡ true) × (text_eq row.run_id run_id ≡ false)
IsDuplicateOf fingerprint run_id rows none =
    All
      (λ (row : InvoiceRow).
        (text_eq row.fingerprint fingerprint && not (text_eq row.run_id run_id)) ≡ false)
      rows

-- The duplicate that is found is a stored invoice of another run with the fingerprint; where none
-- is found, there is none.
pub find_duplicate-IsDuplicateOf :
    (fingerprint run_id : Text) (s : Store)
    → IsDuplicateOf fingerprint run_id s.invoices (find_duplicate fingerprint run_id s)
unfolding find_duplicate
find_duplicate-IsDuplicateOf fingerprint run_id s =
    let test : InvoiceRow → Bool =
      λ row. text_eq row.fingerprint fingerprint && not (text_eq row.run_id run_id) in
    elim (Option-cases (find test s.invoices)) [
      | inl e ↦ rw e (find-eq-none test s.invoices e)
      | inr (row, e) ↦
          let (passed, listed) = find-eq-some test s.invoices row e in
          rw e (listed, ground arith, ground arith)
    ]
