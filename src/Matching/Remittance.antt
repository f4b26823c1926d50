-- ===== src/Matching/Remittance.antt =====
-- `match_remittance` of matching/engine.py. A message about a line that stays open is its template
-- with the values that are put into it.
use invoice_to_payment_agent.Prelude.{Option, none, some, List, [], ◌∷◌, ◌++◌, if◌then◌else◌}
use invoice_to_payment_agent.Prelude.Text.{Text, text_eq, strip, upper, text_or, is_given}
use invoice_to_payment_agent.Decimal.{Decimal, zero_decimal, add, sub, abs, lt, some_or, quantize}
use invoice_to_payment_agent.Schemas.Invoice.{RemittanceAdvice, ExtractedRemittance}
use invoice_to_payment_agent.Schemas.Erp.{ArItem}
use invoice_to_payment_agent.Schemas.Config.{MatchingConfig}
use invoice_to_payment_agent.Matching.Lines.{flag}

pub data Unresolved : Type 0 where
  no_reference : Unresolved
  no_receivable : Text → Unresolved
  amount_differs : Text → Decimal → Decimal → Decimal → Unresolved
  residual_left : Decimal → Decimal → Decimal → Unresolved
  application_failed : Text → Text → Unresolved

-- `s.strip().upper()`
abbrev pub invoice_key : Text → Text
invoice_key s = upper (strip s)

-- `by_invoice.get(key)` of the dict that the comprehension builds: a later item of a key takes the
-- place of an earlier one.
unfoldable pub find_item : Text → List ArItem → Option ArItem
find_item key [] = none
find_item key (item ∷ items) = elim (find_item key items) [
  | some later ↦ some later
  | none ↦ if text_eq (invoice_key item.invoice_number) key then some item else none
]

abbrev pub Application : Type 0
Application = ArItem × Decimal

pub record Applied : Type 0 where
  pub applications : List Application
  pub unresolved : List Unresolved
  pub applied_total : Decimal

abbrev pub advice_amount : RemittanceAdvice → ArItem → Decimal
advice_amount advice item = some_or advice.amount_paid item.open_amount

abbrev pub advice_number : RemittanceAdvice → Text
advice_number advice = text_or advice.invoice_number []

abbrev pub nothing_applied : Applied
nothing_applied = record { applications = []; unresolved = []; applied_total = zero_decimal }

module _ (cfg : MatchingConfig) where
  -- One round of the loop for an advice that names the open item.
  unfoldable pub apply_item : RemittanceAdvice → ArItem → Applied → Applied
  apply_item advice item acc =
      let amount = advice_amount advice item in
      let delta = abs (sub amount item.open_amount) in
      record {
        applications = acc.applications ++ ((item, quantize amount) ∷ []);
        unresolved =
            acc.unresolved
            ++ flag (lt cfg.remittance_tolerance_abs delta) (
                amount_differs (advice_number advice) (quantize amount) (quantize item.open_amount)
                  (quantize delta));
        applied_total = add acc.applied_total amount;
      }

  -- One round of the loop.
  unfoldable pub apply_advice : List ArItem → RemittanceAdvice → Applied → Applied
  unfolding apply_item
  apply_advice open_items advice acc =
      if is_given advice.invoice_number
      then (elim (find_item (invoice_key (advice_number advice)) open_items) [
        | none ↦ record acc {
          unresolved = acc.unresolved ++ (no_receivable (advice_number advice) ∷ []);
        }
        | some item ↦ apply_item advice item acc
      ])
      else record acc { unresolved = acc.unresolved ++ (no_reference ∷ []) }

  unfoldable pub apply_advices : List ArItem → List RemittanceAdvice → Applied → Applied
  unfolding apply_advice
  apply_advices open_items [] acc = acc
  apply_advices open_items (advice ∷ advices) acc =
      apply_advices open_items advices (apply_advice open_items advice acc)

  -- The applications to post, what stays open, and the residual.
  unfoldable pub match_remittance :
      ExtractedRemittance → List ArItem → List Application × List Unresolved × Decimal
  unfolding apply_advices
  match_remittance remittance open_items =
      let done = apply_advices open_items remittance.advices nothing_applied in
      let declared_total = some_or remittance.total_paid done.applied_total in
      let residual = quantize (sub declared_total done.applied_total) in
      (
        done.applications,
        done.unresolved
            ++ flag (lt cfg.remittance_tolerance_abs (abs residual))
                (residual_left (quantize declared_total) (quantize done.applied_total) residual),
        residual,
      )
