-- ===== src/Matching/Settlement.antt =====
-- What `match_remittance` applies, and when it leaves nothing open.
use invoice_to_payment_agent.Prelude.{false, ◌≡◌, Option, none, some, List, [], ◌∷◌, if◌then◌else◌}
use invoice_to_payment_agent.Prelude.Text.{is_given}
use invoice_to_payment_agent.Decimal.{Decimal, add, sub, abs, lt, quantize}
use invoice_to_payment_agent.Schemas.Invoice.{RemittanceAdvice}
use invoice_to_payment_agent.Schemas.Erp.{ArItem}
use invoice_to_payment_agent.Schemas.Config.{MatchingConfig}
use invoice_to_payment_agent.Matching.Remittance.{
  invoice_key, find_item, Application, advice_amount, advice_number,
}

-- The open item that an advice names, if it names one.
abbrev pub named_item : List ArItem → RemittanceAdvice → Option ArItem
named_item open_items advice =
    if is_given advice.invoice_number
    then find_item (invoice_key (advice_number advice)) open_items
    else none

-- The advices that name an open item, each with it, in order.
abbrev pub Named : Type 0
Named = List (RemittanceAdvice × ArItem)

named_from : RemittanceAdvice → Option ArItem → Named → Named
named_from advice none rest = rest
named_from advice (some item) rest = (advice, item) ∷ rest

pub named : List ArItem → List RemittanceAdvice → Named
unfolding named_from
named open_items [] = []
named open_items (advice ∷ advices) =
    named_from advice (named_item open_items advice) (named open_items advices)

-- What is posted for them, and its sum.
abbrev pub application_of : RemittanceAdvice × ArItem → Application
application_of (advice, item) = (item, quantize (advice_amount advice item))

abbrev pub sum_amounts : Decimal → Named → Decimal
sum_amounts total [] = total
sum_amounts total ((advice, item) ∷ rest) = sum_amounts (add total (advice_amount advice item)) rest

-- An advice that is paid as expected: it names an open item and its amount is within the tolerance.
abbrev pub IsSettled : MatchingConfig → List ArItem → RemittanceAdvice → Type 0
IsSettled cfg open_items advice =
    (item : ArItem) × (named_item open_items advice ≡ some item)
    × (lt cfg.remittance_tolerance_abs (abs (sub (advice_amount advice item) item.open_amount))
        ≡ false)
