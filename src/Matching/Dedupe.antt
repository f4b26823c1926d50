-- ===== src/Matching/Dedupe.antt =====
-- `list(dict.fromkeys(exceptions))`.
use invoice_to_payment_agent.Prelude.{false, ◌≡◌, ◌↔◌, List, [], ◌∷◌, ◌++◌, Bool-cases, inl, inr}
use invoice_to_payment_agent.Schemas.Common.{ExceptionType}
use invoice_to_payment_agent.Prelude.Text.{Text}
use invoice_to_payment_agent.Matching.Engine.{has_exception, from_keys, dedupe}

-- No exception is listed twice.
abbrev pub IsDistinct : List ExceptionType → Type 0
IsDistinct [] = Unit
IsDistinct (e ∷ es) = (has_exception e es ≡ false) × IsDistinct es

from_keys-ne-nil :
    (x : ExceptionType) (seen es : List ExceptionType) → ¬ (from_keys (x ∷ seen) es ≡ [])
unfolding from_keys
from_keys-ne-nil x seen [] h = cc
from_keys-ne-nil x seen (e ∷ es) h = elim (Bool-cases (has_exception e (x ∷ seen))) [
  | inl old ↦ from_keys-ne-nil x seen es (rw old at h)
  | inr new ↦ from_keys-ne-nil x (seen ++ (e ∷ [])) es (rw new at h)
]

pub dedupe-eq-nil : (es : List ExceptionType) → (dedupe es ≡ []) ↔ (es ≡ [])
unfolding dedupe
dedupe-eq-nil [] = (λ h. h, λ h. h)
dedupe-eq-nil (e ∷ es) = (λ h. absurd (from_keys-ne-nil e [] es h), λ h. cc)
