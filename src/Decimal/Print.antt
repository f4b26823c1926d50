-- ===== src/Decimal/Print.antt =====
-- `str(d)`, in ordinary notation: Python changes to the scientific one only below 10^-6.
use invoice_to_payment_agent.Prelude.{
  ℕ, zero, suc, ◌+◌, ◌-◌, ◌/◌, ◌%◌, [], ◌∷◌, ◌++◌, ltb, ◌==◌, if◌then◌else◌, length, take, drop,
}
use invoice_to_payment_agent.Prelude.Int.{ℤ, pos, negsuc, magnitude}
use invoice_to_payment_agent.Prelude.Text.{Text, codes}
use invoice_to_payment_agent.Decimal.{Decimal}

digits_from : ℕ → ℕ → Text → Text
digits_from zero n acc = acc
digits_from (suc f) n acc =
    let digit = b'0' + n % 10 in
    let rest = digits_from f (n / 10) (digit ∷ acc) in if ltb n 10 then digit ∷ acc else rest

-- The decimal digits of a number, which are no more than its value and one.
unfoldable pub digits : ℕ → Text
unfolding digits_from
digits n = digits_from (suc n) n []

abbrev pub zeros : ℕ → Text → Text
zeros zero t = t
zeros (suc n) t = b'0' ∷ zeros n t

abbrev sign_text : ℤ → Text
sign_text (pos _) = []
sign_text (negsuc _) = codes "-"

-- The digits with zeros in front, so that at least one stands before the point.
unfoldable pub padded : Decimal → Text
unfolding digits
padded d = let ds = digits (magnitude d.coef) in zeros (d.scale + 1 - length ds) ds

unfoldable pub decimal_text : Decimal → Text
unfolding padded
decimal_text d =
    let ds = padded d in
    let whole = length ds - d.scale in
    sign_text d.coef ++ (if d.scale == 0 then ds else take whole ds ++ (codes "." ++ drop whole ds))
