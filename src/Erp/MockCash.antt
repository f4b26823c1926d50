-- ===== src/Erp/MockCash.antt =====
-- What the mock server makes of a payment.
use invoice_to_payment_agent.Prelude.{◌≡◌, refl, inl, inr, arith, Bool-cases}
use invoice_to_payment_agent.Prelude.Int.{ℤ, pos, ◌-ℤ◌, ◌+ℤ◌, leb_ℤ, ltb_ℤ, int_laws, -ℤ_parts}
use invoice_to_payment_agent.Decimal.{cents, zero_decimal, add, le}
use invoice_to_payment_agent.Decimal.Cents.{add-cents, sub-cents, lt-cents, shift_up-zero}
use invoice_to_payment_agent.Schemas.Erp.{ArItem}
use invoice_to_payment_agent.Erp.Mock.{min_decimal, paid}

cents-le-zero : (c : ℤ) → le (cents c) zero_decimal ≡ leb_ℤ c (pos 0)
unfolding le
cents-le-zero c = rw (shift_up-zero c)

-- Of a payment and an open amount in cents, what is applied and what stays open make up the amount
-- that was open, and nothing stays open exactly if the payment reaches the open amount.
pub paid-splits :
    (item : ArItem) (a o : ℤ)
    → item.open_amount ≡ cents o
    → (add (min_decimal (cents a) (cents o)) (paid (cents a) item).open_amount ≡ cents o)
      × (le (paid (cents a) item).open_amount zero_decimal ≡ leb_ℤ o a)
unfolding paid
paid-splits item a o e = elim (Bool-cases (ltb_ℤ o a)) [
  | inl more ↦
      let sum : o +ℤ (o -ℤ o) ≡ o = omega int_laws in
      let none_left : leb_ℤ (o -ℤ o) (pos 0) ≡ leb_ℤ o a = ground (arith, -ℤ_parts o o) in
      rw (e, lt-cents o a, more, sub-cents o o, add-cents o (o -ℤ o), sum, cents-le-zero (o -ℤ o))
        (refl, none_left)
  | inr less ↦
      let sum : a +ℤ (o -ℤ a) ≡ o = omega int_laws in
      let left_over : leb_ℤ (o -ℤ a) (pos 0) ≡ leb_ℤ o a = ground (arith, -ℤ_parts o a) in
      rw (e, lt-cents o a, less, sub-cents o a, add-cents a (o -ℤ a), sum, cents-le-zero (o -ℤ a))
        (refl, left_over)
]
