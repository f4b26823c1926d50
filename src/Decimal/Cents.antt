-- ===== src/Decimal/Cents.antt =====
-- Arithmetic and comparison of values with two places, in terms of their coefficients.
use invoice_to_payment_agent.Prelude.{◌≡◌, refl, arith}
use invoice_to_payment_agent.Prelude.Int.{ℤ, pos, negsuc, ◌+ℤ◌, ◌-ℤ◌, ltb_ℤ, leb_ℤ, eqb_ℤ}
use invoice_to_payment_agent.Decimal.{
  cents, zero_decimal, shift_up, coef_at, add, sub, lt, le, eq, quantize,
}

pub shift_up-zero : (c : ℤ) → shift_up c 0 ≡ c
unfolding shift_up
shift_up-zero (pos n) = ground arith
shift_up-zero (negsuc n) = ground arith

pub coef_at-cents : (c : ℤ) → coef_at 2 (cents c) ≡ c
unfolding coef_at
coef_at-cents c = shift_up-zero c

pub add-cents : (a b : ℤ) → add (cents a) (cents b) ≡ cents (a +ℤ b)
unfolding add
add-cents a b = rw (shift_up-zero a, shift_up-zero b)

pub sub-cents : (a b : ℤ) → sub (cents a) (cents b) ≡ cents (a -ℤ b)
unfolding sub
sub-cents a b = rw (shift_up-zero a, shift_up-zero b)

pub lt-cents : (a b : ℤ) → lt (cents a) (cents b) ≡ ltb_ℤ a b
unfolding lt
lt-cents a b = rw (shift_up-zero a, shift_up-zero b)

pub le-cents : (a b : ℤ) → le (cents a) (cents b) ≡ leb_ℤ a b
unfolding le
le-cents a b = rw (shift_up-zero a, shift_up-zero b)

pub eq-cents : (a b : ℤ) → eq (cents a) (cents b) ≡ eqb_ℤ a b
unfolding eq
eq-cents a b = rw (shift_up-zero a, shift_up-zero b)

-- `Decimal("0")` has no places, so it is written out first.
pub zero-add-cents : (c : ℤ) → add zero_decimal (cents c) ≡ cents c
unfolding add
zero-add-cents (pos n) = ground arith
zero-add-cents (negsuc n) = ground arith

pub zero-lt-cents : (c : ℤ) → lt zero_decimal (cents c) ≡ ltb_ℤ (pos 0) c
unfolding lt
zero-lt-cents c = rw (shift_up-zero c)

pub quantize-cents : (c : ℤ) → quantize (cents c) ≡ cents c
unfolding quantize
quantize-cents c = rw (shift_up-zero c)

pub add-cents-zero : (c : ℤ) → add (cents c) zero_decimal ≡ cents c
unfolding add
add-cents-zero (pos n) = ground arith
add-cents-zero (negsuc n) = ground arith

pub cents-lt-zero : (c : ℤ) → lt (cents c) zero_decimal ≡ ltb_ℤ c (pos 0)
unfolding lt
cents-lt-zero c = rw (shift_up-zero c)

pub zero-add-zero : add zero_decimal zero_decimal ≡ zero_decimal
unfolding add
zero-add-zero = refl
