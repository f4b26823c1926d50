-- ===== src/Decimal.antt =====
-- `decimal.Decimal` as the program uses it. A value is an integer coefficient and the number of its
-- decimal places, so `10.0` and `10.00` are two values that compare equal. Sums, differences and
-- products are exact, as they are in Python while a result has at most 28 digits. A quotient is
-- rounded to 28 digits, half to even, as the default context does.
pub mod Context
pub mod Cents
pub mod Rounding
pub mod Print
pub use Context.{digit_count, round_digits, quotient}
use invoice_to_payment_agent.Prelude.{
  ℕ, ◌+◌, ◌-◌, ◌*◌, ◌/◌, ◌^◌, Bool, not, Option, none, some, max, leb, ◌==◌, if◌then◌else◌,
}
use invoice_to_payment_agent.Prelude.Int.{
  ℤ, pos, negsuc, neg, ◌+ℤ◌, ◌-ℤ◌, ◌*ℤ◌, magnitude, ltb_ℤ, leb_ℤ, eqb_ℤ,
}

pub record Decimal : Type 0 where
  pub coef : ℤ
  pub scale : ℕ

abbrev pub decimal : ℤ → ℕ → Decimal
decimal c s = record { coef = c; scale = s }

-- A value with two decimal places.
abbrev pub cents : ℤ → Decimal
cents c = decimal c 2

-- `Decimal("0")`
abbrev pub zero_decimal : Decimal
zero_decimal = decimal (pos 0) 0

-- `Decimal("100")`
abbrev pub hundred : Decimal
hundred = decimal (pos 100) 0

-- The coefficient times a power of ten.
unfoldable pub shift_up : ℤ → ℕ → ℤ
shift_up (pos n) k = pos (n * 10 ^ k)
shift_up (negsuc n) k = neg ((n + 1) * 10 ^ k)

-- The coefficient of a value written with `s` places, for `s` not below its own.
unfoldable pub coef_at : ℕ → Decimal → ℤ
unfolding shift_up
coef_at s d = shift_up d.coef (s - d.scale)

-- Operators of `Decimal`.
unfoldable pub add : Decimal → Decimal → Decimal
unfolding coef_at ◌+ℤ◌
add a b = let s = max a.scale b.scale in decimal (coef_at s a +ℤ coef_at s b) s

unfoldable pub sub : Decimal → Decimal → Decimal
unfolding coef_at ◌-ℤ◌
sub a b = let s = max a.scale b.scale in decimal (coef_at s a -ℤ coef_at s b) s

unfoldable pub mul : Decimal → Decimal → Decimal
unfolding ◌*ℤ◌
mul a b = decimal (a.coef *ℤ b.coef) (a.scale + b.scale)

unfoldable pub abs : Decimal → Decimal
abs a = decimal (pos (magnitude a.coef)) a.scale

-- `a / b` for a divisor that is not zero. The program divides absolute values only.
unfoldable pub div : Decimal → Decimal → Decimal
unfolding quotient
div a b =
    let (n, places) = quotient (magnitude a.coef) (magnitude b.coef) (a.scale) (b.scale) in
    decimal (pos n) places

unfoldable pub lt : Decimal → Decimal → Bool
unfolding coef_at
lt a b = let s = max a.scale b.scale in ltb_ℤ (coef_at s a) (coef_at s b)

unfoldable pub le : Decimal → Decimal → Bool
unfolding coef_at
le a b = let s = max a.scale b.scale in leb_ℤ (coef_at s a) (coef_at s b)

unfoldable pub eq : Decimal → Decimal → Bool
unfolding coef_at
eq a b = let s = max a.scale b.scale in eqb_ℤ (coef_at s a) (coef_at s b)

-- `bool(d)`: every value but zero is true.
unfoldable pub is_nonzero : Decimal → Bool
is_nonzero d = not (magnitude d.coef == 0)

-- `d or e`
abbrev pub decimal_or : Decimal → Decimal → Decimal
decimal_or d e = if is_nonzero d then d else e

-- `d or e` for an optional `d`
abbrev pub some_or : Option Decimal → Decimal → Decimal
some_or none e = e
some_or (some d) e = decimal_or d e

-- n / m to the nearest integer, ties away from zero.
unfoldable pub round_half_up : ℤ → ℕ → ℤ
round_half_up (pos n) m = pos ((n + m / 2) / m)
round_half_up (negsuc n) m = neg ((n + 1 + m / 2) / m)

-- The coefficient of the value rounded to cents.
unfoldable pub to_cents : Decimal → ℤ
unfolding round_half_up shift_up
to_cents d =
    if leb d.scale 2
    then shift_up d.coef (2 - d.scale)
    else round_half_up d.coef (10 ^ (d.scale - 2))

-- `_q`: `value.quantize(Decimal("0.01"), rounding=ROUND_HALF_UP)`
unfoldable pub quantize : Decimal → Decimal
unfolding to_cents
quantize d = cents (to_cents d)
