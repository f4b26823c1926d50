-- ===== src/Decimal/Rounding.antt =====
-- `quantize`, compared with the nearest cent.
use native.Mathlib.Nat.{pow-suc}
use invoice_to_payment_agent.Prelude.{
  ℕ, zero, suc, ◌+◌, ◌-◌, ◌*◌, ◌/◌, ◌^◌, ◌≤◌, ◌<◌, ◌≡◌, false, leb, arith,
}
use invoice_to_payment_agent.Prelude.Int.{ℤ, pos, negsuc, neg, magnitude}
use invoice_to_payment_agent.Decimal.{Decimal, decimal, round_half_up, to_cents, quantize}
use invoice_to_payment_agent.Decimal.Cents.{quantize-cents, shift_up-zero}

magnitude-neg : (n : ℕ) → magnitude (neg n) ≡ n
magnitude-neg zero = omega arith
magnitude-neg (suc n) = omega arith

pow_pos : (k : ℕ) → 0 < 10 ^ k
pow_pos zero = omega arith
pow_pos (suc k) = omega (arith, pow_pos k, pow-suc 10 k)

-- The integer `r` is nearest to `c / m`, a half rounded up.
abbrev pub IsNearest : ℕ → ℕ → ℕ → Type 0
IsNearest r c m = (2 * m * r ≤ 2 * c + m) × (2 * c < 2 * m * r + m)

round_half_up-IsNearest :
    (c : ℤ) (h : ℕ) → 0 < h → IsNearest (magnitude (round_half_up c (2 * h))) (magnitude c) (2 * h)
unfolding round_half_up
round_half_up-IsNearest (pos n) h p = grind arith
round_half_up-IsNearest (negsuc n) h p =
    rw (magnitude-neg ((n + 1 + 2 * h / 2) / (2 * h))) (grind arith)

to_cents_finer :
    (c : ℤ) (k : ℕ) → to_cents (decimal c (2 + suc k)) ≡ round_half_up c (2 * (5 * 10 ^ k))
unfolding to_cents
to_cents_finer c k =
    let places : 2 + suc k - 2 ≡ suc k = omega arith in
    let unit : 10 ^ suc k ≡ 2 * (5 * 10 ^ k) = omega (arith, pow-suc 10 k) in
    let finer : leb (2 + suc k) 2 ≡ false = ground arith in rw (finer, places, unit)

-- The magnitude of a value with k more places than two is rounded to the nearest number of cents,
-- and a half is rounded up.
pub quantize-IsNearest :
    (c : ℤ) (k : ℕ)
    → IsNearest (magnitude (quantize (decimal c (2 + k))).coef) (magnitude c) (10 ^ k)
unfolding quantize
quantize-IsNearest c zero = rw (shift_up-zero c) (omega arith)
quantize-IsNearest c (suc k) =
    let unit : 10 ^ suc k ≡ 2 * (5 * 10 ^ k) = omega (arith, pow-suc 10 k) in
    rw (to_cents_finer c k, unit)
      (round_half_up-IsNearest c (5 * 10 ^ k) (omega (arith, pow_pos k)))

-- Rounding twice is rounding once.
pub quantize_idem : (d : Decimal) → quantize (quantize d) ≡ quantize d
unfolding quantize
quantize_idem d = quantize-cents (to_cents d)
