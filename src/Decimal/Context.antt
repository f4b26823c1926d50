-- ===== src/Decimal/Context.antt =====
-- The quotient of two nonnegative decimals under the default context: 28 significant digits, half
-- to even. It follows the steps of the standard library's `Decimal.__truediv__` and `Decimal._fix`.
use invoice_to_payment_agent.Prelude.{
  ℕ, zero, suc, ◌+◌, ◌-◌, ◌*◌, ◌/◌, ◌%◌, ◌^◌, ◌||◌, ◌&&◌, not, ltb, leb, ◌==◌, if◌then◌else◌,
}

abbrev pub precision : ℕ
precision = 28

digits_fuel : ℕ → ℕ → ℕ
digits_fuel zero n = 1
digits_fuel (suc f) n = let rest = digits_fuel f (n / 10) in if ltb n 10 then 1 else rest + 1

-- The number of decimal digits; a number has no more digits than its value says.
unfoldable pub digit_count : ℕ → ℕ
unfolding digits_fuel
digit_count n = digits_fuel n n

-- n / 10^k rounded half to even.
unfoldable pub round_digits : ℕ → ℕ → ℕ
round_digits n k =
    let m = 10 ^ k in
    let q = n / m in
    let r = n % m in if ltb m (2 * r) || (m == 2 * r && not (q % 2 == 0)) then q + 1 else q

-- The coefficient rounded to the context's precision, and its number of places.
unfoldable pub fix : ℕ → ℕ → ℕ × ℕ
unfolding digit_count round_digits
fix n places =
    let extra = digit_count n - precision in
    if extra == 0
    then (n, places)
    else (if leb extra places
        then (round_digits n extra, places - extra)
        else (round_digits n extra * 10 ^ (extra - places), 0))

-- The coefficient of the quotient and its places. The extra digit keeps a remainder visible to the
-- rounding. Places below zero are written out as zeros of the coefficient.
unfoldable pub quotient : ℕ → ℕ → ℕ → ℕ → ℕ × ℕ
unfolding fix
quotient a b places_a places_b =
    let shift = digit_count b + precision + 1 - digit_count a in
    let back = digit_count a - (digit_count b + precision + 1) in
    let num = a * 10 ^ shift in
    let den = b * 10 ^ back in
    let q = num / den in
    let sticky = if not (num % den == 0) && q % 5 == 0 then q + 1 else q in
    let places = places_a + shift in
    let less = places_b + back in
    if a == 0
    then (0, 0)
    else (if leb less places
        then fix sticky (places - less)
        else fix (sticky * 10 ^ (less - places)) 0)
