-- ===== src/Agents/Balance.antt =====
-- When the journal that `build_journal` makes is balanced.
use mathlib.Core.Path.{subst}
use invoice_to_payment_agent.Prelude.{
  ℕ, Bool, true, false, ◌≡◌, refl, ◌↔◌, inl, inr, Option, none, some, List, arith, Bool-cases, sym,
  ◌&&◌,
}
use invoice_to_payment_agent.Prelude.Int.{
  ℤ, pos, ◌+ℤ◌, ◌-ℤ◌, ltb_ℤ, eqb_ℤ, eq_of_parts, int_laws, +ℤ_parts,
}
use invoice_to_payment_agent.Prelude.Text.{Text}
use invoice_to_payment_agent.Decimal.{Decimal, cents, zero_decimal, add, eq, lt, quantize}
use invoice_to_payment_agent.Decimal.Cents.{
  add-cents, sub-cents, eq-cents, quantize-cents, zero-add-cents, zero-add-zero, add-cents-zero,
  cents-lt-zero, zero-lt-cents,
}
use invoice_to_payment_agent.Schemas.Invoice.{ExtractedInvoice}
use invoice_to_payment_agent.Schemas.Erp.{JournalLine, is_balanced, total_debits, total_credits}
use invoice_to_payment_agent.Schemas.Config.{ErpConfig}
use invoice_to_payment_agent.Agents.State.{InvoiceState}
use invoice_to_payment_agent.Agents.Journal.{
  Amounts, reconcile, amounts_of, debit_account_of, journal_amounts, journal_lines, invoice_journal,
}

eqb_ℤ→eq : (a b : ℤ) → eqb_ℤ a b ≡ true → a ≡ b
eqb_ℤ→eq a b h = eq_of_parts a b (ground arith)

-- Amounts in cents of which net and tax make up the gross.
pub record AddUp (a : Amounts) : Type 0 where
  pub g : ℤ
  pub t : ℤ
  pub n : ℤ
  pub gross_cents : a.gross ≡ cents g
  pub tax_cents : a.tax ≡ cents t
  pub net_cents : a.net ≡ cents n
  pub adds_up : n +ℤ t ≡ g

reconcile-AddUp : (g t n : ℤ) → AddUp (reconcile (cents g) (cents t) (cents n))
unfolding reconcile
reconcile-AddUp g t n = elim (Bool-cases (eqb_ℤ (n +ℤ t) g)) [
  | inl e ↦
      let same : eq (quantize (add (cents n) (cents t))) (cents g) ≡ true =
        rw (add-cents n t, quantize-cents (n +ℤ t), eq-cents (n +ℤ t) g) e in
      record {
        g = g;
        t = t;
        n = n;
        gross_cents = refl;
        tax_cents = refl;
        net_cents = rw same;
        adds_up = eqb_ℤ→eq (n +ℤ t) g e;
      }
  | inr e ↦
      let other : eq (quantize (add (cents n) (cents t))) (cents g) ≡ false =
        rw (add-cents n t, quantize-cents (n +ℤ t), eq-cents (n +ℤ t) g) e in
      record {
        g = g;
        t = t;
        n = g -ℤ t;
        gross_cents = refl;
        tax_cents = refl;
        net_cents = rw (other, sub-cents g t, quantize-cents (g -ℤ t));
        adds_up = omega int_laws;
      }
]

amounts_of-AddUp : (total tax subtotal : Option Decimal) → AddUp (amounts_of total tax subtotal)
unfolding amounts_of quantize
amounts_of-AddUp total none none = reconcile-AddUp _ _ _
amounts_of-AddUp total (some t) none = reconcile-AddUp _ _ _
amounts_of-AddUp total none (some n) = reconcile-AddUp _ _ _
amounts_of-AddUp total (some t) (some n) = reconcile-AddUp _ _ _

-- Whatever an invoice prints, the net and the tax of its entry make up the gross, in whole cents.
pub journal_amounts-AddUp : (invoice : ExtractedInvoice) → AddUp (journal_amounts invoice)
unfolding journal_amounts
journal_amounts-AddUp invoice =
    amounts_of-AddUp invoice.total_amount invoice.tax_amount invoice.subtotal

abbrev amounts_at : ℤ → ℤ → ℤ → Amounts
amounts_at g t n = record { gross = cents g; tax = cents t; net = cents n }

both_totals : List JournalLine → Decimal × Decimal
both_totals lines = (total_debits lines, total_credits lines)

-- The totals of the entry, with and without a line for the tax.
totals-taxed :
    (invoice : ExtractedInvoice) (account : Text) (g t n : ℤ)
    → ltb_ℤ (pos 0) t ≡ true
    → both_totals (journal_lines invoice account (amounts_at g t n)) ≡ (cents (n +ℤ t), cents g)
unfolding both_totals total_debits total_credits journal_lines
totals-taxed invoice account g t n h =
    rw (zero-lt-cents t, h)
      (rw (
        zero-add-cents n,
        add-cents n t,
        add-cents-zero (n +ℤ t),
        zero-add-zero,
        zero-add-zero,
        zero-add-cents g,
      ))

totals-untaxed :
    (invoice : ExtractedInvoice) (account : Text) (g t n : ℤ)
    → ltb_ℤ (pos 0) t ≡ false
    → both_totals (journal_lines invoice account (amounts_at g t n)) ≡ (cents n, cents g)
unfolding both_totals total_debits total_credits journal_lines
totals-untaxed invoice account g t n h =
    rw (zero-lt-cents t, h)
      (rw (zero-add-cents n, add-cents-zero n, zero-add-zero, zero-add-cents g))

-- The test of `is_balanced`, on totals in cents.
passes : Decimal × Decimal → Bool
passes (debits, credits) = eq debits credits && lt zero_decimal debits

passes-cents : (d g : ℤ) → passes (cents d, cents g) ≡ (eqb_ℤ d g && ltb_ℤ (pos 0) d)
unfolding passes
passes-cents d g = rw (eq-cents d g, zero-lt-cents d)

taxed_test :
    (g t : ℤ)
    → ltb_ℤ (pos 0) t ≡ true
    → ((eqb_ℤ g g && ltb_ℤ (pos 0) g) ≡ true)
      ↔ ((ltb_ℤ (pos 0) g ≡ true) × (ltb_ℤ t (pos 0) ≡ false))
taxed_test g t h = ground arith

untaxed_test :
    (g t n : ℤ)
    → n +ℤ t ≡ g
    → ltb_ℤ (pos 0) t ≡ false
    → ((eqb_ℤ n g && ltb_ℤ (pos 0) n) ≡ true)
      ↔ ((ltb_ℤ (pos 0) g ≡ true) × (ltb_ℤ t (pos 0) ≡ false))
untaxed_test g t n sum h = ground (arith, +ℤ_parts n t)

lines_balanced :
    (invoice : ExtractedInvoice) (account : Text) (g t n : ℤ)
    → n +ℤ t ≡ g
    → (passes (both_totals (journal_lines invoice account (amounts_at g t n))) ≡ true)
      ↔ ((lt zero_decimal (cents g) ≡ true) × (lt (cents t) zero_decimal ≡ false))
lines_balanced invoice account g t n sum =
    rw (zero-lt-cents g, cents-lt-zero t)
      (elim (Bool-cases (ltb_ℤ (pos 0) t)) [
        | inl e ↦
            rw (totals-taxed invoice account g t n e, passes-cents (n +ℤ t) g, sum)
              (taxed_test g t e)
        | inr e ↦
            rw (totals-untaxed invoice account g t n e, passes-cents n g) (untaxed_test g t n sum e)
      ])

-- The entry of an invoice is balanced exactly if its gross is positive and its tax is not negative.
pub is_balanced_iff :
    (cfg : ErpConfig) (today : ℕ) (state : InvoiceState) (invoice : ExtractedInvoice)
    → let amounts = journal_amounts invoice in
      (is_balanced (invoice_journal cfg today state invoice) ≡ true)
      ↔ ((lt zero_decimal amounts.gross ≡ true) × (lt amounts.tax zero_decimal ≡ false))
unfolding is_balanced invoice_journal passes both_totals
is_balanced_iff cfg today state invoice =
    let a = journal_amounts-AddUp invoice in
    let account = debit_account_of state.purchase_order in
    let same : journal_amounts invoice ≡ amounts_at a.g a.t a.n =
      λ i. record { gross = a.gross_cents i; tax = a.tax_cents i; net = a.net_cents i } in
    subst
      (λ (b : Amounts).
        (passes (both_totals (journal_lines invoice account b)) ≡ true)
        ↔ ((lt zero_decimal b.gross ≡ true) × (lt b.tax zero_decimal ≡ false)))
      (sym same) (lines_balanced invoice account a.g a.t a.n a.adds_up)
