-- ===== src/Matching/LineClean.antt =====
-- When a line of an invoice passes, and when all of them do: a description that does not go through
-- the exceptions of the loop `_match_lines`.
use invoice_to_payment_agent.Prelude.{
  ℕ, ◌+◌, ◌≤◌, Bool, true, false, not, ◌&&◌, ◌≡◌, refl, ◌↔◌, ◌⊎◌, inl, inr, some, List, [], ◌∷◌,
  ◌++◌, ltb, String, arith, Option-cases, append-eq-nil,
}
use invoice_to_payment_agent.Prelude.Dict.{Dict}
use invoice_to_payment_agent.Prelude.Text.{Text, text_eq, text_eq→eq, text_eq_refl}
use invoice_to_payment_agent.Decimal.{Decimal, decimal_or, sub, mul, abs, lt, le, quantize}
use invoice_to_payment_agent.Schemas.Common.{
  ExceptionType, price_variance, quantity_variance, missing_goods_receipt,
}
use invoice_to_payment_agent.Schemas.Invoice.{InvoiceLineItem}
use invoice_to_payment_agent.Schemas.Erp.{PurchaseOrder, PurchaseOrderLine}
use invoice_to_payment_agent.Schemas.Config.{MatchingConfig}
use invoice_to_payment_agent.Matching.Variance.{percent_delta, build_variance, price_variance_of}
use invoice_to_payment_agent.Matching.Pairing.{pair_line}
use invoice_to_payment_agent.Matching.Lines.{
  flag, received_for, paired_line, match_lines_from, match_lines_from_unpaired,
  match_lines_from_paired,
}

-- One of two values is within its tolerance of the other: in money, or in percent of the second.
abbrev pub IsWithin : Decimal → Decimal → Decimal → Decimal → Type 0
IsWithin value reference tolerance_abs tolerance_pct =
    let delta = abs (sub value reference) in
    (le delta tolerance_abs ≡ true) ⊎ (le (percent_delta delta reference) tolerance_pct ≡ true)

-- The unit price is within its percentage, or what it costs over the line is within the amount.
abbrev pub IsPriceWithin : MatchingConfig → InvoiceLineItem → PurchaseOrderLine → Type 0
IsPriceWithin cfg line po_line =
    let delta = abs (sub line.unit_price po_line.unit_price) in
    (le (percent_delta delta po_line.unit_price) cfg.price_tolerance_pct ≡ true)
    ⊎ (le (quantize (mul delta (decimal_or line.quantity po_line.quantity_ordered)))
          cfg.price_tolerance_abs
        ≡ true)

-- A paired line that raises nothing.
pub record IsLineClean (cfg : MatchingConfig) (received : Dict Decimal) (three_way : Bool)
    (line : InvoiceLineItem) (po_line : PurchaseOrderLine) : Type 0 where
  pub price_within : IsPriceWithin cfg line po_line
  pub quantity_within :
      IsWithin line.quantity po_line.quantity_ordered cfg.quantity_tolerance_abs
        cfg.quantity_tolerance_pct
  pub covered : three_way ≡ true → lt (received_for received po_line) line.quantity ≡ false

pub flag-eq-nil : {A : Type 0} (b : Bool) (e : A) → (flag b e ≡ []) ↔ (b ≡ false)
flag-eq-nil b e = ground arith

pub build_variance-IsWithin :
    (field : String) (v r ta tp : Decimal) (e : ExceptionType)
    → ((build_variance field v r ta tp e).within_tolerance ≡ true) ↔ IsWithin v r ta tp
unfolding build_variance
build_variance-IsWithin field v r ta tp e = ground arith

price_variance-IsPriceWithin :
    (cfg : MatchingConfig) (line : InvoiceLineItem) (po_line : PurchaseOrderLine)
    → ((price_variance_of line po_line cfg).within_tolerance ≡ true)
      ↔ IsPriceWithin cfg line po_line
unfolding price_variance_of
price_variance-IsPriceWithin cfg line po_line = ground arith

pub not-eq-false : (b : Bool) → (not b ≡ false) ↔ (b ≡ true)
not-eq-false b = ground arith

pub ltb-eq-false : (a b : ℕ) → (ltb a b ≡ false) ↔ (b ≤ a)
ltb-eq-false a b = ground arith

pub text_eq_iff : (s t : Text) → (not (text_eq s t) ≡ false) ↔ (s ≡ t)
text_eq_iff s t = (λ h. text_eq→eq s t (ground arith), λ e. rw (e, text_eq_refl t))

three_flags-eq-nil :
    {A : Type 0} (a b c : Bool) (x y z : A)
    → ((flag (not a) x ++ (flag (not b) y ++ flag c z)) ≡ [])
      ↔ ((a ≡ true) × (b ≡ true) × (c ≡ false))
three_flags-eq-nil a b c x y z = ground arith

pub and-eq-false : (a b : Bool) → ((a && b) ≡ false) ↔ (a ≡ true → b ≡ false)
and-eq-false a b = ground arith

paired_line-eq-nil :
    (cfg : MatchingConfig) (received : Dict Decimal) (three_way : Bool) (index : ℕ)
    (line : InvoiceLineItem) (po_line : PurchaseOrderLine)
    → ((paired_line index line po_line received three_way cfg).exceptions ≡ [])
      ↔ IsLineClean cfg received three_way line po_line
unfolding paired_line
paired_line-eq-nil cfg received three_way index line po_line =
    let price = price_variance-IsPriceWithin cfg line po_line in
    let ordered =
      build_variance-IsWithin "quantity" line.quantity po_line.quantity_ordered
        cfg.quantity_tolerance_abs cfg.quantity_tolerance_pct quantity_variance in
    let covered = and-eq-false three_way (lt (received_for received po_line) line.quantity) in
    let flags = three_flags-eq-nil _ _ _ price_variance quantity_variance missing_goods_receipt in
    (
      λ h.
          let (p, q, c) = flags.0 h in
          record { price_within = price.0 p; quantity_within = ordered.0 q; covered = covered.0 c },
      λ k. flags.1 (price.1 k.price_within, ordered.1 k.quantity_within, covered.1 k.covered),
    )

module _ (ratio : Text → Text → ℕ) (cfg : MatchingConfig) where
  -- Every invoice line is paired with a line of the order that no earlier line took, and is clean.
  abbrev pub LinesPass :
      List InvoiceLineItem → PurchaseOrder → Dict Decimal → Bool → List ℕ → Type 0
  LinesPass [] po received three_way consumed = Unit
  LinesPass (line ∷ lines) po received three_way consumed =
      (po_line : PurchaseOrderLine) × (pair_line ratio line po.lines consumed ≡ some po_line)
      × IsLineClean cfg received three_way line po_line
      × LinesPass lines po received three_way (po_line.line_number ∷ consumed)

  pub match_lines_from→LinesPass :
      (index : ℕ) (lines : List InvoiceLineItem) (po : PurchaseOrder) (received : Dict Decimal)
      (three_way : Bool) (consumed : List ℕ)
      → (match_lines_from ratio index lines po received three_way cfg consumed).1 ≡ []
      → LinesPass lines po received three_way consumed
  unfolding match_lines_from
  match_lines_from→LinesPass index [] po received three_way consumed h = tt
  match_lines_from→LinesPass index (line ∷ lines) po received three_way consumed h =
      elim (Option-cases (pair_line ratio line po.lines consumed)) [
        | inl e ↦
            cc (
              match_lines_from_unpaired ratio index line lines po received three_way cfg consumed e)
        | inr (po_line, e) ↦
            let paired =
              match_lines_from_paired ratio index line lines po received three_way cfg consumed e in
            let split = append-eq-nil _ _ (rw paired at h) in
            (
              po_line,
              e,
              (paired_line-eq-nil cfg received three_way index line po_line).0 split.0,
              match_lines_from→LinesPass (index + 1) lines po received three_way
                  (po_line.line_number ∷ consumed) split.1,
            )
      ]

  pub LinesPass→match_lines_from :
      (index : ℕ) (lines : List InvoiceLineItem) (po : PurchaseOrder) (received : Dict Decimal)
      (three_way : Bool) (consumed : List ℕ)
      → LinesPass lines po received three_way consumed
      → (match_lines_from ratio index lines po received three_way cfg consumed).1 ≡ []
  unfolding match_lines_from
  LinesPass→match_lines_from index [] po received three_way consumed h = refl
  LinesPass→match_lines_from index (line ∷ lines) po received three_way consumed h =
      rw (match_lines_from_paired ratio index line lines po received three_way cfg consumed h.1) (
        rw (
          (paired_line-eq-nil cfg received three_way index line h.0).1 h.2,
          LinesPass→match_lines_from (index + 1) lines po received three_way
              (h.0.line_number ∷ consumed) h.3,
        ))
