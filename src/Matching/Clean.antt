-- ===== src/Matching/Clean.antt =====
-- When `match_invoice` lets an invoice pass: a description of a clean match that does not go through
-- the list of exceptions.
use mathlib.Core.Option.{some-injective}
use invoice_to_payment_agent.Prelude.{
  ℕ, ◌≤◌, true, false, ◌≡◌, refl, ◌↔◌, inl, inr, Option, none, some, List, [], ◌∷◌, arith,
  Bool-cases, append-eq-nil, is_empty,
}
use invoice_to_payment_agent.Prelude.Text.{Text, upper}
use invoice_to_payment_agent.Decimal.{Decimal, lt, is_nonzero}
use invoice_to_payment_agent.Schemas.Common.{
  ExceptionType, missing_goods_receipt, total_variance, tax_variance, currency_mismatch,
  low_confidence_extraction, over_auto_post_ceiling,
}
use invoice_to_payment_agent.Schemas.Invoice.{ExtractedInvoice}
use invoice_to_payment_agent.Schemas.Erp.{PurchaseOrder, GoodsReceipt}
use invoice_to_payment_agent.Schemas.Matching.{Variance, is_passed, is_postable}
use invoice_to_payment_agent.Schemas.Config.{MatchingConfig}
use invoice_to_payment_agent.Matching.Pairing.{received_quantities}
use invoice_to_payment_agent.Matching.Lines.{match_lines}
use invoice_to_payment_agent.Matching.Engine.{
  invoice_total, invoice_currency, total_variance_of, tax_variances_at, tax_variances,
  tax_exceptions, all_exceptions, match_invoice, dedupe, outcome_of,
}
use invoice_to_payment_agent.Matching.Dedupe.{dedupe-eq-nil}
use invoice_to_payment_agent.Matching.LineClean.{
  IsWithin, LinesPass, flag-eq-nil, build_variance-IsWithin, not-eq-false, ltb-eq-false,
  text_eq_iff, and-eq-false, match_lines_from→LinesPass, LinesPass→match_lines_from,
}

outcome_of-is_passed :
    (es : List ExceptionType) (vs : List Variance)
    → (is_passed (outcome_of es vs) ≡ true) ↔ (es ≡ [])
outcome_of-is_passed [] vs = ground arith
outcome_of-is_passed (e ∷ es) vs = (λ h. cc, λ h. cc)

module _ (ratio : Text → Text → ℕ) (cfg : MatchingConfig) where
  -- A tax that the invoice states is within its tolerance, where the order has one.
  abbrev pub IsTaxWithin : Option Decimal → PurchaseOrder → Type 0
  IsTaxWithin stated po =
      (tax : Decimal)
      → stated ≡ some tax
      → is_nonzero po.tax_amount ≡ true
      → IsWithin tax po.tax_amount cfg.tax_tolerance_abs cfg.total_tolerance_pct

  -- An invoice that agrees with its order in every respect that the engine checks.
  pub record IsClean (invoice : ExtractedInvoice) (po : PurchaseOrder)
      (goods_receipts : List GoodsReceipt) : Type 0 where
    pub receipts_posted : po.goods_receipt_required ≡ true → is_empty goods_receipts ≡ false
    pub same_currency : invoice_currency invoice po ≡ upper po.currency
    pub total_within :
        IsWithin
          (invoice_total invoice)
          po.gross_amount
          cfg.total_tolerance_abs
          cfg.total_tolerance_pct
    pub tax_within : IsTaxWithin invoice.tax_amount po
    pub lines_pass :
        LinesPass ratio cfg invoice.line_items po
          (received_quantities goods_receipts)
          po.goods_receipt_required
          []
    pub confident : cfg.min_extraction_confidence ≤ invoice.confidence
    pub under_ceiling : lt cfg.auto_post_ceiling (invoice_total invoice) ≡ false

  tax_exceptions-eq-nil :
      (stated : Option Decimal) (po : PurchaseOrder)
      → (tax_exceptions (tax_variances_at stated po cfg) ≡ []) ↔ IsTaxWithin stated po
  tax_exceptions-eq-nil none po = (λ h tax e n. cc, λ h. refl)
  tax_exceptions-eq-nil (some t) po =
      let within =
        build_variance-IsWithin "tax_amount" t po.tax_amount cfg.tax_tolerance_abs
          cfg.total_tolerance_pct tax_variance in
      elim (Bool-cases (is_nonzero po.tax_amount)) [
        | inl taxed ↦ (
          λ h tax e n.
              rw (← some-injective _ _ e)
                (within.0 ((not-eq-false _).0 ((flag-eq-nil _ tax_variance).0 (rw taxed at h)))),
          λ k. rw (taxed, within.1 (k t refl taxed)),
        )
        | inr free ↦ (λ h tax e n. cc, λ k. rw free)
      ]

  all_exceptions-eq-nil :
      (invoice : ExtractedInvoice) (po : PurchaseOrder) (goods_receipts : List GoodsReceipt)
      → (all_exceptions ratio cfg invoice po goods_receipts ≡ [])
        ↔ IsClean invoice po goods_receipts
  unfolding all_exceptions match_lines tax_variances
  all_exceptions-eq-nil invoice po goods_receipts =
      let received = received_quantities goods_receipts in
      let total =
        build_variance-IsWithin "total_amount" (invoice_total invoice) po.gross_amount
          cfg.total_tolerance_abs cfg.total_tolerance_pct total_variance in
      (
        λ h.
            let (e1, h1) = append-eq-nil _ _ h in
            let (e2, h2) = append-eq-nil _ _ h1 in
            let (e3, h3) = append-eq-nil _ _ h2 in
            let (e4, h4) = append-eq-nil _ _ h3 in
            let (e5, h5) = append-eq-nil _ _ h4 in
            let (e6, e7) = append-eq-nil _ _ h5 in
            record {
              receipts_posted = (and-eq-false _ _).0 ((flag-eq-nil _ missing_goods_receipt).0 e1);
              same_currency = (text_eq_iff _ _).0 ((flag-eq-nil _ currency_mismatch).0 e2);
              total_within = total.0 ((not-eq-false _).0 ((flag-eq-nil _ total_variance).0 e3));
              tax_within = (tax_exceptions-eq-nil invoice.tax_amount po).0 e4;
              lines_pass =
                  match_lines_from→LinesPass ratio cfg 1 invoice.line_items po received
                    po.goods_receipt_required [] e5;
              confident = (ltb-eq-false _ _).0 ((flag-eq-nil _ low_confidence_extraction).0 e6);
              under_ceiling = (flag-eq-nil _ over_auto_post_ceiling).0 e7;
            },
        λ k. rw (
          (and-eq-false _ _).1 k.receipts_posted,
          (text_eq_iff _ _).1 k.same_currency,
          (not-eq-false _).1 (total.1 k.total_within),
          (tax_exceptions-eq-nil invoice.tax_amount po).1 k.tax_within,
          LinesPass→match_lines_from ratio cfg 1 invoice.line_items po received
              po.goods_receipt_required [] k.lines_pass,
          (ltb-eq-false _ _).1 k.confident,
          k.under_ceiling,
        ),
      )

  -- An invoice with an order is postable exactly if it is clean: receipts where they are required,
  -- one currency, the total within its absolute or its relative tolerance, a tax that the invoice
  -- states, where the order has one, within its absolute tolerance or the relative one of the
  -- total, every line paired and within its tolerances, the confidence reached and the total not
  -- above the ceiling.
  pub is_postable-iff-IsClean :
      (invoice : ExtractedInvoice) (po : PurchaseOrder) (goods_receipts : List GoodsReceipt)
      → (is_postable (match_invoice ratio cfg invoice (some po) goods_receipts) ≡ true)
        ↔ IsClean invoice po goods_receipts
  unfolding match_invoice total_variance_of is_postable
  is_postable-iff-IsClean invoice po goods_receipts =
      let es = all_exceptions ratio cfg invoice po goods_receipts in
      let passed = outcome_of-is_passed (dedupe es) _ in
      let once = dedupe-eq-nil es in
      let clean = all_exceptions-eq-nil invoice po goods_receipts in
      (λ h. clean.0 (once.0 (passed.0 h)), λ k. passed.1 (once.1 (clean.1 k)))

  -- An invoice without an order is never passed.
  pub no_po-not-postable :
      (invoice : ExtractedInvoice) (goods_receipts : List GoodsReceipt)
      → is_postable (match_invoice ratio cfg invoice none goods_receipts) ≡ false
  unfolding match_invoice is_postable
  no_po-not-postable invoice goods_receipts = refl
