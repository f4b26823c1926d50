-- ===== src/Ingestion/Scores.antt =====
-- Bounds of the confidence score.
use native.Mathlib.Nat.{mul_comm, mul-le-mul_right, div-le_of_le-mul, mod-eq-sub-div-mul}
use invoice_to_payment_agent.Prelude.{
  ℕ, ◌+◌, ◌-◌, ◌*◌, ◌/◌, ◌%◌, ◌≤◌, ◌<◌, ◌≡◌, Bool, false, Option, none, some, List, [], ◌∷◌, length,
  select, is_empty, ltb, inl, inr, Bool-cases, arith, if◌then◌else◌,
}
use invoice_to_payment_agent.Prelude.Text.{Text, is_given}
use invoice_to_payment_agent.Schemas.Invoice.{InvoiceLineItem, ExtractedInvoice}
use invoice_to_payment_agent.Schemas.Erp.{PurchaseOrder, GoodsReceipt}
use invoice_to_payment_agent.Schemas.Config.{MatchingConfig}
use invoice_to_payment_agent.Schemas.Matching.{is_postable}
use invoice_to_payment_agent.Matching.Engine.{match_invoice}
use invoice_to_payment_agent.Matching.Clean.{is_postable-iff-IsClean, no_po-not-postable}
use invoice_to_payment_agent.Ingestion.Confidence.{
  required_fields, Check, passed, missed, unknown, lines_sum_to_subtotal, totals_reconcile, priced,
  is_consistent, share, line_arithmetic, self_report, weigh, round_fraction, whole_part, present,
  score_extraction,
}

round_fraction-le : (a b m : ℕ) → 0 < b → a ≤ m * b → round_fraction a b ≤ m
unfolding round_fraction
round_fraction-le a b m p h =
    let below : a / b ≤ m = div-le_of_le-mul b (omega (arith, mul_comm m b)) in
    elim (Bool-cases (ltb (a / b) m)) [
      | inl e ↦ ground arith
      | inr e ↦
          let exact : a / b ≡ m = ground arith in
          let rest : a % b ≡ a - a / b * b = mod-eq-sub-div-mul a b in
          let none_left : a % b ≡ 0 = omega (arith, rw exact at rest) in rw none_left (ground arith)
    ]

select-length : {A : Type 0} (test : A → Bool) (xs : List A) → length (select test xs) ≤ length xs
select-length test [] = omega arith
select-length test (x ∷ xs) = let rest = select-length test xs in ground arith

present-le {ℓ} : {A : Type ℓ} (a : Option A) → present a ≤ 1
present-le none = omega arith
present-le (some a) = omega arith

weigh-le : (weight : ℕ) (c : Check) → weigh weight c ≤ weight
weigh-le weight passed = omega arith
weigh-le weight missed = omega arith
weigh-le weight unknown = omega arith

required_fields-le : (invoice : ExtractedInvoice) → required_fields invoice ≤ 5
unfolding required_fields
required_fields-le invoice = omega (
  arith,
  present-le invoice.invoice_number,
  present-le invoice.invoice_date,
  present-le invoice.vendor_name,
  present-le invoice.total_amount,
  present-le invoice.currency,
)

self_report-le : (c : ℕ) → self_report c ≤ 10000
self_report-le c = ground arith

flag-le : (b : Bool) → (if b then 500 else 0) ≤ 500
flag-le b = ground arith

flag_not-le : (b : Bool) → (if b then 0 else 500) ≤ 500
flag_not-le b = ground arith

whole_part-le :
    (invoice : ExtractedInvoice)
    → whole_part invoice
      ≤ 3500 + weigh 2000 (totals_reconcile invoice) + weigh 1500 (lines_sum_to_subtotal invoice)
unfolding whole_part
whole_part-le invoice = omega (
  arith,
  required_fields-le invoice,
  flag_not-le (is_empty invoice.line_items),
  flag-le (is_given invoice.purchase_order_number),
)

share-le : (items : List InvoiceLineItem) → let (good, n) = share items in (good ≤ n) × (0 < n)
share-le [] = (omega arith, omega arith)
share-le (item ∷ items) = (select-length is_consistent (item ∷ items), omega arith)

weighted-le :
    (whole most good n c : ℕ)
    → whole ≤ most
    → good ≤ n
    → c ≤ 10000
    → whole * (100 * n) + 150000 * good + 15 * (c * n) ≤ (most + 3000) * (100 * n)
weighted-le whole most good n c hw hg hc =
    omega (arith, mul-le-mul_right (100 * n) hw, mul-le-mul_right n hc)

score-le :
    (invoice : ExtractedInvoice) (most : ℕ)
    → whole_part invoice ≤ most
    → score_extraction invoice ≤ most + 3000
unfolding score_extraction line_arithmetic
score-le invoice most h =
    let (good, n) = share (priced invoice.line_items) in
    let (fits, some_item) = share-le (priced invoice.line_items) in
    round_fraction-le _ (100 * n) (most + 3000) (omega (arith, some_item)) (
      weighted-le (whole_part invoice) most good n (self_report invoice.confidence) h fits
        (self_report-le invoice.confidence))

-- The score is at most 1, whatever the model reports of itself.
pub score_extraction-le : (invoice : ExtractedInvoice) → score_extraction invoice ≤ 10000
score_extraction-le invoice = score-le invoice 7000 (
    omega (
      arith,
      whole_part-le invoice,
      weigh-le 2000 (totals_reconcile invoice),
      weigh-le 1500 (lines_sum_to_subtotal invoice),
    ))

contradictory-le :
    (invoice : ExtractedInvoice)
    → totals_reconcile invoice ≡ missed
    → lines_sum_to_subtotal invoice ≡ missed
    → score_extraction invoice ≤ 6500
contradictory-le invoice e f =
    let whole = whole_part-le invoice in score-le invoice 3500 (omega (arith, rw (e, f) at whole))

-- An invoice of which neither the lines make up the subtotal nor the subtotal and the tax the total
-- is not postable with the score that it gets, whatever the model reports of itself and whatever
-- the order and the receipts say, as long as the threshold is above 0.65.
pub contradictory-not-postable :
    (ratio : Text → Text → ℕ) (cfg : MatchingConfig) (invoice : ExtractedInvoice)
    (po : Option PurchaseOrder) (goods_receipts : List GoodsReceipt)
    → totals_reconcile invoice ≡ missed
    → lines_sum_to_subtotal invoice ≡ missed
    → 6500 < cfg.min_extraction_confidence
    → is_postable (
        match_invoice ratio cfg
          (record invoice { confidence = score_extraction invoice })
          po
          goods_receipts)
      ≡ false
contradictory-not-postable ratio cfg invoice none goods_receipts e f high =
    no_po-not-postable ratio cfg (record invoice { confidence = score_extraction invoice })
      goods_receipts
contradictory-not-postable ratio cfg invoice (some po) goods_receipts e f high =
    let scored : ExtractedInvoice = record invoice { confidence = score_extraction invoice } in
    elim (Bool-cases (is_postable (match_invoice ratio cfg scored (some po) goods_receipts))) [
      | inl passes ↦
          let clean = (is_postable-iff-IsClean ratio cfg scored po goods_receipts).0 passes in
          let absurd : ⊥ = omega (arith, contradictory-le invoice e f, clean.confident) in
          elim absurd [ ]
      | inr stops ↦ stops
    ]
