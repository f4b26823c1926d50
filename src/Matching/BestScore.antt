-- ===== src/Matching/BestScore.antt =====
-- The score of the line that is paired by its description: the sort of `scored` in `_pair_line`.
use mathlib.Core.Option.{some-injective}
use mathlib.Core.Path.{subst}
use native.Mathlib.Nat.{le_trans}
use invoice_to_payment_agent.Prelude.{
  ℕ, ◌≤◌, ◌≡◌, refl, ◌∙◌, ap, true, inl, inr, some, List, [], ◌∷◌, arith, Bool-cases, All, In, leb,
  leb→le,
}
use invoice_to_payment_agent.Prelude.Text.{Text, is_given, lower}
use invoice_to_payment_agent.Schemas.Invoice.{InvoiceLineItem}
use invoice_to_payment_agent.Schemas.Erp.{PurchaseOrderLine}
use invoice_to_payment_agent.Matching.Sorting.{sort_scored-All}
use invoice_to_payment_agent.Matching.Pairing.{
  description_threshold, is_free, Scored, insert_scored, sort_scored, best_scored, score_lines,
  pair_by_description,
}

-- No score of the list is above `top`.
abbrev pub AtMost : ℕ → List Scored → Type 0
AtMost top = All (λ q. q.0 ≤ top)

-- A bound of the head's score bounds all: the list falls.
abbrev IsFalling : List Scored → Type 0
IsFalling [] = Unit
IsFalling (q ∷ qs) = AtMost q.0 qs × IsFalling qs

AtMost-mono : (low high : ℕ) (qs : List Scored) → low ≤ high → AtMost low qs → AtMost high qs
AtMost-mono low high [] h a = tt
AtMost-mono low high (q ∷ qs) h (a, as') = (le_trans a h, AtMost-mono low high qs h as')

insert_scored-AtMost :
    (top : ℕ) (p : Scored) (qs : List Scored)
    → p.0 ≤ top
    → AtMost top qs
    → AtMost top (insert_scored p qs)
unfolding insert_scored
insert_scored-AtMost top p [] h a = (h, tt)
insert_scored-AtMost top p (q ∷ qs) h (a, as') = elim (Bool-cases (leb q.0 p.0)) [
  | inl e ↦ rw e (h, (a, as'))
  | inr e ↦ rw e (a, insert_scored-AtMost top p qs h as')
]

insert_scored-IsFalling :
    (p : Scored) (qs : List Scored) → IsFalling qs → IsFalling (insert_scored p qs)
unfolding insert_scored
insert_scored-IsFalling p [] f = (tt, tt)
insert_scored-IsFalling p (q ∷ qs) (a, f) = elim (Bool-cases (leb q.0 p.0)) [
  | inl e ↦ let h = leb→le q.0 p.0 e in rw e ((h, AtMost-mono q.0 p.0 qs h a), (a, f))
  | inr e ↦ rw e (insert_scored-AtMost q.0 p qs (ground arith) a, insert_scored-IsFalling p qs f)
]

sort_scored-IsFalling : (qs : List Scored) → IsFalling (sort_scored qs)
unfolding sort_scored
sort_scored-IsFalling [] = tt
sort_scored-IsFalling (q ∷ qs) =
    insert_scored-IsFalling q (sort_scored qs) (sort_scored-IsFalling qs)

-- A bound of the sorted list bounds the list.
AtMost-insert_scored :
    (top : ℕ) (p : Scored) (qs : List Scored)
    → AtMost top (insert_scored p qs)
    → (p.0 ≤ top) × AtMost top qs
unfolding insert_scored
AtMost-insert_scored top p [] a = (a.0, tt)
AtMost-insert_scored top p (q ∷ qs) a = elim (Bool-cases (leb q.0 p.0)) [
  | inl e ↦ rw e at a
  | inr e ↦
      let b = rw e at a in let (h, rest) = AtMost-insert_scored top p qs b.1 in (h, (b.0, rest))
]

AtMost-sort_scored : (top : ℕ) (qs : List Scored) → AtMost top (sort_scored qs) → AtMost top qs
unfolding sort_scored
AtMost-sort_scored top [] a = tt
AtMost-sort_scored top (q ∷ qs) a =
    let (h, rest) = AtMost-insert_scored top q (sort_scored qs) a in
    (h, AtMost-sort_scored top qs rest)

module _ (ratio : Text → Text → ℕ) (line : InvoiceLineItem) where
  -- The score of an order's line for the invoice line.
  abbrev pub score_of : PurchaseOrderLine → ℕ
  score_of p = ratio (lower line.description) (lower p.description)

  abbrev IsScore : Scored → Type 0
  IsScore q = q.0 ≡ score_of q.1

  score_lines-IsScore :
      (po_lines : List PurchaseOrderLine) (consumed : List ℕ)
      → All IsScore (score_lines ratio line po_lines consumed)
  unfolding score_lines
  score_lines-IsScore [] consumed = tt
  score_lines-IsScore (p ∷ ps) consumed = elim (Bool-cases (is_free consumed p)) [
    | inl e ↦ rw e (refl, score_lines-IsScore ps consumed)
    | inr e ↦ rw e (score_lines-IsScore ps consumed)
  ]

  AtMost-score_lines :
      (top : ℕ) (po_lines : List PurchaseOrderLine) (consumed : List ℕ) (q : PurchaseOrderLine)
      → AtMost top (score_lines ratio line po_lines consumed)
      → In q po_lines
      → is_free consumed q ≡ true
      → score_of q ≤ top
  unfolding score_lines
  AtMost-score_lines top [] consumed q a i free = absurd i
  AtMost-score_lines top (p ∷ ps) consumed q a (inl e) free =
      let open_head : is_free consumed p ≡ true = rw e at free in rw e (rw open_head at a).0
  AtMost-score_lines top (p ∷ ps) consumed q a (inr i) free =
      elim (Bool-cases (is_free consumed p)) [
        | inl e ↦ AtMost-score_lines top ps consumed q (rw e at a).1 i free
        | inr e ↦ AtMost-score_lines top ps consumed q (rw e at a) i free
      ]

  -- What the choice of the head of a falling list says.
  best_scored-top :
      (qs : List Scored) (p : PurchaseOrderLine)
      → IsFalling qs
      → All IsScore qs
      → best_scored qs ≡ some p
      → (description_threshold ≤ score_of p) × AtMost (score_of p) qs
  best_scored-top [] p f s h = cc
  best_scored-top ((score, chosen) ∷ qs) p (a, f) (s, _) h =
      elim (Bool-cases (leb description_threshold score)) [
        | inl e ↦
            let same : score ≡ score_of p = s ∙ ap score_of (some-injective _ _ (rw e at h)) in
            (
              rw same at (leb→le description_threshold score e),
              (omega arith, subst (λ t. AtMost t qs) same a),
            )
        | inr e ↦ cc (rw e at h)
      ]

  -- A line that is paired by its description scores at least the threshold, and no line of the order
  -- that is still free scores more.
  pub pair_by_description_best :
      (po_lines : List PurchaseOrderLine) (consumed : List ℕ) (p : PurchaseOrderLine)
      → pair_by_description ratio line po_lines consumed ≡ some p
      → (description_threshold ≤ score_of p)
        × ((q : PurchaseOrderLine)
            → In q po_lines
            → is_free consumed q ≡ true
            → score_of q ≤ score_of p)
  unfolding pair_by_description
  pair_by_description_best po_lines consumed p h =
      let scored = score_lines ratio line po_lines consumed in
      elim (Bool-cases (is_given (some line.description))) [
        | inl e ↦
            let (above, top) =
              best_scored-top (sort_scored scored) p (sort_scored-IsFalling scored)
                (sort_scored-All IsScore scored (score_lines-IsScore po_lines consumed))
                (rw e at h) in
            (
              above,
              λ q i free.
                  AtMost-score_lines (score_of p) po_lines consumed q
                    (AtMost-sort_scored (score_of p) scored top) i free,
            )
        | inr e ↦ cc (rw e at h)
      ]
