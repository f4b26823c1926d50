-- ===== src/Matching/Distinct.antt =====
-- Which lines of the order `_pair_line` and `_match_lines` take.
use mathlib.Core.Option.{some-injective}
use invoice_to_payment_agent.Prelude.{
  ℕ, ◌+◌, ◌≡◌, refl, ◌∙◌, Bool, false, ◌&&◌, inl, inr, none, some, List, [], ◌∷◌, arith, Bool-cases,
  Option-cases, All, In, find, find-eq-some, leb,
}
use invoice_to_payment_agent.Prelude.Dict.{Dict}
use invoice_to_payment_agent.Prelude.Text.{Text, is_given, text_or, text_eq}
use invoice_to_payment_agent.Decimal.{Decimal}
use invoice_to_payment_agent.Schemas.Invoice.{InvoiceLineItem, ExtractedInvoice}
use invoice_to_payment_agent.Schemas.Erp.{PurchaseOrder, PurchaseOrderLine}
use invoice_to_payment_agent.Schemas.Matching.{LineMatch}
use invoice_to_payment_agent.Schemas.Config.{MatchingConfig}
use invoice_to_payment_agent.Matching.Pairing.{
  description_threshold, member, normal_code, has_number, is_free, pair_by_number, pair_by_code,
  Scored, sort_scored, best_scored, score_lines, pair_by_description, pair_line,
}
use invoice_to_payment_agent.Matching.Sorting.{sort_scored-All}
use invoice_to_payment_agent.Matching.Lines.{
  match_lines_from, match_lines, match_lines_from_unpaired, match_lines_from_paired, unpaired_line,
  paired_line,
}

-- A line of the order that no earlier invoice line took.
abbrev pub IsAvailable : List PurchaseOrderLine → List ℕ → PurchaseOrderLine → Type 0
IsAvailable po_lines consumed line = (member line.line_number consumed ≡ false) × In line po_lines

find-IsAvailable :
    (test : PurchaseOrderLine → Bool) (po_lines : List PurchaseOrderLine) (consumed : List ℕ)
    (p : PurchaseOrderLine)
    → find (λ line. test line && is_free consumed line) po_lines ≡ some p
    → IsAvailable po_lines consumed p
find-IsAvailable test po_lines consumed p h =
    let (passed, listed) = find-eq-some (λ line. test line && is_free consumed line) po_lines p h in
    (ground arith, listed)

pair_by_number-IsAvailable :
    (line : InvoiceLineItem) (po_lines : List PurchaseOrderLine) (consumed : List ℕ)
    (p : PurchaseOrderLine)
    → pair_by_number line po_lines consumed ≡ some p
    → IsAvailable po_lines consumed p
unfolding pair_by_number
pair_by_number-IsAvailable line po_lines consumed p h = elim (Option-cases line.po_line_number) [
  | inl e ↦ cc (rw (e, pair_by_number) at h)
  | inr (n, e) ↦ find-IsAvailable (has_number n) po_lines consumed p (rw (e, pair_by_number) at h)
]

pair_by_code-IsAvailable :
    (line : InvoiceLineItem) (po_lines : List PurchaseOrderLine) (consumed : List ℕ)
    (p : PurchaseOrderLine)
    → pair_by_code line po_lines consumed ≡ some p
    → IsAvailable po_lines consumed p
unfolding pair_by_code
pair_by_code-IsAvailable line po_lines consumed p h =
    elim (Bool-cases (is_given line.material_code)) [
      | inl e ↦
          find-IsAvailable
            (λ l.
              text_eq (normal_code (text_or l.material_code []))
                (normal_code (text_or line.material_code [])))
            po_lines consumed p (rw e at h)
      | inr e ↦ cc (rw e at h)
    ]

module _ (po_lines : List PurchaseOrderLine) (consumed : List ℕ) where
  abbrev Available : List Scored → Type 0
  Available = All (λ q. IsAvailable po_lines consumed q.1)

  best_scored-IsAvailable :
      (qs : List Scored) (p : PurchaseOrderLine)
      → Available qs
      → best_scored qs ≡ some p
      → IsAvailable po_lines consumed p
  best_scored-IsAvailable [] p a h = cc
  best_scored-IsAvailable ((score, line) ∷ qs) p a h =
      elim (Bool-cases (leb description_threshold score)) [
        | inl e ↦ rw (some-injective _ _ (rw e at h)) at (a.0)
        | inr e ↦ cc (rw e at h)
      ]

module _ (ratio : Text → Text → ℕ) where
  scored_rest-Available :
      (line : InvoiceLineItem) (po_lines rest : List PurchaseOrderLine) (consumed : List ℕ)
      → ((p : PurchaseOrderLine) → In p rest → In p po_lines)
      → Available po_lines consumed (score_lines ratio line rest consumed)
  unfolding score_lines
  scored_rest-Available line po_lines [] consumed within = tt
  scored_rest-Available line po_lines (p ∷ rest) consumed within =
      let tail = scored_rest-Available line po_lines rest consumed (λ q i. within q (inr i)) in
      elim (Bool-cases (member p.line_number consumed)) [
        | inl e ↦ rw e tail
        | inr e ↦ rw e ((e, within p (inl refl)), tail)
      ]

  pair_by_description-IsAvailable :
      (line : InvoiceLineItem) (po_lines : List PurchaseOrderLine) (consumed : List ℕ)
      (p : PurchaseOrderLine)
      → pair_by_description ratio line po_lines consumed ≡ some p
      → IsAvailable po_lines consumed p
  unfolding pair_by_description
  pair_by_description-IsAvailable line po_lines consumed p h =
      elim (Bool-cases (is_given (some line.description))) [
        | inl e ↦
            best_scored-IsAvailable po_lines consumed
              (sort_scored (score_lines ratio line po_lines consumed)) p
              (sort_scored-All (λ q. IsAvailable po_lines consumed q.1)
                (score_lines ratio line po_lines consumed)
                (scored_rest-Available line po_lines po_lines consumed (λ q i. i)))
              (rw e at h)
        | inr e ↦ cc (rw e at h)
      ]

  -- Whatever attempt finds it, the line is of the order and was not taken before.
  pub pair_line-IsAvailable :
      (line : InvoiceLineItem) (po_lines : List PurchaseOrderLine) (consumed : List ℕ)
      (p : PurchaseOrderLine)
      → pair_line ratio line po_lines consumed ≡ some p
      → IsAvailable po_lines consumed p
  unfolding pair_line
  pair_line-IsAvailable line po_lines consumed p h =
      elim (Option-cases (pair_by_number line po_lines consumed)) [
        | inr (q, e) ↦
            pair_by_number-IsAvailable line po_lines consumed p (e ∙ rw (e, pair_line) at h)
        | inl e ↦ elim (Option-cases (pair_by_code line po_lines consumed)) [
          | inr (q, f) ↦
              pair_by_code-IsAvailable line po_lines consumed p (f ∙ rw (e, f, pair_line) at h)
          | inl f ↦
              pair_by_description-IsAvailable line po_lines consumed p (rw (e, f, pair_line) at h)
        ]
      ]

  -- The order's lines that the matches name.
  abbrev pub paired_numbers : List LineMatch → List ℕ
  paired_numbers [] = []
  paired_numbers (m ∷ ms) = elim m.po_line_number [
    | none ↦ paired_numbers ms
    | some n ↦ n ∷ paired_numbers ms
  ]

  -- Each number names a line of the order, and differs from those before it and from `taken`.
  abbrev pub AreFresh : PurchaseOrder → List ℕ → List ℕ → Type 0
  AreFresh po taken [] = Unit
  AreFresh po taken (n ∷ ns) =
      (member n taken ≡ false)
      × ((p : PurchaseOrderLine) × In p po.lines × (p.line_number ≡ n))
      × AreFresh po (n ∷ taken) ns

  match_lines_from-AreFresh :
      (index : ℕ) (lines : List InvoiceLineItem) (po : PurchaseOrder) (received : Dict Decimal)
      (three_way : Bool) (cfg : MatchingConfig) (consumed : List ℕ)
      → AreFresh po consumed
          (paired_numbers (match_lines_from ratio index lines po received three_way cfg consumed).0)
  unfolding match_lines_from unpaired_line paired_line
  match_lines_from-AreFresh index [] po received three_way cfg consumed = tt
  match_lines_from-AreFresh index (line ∷ lines) po received three_way cfg consumed =
      elim (Option-cases (pair_line ratio line po.lines consumed)) [
        | inl e ↦
            rw
              (match_lines_from_unpaired ratio index line lines po received three_way cfg consumed
                e)
              (match_lines_from-AreFresh (index + 1) lines po received three_way cfg consumed)
        | inr (p, e) ↦
            let (free, listed) = pair_line-IsAvailable line po.lines consumed p e in
            rw (match_lines_from_paired ratio index line lines po received three_way cfg consumed e)
              (
                free,
                (p, listed, refl),
                match_lines_from-AreFresh (index + 1) lines po received three_way cfg
                    (p.line_number ∷ consumed),
              )
      ]

  -- In the matches of one invoice every paired line names a line of the order, and no two name the
  -- same one.
  pub match_lines-AreFresh :
      (invoice : ExtractedInvoice) (po : PurchaseOrder) (received : Dict Decimal) (three_way : Bool)
      (cfg : MatchingConfig)
      → AreFresh po [] (paired_numbers (match_lines ratio invoice po received three_way cfg).0)
  unfolding match_lines
  match_lines-AreFresh invoice po received three_way cfg =
      match_lines_from-AreFresh 1 invoice.line_items po received three_way cfg []
