-- ===== src/Erp/MockLedger.antt =====
-- The ledger of the mock server: balanced documents and their references.
use invoice_to_payment_agent.Prelude.{
  ℕ, Bool, true, false, not, ◌||◌, ◌≡◌, refl, inl, inr, Option, none, some, List, [], ◌∷◌, ◌++◌, ok,
  err, arith, Bool-cases, All, All-append, find, is_empty, if◌then◌else◌,
}
use invoice_to_payment_agent.Prelude.Text.{text_eq, text_eq_refl}
use invoice_to_payment_agent.Decimal.{eq}
use invoice_to_payment_agent.Schemas.Erp.{JournalPostingRequest, total_debits, total_credits}
use invoice_to_payment_agent.Erp.Mock.{
  conflict, JournalDocument, MockErp, has_reference, document_of, with_document, post_new,
  post_journal_entry,
}

-- The document's total is the sum of its debits and equals that of its credits.
abbrev pub IsBalancedDocument : JournalDocument → Type 0
IsBalancedDocument d =
    (d.total_amount ≡ total_debits d.lines)
    × (eq (total_debits d.lines) (total_credits d.lines) ≡ true)

-- No later document has the reference of an earlier one.
abbrev pub AreUnique : List JournalDocument → Type 0
AreUnique [] = Unit
AreUnique (d ∷ ds) =
    All (λ (later : JournalDocument). text_eq d.reference later.reference ≡ false) ds × AreUnique ds

abbrev pub IsSoundLedger : MockErp → Type 0
IsSoundLedger s = All IsBalancedDocument s.journals × AreUnique s.journals

AreUnique-append :
    (ds : List JournalDocument) (d : JournalDocument)
    → AreUnique ds
    → find (has_reference d.reference) ds ≡ none
    → AreUnique (ds ++ (d ∷ []))
AreUnique-append [] d u h = (tt, tt)
AreUnique-append (e ∷ ds) d (differ, u) h = elim (Bool-cases (has_reference d.reference e)) [
  | inl same ↦ cc (rw same at h)
  | inr other ↦ (
    All-append (λ (later : JournalDocument). text_eq e.reference later.reference ≡ false) ds
        (d ∷ []) differ (other, tt),
    AreUnique-append ds d u (rw other at h),
  )
]

find-append :
    (test : JournalDocument → Bool) (ds : List JournalDocument) (d : JournalDocument)
    → find test ds ≡ none
    → find test (ds ++ (d ∷ [])) ≡ (if test d then some d else none)
find-append test [] d h = refl
find-append test (e ∷ ds) d h = elim (Bool-cases (test e)) [
  | inl passed ↦ cc (rw passed at h)
  | inr other ↦ rw other (find-append test ds d (rw other at h))
]

module _ (today : ℕ) (year_of : ℕ → ℕ) where
  post_new-IsSoundLedger :
      (entry : JournalPostingRequest) (found : Option JournalDocument) (s : MockErp)
      → find (has_reference entry.reference) s.journals ≡ found
      → eq (total_debits entry.lines) (total_credits entry.lines) ≡ true
      → IsSoundLedger s
      → IsSoundLedger (post_new today year_of entry found s).1
  post_new-IsSoundLedger entry (some existing) s f balanced h = h
  post_new-IsSoundLedger entry none s f balanced (b, u) = (
    All-append IsBalancedDocument s.journals (document_of today year_of entry s.next_document ∷ [])
        b ((refl, balanced), tt),
    AreUnique-append s.journals (document_of today year_of entry s.next_document) u f,
  )

  -- Whatever entry is posted, the ledger stays sound: every document is balanced with the total of
  -- its debits, and no two have one reference.
  pub post_journal_entry-IsSoundLedger :
      (entry : JournalPostingRequest) (s : MockErp)
      → IsSoundLedger s
      → IsSoundLedger (post_journal_entry today year_of entry s).1
  unfolding post_journal_entry
  post_journal_entry-IsSoundLedger entry s h =
      let refused =
        is_empty entry.lines || not (eq (total_debits entry.lines) (total_credits entry.lines)) in
      elim (Bool-cases refused) [
        | inl e ↦ rw e h
        | inr e ↦ rw e (post_new-IsSoundLedger entry _ s refl (ground arith) h)
      ]

  post_new-again :
      (entry : JournalPostingRequest) (s : MockErp)
      → find (has_reference entry.reference) s.journals ≡ none
      → post_new today year_of entry
          (find (has_reference entry.reference) (with_document today year_of entry s).journals)
          (with_document today year_of entry s)
        ≡ (err conflict, with_document today year_of entry s)
  post_new-again entry s h =
      rw (find-append (has_reference entry.reference) s.journals _ h, text_eq_refl entry.reference)

  post_found-again :
      (entry : JournalPostingRequest) (found : Option JournalDocument) (s : MockErp)
      (document : JournalDocument)
      → find (has_reference entry.reference) s.journals ≡ found
      → (post_new today year_of entry found s).0 ≡ ok document
      → post_new today year_of entry
          (find (has_reference entry.reference) (post_new today year_of entry found s).1.journals)
          (post_new today year_of entry found s).1
        ≡ (err conflict, (post_new today year_of entry found s).1)
  post_found-again entry (some existing) s document f h = cc
  post_found-again entry none s document f h = post_new-again entry s f

  -- An entry that was posted and is posted again, as after a lost response, is refused with a
  -- conflict, and leaves the server as it is.
  pub post_journal_entry_again :
      (entry : JournalPostingRequest) (s : MockErp) (document : JournalDocument)
      → (post_journal_entry today year_of entry s).0 ≡ ok document
      → post_journal_entry today year_of entry (post_journal_entry today year_of entry s).1
        ≡ (err conflict, (post_journal_entry today year_of entry s).1)
  unfolding post_journal_entry
  post_journal_entry_again entry s document h =
      let refused =
        is_empty entry.lines || not (eq (total_debits entry.lines) (total_credits entry.lines)) in
      elim (Bool-cases refused) [
        | inl e ↦ cc (rw e at h)
        | inr e ↦ rw e (post_found-again entry _ s document refl (rw e at h))
      ]
