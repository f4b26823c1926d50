-- ===== src/Matching/Sorting.antt =====
-- The sort of the scored lines and a property of each of them.
use invoice_to_payment_agent.Prelude.{[], ◌∷◌, List, inl, inr, Bool-cases, All, leb}
use invoice_to_payment_agent.Matching.Pairing.{Scored, insert_scored, sort_scored}

module _ (P : Scored → Type 0) where
  insert_scored-All : (p : Scored) (qs : List Scored) → P p → All P qs → All P (insert_scored p qs)
  unfolding insert_scored
  insert_scored-All p [] a as' = (a, tt)
  insert_scored-All p (q ∷ qs) a (b, bs) = elim (Bool-cases (leb q.0 p.0)) [
    | inl e ↦ rw e (a, (b, bs))
    | inr e ↦ rw e (b, insert_scored-All p qs a bs)
  ]

  pub sort_scored-All : (qs : List Scored) → All P qs → All P (sort_scored qs)
  unfolding sort_scored
  sort_scored-All [] a = tt
  sort_scored-All (q ∷ qs) (a, as') =
      insert_scored-All q (sort_scored qs) a (sort_scored-All qs as')
