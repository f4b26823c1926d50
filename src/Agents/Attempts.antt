-- ===== src/Agents/Attempts.antt =====
-- Nodes that an exception may break off: a property of what such a node leaves, and the points
-- that follow it.
use invoice_to_payment_agent.Prelude.{Bool, true, false, none, some, Result, ok, err, if◌then◌else◌}
use invoice_to_payment_agent.Prelude.Text.{Text}
use invoice_to_payment_agent.Erp.Client.{Raised, handled, uncaught}
use invoice_to_payment_agent.Agents.State.{InvoiceState}
use invoice_to_payment_agent.Agents.World.{World, Outcome, Attempt, trying}
use invoice_to_payment_agent.Agents.Graph.{Point, aborted, leave}

-- A property of the outcome of a node that returns, and one of the world that an exception leaves.
abbrev pub Leaves : {E : Type 0} → (Outcome E → Type 0) → (World E → Type 0) → Attempt E → Type 0
Leaves P Q (none, o) = P o
Leaves P Q (some text, (s, w)) = Q w

module _ {E : Type 0} (P : Outcome E → Type 0) (Q : World E → Type 0) where
  pub if-Leaves :
      (b : Bool) (a a' : Attempt E)
      → Leaves P Q a
      → Leaves P Q a'
      → Leaves P Q (if b then a else a')
  if-Leaves true a a' h h' = h
  if-Leaves false a a' h h' = h'

  pub trying-Leaves :
      {X A : Type 0} (r : Result (Raised X) A) (handle : Result X A → Attempt E) (s : InvoiceState)
      (w : World E)
      → ((h : Result X A) → Leaves P Q (handle h))
      → Q w
      → Leaves P Q (trying r handle s w)
  trying-Leaves (ok a) handle s w returned raised = returned (ok a)
  trying-Leaves (err (handled e)) handle s w returned raised = returned (err e)
  trying-Leaves (err (uncaught text)) handle s w returned raised = raised

  pub leave-Leaves :
      {N : Type 0} (R : Point N E → Type 0) (go : Outcome E → Point N E) (a : Attempt E)
      → ((o : Outcome E) → P o → R (go o))
      → ((text : Text) (s : InvoiceState) (w : World E) → Q w → R (aborted text s w))
      → Leaves P Q a
      → R (leave go a)
  leave-Leaves R go (none, o) returned raised h = returned o h
  leave-Leaves R go (some text, (s, w)) returned raised h = raised text s w h

-- Whatever holds of the points after the outcomes and of those after an exception holds of the
-- point that follows the node.
pub leave-any :
    {E N : Type 0} (R : Point N E → Type 0) (go : Outcome E → Point N E) (a : Attempt E)
    → ((o : Outcome E) → R (go o))
    → ((text : Text) (s : InvoiceState) (w : World E) → R (aborted text s w))
    → R (leave go a)
leave-any R go (none, o) returned raised = returned o
leave-any R go (some text, (s, w)) returned raised = raised text s w
