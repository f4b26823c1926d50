-- ===== src/Service/Landing.antt =====
-- Where a graph that has stopped leaves the table of runs and the checkpoints.
use invoice_to_payment_agent.Prelude.{
  ◌≡◌, refl, sym, Bool, true, false, Option, none, some, inl, inr, Bool-cases, arith, ◌∷◌, ◌⊎◌,
}
use invoice_to_payment_agent.Prelude.Text.{Text, is_given, text_eq, text_eq→eq}
use invoice_to_payment_agent.Schemas.Common.{RunStatus, awaiting_approval}
use invoice_to_payment_agent.Store.Runs.{is_final}
use invoice_to_payment_agent.Store.Status.{run_status}
use invoice_to_payment_agent.Agents.State.{InvoiceState}
use invoice_to_payment_agent.Agents.World.{World}
use invoice_to_payment_agent.Agents.Graph.{ApNode, Point, at, paused, ended, aborted, is_stopped}
use invoice_to_payment_agent.Agents.ReceivableGraph.{ArNode}
use invoice_to_payment_agent.Agents.Live.{Statuses, RowKept, IsBroken, is_in_progress}
use invoice_to_payment_agent.Agents.Settled.{HasInvoice, IsSettled}
use invoice_to_payment_agent.Agents.SettledCash.{is_cash_end, IsCashSettled}
use invoice_to_payment_agent.Service.State.{
  Checkpoint, waiting, finished, broken, Threads, find_thread, Service, thread_of,
}
use invoice_to_payment_agent.Service.Summary.{deliver}

-- The statuses in which a graph may leave a run.
abbrev pub is_resting : RunStatus → Bool
is_resting awaiting_approval = true
is_resting status = is_final status

pub final-is_resting : (st : RunStatus) → is_final st ≡ true → is_resting st ≡ true
final-is_resting st h = ground arith

cash_end-is_resting : (st : RunStatus) → is_cash_end st ≡ true → is_resting st ≡ true
cash_end-is_resting st h = ground arith

-- The state can be resumed: the run is its own, it has an invoice, and it has no case yet.
abbrev pub IsResumable : Text → InvoiceState → Type 0
IsResumable r s =
    (is_given (some r) ≡ true) × (s.run_id ≡ r) × HasInvoice s × (s.exception_case_id ≡ none)

-- A row and the checkpoint of its thread agree.
abbrev pub Agrees : Text → Option RunStatus → Option Checkpoint → Type 0
Agrees r none c = Unit
Agrees r (some st) none = ⊥
Agrees r (some st) (some (waiting s)) = (st ≡ awaiting_approval) × IsResumable r s
Agrees r (some st) (some (finished s)) = (st ≡ s.status) × (is_resting s.status ≡ true)
Agrees r (some st) (some (broken s)) = is_in_progress st ≡ true

-- Every run has a checkpoint that agrees with its row.
abbrev pub IsConsistent : {E : Type 0} → Service E → Type 0
IsConsistent sv =
    (r : Text) → Agrees r (run_status r sv.world.store) (find_thread (thread_of r) sv.threads)

pub find_thread-same :
    (r o : Text) (c : Checkpoint) (ts : Threads)
    → text_eq r o ≡ true
    → find_thread (thread_of o) ((thread_of r, c) ∷ ts) ≡ some c
unfolding find_thread thread_of text_eq
find_thread-same r o c ts e = rw e refl

pub find_thread-other :
    (r o : Text) (c : Checkpoint) (ts : Threads)
    → text_eq r o ≡ false
    → find_thread (thread_of o) ((thread_of r, c) ∷ ts) ≡ find_thread (thread_of o) ts
unfolding find_thread thread_of text_eq
find_thread-other r o c ts e = rw e refl

abbrev pub OthersAgree : Text → Statuses → Threads → Type 0
OthersAgree r before ts =
    (o : Text) → text_eq r o ≡ false → Agrees o (before o) (find_thread (thread_of o) ts)

module _ {E : Type 0} (r : Text) (before : Statuses) where
  -- How a graph stops: waiting with a state that can be resumed, at the end, or broken off.
  abbrev pub HasLanded : {N : Type 0} → Point N E → Type 0
  HasLanded (at n s w) = ⊥
  HasLanded (paused s w) =
      (run_status r w.store ≡ some awaiting_approval) × RowKept r before w × IsResumable r s
  HasLanded (ended s w) =
      (run_status r w.store ≡ some s.status) × (is_resting s.status ≡ true) × RowKept r before w
  HasLanded (aborted text s w) = IsBroken r before w

  pub ap-HasLanded :
      (p : Point ApNode E)
      → is_given (some r) ≡ true
      → is_stopped p ≡ true
      → IsSettled r before p
      → HasLanded p
  ap-HasLanded (at n s w) named e h = cc
  ap-HasLanded (paused s w) named e ((row, kept), i, (fresh, (own, k))) =
      (row, kept, (named, own, i, fresh))
  ap-HasLanded (ended s w) named e (row, final, kept) = (row, final-is_resting s.status final, kept)
  ap-HasLanded (aborted text s w) named e h = h

  pub ar-HasLanded :
      (p : Point ArNode E) → is_stopped p ≡ true → IsCashSettled r before p → HasLanded p
  ar-HasLanded (at n s w) e h = cc
  ar-HasLanded (paused s w) e h = elim h [ ]
  ar-HasLanded (ended s w) e (row, end, kept) = (row, cash_end-is_resting s.status end, kept)
  ar-HasLanded (aborted text s w) e h = h

  landed-IsConsistent :
      (w : World E) (c : Checkpoint) (ts : Threads) (st : RunStatus)
      → run_status r w.store ≡ some st
      → Agrees r (some st) (some c)
      → RowKept r before w
      → OthersAgree r before ts
      → (o : Text)
      → Agrees o (run_status o w.store) (find_thread (thread_of o) ((thread_of r, c) ∷ ts))
  landed-IsConsistent w c ts st row agrees kept others o = elim (Bool-cases (text_eq r o)) [
    | inl e ↦ rw (find_thread-same r o c ts e, sym (text_eq→eq r o e), row) agrees
    | inr e ↦ rw (find_thread-other r o c ts e, kept.1 o e) (others o e)
  ]

  -- The service after the graph has stopped is consistent.
  pub deliver-IsConsistent :
      {N : Type 0} (p : Point N E) (sv : Service E)
      → HasLanded p
      → OthersAgree r before sv.threads
      → IsConsistent (deliver r p sv).1
  unfolding deliver
  deliver-IsConsistent (at n s w) sv h others = elim h [ ]
  deliver-IsConsistent (paused s w) sv (row, kept, can) others =
      landed-IsConsistent w (waiting s) sv.threads awaiting_approval row (refl, can) kept others
  deliver-IsConsistent (ended s w) sv (row, rests, kept) others =
      landed-IsConsistent w (finished s) sv.threads s.status row (refl, rests) kept others
  deliver-IsConsistent (aborted text s w) sv (st, progress, (row, same)) others =
      landed-IsConsistent w (broken s) sv.threads st row progress ((st, row), same) others

  -- The run has a row with a status in which it may rest or be broken off, and the other rows are
  -- kept.
  pub deliver-rests :
      {N : Type 0} (p : Point N E) (sv : Service E)
      → HasLanded p
      → ((st : RunStatus) × (run_status r (deliver r p sv).1.world.store ≡ some st)
          × ((is_resting st ≡ true) ⊎ (is_in_progress st ≡ true)))
        × RowKept r before (deliver r p sv).1.world
  unfolding deliver
  deliver-rests (at n s w) sv h = elim h [ ]
  deliver-rests (paused s w) sv (row, kept, can) = ((awaiting_approval, row, inl refl), kept)
  deliver-rests (ended s w) sv (row, rests, kept) = ((s.status, row, inl rests), kept)
  deliver-rests (aborted text s w) sv (st, progress, (row, same)) =
      ((st, row, inr progress), ((st, row), same))

  pub deliver-next_run :
      {N : Type 0} (p : Point N E) (sv : Service E) → (deliver r p sv).1.next_run ≡ sv.next_run
  unfolding deliver
  deliver-next_run (at n s w) sv = refl
  deliver-next_run (paused s w) sv = refl
  deliver-next_run (ended s w) sv = refl
  deliver-next_run (aborted text s w) sv = refl
