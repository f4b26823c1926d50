-- ===== src/Agents/Applied.antt =====
-- What becomes of the applications that a remittance posts.
use invoice_to_payment_agent.Prelude.{
  ◌≡◌, refl, sym, ◌∙◌, none, some, List, [], ◌∷◌, ◌++◌, Result, ok, err,
}
use mathlib.Core.List.{append_assoc, append-nil}
use invoice_to_payment_agent.Prelude.Text.{Text}
use invoice_to_payment_agent.Schemas.Erp.{CashApplicationResult}
use invoice_to_payment_agent.Matching.Remittance.{Application, Unresolved, application_failed}
use invoice_to_payment_agent.Erp.Client.{ErpError, message, Raised, handled, uncaught, ErpClient}
use invoice_to_payment_agent.Agents.Receivable.{Posted, record_result, apply_all}

abbrev pub CashAnswer : Type 0
CashAnswer = Result (Raised ErpError) CashApplicationResult

-- The answers of the ERP, when it is called for each application in turn.
unfoldable pub answers : {E : Type 0} → ErpClient E → Text → List Application → E → List CashAnswer
answers client reference [] erp = []
answers client reference ((item, amount) ∷ rest) erp =
    let (answer, erp') = client.apply_cash item.ar_item_id amount reference erp in
    answer ∷ answers client reference rest erp'

abbrev pub successes : List CashAnswer → List CashApplicationResult
successes [] = []
successes (ok result ∷ rest) = result ∷ successes rest
successes (err _ ∷ rest) = successes rest

-- The failed applications, each with the number of its item and the message of its error.
abbrev pub failures : List Application → List CashAnswer → List Unresolved
failures ((item, amount) ∷ rest) (err (handled exc) ∷ called) =
    application_failed item.ar_item_id (message exc) ∷ failures rest called
failures ((item, amount) ∷ rest) (_ ∷ called) = failures rest called
failures _ _ = []

module _ {E : Type 0} (client : ErpClient E) (reference : Text) where
  -- After an exception the loop posts nothing more.
  apply_all-raised :
      (applications : List Application) (text : Text) (applied : List CashApplicationResult)
      (unresolved : List Unresolved) (erp : E)
      → (apply_all client reference applications (record {
        applied = applied;
        unresolved = unresolved;
        erp = erp;
        raised = some text;
      })).raised
        ≡ some text
  unfolding apply_all
  apply_all-raised [] text applied unresolved erp = refl
  apply_all-raised (_ ∷ rest) text applied unresolved erp =
      apply_all-raised rest text applied unresolved erp

  abbrev begun : List CashApplicationResult → List Unresolved → E → Posted E
  begun applied unresolved erp = record {
    applied = applied;
    unresolved = unresolved;
    erp = erp;
    raised = none;
  }

  -- What the loop leaves accounts for every application.
  abbrev pub IsAccounted :
      List Application
      → List CashAnswer
      → List CashApplicationResult
      → List Unresolved
      → Posted E
      → Type 0
  IsAccounted applications called applied unresolved posted =
      (posted.applied ≡ applied ++ successes called)
      × (posted.unresolved ≡ unresolved ++ failures applications called)

  after_answer :
      (application : Application) (rest : List Application) (call : CashAnswer × E)
      (applied : List CashApplicationResult) (unresolved : List Unresolved) (erp : E)
      → ((a : List CashApplicationResult) (u : List Unresolved)
          → (apply_all client reference rest (begun a u call.1)).raised ≡ none
          → IsAccounted rest
              (answers client reference rest call.1)
              a
              u
              (apply_all client reference rest (begun a u call.1)))
      → (apply_all client reference rest
          (record_result client application.0 call (begun applied unresolved erp))).raised
        ≡ none
      → IsAccounted
          (application ∷ rest)
          (call.0 ∷ answers client reference rest call.1)
          applied
          unresolved
          (apply_all client reference rest
            (record_result client application.0 call (begun applied unresolved erp)))
  after_answer (item, amount) rest (ok result, erp') applied unresolved erp later h =
      let (a, u) = later (applied ++ (result ∷ [])) unresolved h in
      (a ∙ append_assoc applied (result ∷ []) (successes (answers client reference rest erp')), u)
  after_answer (item, amount) rest (err (handled exc), erp') applied unresolved erp later h =
      let failed = application_failed item.ar_item_id (message exc) in
      let (a, u) = later applied (unresolved ++ (failed ∷ [])) h in
      (
        a,
        u
            ∙ append_assoc unresolved (failed ∷ [])
                (failures rest (answers client reference rest erp')),
      )
  after_answer (item, amount) rest (err (uncaught text), erp') applied unresolved erp later h =
      cc (apply_all-raised rest text applied unresolved erp', h)

  -- Where no exception leaves the loop over the applications, the ERP is called for each of them in
  -- turn; what it applied is appended to the applied ones in that order, and every application
  -- that it refused to the unresolved ones, with the number of its item and the message.
  pub apply_all-IsAccounted :
      (applications : List Application) (applied : List CashApplicationResult)
      (unresolved : List Unresolved) (erp : E)
      → (apply_all client reference applications (begun applied unresolved erp)).raised ≡ none
      → IsAccounted applications
          (answers client reference applications erp)
          applied
          unresolved
          (apply_all client reference applications (begun applied unresolved erp))
  unfolding apply_all answers
  apply_all-IsAccounted [] applied unresolved erp h =
      (sym (append-nil applied), sym (append-nil unresolved))
  apply_all-IsAccounted ((item, amount) ∷ rest) applied unresolved erp h =
      after_answer (item, amount) rest (client.apply_cash item.ar_item_id amount reference erp)
        applied unresolved erp (λ a u. apply_all-IsAccounted rest a u _) h
