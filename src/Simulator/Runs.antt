-- ===== src/Simulator/Runs.antt =====
-- Runs of a paper account under src/execution/simulator.py.
use agentic_quant.Ledger.Reconcile.Explained.{Plain, Run-Reconciles}
use agentic_quant.Prelude.{Bool, ◌≡◌, List}
use agentic_quant.Prelude.Result.{ok}
use agentic_quant.Prelude.Dict.{Dict}
use agentic_quant.Decimal.{Fits}
use agentic_quant.Domain.Common.{Text, Timestamp, Instrument}
use agentic_quant.Domain.Orders.{OrderIntent, AccountSpec}
use agentic_quant.Domain.Fills.{Fill}
use agentic_quant.Domain.Bars.{ExecutionBar, OpeningEvent}
use agentic_quant.Ledger.State.{LedgerError, OrderRow, FeePayload, Book}
use agentic_quant.Ledger.Orders.{new_account}
use agentic_quant.Ledger.Reconcile.{Position, Reconciles}
use agentic_quant.Ledger.Reconcile.Sound.{Mastered}
use agentic_quant.Ledger.Reconcile.Reach.{Steps, Run}
use agentic_quant.Ledger.Reconcile.Steps.{Run-Steps}
use agentic_quant.RiskControls.{InstrumentRisk, Check}
use agentic_quant.Stops.{StopObservation}
use agentic_quant.Simulator.{PaperExecution, paper_submit, expire_orders}
use agentic_quant.Simulator.Opening.{Admission, open_event, open_bar, close_bar}
use agentic_quant.Simulator.Refinement.{paper_submit-Steps, expire_orders-Steps}
use agentic_quant.Simulator.Opened.{open_event-Steps, open_bar-Steps, close_bar-Steps}

module _ (master : Text → Instrument) (intent_hash : OrderIntent → Text)
    (event_hash : OpeningEvent → Text) (observation_hash : StopObservation → Text)
    (fill_name : Text → Text → Text) (risk_text : List Check → Text)
    (error_text : LedgerError → Text) where
  -- One operation of the simulator that returned.
  pub data PaperStep (x : PaperExecution) : Book → Book → Type 0 where
    submitted :
        (i : OrderIntent) (metadata : Dict InstrumentRisk) {b b1 : Book} {row : OrderRow}
        → Mastered master i.instrument
        → paper_submit x i metadata b ≡ ok (row, b1)
        → PaperStep x b b1
    opened :
        (e : OpeningEvent) (a : Admission) {b b1 : Book} {fills : List Fill}
        → open_event intent_hash event_hash observation_hash fill_name risk_text error_text x e a b
          ≡ ok (fills, b1)
        → PaperStep x b b1
    bar_opened :
        (bar : ExecutionBar) (a : Admission) {b b1 : Book} {fills : List Fill}
        → open_bar intent_hash event_hash observation_hash fill_name risk_text error_text x bar a b
          ≡ ok (fills, b1)
        → PaperStep x b b1
    bar_closed : (bar : ExecutionBar) {b b1 : Book} → close_bar bar b ≡ ok b1 → PaperStep x b b1
    expired :
        (at : Timestamp) {b b1 : Book} {ids : List Text}
        → expire_orders at b ≡ ok (ids, b1)
        → PaperStep x b b1

  pub data PaperRun (x : PaperExecution) (spec : AccountSpec) : Book → Type 0 where
    started : PaperRun x spec (new_account spec)
    next : {b b1 : Book} → PaperRun x spec b → PaperStep x b b1 → PaperRun x spec b1

  -- The ledger's interface suffices: whatever one operation of the simulator does to a book is a
  -- sequence of the ledger's own operations, each of which returned, the fills among them of positive
  -- quantities and without debits in kind.
  pub PaperStep-Steps :
      (x : PaperExecution) (b b1 : Book) → PaperStep x b b1 → Steps master Plain b b1
  PaperStep-Steps x b b1 (PaperStep.submitted i metadata {row = row} m h) =
      paper_submit-Steps master x i metadata b b1 row m h
  PaperStep-Steps x b b1 (PaperStep.opened e a {fills = fills} h) =
      open_event-Steps master intent_hash event_hash observation_hash fill_name risk_text error_text
        x e a fills b b1 h
  PaperStep-Steps x b b1 (PaperStep.bar_opened bar a {fills = fills} h) =
      open_bar-Steps master intent_hash event_hash observation_hash fill_name risk_text error_text x
        bar a fills b b1 h
  PaperStep-Steps x b b1 (PaperStep.bar_closed bar h) = close_bar-Steps master bar b b1 h
  PaperStep-Steps x b b1 (PaperStep.expired at {ids = ids} h) =
      expire_orders-Steps master at ids b b1 h

  PaperRun-Run :
      (x : PaperExecution) (spec : AccountSpec) (b : Book)
      → PaperRun x spec b
      → Run master Plain spec b
  PaperRun-Run x spec b PaperRun.started = Run.opened
  PaperRun-Run x spec b (PaperRun.next {b = b0} r step) =
      Run-Steps master Plain spec b0 b (PaperRun-Run x spec b0 r) (PaperStep-Steps x b0 b step)

  -- A paper account always reconciles: after any sequence of submissions, openings, completed bars
  -- and expiries that returned, the replay of the journal agrees with the book, if the initial cash
  -- has no more digits than a decimal keeps and ids stand for one instrument each.
  pub PaperRun-Reconciles :
      (spelled_alike : FeePayload → Position → Bool) (x : PaperExecution) (spec : AccountSpec)
      (b : Book)
      → Fits spec.initial_cash
      → PaperRun x spec b
      → Reconciles spelled_alike b
  PaperRun-Reconciles spelled_alike x spec b fits r =
      Run-Reconciles master spelled_alike spec b fits (PaperRun-Run x spec b r)
