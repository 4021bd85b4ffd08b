-- ===== src/Ledger/Reconcile/Growth.antt =====
-- A run of an account takes nothing back.
pub mod Defs
pub mod Orders
pub mod Fills
pub mod Actions
use agentic_quant.Prelude.{
  ◌≤◌, ◌≡◌, refl, sym, ap, ◌∙◌, Bool, Option, List, [], ◌∷◌, ◌++◌, arith, inl, inr, some, none,
  false, Bool-cases, ◌==◌, ◌||◌, ltb, subst, if◌then◌else◌, Option-cases,
}
use agentic_quant.Prelude.Result.{ok, >>=-eq-ok, raise_if-eq-ok}
use agentic_quant.Prelude.Dict.{lookup}
use agentic_quant.Decimal.{Decimal}
use agentic_quant.Domain.Common.{Text, Timestamp, Instrument}
use agentic_quant.Domain.Orders.{OrderIntent, AccountFee, AccountSpec}
use agentic_quant.Domain.Fills.{Fill, InventoryFee, PriceMark}
use agentic_quant.Domain.Bars.{ActionKind, CorporateAction}
use agentic_quant.Ledger.State.{
  JournalRow, OrderRow, HoldingRow, Entry, Event, Book, get_order, is_open, journal_at,
  account_fee_key, action_key, journal_row, clock, record_event, write_journal, pending_orders,
  event_at, event_key, receipt_before_execution, chronology,
}
use agentic_quant.Ledger.State.Effects.{clock_lem, record_event_lem, write_journal_lem}
use agentic_quant.Ledger.Actions.{
  corporate_action_reason, cancel_resting, cancel_before, split_holding, pay_dividend,
  pay_delisting, act_on, act, corporate_action,
}
use agentic_quant.Ledger.Orders.{
  new_account, submit, cancel, apply_account_fee, sort_marks, insert_mark, mark_one, mark_all, mark,
}
use agentic_quant.Ledger.Orders.Stages.{
  submit_new_lem, cancel_open_lem, book_fee_lem, retry_fee_lem, mark_one_lem,
}
use agentic_quant.Ledger.Fills.{
  Trade, write_holding, write_trade, write_fee, quantity_left, apply_fee, apply_fees, apply_fill,
}
use agentic_quant.Ledger.Fills.Stages.{
  Booked, book_fill-Booked, book_trade_lem, stored_trade, trade_row,
}
use agentic_quant.Ledger.Fills.Debits.{fee_row, apply_fee-Paid}
use agentic_quant.Ledger.Fills.{is_backtest, later_than, latest_economic, receive, book_trade}
use agentic_quant.Ledger.Reconcile.Reach.{Step, Run}
use agentic_quant.Ledger.Reconcile.Growth.Defs.{
  Grows, Grows-same, Grows-row, Grows-refl, Grows-trans, clock-Grows, record_event-Grows,
}
use agentic_quant.Ledger.Reconcile.Growth.Orders.{
  submit-Grows, cancel-Grows, apply_account_fee-Grows, mark_all-Grows,
}
use agentic_quant.Ledger.Reconcile.Growth.Fills.{apply_fill-Grows}
use agentic_quant.Ledger.Reconcile.Growth.Actions.{corporate_action-Grows}

module _ (master : Text → Instrument) (allowed : Fill → Type 0) where
  pub Step-Grows : (b b1 : Book) → Step master allowed b b1 → Grows allowed b b1
  unfolding mark
  Step-Grows b b1 (Step.submitted i {row = row} m h) = submit-Grows allowed i b b1 row h
  Step-Grows b b1 (Step.cancelled id at reason r h) = cancel-Grows allowed id at reason r b b1 h
  Step-Grows b b1 (Step.filled f observed {d = d} p fine h) =
      apply_fill-Grows allowed f observed b b1 d fine h
  Step-Grows b b1 (Step.charged fee {d = d} h) = apply_account_fee-Grows allowed fee b b1 d h
  Step-Grows b b1 (Step.acted a fine h) = corporate_action-Grows allowed a b b1 h
  Step-Grows b b1 (Step.recorded e {d = d} h) = record_event-Grows allowed e b b1 d h
  Step-Grows b b1 (Step.marked ms h) = mark_all-Grows allowed (sort_marks ms) b b1 h
