-- ===== src/Ledger/Orders/Stages.antt =====
-- What the operations on orders, fees and marks of src/execution/ledger.py have done when they
-- return.
use agentic_quant.Prelude.Int.{pos}
use agentic_quant.Prelude.{◌≤◌, ◌≡◌, Bool, some, [], ◌∷◌, ◌++◌, arith}
use agentic_quant.Prelude.Result.{ok}
use agentic_quant.Prelude.Dict.{insert, put}
use agentic_quant.Decimal.{plus, minus, copy_negate}
use agentic_quant.Domain.Common.{Text, Timestamp}
use agentic_quant.Domain.Orders.{OrderIntent, AccountFee}
use agentic_quant.Domain.Fills.{PriceMark}
use agentic_quant.Ledger.State.{
  OrderRow, Entry, JournalRow, order_key, cancel_key, account_fee_key, journal_row, Book, clock,
  write_journal,
}
use agentic_quant.Ledger.Orders.{
  new_order, retry_fee, reservation, submit_new, cancel_open, end_status, book_fee, mark_one,
}

pub submit_new_lem :
    (i : OrderIntent) (b b2 : Book) (row : OrderRow)
    → submit_new i b ≡ ok (row, b2)
    → (reservation i (record b { last_at = i.decision_at }) ≡ ok row.reserved)
      × (row ≡ new_order i row.reserved)
      × (b2 ≡ record b {
        last_at = i.decision_at;
        orders = insert i.intent_id row b.orders;
        journal =
            b.journal
            ++ journal_row (order_key i.intent_id) i.decision_at (Entry.order i) (pos 0) ∷ [];
      })
      × (b.last_at ≤ i.decision_at)
unfolding submit_new clock write_journal
submit_new_lem i b b2 row h = ground arith

pub cancel_open_lem :
    (o : OrderRow) (id : Text) (at : Timestamp) (reason : Text) (is_rejection : Bool) (b b1 : Book)
    → cancel_open o id at reason is_rejection b ≡ ok b1
    → (b1 ≡ record b {
      last_at = at;
      orders =
          insert id
            (record o { status = end_status is_rejection; reserved = pos 0; reason = some reason })
            b.orders;
      journal =
          b.journal
          ++ journal_row (cancel_key id) at (Entry.cancel is_rejection reason) (pos 0) ∷ [];
    })
      × (b.last_at ≤ at)
unfolding cancel_open clock write_journal
cancel_open_lem o id at reason is_rejection b b1 h = ground arith

pub book_fee_lem :
    (fee : AccountFee) (b b1 : Book) (d : Bool)
    → book_fee fee b ≡ ok (d, b1)
    → (b1 ≡ record b {
      last_at = fee.observed_at;
      cash = minus b.cash fee.amount;
      realized = minus b.realized fee.amount;
      fees = plus b.fees fee.amount;
      journal =
          b.journal
          ++ journal_row
              (account_fee_key fee.fee_id)
              fee.observed_at
              (Entry.account_fee fee)
              (copy_negate fee.amount)
            ∷ [];
    })
      × (b.last_at ≤ fee.observed_at)
unfolding book_fee clock write_journal
book_fee_lem fee b b1 d h = ground arith

pub mark_one_lem :
    (m : PriceMark) (b b1 : Book)
    → mark_one m b ≡ ok b1
    → (b1 ≡ record b { last_at = m.as_of; marks = put m.instrument.instrument_id m b.marks })
      × (b.last_at ≤ m.as_of)
unfolding mark_one clock
mark_one_lem m b b1 h = ground arith

-- A posted fee that is sent again changes nothing.
pub retry_fee_lem :
    (fee : AccountFee) (b b1 : Book) (r : JournalRow) (d : Bool)
    → retry_fee fee b r ≡ ok (d, b1)
    → b ≡ b1
retry_fee_lem fee b b1 r d h = ground arith
