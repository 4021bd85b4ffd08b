-- ===== src/Ledger/Orders.antt =====
-- src/execution/ledger.py: opening an account, orders, posted fees and marks.
pub mod Stages
pub mod Retries
use agentic_quant.Prelude.Int.{pos, ltb_ℤ, eqb_ℤ}
use agentic_quant.Prelude.{
  Bool, true, false, not, ◌&&◌, Option, none, some, List, [], ◌∷◌, ltb, leb, ◌==◌, if◌then◌else◌,
  same,
}
use agentic_quant.Prelude.Result.{Result, ok, err, ◌>>=◌, ◌>>◌, raise_if}
use agentic_quant.Prelude.Dict.{Dict, lookup, insert, put}
use agentic_quant.Decimal.{Decimal, plus, minus, times, copy_negate}
use agentic_quant.Domain.Common.{Text, Timestamp}
use agentic_quant.Domain.Orders.{
  AccountSpec, AccountSpec-discrete, OrderIntent, OrderIntent-discrete, Side, AccountFee,
  AccountFee-discrete,
}
use agentic_quant.Domain.Fills.{PriceMark}
use agentic_quant.Ledger.State.{
  LedgerError, base_fx_rate, insufficient_cash, insufficient_holdings, account_conflict,
  intent_reused, fee_changed, fee_currency, fee_exceeds_cash, fee_published, Ledger, Status,
  OrderRow, Entry, initial, order_key, cancel_key, account_fee_key, JournalRow, Book, clock,
  journal_at, write_journal, is_open, remaining, get_order, pending_orders, available_cash,
  held_quantity, wrong_base_rate, require_unpublished,
}

-- A new account: the row, and the deposit of its initial cash.
unfoldable pub new_account : AccountSpec → Book
new_account spec = record {
  spec = spec;
  cash = spec.initial_cash;
  realized = pos 0;
  fees = pos 0;
  peak = spec.initial_cash;
  last_at = spec.opened_at;
  holdings = [];
  orders = [];
  fills = [];
  marks = [];
  journal =
      record {
        key = initial;
        at = spec.opened_at;
        entry = Entry.deposit spec;
        cash_delta = spec.initial_cash;
      }
      ∷ [];
  snapshots = [];
  events = [];
  protections = [];
}

-- `create_account`, on the account's book if there is one.
unfoldable pub create_account : AccountSpec → Option Book → Ledger Book
create_account spec none = ok (new_account spec)
create_account spec (some b) =
    if same AccountSpec-discrete b.spec spec then ok b else err account_conflict

-- The sell orders of one instrument that are open, added up from the left.
unfoldable pub reserved_to_sell : Text → Decimal → List OrderRow → Decimal
reserved_to_sell id acc [] = acc
reserved_to_sell id acc (o ∷ rows) =
    reserved_to_sell id
      (if o.intent.instrument.instrument_id == id
        then elim o.intent.side [ Side.sell ↦ plus acc (remaining o) | Side.buy ↦ acc ]
        else acc)
      rows

unfoldable pub order_cost : OrderIntent → Decimal
order_cost i = plus (times (times i.quantity i.reference_price) i.fx_rate) i.estimated_fee

unfoldable pub unreserved_quantity : Text → Book → Decimal
unreserved_quantity id b =
    minus (held_quantity id b) (reserved_to_sell id (pos 0) (pending_orders b))

-- The cash that `submit` reserves, or the reason why it does not.
unfoldable pub reservation : OrderIntent → Book → Ledger Decimal
reservation i b = elim i.side [
  | Side.buy ↦
      if ltb_ℤ (available_cash b) (order_cost i) then err insufficient_cash else ok (order_cost i)
  | Side.sell ↦
      if ltb_ℤ (unreserved_quantity i.instrument.instrument_id b) i.quantity
      then err insufficient_holdings
      else ok (pos 0)
]

abbrev pub new_order : OrderIntent → Decimal → OrderRow
new_order i reserved = record {
  intent = i;
  status = Status.pending;
  filled_quantity = pos 0;
  reserved = reserved;
  reason = none;
}

unfoldable pub submit_new : OrderIntent → Book → Ledger (OrderRow × Book)
submit_new i b = do
  b1 ← clock i.decision_at b
  raise_if (wrong_base_rate i.instrument i.fx_rate b) base_fx_rate
  reserved ← reservation i b1
  let row = new_order i reserved
  b2 ←
      write_journal (order_key i.intent_id) i.decision_at (Entry.order i) (pos 0)
        (record b1 { orders = insert i.intent_id row b1.orders })
  ok (row, b2)

unfoldable pub submit : OrderIntent → Book → Ledger (OrderRow × Book)
submit i b = elim (lookup i.intent_id b.orders) [
  | some old ↦ if same OrderIntent-discrete old.intent i then ok (old, b) else err intent_reused
  | none ↦ submit_new i b
]

abbrev pub end_status : Bool → Status
end_status true = Status.rejected
end_status false = Status.cancelled

unfoldable pub cancel_open : OrderRow → Text → Timestamp → Text → Bool → Book → Ledger Book
cancel_open o id at reason is_rejection b = do
  b1 ← clock at b
  write_journal (cancel_key id) at (Entry.cancel is_rejection reason) (pos 0) (record b1 {
    orders =
        insert id
          (record o { status = end_status is_rejection; reserved = pos 0; reason = some reason })
          b1.orders;
  })

unfoldable pub cancel : Text → Timestamp → Text → Bool → Book → Ledger Book
cancel id at reason is_rejection b = do
  o ← get_order id b
  if is_open o.status then cancel_open o id at reason is_rejection b else ok b

-- A retry may be observed later, and may change nothing else.
abbrev pub same_fee : AccountFee → AccountFee → Bool
same_fee prior fee =
    same AccountFee-discrete (record prior { observed_at = fee.observed_at }) fee
    && not (ltb fee.observed_at prior.observed_at)

abbrev pub retry_fee : AccountFee → Book → JournalRow → Ledger (Bool × Book)
retry_fee fee b r = elim r.entry [
  | Entry.account_fee prior ↦ if same_fee prior fee then ok (false, b) else err fee_changed
  | _ ↦ err fee_changed
]

-- `if fee.intent_id is not None: self.order(…)`
abbrev known_intent : Option Text → Book → Ledger (Unit {0})
known_intent none b = ok tt
known_intent (some id) b = get_order id b >>= λ o. ok tt

unfoldable pub book_fee : AccountFee → Book → Ledger (Bool × Book)
book_fee fee b = do
  raise_if (not (b.spec.base_currency == fee.currency)) fee_currency
  known_intent fee.intent_id b
  b1 ← clock fee.observed_at b
  raise_if (ltb_ℤ (available_cash b1) fee.amount) fee_exceeds_cash
  require_unpublished fee.observed_at fee_published b1
  b2 ←
      write_journal (account_fee_key fee.fee_id) fee.observed_at (Entry.account_fee fee)
        (copy_negate fee.amount)
        (record b1 {
          cash = minus b1.cash fee.amount;
          realized = minus b1.realized fee.amount;
          fees = plus b1.fees fee.amount;
        })
  ok (true, b2)

unfoldable pub apply_account_fee : AccountFee → Book → Ledger (Bool × Book)
apply_account_fee fee b = elim (journal_at (account_fee_key fee.fee_id) b.journal) [
  | some r ↦ retry_fee fee b r
  | none ↦ book_fee fee b
]

-- `sorted(marks, key=lambda m: m.as_of)`, which is stable.
unfoldable pub insert_mark : PriceMark → List PriceMark → List PriceMark
insert_mark m [] = m ∷ []
insert_mark m (n ∷ ms) = if leb m.as_of n.as_of then m ∷ n ∷ ms else n ∷ insert_mark m ms

unfoldable pub sort_marks : List PriceMark → List PriceMark
sort_marks [] = []
sort_marks (m ∷ ms) = insert_mark m (sort_marks ms)

unfoldable pub mark_one : PriceMark → Book → Ledger Book
mark_one m b = do
  b1 ← clock m.as_of b
  raise_if (wrong_base_rate m.instrument m.fx_rate b1) base_fx_rate
  ok (record b1 { marks = put m.instrument.instrument_id m b1.marks })

unfoldable pub mark_all : List PriceMark → Book → Ledger Book
mark_all [] b = ok b
mark_all (m ∷ ms) b = do b1 ← mark_one m b; mark_all ms b1

unfoldable pub mark : List PriceMark → Book → Ledger Book
mark ms b = mark_all (sort_marks ms) b
