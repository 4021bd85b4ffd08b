-- ===== src/Ledger/Fills.antt =====
-- src/execution/ledger.py: `apply_fill`, and src/execution/inventory_fees.py: the debits in kind
-- that come with a fill.
pub mod Stages
pub mod Debits
pub mod Retries
pub mod Bounds
pub mod Cash
use agentic_quant.Prelude.Int.{pos, ltb_ℤ, leb_ℤ, eqb_ℤ}
use agentic_quant.Prelude.{
  Bool, true, false, not, ◌&&◌, ◌||◌, Option, none, some, List, [], ◌∷◌, ltb, leb, ◌==◌,
  if◌then◌else◌, same,
}
use agentic_quant.Prelude.Result.{Result, ok, err, ◌>>=◌, ◌>>◌, guard, raise_if, or_raise}
use agentic_quant.Prelude.Dict.{Dict, lookup, insert, put, erase}
use agentic_quant.Decimal.{Decimal, one, plus, minus, times, divide, copy_negate, exact_decimal_sum}
use agentic_quant.FillArithmetic.{add, subtract, negate}
use agentic_quant.Domain.Common.{Text, Timestamp, Instrument, Instrument-discrete}
use agentic_quant.Domain.Orders.{OrderIntent, Side, OrderType, Mode, is_expired}
use agentic_quant.Domain.Fills.{
  Fill, Fill-discrete, InventoryFee, is_exact, base_notional, base_value,
}
use agentic_quant.Ledger.State.{
  LedgerError, base_fx_rate, published_nav, fill_reused, fill_exceeds, outside_interval,
  violates_limit, receipt_before_execution, chronology, instrument_changed, would_borrow,
  would_short, sell_fees, fee_exceeds_quantity, fee_unavailable, fee_not_owned,
  fee_conflicts_reserved, Ledger, Status, OrderRow, HoldingRow, FillRow, FeePayload, Entry, Key,
  fill_key, fee_key, JournalRow, Event, Book, clock, write_journal, record_event, is_open,
  remaining, get_order, pending_orders, available_cash, wrong_base_rate, require_unpublished,
}

abbrev pub crosses_limit : OrderIntent → Fill → Bool
crosses_limit i f = elim i.order_type [
  | OrderType.limit ↦ elim i.limit_price [
    | none ↦ false
    | some p ↦ elim i.side [ Side.buy ↦ ltb_ℤ p f.price | Side.sell ↦ ltb_ℤ f.price p ]
  ]
  | _ ↦ false
]

-- What must hold of a new fill before anything is written.
unfoldable pub check_fill : Fill → OrderRow → Book → Ledger (Unit {0})
check_fill f o b = do
  raise_if (not (is_open o.status) || ltb_ℤ (remaining o) f.quantity) fill_exceeds
  raise_if (ltb f.executed_at o.intent.eligible_at || is_expired o.intent.expires_at f.executed_at)
      outside_interval
  raise_if (crosses_limit o.intent f) violates_limit
  raise_if (wrong_base_rate o.intent.instrument f.fx_rate b) base_fx_rate
  require_unpublished f.executed_at published_nav b

-- The kinds of journal rows that move money or positions, the first deposit aside.
abbrev pub is_economic : Entry → Bool
is_economic (Entry.deposit s) = false
is_economic (Entry.order i) = false
is_economic (Entry.cancel r t) = false
is_economic _ = true

abbrev pub latest_economic : Option Timestamp → List JournalRow → Option Timestamp
latest_economic acc [] = acc
latest_economic acc (r ∷ rows) =
    latest_economic (if is_economic r.entry then some r.at else acc) rows

abbrev pub later_than : Option Timestamp → Timestamp → Bool
later_than none at = false
later_than (some t) at = ltb at t

abbrev pub is_backtest : Mode → Bool
is_backtest Mode.backtest = true
is_backtest _ = false

-- A fill that is received later than it was executed: the time at which it is booked.
unfoldable pub receive : Fill → Option Timestamp → Book → Ledger (Timestamp × Book)
receive f none b = ok (f.executed_at, b)
receive f (some observed) b = do
  raise_if (is_backtest b.spec.mode || ltb observed f.executed_at) receipt_before_execution
  raise_if (later_than (latest_economic none b.journal) f.executed_at) chronology
  (is_new, b1) ← record_event (Event.receipt_event f observed) b
  ok (observed, b1)

-- What a fill does to the position and to the account.
pub record Trade : Type 0 where
  pub quantity : Decimal
  pub basis : Decimal
  pub delta : Decimal
  pub realized : Decimal

unfoldable pub buy_trade : Fill → Decimal → Decimal → Trade
buy_trade f quantity basis =
    let exact = is_exact f in
    record {
      quantity = add exact quantity f.quantity;
      basis = add exact basis (add exact (base_notional f) f.fee);
      delta = subtract exact (negate exact (base_notional f)) f.fee;
      realized = pos 0;
    }

-- The part of the basis that leaves with the quantity sold.
unfoldable pub removed_basis : Decimal → Decimal → Decimal → Decimal
removed_basis sold quantity basis =
    if eqb_ℤ sold quantity then basis else divide (times basis sold) quantity

unfoldable pub sell_trade : Fill → Decimal → Decimal → Trade
sell_trade f quantity basis =
    let exact = is_exact f in
    let removed = removed_basis f.quantity quantity basis in
    let delta = subtract exact (base_notional f) f.fee in
    record {
      quantity = subtract exact quantity f.quantity;
      basis = subtract exact basis removed;
      delta = delta;
      realized = subtract exact delta removed;
    }

unfoldable pub trade : Side → Fill → Decimal → Decimal → Trade
trade Side.buy = buy_trade
trade Side.sell = sell_trade

abbrev pub quantity_of : Option HoldingRow → Decimal
quantity_of none = pos 0
quantity_of (some h) = h.quantity

abbrev pub basis_of : Option HoldingRow → Decimal
basis_of none = pos 0
basis_of (some h) = h.basis

unfoldable pub remaining_after : Fill → OrderRow → Decimal
remaining_after f o = subtract (is_exact f) (remaining o) f.quantity

unfoldable pub reserve_after : Fill → OrderRow → Decimal
reserve_after f o = divide (times o.reserved (remaining_after f o)) (remaining o)

unfoldable pub other_reservations : OrderRow → Book → Decimal
other_reservations o b = minus (minus b.cash (available_cash b)) o.reserved

-- The guards on cash and holdings.
unfoldable pub check_trade : Side → Fill → OrderRow → Decimal → Trade → Book → Ledger (Unit {0})
check_trade Side.buy f o quantity t b =
    raise_if
      (ltb_ℤ (add (is_exact f) b.cash t.delta) (plus (other_reservations o b) (reserve_after f o)))
      would_borrow
check_trade Side.sell f o quantity t b = do
  raise_if (ltb_ℤ quantity f.quantity) would_short
  raise_if (ltb_ℤ (add (is_exact f) b.cash t.delta) (pos 0)) sell_fees

abbrev pub changed_identity : Option HoldingRow → Instrument → Bool
changed_identity none i = false
changed_identity (some h) i = not (same Instrument-discrete h.definition i)

abbrev pub is_zero : Decimal → Bool
is_zero a = eqb_ℤ a (pos 0)

abbrev pub holding_row : Instrument → Decimal → Decimal → HoldingRow
holding_row i quantity basis = record { definition = i; quantity = quantity; basis = basis }

-- The position's row after a trade: a flat position has none.
unfoldable pub write_holding : Instrument → Decimal → Decimal → Book → Book
write_holding i quantity basis b = record b {
  holdings =
      if is_zero quantity
      then erase i.instrument_id b.holdings
      else put i.instrument_id (holding_row i quantity basis) b.holdings;
  protections = if is_zero quantity then erase i.instrument_id b.protections else b.protections;
}

unfoldable pub filled_order : Fill → OrderRow → OrderRow
filled_order f o = record o {
  filled_quantity = add (is_exact f) o.filled_quantity f.quantity;
  reserved = reserve_after f o;
  status = if is_zero (remaining_after f o) then Status.filled else Status.partial;
}

abbrev pub fill_row : Fill → Trade → FillRow
fill_row f t = record {
  fill = f;
  cash_delta = t.delta;
  realized = t.realized;
  notional = base_notional f;
}

-- The rows that a trade changes, up to the journal.
unfoldable pub write_trade : Fill → OrderRow → Trade → Book → Book
write_trade f o t b =
    let exact = is_exact f in
    let b1 = write_holding o.intent.instrument t.quantity t.basis b in
    record b1 {
      cash = add exact b.cash t.delta;
      realized = add exact b.realized t.realized;
      fees = add exact b.fees f.fee;
      orders = insert f.intent_id (filled_order f o) b.orders;
      fills = insert f.fill_id (fill_row f t) b.fills;
    }

-- `economic_payload`: the basis that leaves with a debit in kind.
unfoldable pub fee_basis : InventoryFee → Decimal → Decimal → Ledger Decimal
fee_basis fee quantity basis = do
  raise_if (ltb_ℤ quantity fee.quantity || leb_ℤ quantity (pos 0)) fee_exceeds_quantity
  ok (removed_basis fee.quantity quantity basis)

-- `require_source`
unfoldable pub require_source : InventoryFee → Timestamp → Book → Ledger (Unit {0})
require_source fee observed b = do
  raise_if (ltb observed fee.available_at) fee_unavailable
  raise_if (wrong_base_rate fee.instrument fee.fx_rate b) base_fx_rate

abbrev pub sells : Instrument → OrderRow → Bool
sells i o = elim o.intent.side [
  | Side.sell ↦ same Instrument-discrete o.intent.instrument i
  | Side.buy ↦ false
]

abbrev pub remaining_to_sell : Instrument → List OrderRow → List Decimal
remaining_to_sell i [] = []
remaining_to_sell i (o ∷ rows) =
    let rest = remaining_to_sell i rows in if sells i o then remaining o ∷ rest else rest

unfoldable pub write_fee : Fill → InventoryFee → Decimal → Decimal → Decimal → Book → Book
write_fee f fee left basis removed b =
    let b1 =
      write_holding fee.instrument left (exact_decimal_sum (basis ∷ copy_negate removed ∷ [])) b in
    record b1 {
      fees = exact_decimal_sum (b.fees ∷ base_value fee ∷ []);
      realized = exact_decimal_sum (b.realized ∷ copy_negate removed ∷ []);
    }

-- The row of the asset that is debited.
unfoldable pub owned_row : InventoryFee → Book → Ledger HoldingRow
owned_row fee b = do
  h ← or_raise (lookup fee.instrument.instrument_id b.holdings) fee_not_owned
  raise_if (changed_identity (some h) fee.instrument) fee_not_owned
  ok h

abbrev pub quantity_left : InventoryFee → HoldingRow → Decimal
quantity_left fee h = exact_decimal_sum (h.quantity ∷ copy_negate fee.quantity ∷ [])

unfoldable pub check_reserved : InventoryFee → HoldingRow → Book → Ledger (Unit {0})
check_reserved fee h b =
    raise_if
      (ltb_ℤ (quantity_left fee h)
        (exact_decimal_sum (remaining_to_sell fee.instrument (pending_orders b))))
      fee_conflicts_reserved

unfoldable pub apply_fee : Fill → Timestamp → InventoryFee → Book → Ledger Book
apply_fee f observed fee b = do
  require_source fee observed b
  h ← owned_row fee b
  removed ← fee_basis fee h.quantity h.basis
  check_reserved fee h b
  write_journal (fee_key f.fill_id fee.instrument.instrument_id) f.executed_at
      (Entry.inventory_fee (record { fill = f; fee = fee; removed_basis = removed })) (pos 0)
      (write_fee f fee (quantity_left fee h) h.basis removed b)

unfoldable pub apply_fees : Fill → Timestamp → List InventoryFee → Book → Ledger Book
apply_fees f observed [] b = ok b
apply_fees f observed (fee ∷ rest) b = do
  b1 ← apply_fee f observed fee b
  apply_fees f observed rest b1

-- The fill's effects once it has been received and the clock moved.
unfoldable pub book_trade : Fill → OrderRow → Book → Ledger Book
book_trade f o b = do
  let row = lookup o.intent.instrument.instrument_id b.holdings
  raise_if (changed_identity row o.intent.instrument) instrument_changed
  let t = trade o.intent.side f (quantity_of row) (basis_of row)
  check_trade o.intent.side f o (quantity_of row) t b
  write_journal (fill_key f.fill_id) f.executed_at (Entry.fill f) t.delta (write_trade f o t b)

unfoldable pub book_fill : Fill → Option Timestamp → Book → Ledger (Bool × Book)
book_fill f observed b = do
  o ← get_order f.intent_id b
  check_fill f o b
  (booked, b1) ← receive f observed b
  b2 ← clock booked b1
  b3 ← book_trade f o b2
  b4 ← apply_fees f booked f.inventory_fees b3
  ok (true, b4)

unfoldable pub apply_fill : Fill → Option Timestamp → Book → Ledger (Bool × Book)
apply_fill f observed b = elim (lookup f.fill_id b.fills) [
  | some old ↦ if same Fill-discrete old.fill f then ok (false, b) else err fill_reused
  | none ↦ book_fill f observed b
]
