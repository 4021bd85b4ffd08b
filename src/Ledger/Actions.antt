-- ===== src/Ledger/Actions.antt =====
-- src/execution/ledger.py: corporate actions, and the age of a position.
use agentic_quant.Prelude.Int.{pos, eqb_ℤ}
use agentic_quant.Prelude.{Bool, false, Option, none, some, List, [], ◌∷◌, ◌==◌, if◌then◌else◌}
use agentic_quant.Prelude.Result.{ok, ◌>>=◌, or_raise}
use agentic_quant.Prelude.Dict.{Dict, lookup, put, erase}
use agentic_quant.Decimal.{Decimal, plus, minus, times, divide, copy_negate, exact_decimal_sum}
use agentic_quant.FillArithmetic.{add, subtract}
use agentic_quant.Domain.Common.{Text, Timestamp}
use agentic_quant.Domain.Orders.{Side}
use agentic_quant.Domain.Fills.{PriceMark, Fill, is_exact}
use agentic_quant.Domain.Bars.{ActionKind, CorporateAction}
use agentic_quant.Ledger.State.{
  unknown_order, Ledger, OrderRow, HoldingRow, Entry, action_key, JournalRow, Event, Book, clock,
  write_journal, record_event, pending_orders,
}
use agentic_quant.Ledger.Orders.{cancel, mark}

-- The text `corporate action`.
abbrev pub corporate_action_reason : Text
corporate_action_reason = 1

unfoldable pub cancel_resting : CorporateAction → List OrderRow → Book → Ledger Book
cancel_resting a [] b = ok b
cancel_resting a (o ∷ rows) b = do
  b1 ←
      (if o.intent.instrument.instrument_id == a.instrument.instrument_id
        then cancel o.intent.intent_id a.effective_at corporate_action_reason false b
        else ok b)
  cancel_resting a rows b1

-- Old units are not executed after a split or a delisting.
unfoldable pub cancel_before : CorporateAction → Book → Ledger Book
cancel_before a b = elim a.kind [
  | ActionKind.dividend ↦ ok b
  | _ ↦ cancel_resting a (pending_orders b) b
]

abbrev remark : CorporateAction → Option PriceMark → Book → Ledger Book
remark a none b = ok b
remark a (some m) b =
    mark
      (record {
        instrument = m.instrument;
        price = divide m.price a.value;
        fx_rate = m.fx_rate;
        as_of = a.effective_at;
      }
        ∷ [])
      b

unfoldable pub split_holding : CorporateAction → HoldingRow → Book → Ledger (Decimal × Book)
split_holding a h b = do
  let id = a.instrument.instrument_id
  let b1 = record b {
    holdings = put id (record h { quantity = times h.quantity a.value }) b.holdings;
  }
  b2 ← remark a (lookup id b1.marks) b1
  ok (pos 0, record b2 { protections = erase id b2.protections })

abbrev pub pays : CorporateAction → HoldingRow → Decimal
pays a h = times h.quantity a.value

unfoldable pub pay_dividend : CorporateAction → HoldingRow → Book → Decimal × Book
pay_dividend a h b =
    (pays a h, record b { cash = plus b.cash (pays a h); realized = plus b.realized (pays a h) })

unfoldable pub pay_delisting : CorporateAction → HoldingRow → Book → Decimal × Book
pay_delisting a h b =
    let id = a.instrument.instrument_id in
    (
      pays a h,
      record b {
        cash = plus b.cash (pays a h);
        realized = plus b.realized (minus (pays a h) h.basis);
        holdings = erase id b.holdings;
        protections = erase id b.protections;
      },
    )

-- The cash that the action moves, and the book after it; without a position it moves none.
unfoldable pub act_on : CorporateAction → Option HoldingRow → Book → Ledger (Decimal × Book)
act_on a none b = ok (pos 0, b)
act_on a (some h) b = elim a.kind [
  | ActionKind.split ↦ split_holding a h b
  | ActionKind.dividend ↦ ok (pay_dividend a h b)
  | ActionKind.delist ↦ ok (pay_delisting a h b)
]

unfoldable pub act : CorporateAction → Book → Ledger Book
act a b = do
  b1 ← clock a.effective_at b
  b2 ← cancel_before a b1
  (delta, b3) ← act_on a (lookup a.instrument.instrument_id b2.holdings) b2
  write_journal (action_key a.action_id) a.effective_at (Entry.action a) delta b3

unfoldable pub corporate_action : CorporateAction → Book → Ledger Book
corporate_action a b = do
  (is_new, b1) ← record_event (Event.action_event a) b
  if is_new then act a b1 else ok b

-- The variables of `position_opened_at`: the quantity, and since when it has not been zero.
abbrev pub Age : Type 0
Age = Decimal × Option Timestamp

-- `if quantity == 0: opened_at = None`
abbrev reset_flat : Age → Age
reset_flat (q, opened) = if eqb_ℤ q (pos 0) then (q, none) else (q, opened)

abbrev age_fill : Side → Fill → Age → Age
age_fill Side.buy f (q, opened) =
    (add (is_exact f) q f.quantity, if eqb_ℤ q (pos 0) then some f.executed_at else opened)
age_fill Side.sell f (q, opened) = (subtract (is_exact f) q f.quantity, opened)

-- A dividend does not change a position, whatever its instrument.
abbrev age_action : CorporateAction → Bool → Age → Age
age_action a is_own (q, opened) = elim a.kind [
  | ActionKind.split ↦ if is_own then reset_flat (times q a.value, opened) else (q, opened)
  | ActionKind.delist ↦ if is_own then reset_flat (pos 0, opened) else (q, opened)
  | ActionKind.dividend ↦ reset_flat (q, opened)
]

-- One row of the journal, for the instrument `id`.
unfoldable pub age_step : Dict OrderRow → Text → Entry → Age → Ledger Age
age_step orders id (Entry.fill f) age = do
  o ← or_raise (lookup f.intent_id orders) unknown_order
  ok (
      if o.intent.instrument.instrument_id == id
      then reset_flat (age_fill o.intent.side f age)
      else age)
age_step orders id (Entry.action a) age = ok (age_action a (a.instrument.instrument_id == id) age)
age_step orders id (Entry.inventory_fee p) age =
    let (q, opened) = age in
    ok (
      reset_flat (
        if p.fee.instrument.instrument_id == id
        then (exact_decimal_sum (q ∷ copy_negate p.fee.quantity ∷ []), opened)
        else age))
age_step orders id _ age = ok (reset_flat age)

unfoldable pub age_of : Dict OrderRow → Text → List JournalRow → Age → Ledger Age
age_of orders id [] age = ok age
age_of orders id (r ∷ rows) age = do
  age1 ← age_step orders id r.entry age
  age_of orders id rows age1

unfoldable pub position_opened_at : Text → Book → Ledger (Option Timestamp)
position_opened_at id b = do (q, opened) ← age_of b.orders id b.journal (pos 0, none); ok opened
