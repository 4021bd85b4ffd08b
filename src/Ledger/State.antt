-- ===== src/Ledger/State.antt =====
-- src/execution/ledger.py: the tables, and the helpers that every operation uses.
--
-- A book holds the rows of one account, whose id stands in the primary key of every table and in
-- the condition of every query. A table is a list of rows, and a payload is the contract itself in
-- place of its JSON. A method runs in one `atomic` block: it returns the new book, or it raises and
-- the book stays as it was.
pub mod Effects
use agentic_quant.Prelude.Int.{pos, ◌≤ℤ◌, eqb_ℤ}
use agentic_quant.Prelude.{
  ℕ, ◌≤◌, ◌≡◌, Bool, true, false, not, ◌&&◌, ◌||◌, Option, none, some, List, [], ◌∷◌, ◌++◌, map,
  ltb, leb, ◌==◌, if◌then◌else◌, same, arith, ℕ_discrete,
}
use agentic_quant.Prelude.Result.{Result, ok, err, ◌>>=◌, ◌>>◌, raise_if, or_raise}
use agentic_quant.Prelude.Dict.{Dict, lookup}
use agentic_quant.Decimal.{Decimal, one, copy_negate, exact_decimal_sum}
use agentic_quant.Domain.Common.{Text, Timestamp, Instrument, Instrument-discrete}
use agentic_quant.Domain.Orders.{
  AccountSpec, AccountSpec-discrete, OrderIntent, OrderIntent-discrete, AccountFee,
  AccountFee-discrete,
}
use agentic_quant.Domain.Fills.{Fill, Fill-discrete, InventoryFee, InventoryFee-discrete, PriceMark}
use agentic_quant.Domain.Bars.{
  ExecutionBar, ExecutionBar-discrete, OpeningEvent, OpeningEvent-discrete, CorporateAction,
  CorporateAction-discrete,
}
use agentic_quant.Stops.{StopObservation, StopObservation-discrete}

-- The messages of `LedgerError`, the database's refusal of a second row with one key, a missing key
-- of a dictionary, and a contract that fails its own validation.
pub data LedgerError : Type 0 where
  account_conflict intent_reused base_fx_rate insufficient_cash insufficient_holdings : LedgerError
  unknown_order backwards event_conflict published_nav fill_reused fill_exceeds : LedgerError
  outside_interval violates_limit receipt_before_execution chronology instrument_changed :
      LedgerError
  would_borrow would_short sell_fees fee_changed fee_currency fee_exceeds_cash : LedgerError
  fee_published missing_mark stale_mark cannot_value_past rewrite_nav integrity : LedgerError
  fee_exceeds_quantity fee_unavailable fee_not_owned fee_conflicts_reserved : LedgerError
  fee_coverage action_cash not_monetary fill_differs fee_differs source_differs : LedgerError
  account_mismatch fee_understated risk_rejected live_account opening_conflict : LedgerError
  missing_metadata order_identity bar_changed opening_differs : LedgerError
  stop_source stop_inputs stop_differs live_stop unauthentic_fill not_elected : LedgerError
  stop_orphan stop_unproved key_error invalid_contract : LedgerError

abbrev pub Ledger {ℓ} : Type ℓ → Type ℓ
Ledger A = Result LedgerError A

pub data Status : Type 0 where
  pending partial filled cancelled rejected : Status

pub record OrderRow : Type 0 where
  pub intent : OrderIntent
  pub status : Status
  pub filled_quantity : Decimal
  pub reserved : Decimal
  pub reason : Option Text

pub record HoldingRow : Type 0 where
  pub definition : Instrument
  pub quantity : Decimal
  pub basis : Decimal

pub record FillRow : Type 0 where
  pub fill : Fill
  pub cash_delta : Decimal
  pub realized : Decimal
  pub notional : Decimal

-- The payload of an inventory fee's journal row; the fill stands for its hash.
pub record FeePayload : Type 0 where
  pub fill : Fill
  pub fee : InventoryFee
  pub removed_basis : Decimal

-- The column `kind` with the payload that goes with it.
pub data Entry : Type 0 where
  deposit : AccountSpec → Entry
  order : OrderIntent → Entry
  cancel : Bool → Text → Entry
  fill : Fill → Entry
  inventory_fee : FeePayload → Entry
  account_fee : AccountFee → Entry
  action : CorporateAction → Entry

-- The column `id` of the journal.
pub data Key : Type 0 where
  initial : Key
  order_key cancel_key fill_key account_fee_key action_key : Text → Key
  fee_key : Text → Text → Key

unfoldable pub Key-discrete : Discrete Key
Key-discrete = hlevel ℕ_discrete

pub record JournalRow : Type 0 where
  pub key : Key
  pub at : Timestamp
  pub entry : Entry
  pub cash_delta : Decimal

-- The rows of the table `events`; the constructor stands for the prefix of the id, and a stop's
-- intent and observation for their hashes.
pub data Event : Type 0 where
  action_event : CorporateAction → Event
  receipt_event : Fill → Timestamp → Event
  opening_event : OpeningEvent → Event
  open_bar close_bar : ExecutionBar → Event
  stop_policy : OrderIntent → Event
  stop_event : OrderIntent → StopObservation → Event

unfoldable pub Event-discrete : Discrete Event
Event-discrete = hlevel (
  ℕ_discrete, CorporateAction-discrete, Fill-discrete, OpeningEvent-discrete, ExecutionBar-discrete,
  OrderIntent-discrete, StopObservation-discrete,
)

pub data EventKey : Type 0 where
  action_id receipt_id opening_id open_id close_id stop_policy_id : Text → EventKey
  stop_id : OrderIntent → StopObservation → EventKey

unfoldable pub EventKey-discrete : Discrete EventKey
EventKey-discrete = hlevel (ℕ_discrete, OrderIntent-discrete, StopObservation-discrete)

abbrev pub event_key : Event → EventKey
event_key (action_event a) = action_id a.action_id
event_key (receipt_event f at) = receipt_id f.fill_id
event_key (opening_event e) = opening_id e.event_id
event_key (open_bar b) = open_id b.event_id
event_key (close_bar b) = close_id b.event_id
event_key (stop_policy i) = stop_policy_id i.intent_id
event_key (stop_event i o) = stop_id i o

pub record Holding : Type 0 where
  pub instrument : Instrument
  pub quantity : Decimal
  pub cost_basis : Decimal
  pub market_value : Decimal
  pub price : Decimal
  pub fx_rate : Decimal
  pub marked_at : Timestamp
  pub opened_at : Option Timestamp

unfoldable pub Holding-discrete : Discrete Holding
Holding-discrete = hlevel (ℕ_discrete, Instrument-discrete)

pub record PortfolioSnapshot : Type 0 where
  pub account_id : Text
  pub as_of : Timestamp
  pub cash : Decimal
  pub reserved_cash : Decimal
  pub nav : Decimal
  pub high_water_mark : Decimal
  pub realized_pnl : Decimal
  pub fees : Decimal
  pub turnover_today : Decimal
  pub positions : List Holding

unfoldable pub PortfolioSnapshot-discrete : Discrete PortfolioSnapshot
PortfolioSnapshot-discrete = hlevel (ℕ_discrete, Holding-discrete)

pub record Book : Type 0 where
  pub spec : AccountSpec
  pub cash : Decimal
  pub realized : Decimal
  pub fees : Decimal
  pub peak : Decimal
  pub last_at : Timestamp
  pub holdings : Dict HoldingRow
  pub orders : Dict OrderRow
  pub fills : Dict FillRow
  pub marks : Dict PriceMark
  pub journal : List JournalRow
  pub snapshots : Dict PortfolioSnapshot
  pub events : List Event
  pub protections : Dict Text

-- `_clock`
unfoldable pub clock : Timestamp → Book → Ledger Book
clock at b = if ltb at b.last_at then err backwards else ok (record b { last_at = at })

unfoldable pub journal_at : Key → List JournalRow → Option JournalRow
journal_at k [] = none
journal_at k (r ∷ rows) = if same Key-discrete r.key k then some r else journal_at k rows

abbrev pub journal_row : Key → Timestamp → Entry → Decimal → JournalRow
journal_row key at entry delta = record { key = key; at = at; entry = entry; cash_delta = delta }

-- `_journal`: the insertion is refused if the id is taken.
unfoldable pub write_journal : Key → Timestamp → Entry → Decimal → Book → Ledger Book
write_journal key at entry delta b = elim (journal_at key b.journal) [
  | some r ↦ err integrity
  | none ↦ ok (record b { journal = b.journal ++ journal_row key at entry delta ∷ [] })
]

unfoldable pub event_at : EventKey → List Event → Option Event
event_at k [] = none
event_at k (e ∷ events) =
    if same EventKey-discrete (event_key e) k then some e else event_at k events

-- `record_event`: whether the event is new.
unfoldable pub record_event : Event → Book → Ledger (Bool × Book)
record_event e b = elim (event_at (event_key e) b.events) [
  | some old ↦ if same Event-discrete old e then ok (false, b) else err event_conflict
  | none ↦ ok (true, record b { events = b.events ++ e ∷ [] })
]

abbrev pub is_open : Status → Bool
is_open Status.pending = true
is_open Status.partial = true
is_open _ = false

-- The field `remaining` of what `order` returns.
unfoldable pub remaining : OrderRow → Decimal
remaining o = exact_decimal_sum (o.intent.quantity ∷ copy_negate o.filled_quantity ∷ [])

-- The method `order`.
unfoldable pub get_order : Text → Book → Ledger OrderRow
get_order id b = or_raise (lookup id b.orders) unknown_order

unfoldable pub open_orders : Dict OrderRow → List OrderRow
open_orders [] = []
open_orders ((id, o) ∷ rows) =
    let rest = open_orders rows in if is_open o.status then o ∷ rest else rest

-- The method `pending`.
unfoldable pub pending_orders : Book → List OrderRow
pending_orders b = open_orders b.orders

unfoldable pub reservations : Book → List Decimal
reservations b = map (λ o. copy_negate (OrderRow.reserved o)) (pending_orders b)

unfoldable pub available_cash : Book → Decimal
available_cash b = exact_decimal_sum (b.cash ∷ reservations b)

-- The method `quantity`.
unfoldable pub held_quantity : Text → Book → Decimal
held_quantity id b = elim (lookup id b.holdings) [ none ↦ pos 0 | some h ↦ h.quantity ]

-- `quote_currency == base_currency and fx_rate != 1`
abbrev pub wrong_base_rate : Instrument → Decimal → Book → Bool
wrong_base_rate i fx b = i.quote_currency == b.spec.base_currency && not (eqb_ℤ fx one)

abbrev any_from : Timestamp → Dict PortfolioSnapshot → Bool
any_from at [] = false
any_from at ((t, s) ∷ rows) = leb at t || any_from at rows

-- `_require_unpublished`, where no sleeve table exists.
unfoldable pub require_unpublished : Timestamp → LedgerError → Book → Ledger (Unit {0})
require_unpublished at e b = raise_if (any_from at b.snapshots) e
