-- ===== src/Ledger/Reconcile.antt =====
-- src/execution/ledger.py: `reconcile`, which replays the journal and compares the result with the
-- stored cash, positions, realized profit and fees; src/execution/inventory_fees.py:
-- `verify_payload`.
pub mod Tables
pub mod Sound
pub mod Trades
pub mod Fees
pub mod Operations
pub mod Filled
pub mod Acted
pub mod Reach
pub mod Growth
pub mod Steps
pub mod Explained
use agentic_quant.Prelude.Int.{pos, eqb_ℤ, ltb_ℤ}
use agentic_quant.Prelude.{
  ℕ, Bool, true, false, not, ◌&&◌, ◌||◌, Option, none, some, List, [], ◌∷◌, ◌++◌, ◌==◌, ◌≡◌, leb,
  if◌then◌else◌, same, ℕ_discrete,
}
use agentic_quant.Prelude.Result.{Result, ok, err, ◌>>=◌, ◌>>◌, guard, raise_if, or_raise}
use agentic_quant.Prelude.Dict.{Dict, lookup, put}
use agentic_quant.Decimal.{Decimal, plus, minus, times, copy_negate, exact_decimal_sum}
use agentic_quant.FillArithmetic.{add}
use agentic_quant.Domain.Common.{Text, Timestamp, Instrument, Instrument-discrete}
use agentic_quant.Domain.Orders.{Side, AccountSpec, AccountFee, OrderIntent}
use agentic_quant.Domain.Fills.{
  Fill, Fill-discrete, InventoryFee, InventoryFee-discrete, is_exact, base_notional, base_value,
}
use agentic_quant.Domain.Bars.{ActionKind, CorporateAction}
use agentic_quant.Ledger.State.{
  LedgerError, unknown_order, fee_coverage, action_cash, not_monetary, fill_differs, fee_differs,
  source_differs, instrument_changed, Ledger, OrderRow, HoldingRow, FillRow, FeePayload, Entry, Key,
  Key-discrete, fee_key, JournalRow, Book, Event, receipt_id, event_at,
}
use agentic_quant.Ledger.Fills.{Trade, trade, fee_basis, require_source}

-- A quantity and its basis; a key that is not there stands for two zeros.
pub record Position : Type 0 where
  pub quantity : Decimal
  pub basis : Decimal

abbrev pub flat : Position
flat = record { quantity = pos 0; basis = pos 0 }

abbrev pub or_flat : Option Position → Position
or_flat none = flat
or_flat (some p) = p

-- The variables of the loop. The keys of the fees that the last fill announced stand in
-- `pending_fees`, in order.
pub record Replay : Type 0 where
  pub cash : Decimal
  pub realized : Decimal
  pub fees : Decimal
  pub positions : Dict Position
  pub instruments : Dict Instrument
  pub pending_fees : List Key

abbrev pub start : Replay
start = record {
  cash = pos 0;
  realized = pos 0;
  fees = pos 0;
  positions = [];
  instruments = [];
  pending_fees = [];
}

abbrev pub position_at : Text → Replay → Position
position_at id s = or_flat (lookup id s.positions)

abbrev is_zero : Decimal → Bool
is_zero a = eqb_ℤ a (pos 0)

abbrev known_as : Option Instrument → Instrument → Bool
known_as none i = true
known_as (some j) i = same Instrument-discrete j i

abbrev announced : Fill → List InventoryFee → List Key
announced f [] = []
announced f (fee ∷ rest) = fee_key f.fill_id fee.instrument.instrument_id ∷ announced f rest

abbrev pub intent_of : Option OrderRow → Option OrderIntent
intent_of none = none
intent_of (some o) = some o.intent

-- `self.order(account, id)["intent"]`
abbrev pub intent_at : Text → Dict OrderRow → Option OrderIntent
intent_at id orders = intent_of (lookup id orders)

abbrev pub no_cash : JournalRow → Ledger (Unit {0})
no_cash r = guard (is_zero r.cash_delta) not_monetary

abbrev pub none_pending : Replay → Ledger (Unit {0})
none_pending s = guard (elim s.pending_fees [ [] ↦ true | _ ∷ _ ↦ false ]) fee_coverage

unfoldable pub replay_account_fee : AccountFee → JournalRow → Replay → Ledger Replay
replay_account_fee fee r s = do
  guard (eqb_ℤ r.cash_delta (copy_negate fee.amount)) source_differs
  ok (record s {
    cash = plus s.cash r.cash_delta;
    realized = minus s.realized fee.amount;
    fees = plus s.fees fee.amount;
  })

-- Cash from an action belongs to a position; without one there must be none.
unfoldable pub action_receipt : JournalRow → Decimal → Replay → Ledger Decimal
action_receipt r quantity s =
    if is_zero quantity
    then (if is_zero r.cash_delta then ok s.cash else err action_cash)
    else ok (plus s.cash r.cash_delta)

unfoldable pub replay_action : CorporateAction → JournalRow → Replay → Ledger Replay
replay_action a r s =
    let id = a.instrument.instrument_id in
    let p = position_at id s in
    elim a.kind [
      | ActionKind.split ↦ do
        no_cash r
        ok (record s {
          positions = put id (record p { quantity = times p.quantity a.value }) s.positions;
        })
      | ActionKind.dividend ↦ do
        cash ← action_receipt r p.quantity s
        ok (record s { cash = cash; realized = plus s.realized (times p.quantity a.value) })
      | ActionKind.delist ↦ do
        cash ← action_receipt r p.quantity s
        ok (record s {
          cash = cash;
          realized = plus s.realized (minus (times p.quantity a.value) p.basis);
          positions = put id flat s.positions;
        })
    ]

-- The trade that a fill implies at the position replayed so far.
abbrev pub replayed_trade : OrderIntent → Fill → Replay → Trade
replayed_trade i f s =
    let p = position_at i.instrument.instrument_id s in trade i.side f p.quantity p.basis

abbrev pub after_trade : OrderIntent → Fill → JournalRow → Trade → Replay → Replay
after_trade i f r t s =
    let id = i.instrument.instrument_id in
    record {
      cash = add (is_exact f) s.cash r.cash_delta;
      realized = add (is_exact f) s.realized t.realized;
      fees = add (is_exact f) s.fees f.fee;
      positions = put id (record { quantity = t.quantity; basis = t.basis }) s.positions;
      instruments = put id i.instrument s.instruments;
      pending_fees = announced f f.inventory_fees;
    }

abbrev pub is_next : List Key → Key → Bool
is_next [] k = false
is_next (j ∷ js) k = same Key-discrete j k

abbrev pub rest_of : List Key → List Key
rest_of [] = []
rest_of (k ∷ ks) = ks

abbrev pub known_exactly : Option Instrument → Instrument → Bool
known_exactly none i = false
known_exactly (some j) i = same Instrument-discrete j i

-- The row is that of the next fee that is due.
abbrev pub is_due : FeePayload → JournalRow → Replay → Bool
is_due p r s =
    same Key-discrete r.key (fee_key p.fill.fill_id p.fee.instrument.instrument_id)
    && is_next s.pending_fees r.key
    && r.at == p.fill.executed_at
    && is_zero r.cash_delta

abbrev pub after_fee : FeePayload → Replay → Replay
after_fee p s =
    let id = p.fee.instrument.instrument_id in
    let q = position_at id s in
    record s {
      realized = exact_decimal_sum (s.realized ∷ copy_negate p.removed_basis ∷ []);
      fees = exact_decimal_sum (s.fees ∷ base_value p.fee ∷ []);
      positions =
          put id
            (record {
              quantity = exact_decimal_sum (q.quantity ∷ copy_negate p.fee.quantity ∷ []);
              basis = exact_decimal_sum (q.basis ∷ copy_negate p.removed_basis ∷ []);
            })
            s.positions;
      pending_fees = rest_of s.pending_fees;
    }

abbrev pub member : InventoryFee → List InventoryFee → Bool
member fee [] = false
member fee (other ∷ rest) = same InventoryFee-discrete other fee || member fee rest

-- Of `verify_payload`, what is compared by value.
unfoldable pub same_economics : Dict FillRow → FeePayload → Position → Ledger (Unit {0})
same_economics fills p position = do
  row ← or_raise (lookup p.fill.fill_id fills) fee_differs
  guard (same Fill-discrete row.fill p.fill && member p.fee p.fill.inventory_fees) fee_differs
  removed ← fee_basis p.fee position.quantity position.basis
  guard (eqb_ℤ removed p.removed_basis) fee_differs

-- The time at which a fill was received, if its receipt is in order.
unfoldable pub receipt_time : Fill → List Event → Ledger Timestamp
receipt_time f events = elim (event_at (receipt_id f.fill_id) events) [
  | none ↦ ok f.executed_at
  | some (Event.receipt_event g at) ↦
      guard (same Fill-discrete g f && leb f.executed_at at) fee_differs >> ok at
  | some _ ↦ err fee_differs
]

-- `verify_payload`. The code compares the texts of the removed basis, in the payload and as it is
-- computed now. A value has no text, and equal values may be written with different numbers of
-- zeros, so whether the texts agree is a parameter.
unfoldable pub verify_payload :
    (FeePayload → Position → Bool) → Book → FeePayload → Position → Ledger (Unit {0})
verify_payload spelled_alike b p position = do
  same_economics b.fills p position
  guard (p.fill.account_id == b.spec.account_id && spelled_alike p position) fee_differs
  observed ← receipt_time p.fill b.events
  require_source p.fee observed b

-- The tables that the replay reads beside the journal.
module _ (orders : Dict OrderRow) (fills : Dict FillRow) where
  -- The stored fill agrees with the one in the journal and with the movement that it implies.
  unfoldable pub check_stored : Fill → JournalRow → Trade → Ledger (Unit {0})
  check_stored f r t = elim (lookup f.fill_id fills) [
    | none ↦ err fill_differs
    | some row ↦
        guard
          (r.at == f.executed_at
            && eqb_ℤ r.cash_delta t.delta
            && same Fill-discrete row.fill f
            && eqb_ℤ row.cash_delta t.delta
            && eqb_ℤ row.realized t.realized
            && eqb_ℤ row.notional (base_notional f))
          fill_differs
  ]

  unfoldable pub replay_trade : OrderIntent → Fill → JournalRow → Replay → Ledger Replay
  replay_trade i f r s = do
    guard (known_as (lookup i.instrument.instrument_id s.instruments) i.instrument)
        instrument_changed
    check_stored f r (replayed_trade i f s)
    ok (after_trade i f r (replayed_trade i f s) s)

  unfoldable pub replay_fill : Fill → JournalRow → Replay → Ledger Replay
  replay_fill f r s = do
    i ← or_raise (intent_at f.intent_id orders) unknown_order
    replay_trade i f r s

-- The loop, with what verifies the payload of a fee.
module _ (orders : Dict OrderRow) (fills : Dict FillRow)
    (verify : FeePayload → Position → Ledger (Unit {0})) where
  unfoldable pub replay_inventory_fee : FeePayload → JournalRow → Replay → Ledger Replay
  replay_inventory_fee p r s = do
    verify p (position_at p.fee.instrument.instrument_id s)
    guard (known_exactly (lookup p.fee.instrument.instrument_id s.instruments) p.fee.instrument)
        instrument_changed
    guard (is_due p r s) fee_differs
    ok (after_fee p s)

  unfoldable pub replay_at : Entry → JournalRow → Replay → Ledger Replay
  replay_at (Entry.deposit spec) r s =
      none_pending s >> ok (record s { cash = plus s.cash r.cash_delta })
  replay_at (Entry.order i) r s = none_pending s >> (no_cash r >> ok s)
  replay_at (Entry.cancel rejected reason) r s = none_pending s >> (no_cash r >> ok s)
  replay_at (Entry.fill f) r s = none_pending s >> replay_fill orders fills f r s
  replay_at (Entry.inventory_fee p) r s = replay_inventory_fee p r s
  replay_at (Entry.account_fee fee) r s = none_pending s >> replay_account_fee fee r s
  replay_at (Entry.action a) r s = none_pending s >> replay_action a r s

  -- One row of the loop.
  unfoldable pub replay_row : JournalRow → Replay → Ledger Replay
  replay_row r s = replay_at r.entry r s

  unfoldable pub replay_from : List JournalRow → Replay → Ledger Replay
  replay_from [] s = ok s
  replay_from (r ∷ rows) s = do s1 ← replay_row r s; replay_from rows s1

-- The position that a stored row and a replayed one stand for: a flat one is not there.
abbrev pub stored_position : Option HoldingRow → Option Position
stored_position none = none
stored_position (some h) = some (record { quantity = h.quantity; basis = h.basis })

abbrev pub open_position : Option Position → Option Position
open_position none = none
open_position (some p) = if is_zero p.quantity then none else some p

-- What the end of `reconcile` compares. Both sides of `stored == expected` are dictionaries, which
-- are equal if they have the same value at every key.
pub record Agrees (s : Replay) (b : Book) : Type 0 where
  pub cash : s.cash ≡ b.cash
  pub realized : s.realized ≡ b.realized
  pub fees : s.fees ≡ b.fees
  pub positions :
      (id : Text) → open_position (lookup id s.positions) ≡ stored_position (lookup id b.holdings)
  pub covered : s.pending_fees ≡ []

-- The replay of the journal raises nothing, whether or not the texts of fees agree as
-- `spelled_alike` says, and its result agrees with the book. The checks of the projections, the
-- withheld taxes and the stop histories that `reconcile` also makes are not part of it.
pub Reconciles : (FeePayload → Position → Bool) → Book → Type 0
Reconciles spelled_alike b =
    (s : Replay) × (replay_from b.orders b.fills (verify_payload spelled_alike b) b.journal start
      ≡ ok s)
    × Agrees s b
