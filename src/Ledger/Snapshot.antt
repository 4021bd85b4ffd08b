-- ===== src/Ledger/Snapshot.antt =====
-- src/execution/ledger.py: `snapshot`, the valuation of a book.
pub mod History
use agentic_quant.Prelude.Int.{pos, ltb_ℤ}
use agentic_quant.Prelude.{
  ◌-◌, Bool, true, false, not, ◌&&◌, Option, none, some, List, [], ◌∷◌, ltb, leb, ◌==◌, ◌≡◌,
  if◌then◌else◌, same,
}
use agentic_quant.Prelude.Result.{Result, ok, err, ◌>>=◌, ◌>>◌, guard, raise_if, or_raise}
use agentic_quant.Prelude.Dict.{Dict, lookup, put}
use agentic_quant.Decimal.{Decimal, plus, minus, times, is_positive, is_nonnegative}
use agentic_quant.Domain.Common.{Text, Timestamp, date_of}
use agentic_quant.Domain.Fills.{PriceMark}
use agentic_quant.Ledger.State.{
  LedgerError, missing_mark, stale_mark, cannot_value_past, rewrite_nav, invalid_contract, Ledger,
  HoldingRow, FillRow, Holding, PortfolioSnapshot, PortfolioSnapshot-discrete, Book, clock,
  available_cash,
}
use agentic_quant.Ledger.Actions.{position_opened_at}

-- `0 <= age <= max_age_seconds`, in microseconds.
abbrev is_fresh : Timestamp → Timestamp → Timestamp → Bool
is_fresh at as_of max_age = leb as_of at && leb (at - as_of) max_age

unfoldable pub market_value : HoldingRow → PriceMark → Decimal
market_value h m = times (times h.quantity m.price) m.fx_rate

-- The validator of a holding: no field is negative, and the price and the rate are positive.
unfoldable pub valid_holding : Holding → Bool
valid_holding h =
    is_nonnegative h.quantity
    && is_nonnegative h.cost_basis
    && is_nonnegative h.market_value
    && is_positive h.price
    && is_positive h.fx_rate

unfoldable pub value_holding : Timestamp → Timestamp → Text → HoldingRow → Book → Ledger Holding
value_holding at max_age id h b = do
  m ← or_raise (lookup id b.marks) missing_mark
  raise_if (not (is_fresh at m.as_of max_age)) stale_mark
  opened ← position_opened_at id b
  let p : Holding = record {
    instrument = m.instrument;
    quantity = h.quantity;
    cost_basis = h.basis;
    market_value = market_value h m;
    price = m.price;
    fx_rate = m.fx_rate;
    marked_at = m.as_of;
    opened_at = opened;
  }
  guard (valid_holding p) invalid_contract
  ok p

unfoldable pub value_holdings :
    Timestamp → Timestamp → Dict HoldingRow → Book → Ledger (List Holding)
value_holdings at max_age [] b = ok []
value_holdings at max_age ((id, h) ∷ rows) b = do
  p ← value_holding at max_age id h b
  ps ← value_holdings at max_age rows b
  ok (p ∷ ps)

-- `sum(…, ZERO)`, added up from the left.
unfoldable pub sum_values : Decimal → List Holding → Decimal
sum_values acc [] = acc
sum_values acc (p ∷ ps) = sum_values (plus acc p.market_value) ps

-- The notional of the fills of one day.
unfoldable pub turnover : Timestamp → Decimal → Dict FillRow → Decimal
turnover at acc [] = acc
turnover at acc ((id, f) ∷ rows) =
    turnover at (if date_of f.fill.executed_at == date_of at then plus acc f.notional else acc) rows

unfoldable pub net_asset_value : List Holding → Book → Decimal
net_asset_value positions b = plus b.cash (sum_values (pos 0) positions)

-- `max(peak, nav)`
unfoldable pub new_peak : Decimal → Decimal → Decimal
new_peak peak nav = if ltb_ℤ peak nav then nav else peak

unfoldable pub build_snapshot : Timestamp → List Holding → Book → PortfolioSnapshot
build_snapshot at positions b = record {
  account_id = b.spec.account_id;
  as_of = at;
  cash = b.cash;
  reserved_cash = minus b.cash (available_cash b);
  nav = net_asset_value positions b;
  high_water_mark = new_peak b.peak (net_asset_value positions b);
  realized_pnl = b.realized;
  fees = b.fees;
  turnover_today = turnover at (pos 0) b.fills;
  positions = positions;
}

-- The validator of a valuation.
unfoldable pub valid_snapshot : PortfolioSnapshot → Bool
valid_snapshot s =
    is_nonnegative s.cash
    && is_nonnegative s.reserved_cash
    && is_nonnegative s.nav
    && is_nonnegative s.high_water_mark
    && is_nonnegative s.fees
    && is_nonnegative s.turnover_today

-- A published observation is never replaced by another one.
abbrev pub conflicts : Option PortfolioSnapshot → PortfolioSnapshot → Bool
conflicts none snap = false
conflicts (some old) snap = not (same PortfolioSnapshot-discrete old snap)

abbrev pub keep_first : Timestamp → PortfolioSnapshot → Book → Book
keep_first at snap b = elim (lookup at b.snapshots) [
  | some old ↦ b
  | none ↦ record b { snapshots = put at snap b.snapshots }
]

unfoldable pub publish : Timestamp → PortfolioSnapshot → Book → Ledger Book
publish at snap b = do
  raise_if (conflicts (lookup at b.snapshots) snap) rewrite_nav
  b1 ← clock at b
  ok (keep_first at snap (record b1 { peak = snap.high_water_mark }))

unfoldable pub snapshot : Timestamp → Timestamp → Bool → Book → Ledger (PortfolioSnapshot × Book)
snapshot at max_age persist b = do
  raise_if (ltb at b.last_at) cannot_value_past
  positions ← value_holdings at max_age b.holdings b
  let snap = build_snapshot at positions b
  guard (valid_snapshot snap) invalid_contract
  b1 ← (if persist then publish at snap b else ok b)
  ok (snap, b1)
