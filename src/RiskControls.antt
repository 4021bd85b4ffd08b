-- ===== src/RiskControls.antt =====
-- src/execution/risk_controls.py: `evaluate_order`, with the policy and the metadata of
-- src/domain/portfolio.py that it reads. The details of a failure are not modelled, only its name.
pub mod Projected
pub mod Passed
pub mod Limits
use agentic_quant.Prelude.Int.{pos, ltb_ℤ, leb_ℤ, eqb_ℤ}
use agentic_quant.Prelude.{
  ℕ, ◌%◌, ◌-◌, Bool, true, false, not, ◌&&◌, ◌||◌, Option, none, some, List, [], ◌∷◌, ◌++◌, ltb,
  leb, ◌==◌, if◌then◌else◌, same,
}
use agentic_quant.Prelude.Dict.{Dict, lookup, put}
use agentic_quant.Decimal.{Decimal, one, magnitude, plus, minus, times, divide}
use agentic_quant.Domain.Common.{Text, Timestamp, Instrument, Instrument-discrete, is_crypto}
use agentic_quant.Domain.Orders.{OrderIntent, Side}
use agentic_quant.Ledger.State.{OrderRow, Holding, PortfolioSnapshot, remaining}

pub record InstrumentRisk : Type 0 where
  pub instrument : Instrument
  pub sector : Text
  pub adv_base : Decimal
  pub as_of : Timestamp
  pub lot_size : Decimal
  pub min_notional : Decimal

pub record RiskPolicy : Type 0 where
  pub equity_weight : Decimal
  pub crypto_weight : Decimal
  pub sector_weight : Decimal
  pub crypto_total : Decimal
  pub min_cash : Decimal
  pub min_adv : Decimal
  pub max_adv_participation : Decimal
  pub max_drawdown : Decimal
  pub max_daily_turnover : Decimal
  pub max_price_age : Timestamp
  pub max_liquidity_age : Timestamp

pub data Check : Type 0 where
  state sufficient_shares liquidity identity market_impact lot_size min_notional cash_buffer : Check
  drawdown_cb position_size sector crypto_total daily_turnover : Check

-- `fail`, under its test: the latest failure stands first, and a name that fails twice twice.
abbrev pub fail_if : Bool → Check → List Check → List Check
fail_if test c fs = if test then c ∷ fs else fs

-- A clock that is neither ahead nor too old, in microseconds.
abbrev pub is_current : Timestamp → Timestamp → Timestamp → Bool
is_current at as_of max_age = leb as_of at && leb (at - as_of) max_age

abbrev pub zero_or : Option Decimal → Decimal
zero_or none = pos 0
zero_or (some d) = d

-- The dictionaries `marks`, `exposures` and `identities`, in which a later position replaces an
-- earlier one.
unfoldable pub marks : List Holding → Dict Holding → Dict Holding
marks [] acc = acc
marks (h ∷ hs) acc = marks hs (put h.instrument.instrument_id h acc)

abbrev pub mark_of : Text → List Holding → Option Holding
mark_of id positions = lookup id (marks positions [])

unfoldable pub held_values : List Holding → Dict Decimal → Dict Decimal
held_values [] acc = acc
held_values (h ∷ hs) acc = held_values hs (put h.instrument.instrument_id h.market_value acc)

unfoldable pub held_identities : List Holding → Dict Instrument → Dict Instrument
held_identities [] acc = acc
held_identities (h ∷ hs) acc = held_identities hs (put h.instrument.instrument_id h.instrument acc)

-- The variables that the loop over the resting orders changes.
pub record Projection : Type 0 where
  pub exposures : Dict Decimal
  pub identities : Dict Instrument
  pub pending_value : Decimal
  pub reserved_buys : Decimal
  pub reserved_sells : Decimal

unfoldable pub resting_value : OrderRow → Decimal
resting_value o = times (times (remaining o) o.intent.reference_price) o.intent.fx_rate

unfoldable pub project_buy : OrderRow → Projection → Projection
project_buy o p =
    let id = o.intent.instrument.instrument_id in
    record p {
      exposures = put id (plus (zero_or (lookup id p.exposures)) (resting_value o)) p.exposures;
      reserved_buys = plus p.reserved_buys o.reserved;
    }

unfoldable pub project_sell : Text → OrderRow → Projection → Projection
project_sell key o p =
    if o.intent.instrument.instrument_id == key
    then record p { reserved_sells = plus p.reserved_sells (remaining o) }
    else p

unfoldable pub project_order : OrderIntent → OrderRow → Projection → Projection
project_order i o p =
    if o.intent.intent_id == i.intent_id
    then p
    else (let q = record p {
      identities = put o.intent.instrument.instrument_id o.intent.instrument p.identities;
      pending_value = plus p.pending_value (resting_value o);
    } in
        elim o.intent.side [
          | Side.buy ↦ project_buy o q
          | Side.sell ↦ project_sell i.instrument.instrument_id o q
        ])

unfoldable pub project_orders : OrderIntent → List OrderRow → Projection → Projection
project_orders i [] p = p
project_orders i (o ∷ rows) p = project_orders i rows (project_order i o p)

unfoldable pub projection : OrderIntent → PortfolioSnapshot → List OrderRow → Projection
projection i s pending = project_orders i pending (record {
  exposures = held_values s.positions [];
  identities = put i.instrument.instrument_id i.instrument (held_identities s.positions []);
  pending_value = pos 0;
  reserved_buys = pos 0;
  reserved_sells = pos 0;
})

unfoldable pub order_value : OrderIntent → Decimal
order_value i = times (times i.quantity i.reference_price) i.fx_rate

abbrev pub held_quantity : Option Holding → Decimal
held_quantity none = pos 0
held_quantity (some h) = h.quantity

-- What a sale takes from the exposure, at the held mark.
unfoldable pub sold_value : OrderIntent → Option Holding → Decimal
sold_value i none = order_value i
sold_value i (some h) =
    if eqb_ℤ h.quantity (pos 0)
    then order_value i
    else divide (times h.market_value i.quantity) h.quantity

unfoldable pub projected_value : OrderIntent → PortfolioSnapshot → Projection → Decimal
projected_value i s p =
    let current = zero_or (lookup i.instrument.instrument_id p.exposures) in
    elim i.side [
      | Side.buy ↦ plus current (order_value i)
      | Side.sell ↦ minus current (sold_value i (mark_of i.instrument.instrument_id s.positions))
    ]

-- `max(D(0), projected_value)`
abbrev pub floor_zero : Decimal → Decimal
floor_zero d = if ltb_ℤ (pos 0) d then d else pos 0

unfoldable pub final_exposures : OrderIntent → PortfolioSnapshot → Projection → Dict Decimal
final_exposures i s p =
    put i.instrument.instrument_id (floor_zero (projected_value i s p)) p.exposures

unfoldable pub check_sale : OrderIntent → PortfolioSnapshot → Projection → List Check → List Check
check_sale i s p fs = elim i.side [
  | Side.buy ↦ fs
  | Side.sell ↦
      fail_if
        (ltb_ℤ
          (minus (held_quantity (mark_of i.instrument.instrument_id s.positions)) p.reserved_sells)
          i.quantity)
        sufficient_shares fs
]

-- `quantity % lot_size` is not zero.
abbrev breaks_lot : Decimal → Decimal → Bool
breaks_lot quantity lot = not (magnitude quantity % magnitude lot == 0)

unfoldable pub check_known :
    RiskPolicy → OrderIntent → PortfolioSnapshot → InstrumentRisk → List Check → List Check
check_known policy i s m fs =
    let value = order_value i in
    let fs1 = fail_if (not (is_current s.as_of m.as_of policy.max_liquidity_age)) liquidity fs in
    let fs2 = fail_if (not (same Instrument-discrete m.instrument i.instrument)) identity fs1 in
    let fs3 = fail_if (ltb_ℤ m.adv_base policy.min_adv) liquidity fs2 in
    let fs4 =
      fail_if (leb_ℤ (times m.adv_base policy.max_adv_participation) value) market_impact fs3 in
    let fs5 = fail_if (breaks_lot i.quantity m.lot_size) lot_size fs4 in
    fail_if (ltb_ℤ value m.min_notional) min_notional fs5

unfoldable pub check_liquidity :
    RiskPolicy → OrderIntent → PortfolioSnapshot → Option InstrumentRisk → List Check → List Check
check_liquidity policy i s none fs = fail_if true liquidity fs
check_liquidity policy i s (some m) fs = check_known policy i s m fs

unfoldable pub nav_after_fee : OrderIntent → PortfolioSnapshot → Decimal
nav_after_fee i s = minus s.nav i.estimated_fee

-- Fees that exhaust the value do not lower it.
unfoldable pub projected_nav : OrderIntent → PortfolioSnapshot → Decimal
projected_nav i s = if leb_ℤ (nav_after_fee i s) (pos 0) then s.nav else nav_after_fee i s

-- Every exposure has an identity.
unfoldable pub cap : RiskPolicy → Option Instrument → Decimal
cap policy none = policy.equity_weight
cap policy (some i) = if is_crypto i then policy.crypto_weight else policy.equity_weight

unfoldable pub check_positions :
    RiskPolicy → Decimal → Dict Instrument → Dict Decimal → List Check → List Check
check_positions policy nav ids [] fs = fs
check_positions policy nav ids ((k, exposure) ∷ rows) fs =
    check_positions policy nav ids rows
      (fail_if (ltb_ℤ (times nav (cap policy (lookup k ids))) exposure) position_size fs)

abbrev mismatch : RiskPolicy → PortfolioSnapshot → InstrumentRisk → Option Instrument → Bool
mismatch policy s m none = true
mismatch policy s m (some i) =
    not (same Instrument-discrete m.instrument i)
    || not (is_current s.as_of m.as_of policy.max_liquidity_age)

-- `sectors`, `crypto` and the failures.
pub record Sectors : Type 0 where
  pub totals : Dict Decimal
  pub crypto : Decimal
  pub failures : List Check

abbrev is_crypto_id : Option Instrument → Bool
is_crypto_id none = false
is_crypto_id (some i) = is_crypto i

unfoldable pub add_sector :
    RiskPolicy
    → PortfolioSnapshot
    → Decimal
    → Option Instrument
    → Option InstrumentRisk
    → Sectors
    → Sectors
add_sector policy s exposure id none t = record t { failures = fail_if true sector t.failures }
add_sector policy s exposure id (some m) t = record {
  totals = put m.sector (plus (zero_or (lookup m.sector t.totals)) exposure) t.totals;
  crypto = if is_crypto_id id then plus t.crypto exposure else t.crypto;
  failures = fail_if (mismatch policy s m id) sector t.failures;
}

unfoldable pub sector_totals :
    RiskPolicy
    → PortfolioSnapshot
    → Dict Instrument
    → Dict InstrumentRisk
    → Dict Decimal
    → Sectors
    → Sectors
sector_totals policy s ids metas [] t = t
sector_totals policy s ids metas ((k, exposure) ∷ rows) t = sector_totals policy s ids metas rows (
    if eqb_ℤ exposure (pos 0)
    then t
    else add_sector policy s exposure (lookup k ids) (lookup k metas) t)

unfoldable pub any_above : Decimal → Dict Decimal → Bool
any_above limit [] = false
any_above limit ((k, v) ∷ rows) = ltb_ℤ limit v || any_above limit rows

unfoldable pub check_sectors :
    RiskPolicy
    → PortfolioSnapshot
    → Decimal
    → Dict Instrument
    → Dict InstrumentRisk
    → Dict Decimal
    → List Check
    → List Check
check_sectors policy s nav ids metas exposures fs =
    let t =
      sector_totals policy s ids metas exposures
        (record { totals = []; crypto = pos 0; failures = fs }) in
    let fs1 = fail_if (any_above (times policy.sector_weight nav) t.totals) sector t.failures in
    fail_if (ltb_ℤ (times policy.crypto_total nav) t.crypto) crypto_total fs1

unfoldable pub cash_left : OrderIntent → PortfolioSnapshot → Projection → Decimal
cash_left i s p = minus (minus (minus s.cash p.reserved_buys) (order_value i)) i.estimated_fee

unfoldable pub check_buy :
    RiskPolicy
    → OrderIntent
    → PortfolioSnapshot
    → Projection
    → Dict InstrumentRisk
    → List Check
    → List Check
check_buy policy i s p metas fs =
    let nav = projected_nav i s in
    let exposures = final_exposures i s p in
    let fs1 = fail_if (ltb_ℤ (cash_left i s p) (times policy.min_cash nav)) cash_buffer fs in
    let fs2 =
      fail_if (leb_ℤ s.nav (times s.high_water_mark (minus one policy.max_drawdown))) drawdown_cb
        fs1 in
    check_sectors policy s nav p.identities metas exposures
      (check_positions policy nav p.identities exposures fs2)

unfoldable pub check_side :
    RiskPolicy
    → OrderIntent
    → PortfolioSnapshot
    → Projection
    → Dict InstrumentRisk
    → List Check
    → List Check
check_side policy i s p metas fs = elim i.side [
  | Side.buy ↦ check_buy policy i s p metas fs
  | Side.sell ↦ fs
]

unfoldable pub turnover_after : OrderIntent → PortfolioSnapshot → Projection → Decimal
turnover_after i s p = plus (plus s.turnover_today p.pending_value) (order_value i)

unfoldable pub invalid_state : OrderIntent → PortfolioSnapshot → Bool
invalid_state i s =
    leb_ℤ s.nav (pos 0) || not (s.account_id == i.account_id) || ltb s.as_of i.decision_at

unfoldable pub check_all :
    RiskPolicy → OrderIntent → PortfolioSnapshot → Projection → Dict InstrumentRisk → List Check
check_all policy i s p metas =
    let fs1 = check_sale i s p [] in
    let fs2 = check_liquidity policy i s (lookup i.instrument.instrument_id metas) fs1 in
    let fs3 = fail_if (leb_ℤ (nav_after_fee i s) (pos 0)) cash_buffer fs2 in
    let fs4 = check_side policy i s p metas fs3 in
    fail_if (ltb_ℤ (times policy.max_daily_turnover s.nav) (turnover_after i s p)) daily_turnover
      fs4

-- The failures; the order passes if there is none.
unfoldable pub evaluate_order :
    OrderIntent → PortfolioSnapshot → List OrderRow → Dict InstrumentRisk → RiskPolicy → List Check
evaluate_order i s pending metas policy =
    if invalid_state i s then state ∷ [] else check_all policy i s (projection i s pending) metas
