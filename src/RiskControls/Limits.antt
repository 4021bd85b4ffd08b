-- ===== src/RiskControls/Limits.antt =====
-- The limits that an order which passes src/execution/risk_controls.py keeps.
use agentic_quant.Prelude.Int.{pos, ◌≤ℤ◌, ◌<ℤ◌, ltb_ℤ, leb_ℤ, int_laws}
use agentic_quant.Prelude.{
  false, ◌≡◌, refl, ap, ◌∙◌, some, List, [], arith, inl, inr, Bool-cases, ==-refl, if◌then◌else◌,
}
use agentic_quant.Prelude.Dict.{Dict, lookup, lookup-put}
use agentic_quant.Decimal.{Decimal, one, plus, minus, times}
use agentic_quant.Domain.Common.{Instrument, is_crypto}
use agentic_quant.Domain.Orders.{OrderIntent, Side}
use agentic_quant.Ledger.State.{OrderRow, PortfolioSnapshot}
use agentic_quant.RiskControls.Projected.{
  total, resting_buys, resting_sells, resting_worth, bought_worth, held_units, held_worth, named,
  projection-reserved_buys, projection-reserved_sells, projection-pending_value,
  projection-exposures, projection-identities, mark_of-units,
}
use agentic_quant.RiskControls.{
  projected_value, floor_zero, zero_or, InstrumentRisk, RiskPolicy, Check, Projection, projection,
  order_value, held_quantity, mark_of, final_exposures, check_sale, nav_after_fee, projected_nav,
  cap, cash_left, check_side, turnover_after, evaluate_order,
}
use agentic_quant.RiskControls.Passed.{
  fail_if-none, not_above, check_buy-none, check_all-none, known_meta, checked,
}

-- The value of the order, at the reference price.
abbrev pub asked : OrderIntent → Decimal
asked i = times (times i.quantity i.reference_price) i.fx_rate

abbrev pub weight : RiskPolicy → Instrument → Decimal
weight policy i = if is_crypto i then policy.crypto_weight else policy.equity_weight

-- The limits that a purchase keeps among the resting orders `rows`: the cash that stays after the
-- reservations of other purchases, the order and its fee; the drawdown; the exposure to the
-- instrument with what is held, what other purchases still buy and the order; the order's share of
-- the daily volume; and the day's turnover with all resting orders and this one.
pub record WithinLimits (policy : RiskPolicy) (i : OrderIntent) (s : PortfolioSnapshot)
    (rows : List OrderRow) (m : InstrumentRisk) : Type 0 where
  pub solvent : pos 0 <ℤ minus s.nav i.estimated_fee
  pub cash :
      times policy.min_cash (minus s.nav i.estimated_fee)
      ≤ℤ minus
          (minus (minus s.cash (total (pos 0) (resting_buys i rows))) (asked i))
          i.estimated_fee
  pub drawdown : times s.high_water_mark (minus one policy.max_drawdown) <ℤ s.nav
  pub exposure :
      plus
        (total (held_worth i.instrument.instrument_id (pos 0) s.positions) (bought_worth i rows))
        (asked i)
      ≤ℤ times (minus s.nav i.estimated_fee) (weight policy (named i i.instrument rows))
  pub participation : asked i <ℤ times m.adv_base policy.max_adv_participation
  pub turnover :
      plus (plus s.turnover_today (total (pos 0) (resting_worth i rows))) (asked i)
      ≤ℤ times policy.max_daily_turnover s.nav

floor_zero_above : (d : Decimal) → d ≤ℤ floor_zero d
floor_zero_above d = elim (Bool-cases (ltb_ℤ (pos 0) d)) [
  | inl positive ↦ rw positive (omega int_laws)
  | inr short ↦ rw short (ground (arith, short))
]

below_floor : (d limit : Decimal) → floor_zero d ≤ℤ limit → d ≤ℤ limit
below_floor d limit h = let a = floor_zero_above d in omega (int_laws, a, h)

nav_after :
    (i : OrderIntent) (s : PortfolioSnapshot)
    → leb_ℤ (nav_after_fee i s) (pos 0) ≡ false
    → (projected_nav i s ≡ minus s.nav i.estimated_fee) × (pos 0 <ℤ minus s.nav i.estimated_fee)
unfolding projected_nav nav_after_fee
nav_after i s h = (rw h refl, ground (arith, h))

projected_buy :
    (i : OrderIntent) (s : PortfolioSnapshot) (p : Projection)
    → i.side ≡ Side.buy
    → projected_value i s p
      ≡ plus (zero_or (lookup i.instrument.instrument_id p.exposures)) (asked i)
unfolding projected_value order_value
projected_buy i s p is_buy = rw (is_buy, projected_value) refl

-- The exposure to the order's own instrument.
own_exposure :
    (i : OrderIntent) (s : PortfolioSnapshot) (rows : List OrderRow)
    → i.side ≡ Side.buy
    → lookup i.instrument.instrument_id (final_exposures i s (projection i s rows))
      ≡ some (
          floor_zero (
            plus
              (total
                (held_worth i.instrument.instrument_id (pos 0) s.positions)
                (bought_worth i rows))
              (asked i)))
unfolding final_exposures
own_exposure i s rows is_buy =
    let e =
      projected_buy i s (projection i s rows) is_buy
      ∙ ap (λ (x : Decimal). plus x (asked i)) (projection-exposures i s rows) in
    rw (lookup-put, ==-refl i.instrument.instrument_id)
      (ap (λ (x : Decimal). some (floor_zero x)) e)

-- A purchase that passes has metadata for its instrument and is within the limits.
pub evaluate_order_buy :
    (i : OrderIntent) (s : PortfolioSnapshot) (pending : List OrderRow)
    (metas : Dict InstrumentRisk) (policy : RiskPolicy)
    → i.side ≡ Side.buy
    → evaluate_order i s pending metas policy ≡ []
    → (m : InstrumentRisk) × (lookup i.instrument.instrument_id metas ≡ some m)
      × WithinLimits policy i s pending m
unfolding check_side cash_left order_value turnover_after cap
evaluate_order_buy i s pending metas policy is_buy h =
    let p = projection i s pending in
    let (fs, side, before_side, turn) =
      check_all-none policy i s p metas (checked i s pending metas policy h) in
    let (none_before, cash, draw, below) =
      check_buy-none policy i s p metas fs (rw (is_buy, check_side) at side) in
    let (first, fee_paid) = before_side none_before in
    let (m, found, none_first, part) = known_meta policy i s _ _ first in
    let (nav, solvent) = nav_after i s fee_paid in
    let own = below i.instrument.instrument_id _ (own_exposure i s pending is_buy) in
    (
      m,
      found,
      record {
        solvent = solvent;
        cash = rw (nav, projection-reserved_buys i s pending) at cash;
        drawdown = draw;
        exposure =
            below_floor
              (plus
                (total (held_worth i.instrument.instrument_id (pos 0) s.positions)
                  (bought_worth i pending))
                (asked i))
              (times (minus s.nav i.estimated_fee) (weight policy (named i i.instrument pending)))
              (rw (nav, projection-identities i s pending) at own);
        participation = part;
        turnover = rw (projection-pending_value i s pending) at turn;
      },
    )

-- A sale that passes is of no more than the units that are held less those that other sales of the
-- same instrument are still to deliver.
pub evaluate_order_sell :
    (i : OrderIntent) (s : PortfolioSnapshot) (pending : List OrderRow)
    (metas : Dict InstrumentRisk) (policy : RiskPolicy)
    → i.side ≡ Side.sell
    → evaluate_order i s pending metas policy ≡ []
    → i.quantity
      ≤ℤ minus
          (held_units i.instrument.instrument_id (pos 0) s.positions)
          (total (pos 0) (resting_sells i pending))
unfolding check_side check_sale
evaluate_order_sell i s pending metas policy is_sale h =
    let p = projection i s pending in
    let (fs, side, before_side, turn) =
      check_all-none policy i s p metas (checked i s pending metas policy h) in
    let (m, found, none_first, part) =
      known_meta policy i s _ _ (before_side (rw (is_sale, check_side) at side)).0 in
    let unreserved =
      minus (held_quantity (mark_of i.instrument.instrument_id s.positions)) p.reserved_sells in
    rw
      (
        ← mark_of-units i.instrument.instrument_id s.positions,
        ← projection-reserved_sells i s pending,
      )
      (not_above i.quantity unreserved
        (fail_if-none (ltb_ℤ unreserved i.quantity) Check.sufficient_shares []
          (rw (is_sale, check_sale) at none_first)).0)
