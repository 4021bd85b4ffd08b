-- ===== src/Tests/Controls.antt =====
-- Orders that the risk controls pass.
use agentic_quant.Prelude.Int.{pos, ◌≤ℤ◌, ◌+ℤ◌, ◌-ℤ◌}
use agentic_quant.Prelude.{◌≡◌, refl, none, some, [], ◌∷◌, ◌*◌, ◌/◌, same, ℕ_discrete}
use agentic_quant.Prelude.Dict.{lookup, insert, put}
use agentic_quant.Decimal.{unit, round, magnitude, context, plus, minus, times, divide}
use agentic_quant.Domain.Common.{Instrument-discrete, AssetClass-discrete}
use agentic_quant.Domain.Orders.{OrderIntent, Side}
use agentic_quant.Ledger.State.{Holding, PortfolioSnapshot}
use agentic_quant.RiskControls.{
  InstrumentRisk, RiskPolicy, marks, held_values, held_identities, project_buy, project_sell,
  project_order, resting_value, project_orders, projection, order_value, sold_value,
  projected_value, final_exposures, check_sale, check_known, check_liquidity, nav_after_fee,
  projected_nav, cap, check_positions, add_sector, sector_totals, any_above, check_sectors,
  cash_left, check_buy, check_side, turnover_after, invalid_state, check_all, evaluate_order,
}
use agentic_quant.RiskControls.Limits.{WithinLimits, evaluate_order_buy, evaluate_order_sell}
use agentic_quant.Prelude.{List}
use agentic_quant.Ledger.State.{OrderRow, Status, remaining}
use agentic_quant.Decimal.{exact_decimal_sum, copy_negate}
use agentic_quant.RiskControls.Projected.{total, held_units, resting_sells}
use agentic_quant.Tests.Samples.{master, purchase}

policy : RiskPolicy
policy = record {
  equity_weight = pos (unit / 2);
  crypto_weight = pos (unit / 20);
  sector_weight = pos (unit / 2);
  crypto_total = pos (unit / 5);
  min_cash = pos (unit / 20);
  min_adv = pos (1_000 * unit);
  max_adv_participation = pos (unit / 100);
  max_drawdown = pos (unit / 5);
  max_daily_turnover = pos (unit / 2);
  max_price_age = 1_000_000;
  max_liquidity_age = 1_000_000;
}

metadata : InstrumentRisk
metadata = record {
  instrument = master 7;
  sector = 3;
  adv_base = pos (1_000_000 * unit);
  as_of = 110;
  lot_size = pos unit;
  min_notional = pos 0;
}

holding : Holding
holding = record {
  instrument = master 7;
  quantity = pos (10 * unit);
  cost_basis = pos (150 * unit);
  market_value = pos (200 * unit);
  price = pos (20 * unit);
  fx_rate = pos unit;
  marked_at = 110;
  opened_at = none;
}

portfolio : PortfolioSnapshot
portfolio = record {
  account_id = 1;
  as_of = 120;
  cash = pos (800 * unit);
  reserved_cash = pos 0;
  nav = pos (1_000 * unit);
  high_water_mark = pos (1_000 * unit);
  realized_pnl = pos 0;
  fees = pos 0;
  turnover_today = pos 0;
  positions = holding ∷ [];
}

sale : OrderIntent
sale = record purchase {
  intent_id = 2;
  side = Side.sell;
  quantity = pos (4 * unit);
  estimated_fee = pos 0;
}

-- Another sale of the same instrument, and another purchase of it.
resting : List OrderRow
resting =
    record {
      intent = record purchase {
        intent_id = 3;
        side = Side.sell;
        quantity = pos (5 * unit);
        estimated_fee = pos 0;
      };
      status = Status.pending;
      filled_quantity = pos 0;
      reserved = pos 0;
      reason = none;
    }
    ∷ record {
      intent = record purchase { intent_id = 4; quantity = pos (2 * unit) };
      status = Status.pending;
      filled_quantity = pos 0;
      reserved = pos (41 * unit);
      reason = none;
    }
    ∷ []

buy_passes : evaluate_order purchase portfolio resting ((7, metadata) ∷ []) policy ≡ []
unfolding resting remaining exact_decimal_sum copy_negate policy metadata holding portfolio lookup
    put insert round magnitude context plus minus times divide same Instrument-discrete
    AssetClass-discrete ℕ_discrete marks held_values held_identities project_buy project_sell
    project_order resting_value project_orders projection order_value sold_value projected_value
    final_exposures check_sale check_known check_liquidity nav_after_fee projected_nav cap
    check_positions add_sector sector_totals any_above check_sectors cash_left check_buy check_side
    turnover_after invalid_state check_all evaluate_order ◌+ℤ◌ ◌-ℤ◌
buy_passes = refl

evaluate_order_buy_example :
    (m : InstrumentRisk) × (lookup 7 ((7, metadata) ∷ []) ≡ some m)
    × WithinLimits policy purchase portfolio resting m
evaluate_order_buy_example =
    evaluate_order_buy purchase portfolio resting ((7, metadata) ∷ []) policy refl buy_passes

sale_passes : evaluate_order sale portfolio resting ((7, metadata) ∷ []) policy ≡ []
unfolding resting remaining exact_decimal_sum copy_negate sale policy metadata holding portfolio
    lookup put insert round magnitude context plus minus times divide same Instrument-discrete
    AssetClass-discrete ℕ_discrete marks held_values held_identities project_buy project_sell
    project_order resting_value project_orders projection order_value sold_value projected_value
    final_exposures check_sale check_known check_liquidity nav_after_fee projected_nav cap
    check_positions add_sector sector_totals any_above check_sectors cash_left check_buy check_side
    turnover_after invalid_state check_all evaluate_order ◌+ℤ◌ ◌-ℤ◌
sale_passes = refl

sale_side : sale.side ≡ Side.sell
unfolding sale
sale_side = refl

evaluate_order_sell_example :
    sale.quantity
    ≤ℤ minus
        (held_units sale.instrument.instrument_id (pos 0) portfolio.positions)
        (total (pos 0) (resting_sells sale resting))
evaluate_order_sell_example =
    evaluate_order_sell sale portfolio resting ((7, metadata) ∷ []) policy sale_side sale_passes
