-- ===== src/Tests/Routing.antt =====
-- A target of a tenth of the value in one instrument, from cash alone.
use agentic_quant.Prelude.Int.{pos, ◌+ℤ◌, ◌-ℤ◌}
use agentic_quant.Prelude.{◌≡◌, refl, none, [], ◌∷◌, ◌*◌, ◌+◌, ◌/◌, same, ℕ_discrete}
use agentic_quant.Prelude.Lists.{AllOf}
use agentic_quant.Prelude.Result.{ok}
use agentic_quant.Prelude.Dict.{Dict, lookup, put}
use agentic_quant.Decimal.{unit, round, magnitude, context, plus, minus, times, divide, copy_negate}
use agentic_quant.Domain.Common.{Text, Instrument-discrete, AssetClass-discrete}
use agentic_quant.Domain.Orders.{OrderIntent, Side, OrderType, Tif, valid_order}
use agentic_quant.Domain.Fills.{PriceMark}
use agentic_quant.Ledger.State.{PortfolioSnapshot}
use agentic_quant.RiskControls.{InstrumentRisk}
use agentic_quant.Simulator.{FillPolicy, policy_fee, whole}
use agentic_quant.Routing.{
  PortfolioTarget, held_of, weights_of, targeted, with_held, keys_of, order_price, desired_quantity,
  preserved, affordable_quantity, order_quantity, insert_intent, sort_intents, sized_intent,
  size_delta, size_key, size_keys, target_to_intents,
}
use agentic_quant.Routing.Sized.{Sized, SalesFirst, target_to_intents-Sized}
use agentic_quant.Tests.Samples.{master}

abbrev intent_name : Text → Text → Text
intent_name target id = target * 1_000 + id

abbrev target : PortfolioTarget
target = record {
  target_id = 3;
  decision_at = 120;
  strategy_id = 1;
  weights = record { instrument = master 7; weight = pos (unit / 10) } ∷ [];
  preserve_quantities = [];
}

abbrev portfolio : PortfolioSnapshot
portfolio = record {
  account_id = 1;
  as_of = 120;
  cash = pos (1_000 * unit);
  reserved_cash = pos 0;
  nav = pos (1_000 * unit);
  high_water_mark = pos (1_000 * unit);
  realized_pnl = pos 0;
  fees = pos 0;
  turnover_today = pos 0;
  positions = [];
}

abbrev marks : Dict PriceMark
marks =
    (7, record { instrument = master 7; price = pos (20 * unit); fx_rate = pos unit; as_of = 110 })
    ∷ []

abbrev metadata : Dict InstrumentRisk
metadata =
    (
      7,
      record {
        instrument = master 7;
        sector = 3;
        adv_base = pos (1_000_000 * unit);
        as_of = 105;
        lot_size = pos unit;
        min_notional = pos 0;
      },
    )
    ∷ []

abbrev policy : FillPolicy
policy = record {
  equity_cost_bps = pos 0;
  crypto_cost_bps = pos 0;
  slippage_bps = pos 0;
  commission_per_unit = pos 0;
  minimum_commission = pos unit;
  opening_participation = pos (unit / 100);
}

-- The commission leaves 99 of the 100, which buy 4 units at 20.
sized : OrderIntent
sized = record {
  intent_id = 3_007;
  account_id = 1;
  run_id = 3;
  instrument = master 7;
  side = Side.buy;
  quantity = pos (4 * unit);
  decision_at = 120;
  eligible_at = 121;
  reference_price = pos (20 * unit);
  fx_rate = pos unit;
  estimated_fee = pos unit;
  strategy_id = 1;
  order_type = OrderType.market;
  limit_price = none;
  stop_price = none;
  trail_price = none;
  trail_percent = none;
  tif = Tif.gtc;
  expires_at = none;
}

sizing_runs :
    target_to_intents intent_name target portfolio marks metadata policy 1_000 ≡ ok (sized ∷ [])
unfolding target_to_intents size_keys size_key size_delta sized_intent sort_intents insert_intent
    order_quantity affordable_quantity preserved desired_quantity order_price keys_of with_held
    targeted weights_of held_of valid_order policy_fee whole sized lookup put plus minus times
    divide copy_negate round magnitude context ◌+ℤ◌ ◌-ℤ◌ same Instrument-discrete
    AssetClass-discrete ℕ_discrete
sizing_runs = refl

target_to_intents-Sized_example :
    (portfolio.as_of ≡ target.decision_at)
    × (portfolio.reserved_cash ≡ pos 0)
    × AllOf (Sized target portfolio) (sized ∷ [])
    × SalesFirst (sized ∷ [])
target_to_intents-Sized_example =
    target_to_intents-Sized intent_name target portfolio marks metadata policy 1_000 (sized ∷ [])
      sizing_runs
