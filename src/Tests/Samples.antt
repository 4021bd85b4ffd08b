-- ===== src/Tests/Samples.antt =====
-- An account, an instrument, and a purchase and a sale of it.
use agentic_quant.Prelude.Int.{pos}
use agentic_quant.Prelude.{none, [], ◌*◌}
use agentic_quant.Decimal.{unit}
use agentic_quant.Domain.Common.{Text, Instrument, AssetClass}
use agentic_quant.Domain.Orders.{AccountSpec, Mode, OrderIntent, Side, OrderType, Tif}
use agentic_quant.Domain.Fills.{Fill}

abbrev pub master : Text → Instrument
master id = record {
  instrument_id = id;
  symbol = id;
  asset_class = AssetClass.equity;
  quote_currency = 1;
  venue = none;
}

abbrev pub account : AccountSpec
account = record {
  account_id = 1;
  mode = Mode.paper;
  base_currency = 1;
  initial_cash = pos (1_000 * unit);
  opened_at = 100;
}

abbrev pub purchase : OrderIntent
purchase = record {
  intent_id = 1;
  account_id = 1;
  run_id = 1;
  instrument = master 7;
  side = Side.buy;
  quantity = pos (10 * unit);
  decision_at = 110;
  eligible_at = 120;
  reference_price = pos (20 * unit);
  fx_rate = pos unit;
  estimated_fee = pos unit;
  strategy_id = 1;
  order_type = OrderType.market;
  limit_price = none;
  stop_price = none;
  trail_price = none;
  trail_percent = none;
  tif = Tif.gtc;
  expires_at = none;
}

abbrev pub bought : Fill
bought = record {
  fill_id = 1;
  intent_id = 1;
  account_id = 1;
  quantity = pos (4 * unit);
  price = pos (21 * unit);
  fee = pos unit;
  fx_rate = pos unit;
  executed_at = 130;
  event_id = 1;
  settlement = none;
  inventory_fees = [];
}
