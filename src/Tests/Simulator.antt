-- ===== src/Tests/Simulator.antt =====
-- A paper account: a purchase is submitted and partly filled at an observed open.
use agentic_quant.Ledger.Reconcile.Explained.{Plain}
use agentic_quant.Ledger.Reconcile.{Position}
use agentic_quant.Ledger.State.{FeePayload}
use agentic_quant.Ledger.Snapshot.{valid_snapshot, valid_holding}
use agentic_quant.Prelude.{Bool, false}
use agentic_quant.Prelude.Int.{pos, ◌+ℤ◌, ◌-ℤ◌}
use agentic_quant.Prelude.{
  true, ◌≡◌, refl, none, some, List, [], ◌∷◌, ◌*◌, ◌+◌, ◌/◌, same, ℕ_discrete,
}
use agentic_quant.Prelude.Result.{ok, err}
use agentic_quant.Prelude.Dict.{Dict, lookup, insert, put}
use agentic_quant.Decimal.{
  unit, Fits, round, magnitude, context, plus, minus, times, divide, exact_decimal_sum, copy_negate,
}
use agentic_quant.FillArithmetic.{add, subtract, negate}
use agentic_quant.Domain.Common.{Text, Instrument-discrete, AssetClass-discrete}
use agentic_quant.Domain.Orders.{OrderIntent, valid_order}
use agentic_quant.Domain.Fills.{Fill, valid_inventory_fee, valid_fill, base_notional}
use agentic_quant.Domain.Bars.{OpeningEvent, valid_opening}
use agentic_quant.Ledger.State.{
  Ledger, LedgerError, Status, OrderRow, Key-discrete, EventKey-discrete, Book, clock, journal_at,
  write_journal, event_at, record_event, get_order, remaining, open_orders, pending_orders,
  reservations, available_cash, require_unpublished,
}
use agentic_quant.Ledger.Orders.{
  cancel, cancel_open, new_account, order_cost, reservation, submit_new, submit, insert_mark,
  sort_marks, mark_one, mark_all, mark,
}
use agentic_quant.Ledger.Fills.{
  check_fill, receive, buy_trade, trade, remaining_after, reserve_after, other_reservations,
  check_trade, write_holding, filled_order, write_trade, apply_fees, book_trade, book_fill,
  apply_fill,
}
use agentic_quant.Ledger.Snapshot.{
  value_holdings, sum_values, turnover, net_asset_value, new_peak, build_snapshot, snapshot,
}
use agentic_quant.Ledger.Reconcile.{Reconciles}
use agentic_quant.Ledger.Reconcile.Reach.{Steps}
use agentic_quant.RiskControls.{
  InstrumentRisk, Check, marks, held_values, held_identities, project_buy, project_sell,
  project_order, resting_value, project_orders, projection, order_value, sold_value,
  projected_value, final_exposures, check_sale, check_known, check_liquidity, nav_after_fee,
  projected_nav, cap, check_positions, add_sector, sector_totals, any_above, check_sectors,
  cash_left, check_buy, check_side, turnover_after, invalid_state, check_all, evaluate_order,
}
use agentic_quant.Stops.{StopObservation}
use agentic_quant.Simulator.{
  expire_due, expire_orders, PaperExecution, policy_fee, check_risk, submit_checked, paper_submit,
  whole,
}
use agentic_quant.Simulator.Opening.{
  Admission, slipped_price, filled_quantity, projected, opening_capacity, marketable, paper_fill,
  settle, end_immediate, fill_order, match_order, consider, consider_all, open_new, open_event,
}
use agentic_quant.Simulator.Runs.{PaperStep, PaperRun, PaperStep-Steps, PaperRun-Reconciles}
use agentic_quant.Prelude.Lists.{AllOf}
use agentic_quant.Simulator.Booked.{BookedAt, open_event_booked}
use agentic_quant.Simulator.Expiry.{DueClosed, expire_orders-DueClosed}
use agentic_quant.Tests.Samples.{master, account, purchase}

abbrev intent_hash : OrderIntent → Text
intent_hash i = i.intent_id

abbrev event_hash : OpeningEvent → Text
event_hash e = e.event_id

abbrev observation_hash : StopObservation → Text
observation_hash o = o.at

abbrev fill_name : Text → Text → Text
fill_name id event = id * 1_000 + event

abbrev risk_text : List Check → Text
risk_text failures = 4

abbrev error_text : LedgerError → Text
error_text failure = 5

abbrev execution : PaperExecution
execution = record {
  account_id = 1;
  policy = record {
    equity_cost_bps = pos 0;
    crypto_cost_bps = pos 0;
    slippage_bps = pos 0;
    commission_per_unit = pos 0;
    minimum_commission = pos unit;
    opening_participation = pos (unit / 100);
  };
  risk_policy = record {
    equity_weight = pos (unit / 2);
    crypto_weight = pos (unit / 20);
    sector_weight = pos (unit / 2);
    crypto_total = pos (unit / 5);
    min_cash = pos (unit / 20);
    min_adv = pos (1_000 * unit);
    max_adv_participation = pos (unit / 100);
    max_drawdown = pos (unit / 5);
    max_daily_turnover = pos (unit / 2);
    max_price_age = 1_000_000;
    max_liquidity_age = 1_000_000;
  };
}

abbrev metadata : Dict InstrumentRisk
metadata =
    (
      7,
      record {
        instrument = master 7;
        sector = 3;
        adv_base = pos (1_000_000 * unit);
        as_of = 105;
        lot_size = pos unit;
        min_notional = pos 0;
      },
    )
    ∷ []

abbrev admission : Admission
admission = record { metadata = metadata; eligible_intent_ids = none; intent_metadata = none }

abbrev print : OpeningEvent
print = record {
  event_id = 9;
  instrument = master 7;
  opened_at = 130;
  price = pos (20 * unit);
  opening_volume = pos (400 * unit);
  fx_rate = pos unit;
  calendar = 8;
  calendar_version = 1;
  session = 0;
  session_open = 130;
  session_close = 200;
  tradable = true;
}

abbrev result_book : {A : Type 0} → Book → Ledger (A × Book) → Book
result_book b (ok r) = r.1
result_book b (err e) = b

abbrev result_row : OrderRow → Ledger (OrderRow × Book) → OrderRow
result_row o (ok r) = r.0
result_row o (err e) = o

submitted_book : Book
submitted_book =
    result_book (new_account account)
      (paper_submit execution purchase metadata (new_account account))

abbrev purchase_row : OrderRow
purchase_row = record {
  intent = purchase;
  status = Status.pending;
  filled_quantity = pos 0;
  reserved = pos (201 * unit);
  reason = none;
}

submit_runs :
    paper_submit execution purchase metadata (new_account account)
    ≡ ok (purchase_row, submitted_book)
unfolding paper_submit valid_order submit_checked policy_fee check_risk snapshot value_holdings
    net_asset_value sum_values turnover new_peak build_snapshot valid_snapshot valid_holding
    submitted_book submit submit_new new_account clock lookup insert put reservation order_cost
    available_cash reservations pending_orders open_orders exact_decimal_sum plus minus times divide
    round magnitude context write_journal journal_at ◌+ℤ◌ ◌-ℤ◌ same Key-discrete Instrument-discrete
    AssetClass-discrete ℕ_discrete marks held_values held_identities project_buy project_sell
    project_order resting_value project_orders projection order_value sold_value projected_value
    final_exposures check_sale check_known check_liquidity nav_after_fee projected_nav cap
    check_positions add_sector sector_totals any_above check_sectors cash_left check_buy check_side
    turnover_after invalid_state check_all evaluate_order
submit_runs = refl

opened_book : Book
opened_book = result_book submitted_book (
    open_event intent_hash event_hash observation_hash fill_name risk_text error_text execution
      print admission submitted_book)

-- A hundredth of the opening's volume: 4 units at 20, for a fee of 1.
filled : Fill
filled = record {
  fill_id = 1_009;
  intent_id = 1;
  account_id = 1;
  quantity = pos (4 * unit);
  price = pos (20 * unit);
  fee = pos unit;
  fx_rate = pos unit;
  executed_at = 130;
  event_id = 9;
  settlement = none;
  inventory_fees = [];
}

open_runs :
    open_event intent_hash event_hash observation_hash fill_name risk_text error_text execution
      print admission submitted_book
    ≡ ok (filled ∷ [], opened_book)
unfolding opened_book filled open_event open_new consider_all consider match_order fill_order
    end_immediate settle paper_fill marketable opening_capacity projected filled_quantity
    slipped_price whole valid_opening valid_fill valid_inventory_fee record_event event_at
    EventKey-discrete mark mark_all mark_one sort_marks insert_mark paper_submit valid_order
    submit_checked policy_fee check_risk snapshot value_holdings net_asset_value sum_values turnover
    new_peak build_snapshot valid_snapshot valid_holding submitted_book submit submit_new
    new_account clock lookup insert put reservation order_cost available_cash reservations
    pending_orders open_orders exact_decimal_sum plus minus times divide round magnitude context
    write_journal journal_at ◌+ℤ◌ ◌-ℤ◌ same Key-discrete Instrument-discrete AssetClass-discrete
    ℕ_discrete marks held_values held_identities project_buy project_sell project_order
    resting_value project_orders projection order_value sold_value projected_value final_exposures
    check_sale check_known check_liquidity nav_after_fee projected_nav cap check_positions
    add_sector sector_totals any_above check_sectors cash_left check_buy check_side turnover_after
    invalid_state check_all evaluate_order apply_fill book_fill get_order remaining check_fill
    require_unpublished receive book_trade trade buy_trade add subtract negate base_notional
    remaining_after reserve_after other_reservations check_trade write_holding filled_order
    write_trade apply_fees copy_negate
open_runs = refl

first_step :
    PaperStep master intent_hash event_hash observation_hash fill_name risk_text error_text
      execution
      (new_account account)
      submitted_book
first_step = PaperStep.submitted purchase metadata refl submit_runs

second_step :
    PaperStep master intent_hash event_hash observation_hash fill_name risk_text error_text
      execution submitted_book opened_book
second_step = PaperStep.opened print admission open_runs

initial-Fits : Fits account.initial_cash
unfolding context round magnitude
initial-Fits = refl

abbrev never_alike : FeePayload → Position → Bool
never_alike p q = false

PaperRun-Reconciles_example : Reconciles never_alike opened_book
PaperRun-Reconciles_example =
    PaperRun-Reconciles master intent_hash event_hash observation_hash fill_name risk_text
      error_text never_alike execution account opened_book initial-Fits
      (PaperRun.next (PaperRun.next PaperRun.started first_step) second_step)

PaperStep-Steps_example : Steps master Plain submitted_book opened_book
PaperStep-Steps_example =
    PaperStep-Steps master intent_hash event_hash observation_hash fill_name risk_text error_text
      execution submitted_book opened_book second_step

open_event_booked_example : AllOf (BookedAt print opened_book) (filled ∷ [])
open_event_booked_example =
    open_event_booked intent_hash event_hash observation_hash fill_name risk_text error_text
      execution print admission (filled ∷ []) submitted_book opened_book open_runs

resting_book : Book
resting_book =
    result_book (new_account account)
      (submit (record purchase { expires_at = some 140 }) (new_account account))

expired_book : Book
expired_book = result_book resting_book (expire_orders 150 resting_book)

expiry_runs : expire_orders 150 resting_book ≡ ok (1 ∷ [], expired_book)
unfolding expired_book resting_book expire_orders expire_due cancel cancel_open submit submit_new
    new_account clock lookup insert reservation order_cost available_cash reservations
    pending_orders open_orders exact_decimal_sum plus times round magnitude context write_journal
    journal_at get_order copy_negate ◌+ℤ◌ ◌-ℤ◌ same Key-discrete
expiry_runs = refl

expire_orders-DueClosed_example : AllOf (DueClosed 150 expired_book) (pending_orders resting_book)
expire_orders-DueClosed_example =
    expire_orders-DueClosed 150 (1 ∷ []) resting_book expired_book expiry_runs
