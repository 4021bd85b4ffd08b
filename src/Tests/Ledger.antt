-- ===== src/Tests/Ledger.antt =====
-- A run of the ledger: a purchase is submitted, partly filled, and the fill is delivered again.
use agentic_quant.Ledger.Fills.Cash.{reserved_by, book_trade-available_cash}
use agentic_quant.Ledger.Reconcile.Explained.{Plain, Run-Reconciles}
use agentic_quant.Ledger.Reconcile.{Position}
use agentic_quant.Ledger.State.{FeePayload, Status}
use agentic_quant.Ledger.Reconcile.Reach.{Steps}
use agentic_quant.Prelude.{Bool}
use agentic_quant.Prelude.Int.{pos, ◌<ℤ◌, ◌≤ℤ◌, ◌+ℤ◌, ◌-ℤ◌}
use agentic_quant.Prelude.{
  true, false, ◌≡◌, refl, none, some, [], ◌*◌, ◌≤◌, arith, same, ℕ_discrete,
}
use agentic_quant.Prelude.Result.{ok, err}
use agentic_quant.Prelude.Dict.{lookup, insert, put}
use agentic_quant.Decimal.{
  unit, Fits, round, magnitude, context, plus, minus, times, divide, exact_decimal_sum, copy_negate,
}
use agentic_quant.FillArithmetic.{add, subtract, negate}
use agentic_quant.Domain.Common.{Timestamp, Instrument-discrete, AssetClass-discrete}
use agentic_quant.Domain.Orders.{
  OrderIntent, OrderIntent-discrete, Side-discrete, OrderType-discrete, Tif-discrete, AccountFee,
}
use agentic_quant.Domain.Fills.{
  Fill, Fill-discrete, FillSettlement-discrete, InventoryFee-discrete, base_notional, is_exact,
}
use agentic_quant.Ledger.State.{
  Ledger, Status, OrderRow, HoldingRow, PortfolioSnapshot, Key-discrete, EventKey-discrete,
  event_at, record_event, account_fee_key, Book, intent_reused, fill_reused, clock, journal_at,
  write_journal, get_order, remaining, open_orders, pending_orders, reservations, available_cash,
  require_unpublished,
}
use agentic_quant.Ledger.Orders.{
  new_account, order_cost, reservation, submit_new, submit, cancel_open, cancel, book_fee,
  apply_account_fee,
}
use agentic_quant.Ledger.Orders.Retries.{submit_retry, submit_reused, cancel_again, book_fee_retry}
use agentic_quant.Ledger.Fills.{
  check_fill, receive, buy_trade, trade, remaining_after, reserve_after, other_reservations,
  check_trade, write_holding, filled_order, write_trade, apply_fees, book_trade, book_fill,
  apply_fill,
}
use agentic_quant.Ledger.Fills.Retries.{apply_fill_retry, apply_fill_reused}
use agentic_quant.Ledger.Fills.Bounds.{filled_order_balance}
use agentic_quant.Domain.Bars.{ActionKind, CorporateAction}
use agentic_quant.Ledger.Actions.{pay_dividend, cancel_before, act_on, act, corporate_action}
use agentic_quant.Ledger.Reconcile.Acted.Held.{Bookable}
use agentic_quant.Ledger.Snapshot.{build_snapshot, publish}
use agentic_quant.Ledger.Snapshot.History.{publish_keeps}
use agentic_quant.Ledger.Reconcile.{Reconciles}
use agentic_quant.Ledger.Reconcile.Reach.{Step, Run, Run-long_only}
use agentic_quant.Tests.Samples.{master, account, purchase, bought}

abbrev result_book : {A : Type 0} → Book → Ledger (A × Book) → Book
result_book b (ok r) = r.1
result_book b (err e) = b

book_only : Book → Ledger Book → Book
book_only b (ok r) = r
book_only b (err e) = b

abbrev purchase_row : OrderRow
purchase_row = record {
  intent = purchase;
  status = Status.pending;
  filled_quantity = pos 0;
  reserved = pos (201 * unit);
  reason = none;
}

submitted_book : Book
submitted_book = result_book (new_account account) (submit purchase (new_account account))

submit_runs : submit purchase (new_account account) ≡ ok (purchase_row, submitted_book)
unfolding submit submit_new new_account clock lookup insert reservation order_cost available_cash
    reservations pending_orders open_orders exact_decimal_sum plus times round magnitude context
    write_journal journal_at submitted_book ◌+ℤ◌ same Key-discrete
submit_runs = refl

filled_book : Book
filled_book = result_book submitted_book (apply_fill bought none submitted_book)

fill_runs : apply_fill bought none submitted_book ≡ ok (true, filled_book)
unfolding submitted_book submit submit_new new_account clock lookup insert put reservation
    order_cost available_cash reservations pending_orders open_orders exact_decimal_sum plus minus
    times divide round magnitude context write_journal journal_at ◌+ℤ◌ ◌-ℤ◌ apply_fill book_fill
    get_order remaining check_fill require_unpublished receive book_trade trade buy_trade add
    subtract negate base_notional remaining_after reserve_after other_reservations check_trade
    write_holding filled_order write_trade apply_fees copy_negate same Key-discrete filled_book
fill_runs = refl

-- The position and the cash after the fill: 4 units, for 84 and a fee of 1.
filled_cash : filled_book.cash ≡ pos (915 * unit)
unfolding submitted_book submit submit_new new_account clock lookup insert put reservation
    order_cost available_cash reservations pending_orders open_orders exact_decimal_sum plus minus
    times divide round magnitude context write_journal journal_at ◌+ℤ◌ ◌-ℤ◌ apply_fill book_fill
    get_order remaining check_fill require_unpublished receive book_trade trade buy_trade add
    subtract negate base_notional remaining_after reserve_after other_reservations check_trade
    write_holding filled_order write_trade apply_fees copy_negate same Key-discrete filled_book
filled_cash = refl

held_row : HoldingRow
held_row = record { definition = master 7; quantity = pos (4 * unit); basis = pos (85 * unit) }

filled_holding : lookup 7 filled_book.holdings ≡ some held_row
unfolding submitted_book submit submit_new new_account clock lookup insert put reservation
    order_cost available_cash reservations pending_orders open_orders exact_decimal_sum plus minus
    times divide round magnitude context write_journal journal_at ◌+ℤ◌ ◌-ℤ◌ apply_fill book_fill
    get_order remaining check_fill require_unpublished receive book_trade trade buy_trade add
    subtract negate base_notional remaining_after reserve_after other_reservations check_trade
    write_holding filled_order write_trade apply_fees copy_negate same Key-discrete filled_book
    held_row
filled_holding = refl

abbrev distribution : CorporateAction
distribution = record {
  action_id = 4;
  instrument = master 7;
  effective_at = 140;
  kind = ActionKind.dividend;
  value = pos (2 * unit);
  source_id = 1;
}

acted_book : Book
acted_book = book_only filled_book (corporate_action distribution filled_book)

action_runs : corporate_action distribution filled_book ≡ ok acted_book
unfolding acted_book corporate_action act act_on cancel_before pay_dividend record_event event_at
    EventKey-discrete submitted_book submit submit_new new_account clock lookup insert put
    reservation order_cost available_cash reservations pending_orders open_orders exact_decimal_sum
    plus minus times divide round magnitude context write_journal journal_at ◌+ℤ◌ ◌-ℤ◌ apply_fill
    book_fill get_order remaining check_fill require_unpublished receive book_trade trade buy_trade
    add subtract negate base_notional remaining_after reserve_after other_reservations check_trade
    write_holding filled_order write_trade apply_fees copy_negate same Key-discrete filled_book
    book_only
action_runs = refl

still_held : lookup 7 acted_book.holdings ≡ some held_row
unfolding acted_book corporate_action act act_on cancel_before pay_dividend record_event event_at
    EventKey-discrete submitted_book submit submit_new new_account clock lookup insert put
    reservation order_cost available_cash reservations pending_orders open_orders exact_decimal_sum
    plus minus times divide round magnitude context write_journal journal_at ◌+ℤ◌ ◌-ℤ◌ apply_fill
    book_fill get_order remaining check_fill require_unpublished receive book_trade trade buy_trade
    add subtract negate base_notional remaining_after reserve_after other_reservations check_trade
    write_holding filled_order write_trade apply_fees copy_negate same Key-discrete filled_book
    book_only held_row
still_held = refl

distribution-Bookable : Bookable distribution filled_book
distribution-Bookable = record {
  units = λ h found is_split. cc is_split;
  short = λ none_held. cc (none_held, filled_holding);
}

run : Run master Plain account acted_book
run =
    Run.next
      (Run.next (Run.next Run.opened (Step.submitted purchase refl submit_runs))
        (Step.filled bought none (omega arith) refl fill_runs))
      (Step.acted distribution distribution-Bookable action_runs)

initial-Fits : Fits account.initial_cash
unfolding context round magnitude
initial-Fits = refl

abbrev never_alike : FeePayload → Position → Bool
never_alike p q = false

Run-Reconciles_example : Reconciles never_alike acted_book
Run-Reconciles_example = Run-Reconciles master never_alike account acted_book initial-Fits run

Run-long_only_example : (pos 0 <ℤ held_row.quantity) × (held_row.definition ≡ master 7)
Run-long_only_example =
    Run-long_only master Plain account acted_book 7 held_row initial-Fits run still_held

apply_fill_retry_example : apply_fill bought (some 500) filled_book ≡ ok (false, filled_book)
apply_fill_retry_example =
    apply_fill_retry bought none (some 500) submitted_book filled_book true fill_runs

other_fill : Fill
other_fill = record bought { price = pos (22 * unit) }

other_fill_differs : same Fill-discrete bought other_fill ≡ false
unfolding same Fill-discrete FillSettlement-discrete InventoryFee-discrete Instrument-discrete
    AssetClass-discrete ℕ_discrete other_fill
other_fill_differs = refl

other_fill_id : other_fill.fill_id ≡ bought.fill_id
unfolding other_fill
other_fill_id = refl

apply_fill_reused_example : apply_fill other_fill none filled_book ≡ err fill_reused
apply_fill_reused_example =
    apply_fill_reused bought other_fill none none submitted_book filled_book true fill_runs
      other_fill_id other_fill_differs

settled : Fill
settled = record bought {
  settlement = some (record { gross_quote = pos (84 * unit); source_id = 1; source_hash = 1 });
}

settled_accepted : check_fill settled purchase_row submitted_book ≡ ok tt
unfolding settled submitted_book submit submit_new new_account clock lookup insert put reservation
    order_cost available_cash reservations pending_orders open_orders exact_decimal_sum plus minus
    times divide round magnitude context write_journal journal_at ◌+ℤ◌ ◌-ℤ◌ apply_fill book_fill
    get_order remaining check_fill require_unpublished receive book_trade trade buy_trade add
    subtract negate base_notional remaining_after reserve_after other_reservations check_trade
    write_holding filled_order write_trade apply_fees copy_negate same Key-discrete
settled_accepted = refl

settled_exact : is_exact settled ≡ true
unfolding settled
settled_exact = refl

filled_order_balance_example :
    (remaining (filled_order settled purchase_row) ≡ remaining purchase_row -ℤ settled.quantity)
    × (pos 0 ≤ℤ remaining (filled_order settled purchase_row))
filled_order_balance_example =
    filled_order_balance settled purchase_row submitted_book settled_exact settled_accepted

traded_book : Book
traded_book = book_only submitted_book (book_trade bought purchase_row submitted_book)

trade_runs : book_trade bought purchase_row submitted_book ≡ ok traded_book
unfolding traded_book book_only submitted_book submit submit_new new_account clock lookup insert put
    reservation order_cost available_cash reservations pending_orders open_orders exact_decimal_sum
    plus minus times divide round magnitude context write_journal journal_at ◌+ℤ◌ ◌-ℤ◌ apply_fill
    book_fill get_order remaining check_fill require_unpublished receive book_trade trade buy_trade
    add subtract negate base_notional remaining_after reserve_after other_reservations check_trade
    write_holding filled_order write_trade apply_fees copy_negate same Key-discrete
trade_runs = refl

purchase_found : lookup bought.intent_id submitted_book.orders ≡ some purchase_row
unfolding traded_book book_only submitted_book submit submit_new new_account clock lookup insert put
    reservation order_cost available_cash reservations pending_orders open_orders exact_decimal_sum
    plus minus times divide round magnitude context write_journal journal_at ◌+ℤ◌ ◌-ℤ◌ apply_fill
    book_fill get_order remaining check_fill require_unpublished receive book_trade trade buy_trade
    add subtract negate base_notional remaining_after reserve_after other_reservations check_trade
    write_holding filled_order write_trade apply_fees copy_negate same Key-discrete
purchase_found = refl

reserves-Fits : Fits (reserved_by (pending_orders submitted_book))
unfolding traded_book book_only submitted_book submit submit_new new_account clock lookup insert put
    reservation order_cost available_cash reservations pending_orders open_orders exact_decimal_sum
    plus minus times divide round magnitude context write_journal journal_at ◌+ℤ◌ ◌-ℤ◌ apply_fill
    book_fill get_order remaining check_fill require_unpublished receive book_trade trade buy_trade
    add subtract negate base_notional remaining_after reserve_after other_reservations check_trade
    write_holding filled_order write_trade apply_fees copy_negate same Key-discrete
reserves-Fits = refl

others-Fits : Fits (reserved_by (pending_orders submitted_book) -ℤ purchase_row.reserved)
unfolding traded_book book_only submitted_book submit submit_new new_account clock lookup insert put
    reservation order_cost available_cash reservations pending_orders open_orders exact_decimal_sum
    plus minus times divide round magnitude context write_journal journal_at ◌+ℤ◌ ◌-ℤ◌ apply_fill
    book_fill get_order remaining check_fill require_unpublished receive book_trade trade buy_trade
    add subtract negate base_notional remaining_after reserve_after other_reservations check_trade
    write_holding filled_order write_trade apply_fees copy_negate same Key-discrete
others-Fits = refl

left-Fits : Fits (
    reserved_by (pending_orders submitted_book)
    -ℤ purchase_row.reserved
    +ℤ reserve_after bought purchase_row)
unfolding traded_book book_only submitted_book submit submit_new new_account clock lookup insert put
    reservation order_cost available_cash reservations pending_orders open_orders exact_decimal_sum
    plus minus times divide round magnitude context write_journal journal_at ◌+ℤ◌ ◌-ℤ◌ apply_fill
    book_fill get_order remaining check_fill require_unpublished receive book_trade trade buy_trade
    add subtract negate base_notional remaining_after reserve_after other_reservations check_trade
    write_holding filled_order write_trade apply_fees copy_negate same Key-discrete
left-Fits = refl

book_trade-available_cash_example : pos 0 ≤ℤ available_cash traded_book
book_trade-available_cash_example =
    book_trade-available_cash bought purchase_row submitted_book traded_book refl purchase_found
      refl reserves-Fits others-Fits left-Fits trade_runs

submit_retry_example : submit purchase submitted_book ≡ ok (purchase_row, submitted_book)
submit_retry_example =
    submit_retry purchase (new_account account) submitted_book purchase_row submit_runs

other_purchase : OrderIntent
other_purchase = record purchase { quantity = pos (11 * unit) }

other_purchase_differs : same OrderIntent-discrete purchase other_purchase ≡ false
unfolding same OrderIntent-discrete Instrument-discrete AssetClass-discrete Side-discrete
    OrderType-discrete Tif-discrete ℕ_discrete other_purchase
other_purchase_differs = refl

other_purchase_id : other_purchase.intent_id ≡ purchase.intent_id
unfolding other_purchase
other_purchase_id = refl

submit_reused_example : submit other_purchase submitted_book ≡ err intent_reused
submit_reused_example =
    submit_reused purchase other_purchase (new_account account) submitted_book purchase_row
      submit_runs other_purchase_id other_purchase_differs

cancelled_book : Book
cancelled_book = book_only submitted_book (cancel 1 140 9 false submitted_book)

cancel_runs : cancel 1 140 9 false submitted_book ≡ ok cancelled_book
unfolding cancel cancel_open cancelled_book book_only submitted_book submit submit_new new_account
    clock lookup insert put reservation order_cost available_cash reservations pending_orders
    open_orders exact_decimal_sum plus minus times divide round magnitude context write_journal
    journal_at ◌+ℤ◌ ◌-ℤ◌ apply_fill book_fill get_order remaining check_fill require_unpublished
    receive book_trade trade buy_trade add subtract negate base_notional remaining_after
    reserve_after other_reservations check_trade write_holding filled_order write_trade apply_fees
    copy_negate same Key-discrete
cancel_runs = refl

cancel_again_example : cancel 1 150 8 true cancelled_book ≡ ok cancelled_book
cancel_again_example =
    cancel_again 1 140 150 9 8 false true submitted_book cancelled_book cancel_runs

posted : AccountFee
posted = record {
  fee_id = 3;
  account_id = 1;
  amount = pos (2 * unit);
  currency = 1;
  effective_date = 0;
  observed_at = 150;
  source_hash = 1;
  intent_id = none;
}

charged_book : Book
charged_book = result_book submitted_book (apply_account_fee posted submitted_book)

fee_runs : apply_account_fee posted submitted_book ≡ ok (true, charged_book)
unfolding apply_account_fee book_fee posted charged_book submitted_book submit submit_new
    new_account clock lookup insert put reservation order_cost available_cash reservations
    pending_orders open_orders exact_decimal_sum plus minus times divide round magnitude context
    write_journal journal_at ◌+ℤ◌ ◌-ℤ◌ apply_fill book_fill get_order remaining check_fill
    require_unpublished receive book_trade trade buy_trade add subtract negate base_notional
    remaining_after reserve_after other_reservations check_trade write_holding filled_order
    write_trade apply_fees copy_negate same Key-discrete
fee_runs = refl

fee_is_new : journal_at (account_fee_key posted.fee_id) submitted_book.journal ≡ none
unfolding posted submitted_book submit submit_new new_account clock lookup insert put reservation
    order_cost available_cash reservations pending_orders open_orders exact_decimal_sum plus minus
    times divide round magnitude context write_journal journal_at ◌+ℤ◌ ◌-ℤ◌ apply_fill book_fill
    get_order remaining check_fill require_unpublished receive book_trade trade buy_trade add
    subtract negate base_notional remaining_after reserve_after other_reservations check_trade
    write_holding filled_order write_trade apply_fees copy_negate same Key-discrete
fee_is_new = refl

fee_later : posted.observed_at ≤ 160
unfolding posted
fee_later = omega arith

book_fee_retry_example :
    apply_account_fee (record posted { observed_at = 160 }) charged_book ≡ ok (false, charged_book)
book_fee_retry_example =
    book_fee_retry posted 160 submitted_book charged_book true fee_is_new fee_runs fee_later

valued : PortfolioSnapshot
valued = build_snapshot 200 [] (new_account account)

published_book : Book
published_book = book_only (new_account account) (publish 200 valued (new_account account))

publish_runs : publish 200 valued (new_account account) ≡ ok published_book
unfolding publish valued published_book book_only lookup put new_account clock
publish_runs = refl

publish_keeps_example :
    (lookup 200 published_book.snapshots ≡ some valued)
    × ((t : Timestamp) (old : PortfolioSnapshot)
        → lookup t (new_account account).snapshots ≡ some old
        → lookup t published_book.snapshots ≡ some old)
publish_keeps_example = publish_keeps 200 valued (new_account account) published_book publish_runs
