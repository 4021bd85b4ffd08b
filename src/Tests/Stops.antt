-- ===== src/Tests/Stops.antt =====
-- A stop that is elected, and the book that retains its observations.
use agentic_quant.Prelude.Int.{pos, ◌+ℤ◌, ◌-ℤ◌}
use agentic_quant.Prelude.{
  true, ◌⊎◌, ◌≢◌, ◌≡◌, refl, none, some, [], ◌∷◌, ◌+◌, ◌*◌, same, ℕ_discrete,
}
use agentic_quant.Prelude.Lists.{AllOf}
use agentic_quant.Prelude.Result.{ok}
use agentic_quant.Prelude.Dict.{lookup}
use agentic_quant.Decimal.{Decimal, unit, exact_decimal_sum, copy_negate}
use agentic_quant.Domain.Common.{Text, Instrument-discrete, AssetClass-discrete}
use agentic_quant.Domain.Orders.{
  OrderIntent, OrderIntent-discrete, OrderType, OrderType-discrete, Side, Side-discrete,
  Tif-discrete,
}
use agentic_quant.Domain.Bars.{OpeningEvent}
use agentic_quant.Ledger.State.{
  Book, OrderRow, Status, Event, EventKey-discrete, event_at, get_order,
}
use agentic_quant.Ledger.Orders.{new_account}
use agentic_quant.Stops.{
  StopObservation, StopObservation-discrete, better, next_anchor, trail_offset, trigger, wait, step,
}
use agentic_quant.Stops.Election.{Reached, Missed, wait_elects}
use agentic_quant.Stops.History.{Carried, read_stop_state-Carried}
use agentic_quant.Stops.Retained.{
  source, observations, verify_rows, check_policy, history, read_stop_state,
}
use agentic_quant.Tests.Samples.{master, account, purchase}

-- A sale that trails the best price by five.
trailing : OrderIntent
trailing = record purchase {
  intent_id = 4;
  side = Side.sell;
  order_type = OrderType.trailing_stop;
  trail_price = some (pos (5 * unit));
}

opening : Text → Decimal → OpeningEvent
opening at price = record {
  event_id = at;
  instrument = master 7;
  opened_at = at;
  price = price;
  opening_volume = pos 0;
  fx_rate = pos unit;
  calendar = 2;
  calendar_version = 1;
  session = 0;
  session_open = 0;
  session_close = 1_000;
  tradable = true;
}

hash_intent : OrderIntent → Text
hash_intent i = i.intent_id

hash_event : OpeningEvent → Text
hash_event e = e.event_id

hash_observation : StopObservation → Text
hash_observation o = o.event_id

-- Anchored at 30, then elected at 24.
elected : StopObservation
elected = record {
  intent_id = 4;
  intent_hash = 4;
  event_id = 140;
  event_hash = 140;
  at = 140;
  previous_hash = some 130;
  anchor = some (pos (30 * unit));
  threshold = pos (25 * unit);
  elected_event_id = some 140;
  elected_at = some 140;
}

anchored : StopObservation
anchored = record elected {
  event_id = 130;
  event_hash = 130;
  at = 130;
  previous_hash = none;
  elected_event_id = none;
  elected_at = none;
}

first_open :
    step hash_intent hash_event hash_observation trailing (opening 130 (pos (30 * unit))) none
    ≡ ok anchored
unfolding trailing opening hash_intent hash_event hash_observation elected anchored better
    next_anchor trail_offset trigger wait step exact_decimal_sum copy_negate ◌+ℤ◌ ◌-ℤ◌ same
    Instrument-discrete AssetClass-discrete ℕ_discrete
first_open = refl

election_runs :
    wait hash_intent hash_event hash_observation trailing
      (opening 140 (pos (24 * unit)))
      (some anchored)
    ≡ ok elected
unfolding trailing opening hash_intent hash_event hash_observation elected anchored better
    next_anchor trail_offset trigger wait step exact_decimal_sum copy_negate ◌+ℤ◌ ◌-ℤ◌ same
    Instrument-discrete AssetClass-discrete ℕ_discrete
election_runs = refl

wait_elects_example :
    ((Reached trailing.side (pos (24 * unit)) elected.threshold
        × (elected.elected_event_id ≡ some 140)
        × (elected.elected_at ≡ some 140))
      ⊎ (Missed trailing.side (pos (24 * unit)) elected.threshold
          × (elected.elected_event_id ≡ none)
          × (elected.elected_at ≡ none)))
    × ((trailing.order_type ≢ OrderType.stop) ⊎ (trailing.stop_price ≡ some elected.threshold))
unfolding opening
wait_elects_example =
    wait_elects hash_intent hash_event hash_observation trailing (opening 140 (pos (24 * unit)))
      (some anchored) elected election_runs

trailing_row : OrderRow
trailing_row = record {
  intent = trailing;
  status = Status.pending;
  filled_quantity = pos 0;
  reserved = pos 0;
  reason = none;
}

retained_book : Book
retained_book = record (new_account account) {
  orders = (4, trailing_row) ∷ [];
  events =
      Event.opening_event (opening 130 (pos (30 * unit)))
      ∷ Event.stop_policy trailing
      ∷ Event.stop_event trailing anchored
      ∷ Event.opening_event (opening 140 (pos (24 * unit)))
      ∷ Event.stop_event trailing elected
      ∷ [];
}

trailing_found : get_order 4 retained_book ≡ ok trailing_row
unfolding retained_book get_order lookup new_account
trailing_found = refl

hash_name : Text → Text → Text
hash_name i e = i + e

state_read :
    read_stop_state hash_intent hash_event hash_observation hash_name 4 retained_book
    ≡ ok (some elected)
unfolding retained_book trailing_row get_order lookup new_account read_stop_state history
    check_policy observations verify_rows source event_at trailing opening hash_intent hash_event
    hash_observation elected anchored better next_anchor trail_offset trigger wait step
    exact_decimal_sum copy_negate ◌+ℤ◌ ◌-ℤ◌ same Instrument-discrete AssetClass-discrete ℕ_discrete
    EventKey-discrete OrderIntent-discrete Side-discrete OrderType-discrete Tif-discrete
    StopObservation-discrete
state_read = refl

read_stop_state-Carried_example :
    AllOf (Carried elected) (observations trailing_row.intent retained_book.events)
read_stop_state-Carried_example =
    read_stop_state-Carried hash_intent hash_event hash_observation hash_name 4 trailing_row
      retained_book elected trailing_found state_read
