-- ===== src/Simulator/Opening.antt =====
-- src/execution/simulator.py: `open_event`, `open_bar` and `close_bar`.
use agentic_quant.Prelude.Int.{pos, ltb_ℤ, leb_ℤ}
use agentic_quant.Prelude.{
  Bool, true, false, not, ◌&&◌, ◌||◌, Option, none, some, List, [], ◌∷◌, ◌++◌, ltb, ◌==◌,
  if◌then◌else◌, is_some, same,
}
use agentic_quant.Prelude.Result.{ok, err, ◌>>=◌, ◌>>◌, guard, raise_if, or_raise}
use agentic_quant.Prelude.Dict.{Dict, lookup}
use agentic_quant.Decimal.{Decimal, one, plus, minus, times, divide, copy_negate}
use agentic_quant.Domain.Common.{Text, Instrument-discrete}
use agentic_quant.Domain.Orders.{OrderIntent, Side, OrderType, Tif, is_expired}
use agentic_quant.Domain.Fills.{Fill, valid_fill, PriceMark, contains}
use agentic_quant.Domain.Bars.{
  ExecutionBar, ExecutionBar-discrete, valid_bar, OpeningEvent, OpeningEvent-discrete,
  valid_opening, from_bar, smaller,
}
use agentic_quant.Ledger.State.{
  LedgerError, live_account, opening_conflict, order_identity, missing_metadata, bar_changed,
  opening_differs, key_error, invalid_contract, Ledger, OrderRow, Event, opening_id, open_id, Book,
  event_at, record_event, remaining, pending_orders,
}
use agentic_quant.Ledger.Orders.{cancel, mark}
use agentic_quant.Ledger.Fills.{apply_fill}
use agentic_quant.RiskControls.{InstrumentRisk, Check}
use agentic_quant.Stops.{StopObservation, is_stop}
use agentic_quant.Stops.Retained.{is_live, observe_stop}
use agentic_quant.Simulator.{
  FillPolicy, policy_fee, PaperExecution, passed, check_risk, expired_reason, expire_orders, whole,
  all_bps,
}

-- The arguments of `open_event` beside the event.
pub record Admission : Type 0 where
  pub metadata : Dict InstrumentRisk
  pub eligible_intent_ids : Option (List Text)
  pub intent_metadata : Option (Dict (Dict InstrumentRisk))

-- The variables of the loop, and the book.
pub record Progress : Type 0 where
  pub capacity : Decimal
  pub fills : List Fill
  pub book : Book

abbrev pub is_admitted : Admission → Text → Bool
is_admitted a id = elim a.eligible_intent_ids [ none ↦ true | some ids ↦ contains id ids ]

abbrev pub metadata_for : Admission → Text → Ledger (Dict InstrumentRisk)
metadata_for a id = elim a.intent_metadata [
  | none ↦ ok a.metadata
  | some table ↦ or_raise (lookup id table) key_error
]

abbrev direction : Side → Decimal
direction Side.buy = one
direction Side.sell = copy_negate one

unfoldable pub slipped_price : FillPolicy → Side → OpeningEvent → Decimal
slipped_price p side e =
    times e.price (plus one (times (divide p.slippage_bps all_bps) (direction side)))

abbrev pub within_limit : Side → Decimal → Option Decimal → Ledger Bool
within_limit side price none = err invalid_contract
within_limit Side.buy price (some limit) = ok (leb_ℤ price limit)
within_limit Side.sell price (some limit) = ok (leb_ℤ limit price)

-- The units that capacity and lots allow, none if the order is to be filled whole and they do not.
unfoldable pub filled_quantity : Decimal → Decimal → OrderRow → Decimal
filled_quantity capacity lot o =
    let quantity = times (whole (divide (smaller (remaining o) capacity) lot)) lot in
    elim o.intent.tif [
      | Tif.fok ↦ if ltb_ℤ quantity (remaining o) then pos 0 else quantity
      | _ ↦ quantity
    ]

-- The whole remaining order at the new price, for the check before a fill.
unfoldable pub projected : PaperExecution → OpeningEvent → Decimal → OrderRow → OrderIntent
projected x e price o = record o.intent {
  reference_price = price;
  fx_rate = e.fx_rate;
  quantity = remaining o;
  estimated_fee = policy_fee x.policy o.intent.instrument (remaining o) price e.fx_rate;
}

abbrev pub is_immediate : Tif → Bool
is_immediate Tif.ioc = true
is_immediate Tif.fok = true
is_immediate _ = false

-- The text `unfilled immediate quantity`.
abbrev pub unfilled_reason : Text
unfilled_reason = 3

unfoldable pub opening_capacity : FillPolicy → OpeningEvent → Decimal
opening_capacity p e = if e.tradable then times e.opening_volume p.opening_participation else pos 0

abbrev pub opening_mark : OpeningEvent → PriceMark
opening_mark e = record {
  instrument = e.instrument;
  price = e.price;
  fx_rate = e.fx_rate;
  as_of = e.opened_at;
}

-- Whether the completed bar that was consumed declares this print.
abbrev pub same_print : Option Event → OpeningEvent → Bool
same_print (some (Event.open_bar bar)) e = same OpeningEvent-discrete (from_bar bar) e
same_print _ e = false

abbrev pub same_bar : Option Event → ExecutionBar → Bool
same_bar (some (Event.open_bar old)) bar = same ExecutionBar-discrete old bar
same_bar _ bar = false

abbrev pub differs : Option Event → OpeningEvent → Bool
differs none e = false
differs (some (Event.opening_event old)) e = not (same OpeningEvent-discrete old e)
differs (some _) e = true

abbrev pub closing_mark : ExecutionBar → PriceMark
closing_mark bar = record {
  instrument = bar.instrument;
  price = bar.close;
  fx_rate = bar.fx_rate;
  as_of = bar.closed_at;
}

-- `close_bar`
unfoldable pub close_bar : ExecutionBar → Book → Ledger Book
close_bar bar b = do
  guard (valid_bar bar) invalid_contract
  raise_if (differs (event_at (opening_id (from_bar bar).event_id) b.events) (from_bar bar))
      opening_differs
  (is_new, b1) ← record_event (Event.close_bar bar) b
  (if is_new
      then (do
        b2 ← mark (closing_mark bar ∷ []) b1
        (ids, b3) ← expire_orders bar.closed_at b2
        ok b3)
      else ok b1)

-- What `except LedgerError` catches: not an error of the database, of a lookup or of a contract.
abbrev pub is_ledger_error : LedgerError → Bool
is_ledger_error LedgerError.integrity = false
is_ledger_error LedgerError.key_error = false
is_ledger_error LedgerError.invalid_contract = false
is_ledger_error _ = true

module _ (intent_hash : OrderIntent → Text) (event_hash : OpeningEvent → Text)
    (observation_hash : StopObservation → Text) (fill_name : Text → Text → Text)
    (risk_text : List Check → Text) (error_text : LedgerError → Text) where
  -- `event.tradable and observe_stop(…).elected_event_id is not None`
  unfoldable pub stop_elected : OrderIntent → OpeningEvent → Book → Ledger (Bool × Book)
  stop_elected i e b =
      if e.tradable
      then (do
        (o, b1) ← observe_stop intent_hash event_hash observation_hash fill_name i e b
        ok (is_some o.elected_event_id, b1))
      else ok (false, b)

  -- Whether the order may be filled at the price, and the book, in which a stop is observed.
  unfoldable pub marketable : OrderIntent → OpeningEvent → Decimal → Book → Ledger (Bool × Book)
  marketable i e price b = elim i.order_type [
    | OrderType.market ↦ ok (true, b)
    | OrderType.limit ↦ do fits ← within_limit i.side price i.limit_price; ok (fits, b)
    | _ ↦ stop_elected i e b
  ]

  unfoldable pub paper_fill : PaperExecution → OpeningEvent → Decimal → Decimal → OrderIntent → Fill
  paper_fill x e price quantity i = record {
    fill_id = fill_name i.intent_id e.event_id;
    intent_id = i.intent_id;
    account_id = x.account_id;
    quantity = quantity;
    price = price;
    fee = policy_fee x.policy i.instrument quantity price e.fx_rate;
    fx_rate = e.fx_rate;
    executed_at = e.opened_at;
    event_id = e.event_id;
    settlement = none;
    inventory_fees = [];
  }

  -- `except LedgerError`: the fill is rolled back and its order rejected.
  unfoldable pub settle : OpeningEvent → Fill → Progress → Ledger Progress
  settle e f p = elim (apply_fill f none p.book) [
    | ok (d, b1) ↦
        ok (record { capacity = minus p.capacity f.quantity; fills = p.fills ++ f ∷ []; book = b1 })
    | err failure ↦ do
      guard (is_ledger_error failure) failure
      b1 ← cancel f.intent_id e.opened_at (error_text failure) true p.book
      ok (record p { book = b1 })
  ]

  -- `if order.tif in ("IOC", "FOK") and …`
  unfoldable pub end_immediate : OpeningEvent → Bool → OrderIntent → Progress → Ledger Progress
  end_immediate e fits i p =
      if is_immediate i.tif && (not (is_stop i.order_type) || fits)
      then (do
        b1 ← cancel i.intent_id e.opened_at unfilled_reason false p.book
        ok (record p { book = b1 }))
      else ok p

  -- An order that may be filled, for `quantity` units.
  unfoldable pub fill_order :
      PaperExecution
      → OpeningEvent
      → Dict InstrumentRisk
      → Decimal
      → Decimal
      → OrderRow
      → Progress
      → Ledger Progress
  fill_order x e metadata price quantity o p = do
    failures ← check_risk x (projected x e price o) e.opened_at metadata p.book
    (if passed failures
        then (do
          guard (valid_fill (paper_fill x e price quantity o.intent)) invalid_contract
          p1 ← settle e (paper_fill x e price quantity o.intent) p
          end_immediate e true o.intent p1)
        else (do
          b1 ← cancel o.intent.intent_id e.opened_at (risk_text failures) true p.book
          ok (record p { book = b1 })))

  -- An eligible order of the event's instrument.
  unfoldable pub match_order :
      PaperExecution → OpeningEvent → Admission → OrderRow → Progress → Ledger Progress
  match_order x e a o p = do
    guard (same Instrument-discrete o.intent.instrument e.instrument) order_identity
    metadata ← metadata_for a o.intent.intent_id
    let price = slipped_price x.policy o.intent.side e
    (fits, b1) ← marketable o.intent e price p.book
    m ← or_raise (lookup e.instrument.instrument_id metadata) missing_metadata
    let quantity = filled_quantity p.capacity m.lot_size o
    let p1 = record p { book = b1 }
    (if fits && ltb_ℤ (pos 0) quantity
        then fill_order x e metadata price quantity o p1
        else end_immediate e fits o.intent p1)

  -- One turn of the loop over the resting orders.
  unfoldable pub consider :
      PaperExecution → OpeningEvent → Admission → OrderRow → Progress → Ledger Progress
  consider x e a o p =
      if not (is_admitted a o.intent.intent_id)
        || not (o.intent.instrument.instrument_id == e.instrument.instrument_id)
      then ok p
      else if is_expired o.intent.expires_at e.opened_at
      then (do
        b1 ← cancel o.intent.intent_id e.opened_at expired_reason false p.book
        ok (record p { book = b1 }))
      else if ltb e.opened_at o.intent.eligible_at
      then ok p
      else match_order x e a o p

  unfoldable pub consider_all :
      PaperExecution → OpeningEvent → Admission → List OrderRow → Progress → Ledger Progress
  consider_all x e a [] p = ok p
  consider_all x e a (o ∷ rows) p = do p1 ← consider x e a o p; consider_all x e a rows p1

  -- A new opening: the mark, then every order that rests.
  unfoldable pub open_new : PaperExecution → OpeningEvent → Admission → Book → Ledger Progress
  open_new x e a b = do
    b1 ← mark (opening_mark e ∷ []) b
    consider_all x e a (pending_orders b1)
        (record { capacity = opening_capacity x.policy e; fills = []; book = b1 })

  -- `open_event`
  unfoldable pub open_event :
      PaperExecution → OpeningEvent → Admission → Book → Ledger (List Fill × Book)
  open_event x e a b = do
    guard (valid_opening e) invalid_contract
    raise_if (is_live b.spec.mode) live_account
    (if is_some (event_at (open_id e.event_id) b.events)
        then (do
          guard (same_print (event_at (open_id e.event_id) b.events) e) opening_conflict
          (d, b1) ← record_event (Event.opening_event e) b
          ok ([], b1))
        else (do
          (is_new, b1) ← record_event (Event.opening_event e) b
          (if is_new then (do p ← open_new x e a b1; ok (p.fills, p.book)) else ok ([], b1))))

  -- `open_bar`
  unfoldable pub open_bar :
      PaperExecution → ExecutionBar → Admission → Book → Ledger (List Fill × Book)
  open_bar x bar a b = do
    guard (valid_bar bar) invalid_contract
    (if is_some (event_at (open_id bar.event_id) b.events)
        then (do
          guard (same_bar (event_at (open_id bar.event_id) b.events) bar) bar_changed
          (d, b1) ← record_event (Event.opening_event (from_bar bar)) b
          ok ([], b1))
        else (do
          (fills, b1) ← open_event x (from_bar bar) a b
          (d, b2) ← record_event (Event.open_bar bar) b1
          ok (fills, b2)))
