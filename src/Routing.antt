-- ===== src/Routing.antt =====
-- src/execution/routing.py: `target_to_intents` and `intent_for_delta`, which size the orders that
-- lead from the holdings to a target; of `PortfolioTarget` and `TargetWeight` in
-- src/domain/portfolio.py, the fields that sizing reads.
--
-- The name of an order, `<target>:<instrument>`, is a parameter.
pub mod Sized
use agentic_quant.Prelude.Int.{pos, ltb_ℤ, leb_ℤ, eqb_ℤ}
use agentic_quant.Prelude.{
  ◌+◌, ◌-◌, Bool, true, false, not, ◌&&◌, ◌||◌, Option, none, some, List, [], ◌∷◌, ◌++◌, ltb, leb,
  ◌==◌, if◌then◌else◌, is_some, same,
}
use agentic_quant.Prelude.Result.{Result, ok, err, ◌>>=◌, ◌>>◌, guard, raise_if, or_raise}
use agentic_quant.Prelude.Dict.{Dict, lookup, put}
use agentic_quant.Decimal.{
  Decimal, one, magnitude, plus, minus, times, divide, copy_negate, is_positive,
}
use agentic_quant.Domain.Common.{Text, Timestamp, Instrument, Instrument-discrete}
use agentic_quant.Domain.Orders.{OrderIntent, Side, OrderType, Tif, OrderError, valid_order}
use agentic_quant.Domain.Fills.{PriceMark}
use agentic_quant.Domain.Bars.{larger}
use agentic_quant.Ledger.State.{Holding, PortfolioSnapshot}
use agentic_quant.RiskControls.{InstrumentRisk, zero_or}
use agentic_quant.Simulator.{FillPolicy, policy_fee, cost_bps, all_bps, whole}

pub record TargetWeight : Type 0 where
  pub instrument : Instrument
  pub weight : Decimal

pub record PortfolioTarget : Type 0 where
  pub target_id : Text
  pub decision_at : Timestamp
  pub strategy_id : Text
  pub weights : List TargetWeight
  pub preserve_quantities : Dict Decimal

pub data RoutingError : Type 0 where
  unsettled no_observation identity_mismatch stale_price not_preserved zero_quantity
        invalid_intent :
      RoutingError

-- The dictionaries `held`, `weights` and `identities`, in which a later row replaces an earlier one.
unfoldable pub held_of : List Holding → Dict Decimal → Dict Decimal
held_of [] acc = acc
held_of (h ∷ hs) acc = held_of hs (put h.instrument.instrument_id h.quantity acc)

unfoldable pub weights_of : List TargetWeight → Dict Decimal → Dict Decimal
weights_of [] acc = acc
weights_of (w ∷ ws) acc = weights_of ws (put w.instrument.instrument_id w.weight acc)

unfoldable pub targeted : List TargetWeight → Dict Instrument → Dict Instrument
targeted [] acc = acc
targeted (w ∷ ws) acc = targeted ws (put w.instrument.instrument_id w.instrument acc)

unfoldable pub with_held : List Holding → Dict Instrument → Dict Instrument
with_held [] acc = acc
with_held (h ∷ hs) acc = with_held hs (put h.instrument.instrument_id h.instrument acc)

-- `sorted(…)` of the keys: a table is sorted by its keys, which are those of the identities.
unfoldable pub keys_of : Dict Instrument → List Text
keys_of [] = []
keys_of ((k, i) ∷ rows) = k ∷ keys_of rows

abbrev pub quantity_or_zero : Text → Dict Decimal → Decimal
quantity_or_zero k d = zero_or (lookup k d)

-- `0 <= age <= max_price_age_seconds`, in microseconds.
abbrev pub is_fresh : Timestamp → Timestamp → Timestamp → Bool
is_fresh at as_of max_age = leb as_of at && leb (at - as_of) max_age

abbrev signed_one : Side → Decimal
signed_one Side.buy = one
signed_one Side.sell = copy_negate one

-- The mark's price with the slippage of the policy.
unfoldable pub order_price : FillPolicy → Side → PriceMark → Decimal
order_price p side m =
    times m.price (plus one (times (divide p.slippage_bps all_bps) (signed_one side)))

-- The quantity in whole lots that the weight is worth.
unfoldable pub desired_quantity : Decimal → Decimal → PriceMark → Decimal → Decimal
desired_quantity nav weight m lot =
    times (whole (divide (divide (times nav weight) (times m.price m.fx_rate)) lot)) lot

-- A quantity that is preserved is that of the holdings.
unfoldable pub preserved : Option Decimal → Decimal → Decimal → Result RoutingError Decimal
preserved none held desired = ok desired
preserved (some q) held desired = do guard (eqb_ℤ q held) not_preserved; ok q

-- What a purchase may add under its budget, fees included, in whole lots.
unfoldable pub affordable_quantity :
    FillPolicy → Instrument → Decimal → Decimal → Decimal → Decimal → Decimal → Decimal
affordable_quantity p i budget price fx held lot =
    let cost =
      plus (times (times price fx) (plus one (divide (cost_bps p i) all_bps)))
        p.commission_per_unit in
    let room = minus (divide (minus budget p.minimum_commission) cost) held in
    times (whole (larger (pos 0) (divide room lot))) lot

abbrev pub side_of : Decimal → Side
side_of delta = if is_positive delta then Side.buy else Side.sell

unfoldable pub order_quantity :
    FillPolicy → Instrument → Decimal → Decimal → Decimal → Decimal → PriceMark → Decimal → Decimal
order_quantity p i nav weight delta held m lot = elim (side_of delta) [
  | Side.buy ↦
      affordable_quantity p i (times nav weight) (order_price p Side.buy m) m.fx_rate held lot
  | Side.sell ↦ pos (magnitude delta)
]

-- `model_validate`
abbrev pub valid_intent : Result OrderError (Unit {0}) → Result RoutingError (Unit {0})
valid_intent (ok u) = ok u
valid_intent (err e) = err invalid_intent

-- `(o.side != "sell", o.instrument.instrument_id)`, in order.
abbrev pub is_buy : OrderIntent → Bool
is_buy i = elim i.side [ Side.buy ↦ true | Side.sell ↦ false ]

abbrev pub goes_before : OrderIntent → OrderIntent → Bool
goes_before i j =
    if is_buy i
    then is_buy j && leb i.instrument.instrument_id j.instrument.instrument_id
    else is_buy j || leb i.instrument.instrument_id j.instrument.instrument_id

unfoldable pub insert_intent : OrderIntent → List OrderIntent → List OrderIntent
insert_intent i [] = i ∷ []
insert_intent i (j ∷ js) = if goes_before i j then i ∷ j ∷ js else j ∷ insert_intent i js

unfoldable pub sort_intents : List OrderIntent → List OrderIntent
sort_intents [] = []
sort_intents (i ∷ is) = insert_intent i (sort_intents is)

module _ (intent_name : Text → Text → Text) where
  unfoldable pub sized_intent :
      PortfolioTarget
      → PortfolioSnapshot
      → FillPolicy
      → Text
      → Instrument
      → Side
      → Decimal
      → PriceMark
      → OrderIntent
  sized_intent t s p key i side quantity m = record {
    intent_id = intent_name t.target_id key;
    account_id = s.account_id;
    run_id = t.target_id;
    instrument = i;
    side = side;
    quantity = quantity;
    decision_at = t.decision_at;
    eligible_at = t.decision_at + 1;
    reference_price = order_price p side m;
    fx_rate = m.fx_rate;
    estimated_fee = policy_fee p i quantity (order_price p side m) m.fx_rate;
    strategy_id = t.strategy_id;
    order_type = OrderType.market;
    limit_price = none;
    stop_price = none;
    trail_price = none;
    trail_percent = none;
    tif = Tif.gtc;
    expires_at = none;
  }

  -- One key of the loop, once its evidence is known: an order, or none.
  unfoldable pub size_delta :
      PortfolioTarget
      → PortfolioSnapshot
      → FillPolicy
      → Text
      → Instrument
      → Decimal
      → Decimal
      → Decimal
      → PriceMark
      → Decimal
      → Result RoutingError (List OrderIntent)
  size_delta t s p key i weight held delta m lot =
      let quantity = order_quantity p i s.nav weight delta held m lot in
      if eqb_ℤ delta (pos 0) || leb_ℤ quantity (pos 0) then ok [] else (do
        valid_intent (valid_order (sized_intent t s p key i (side_of delta) quantity m))
        ok (sized_intent t s p key i (side_of delta) quantity m ∷ []))

  unfoldable pub size_key :
      PortfolioTarget
      → PortfolioSnapshot
      → Dict PriceMark
      → Dict InstrumentRisk
      → FillPolicy
      → Timestamp
      → Dict Instrument
      → Text
      → Result RoutingError (List OrderIntent)
  size_key t s marks metadata p max_age ids key = do
    m ← or_raise (lookup key marks) no_observation
    meta ← or_raise (lookup key metadata) no_observation
    i ← or_raise (lookup key ids) identity_mismatch
    guard (same Instrument-discrete m.instrument i && same Instrument-discrete meta.instrument i)
        identity_mismatch
    guard (is_fresh t.decision_at m.as_of max_age) stale_price
    let held = quantity_or_zero key (held_of s.positions [])
    let weight = quantity_or_zero key (weights_of t.weights [])
    desired ←
        preserved (lookup key t.preserve_quantities) held
          (desired_quantity s.nav weight m meta.lot_size)
    size_delta t s p key i weight held (minus desired held) m meta.lot_size

  unfoldable pub size_keys :
      PortfolioTarget
      → PortfolioSnapshot
      → Dict PriceMark
      → Dict InstrumentRisk
      → FillPolicy
      → Timestamp
      → Dict Instrument
      → List Text
      → Result RoutingError (List OrderIntent)
  size_keys t s marks metadata p max_age ids [] = ok []
  size_keys t s marks metadata p max_age ids (key ∷ keys) = do
    first ← size_key t s marks metadata p max_age ids key
    rest ← size_keys t s marks metadata p max_age ids keys
    ok (first ++ rest)

  -- `target_to_intents`
  unfoldable pub target_to_intents :
      PortfolioTarget
      → PortfolioSnapshot
      → Dict PriceMark
      → Dict InstrumentRisk
      → FillPolicy
      → Timestamp
      → Result RoutingError (List OrderIntent)
  target_to_intents t s marks metadata p max_age = do
    guard (s.as_of == t.decision_at && eqb_ℤ s.reserved_cash (pos 0)) unsettled
    let ids = with_held s.positions (targeted t.weights [])
    candidates ← size_keys t s marks metadata p max_age ids (keys_of ids)
    ok (sort_intents candidates)

  -- `intent_for_delta`
  unfoldable pub intent_for_delta :
      PortfolioTarget
      → PortfolioSnapshot
      → PriceMark
      → Decimal
      → FillPolicy
      → Result RoutingError OrderIntent
  intent_for_delta t s m delta p = do
    raise_if (eqb_ℤ delta (pos 0)) zero_quantity
    let i =
        sized_intent t s p m.instrument.instrument_id m.instrument (side_of delta)
          (pos (magnitude delta)) m
    valid_intent (valid_order i)
    ok i
