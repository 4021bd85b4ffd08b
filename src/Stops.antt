-- ===== src/Stops.antt =====
-- src/execution/stops.py: the election of stop and trailing-stop orders from observed opens.
--
-- A content hash is a parameter. Stops.Retained has the observations that a book retains, and the
-- fills that are older than the observations.
pub mod Election
pub mod History
pub mod Retained
use agentic_quant.Prelude.Int.{pos, leb_ℤ, ltb_ℤ}
use agentic_quant.Prelude.{
  ◌/◌, Bool, true, false, not, ◌&&◌, ◌||◌, Option, none, some, List, [], ◌∷◌, ltb, is_some,
  if◌then◌else◌, same, ℕ_discrete,
}
use agentic_quant.Prelude.Result.{Result, ok, err, ◌>>=◌, ◌>>◌, raise_if, or_raise}
use agentic_quant.Decimal.{Decimal, unit, copy_negate, exact_decimal_sum, exact_decimal_product}
use agentic_quant.Domain.Common.{Text, Timestamp, Instrument-discrete}
use agentic_quant.Domain.Orders.{OrderIntent, Side, OrderType}
use agentic_quant.Domain.Bars.{OpeningEvent}

pub record StopObservation : Type 0 where
  pub intent_id : Text
  pub intent_hash : Text
  pub event_id : Text
  pub event_hash : Text
  pub at : Timestamp
  pub previous_hash : Option Text
  pub anchor : Option Decimal
  pub threshold : Decimal
  pub elected_event_id : Option Text
  pub elected_at : Option Timestamp

unfoldable pub StopObservation-discrete : Discrete StopObservation
StopObservation-discrete = hlevel ℕ_discrete

pub data StopError : Type 0 where
  not_eligible no_threshold : StopError

abbrev pub is_stop : OrderType → Bool
is_stop OrderType.stop = true
is_stop OrderType.trailing_stop = true
is_stop _ = false

-- `expires_at is not None and at > expires_at`
abbrev pub past : Option Timestamp → Timestamp → Bool
past none at = false
past (some e) at = ltb e at

abbrev pub before : Timestamp → Option StopObservation → Bool
before at none = false
before at (some p) = ltb at p.at

abbrev pub is_eligible : OrderIntent → OpeningEvent → Option StopObservation → Bool
is_eligible i e previous =
    is_stop i.order_type
    && e.tradable
    && same Instrument-discrete e.instrument i.instrument
    && not (ltb e.opened_at i.eligible_at)
    && not (past i.expires_at e.opened_at)
    && not (before e.opened_at previous)

abbrev pub anchor_of : Option StopObservation → Option Decimal
anchor_of none = none
anchor_of (some p) = p.anchor

abbrev pub elected_of : Option StopObservation → Option Text
elected_of none = none
elected_of (some p) = p.elected_event_id

-- `max` for a sale, `min` for a purchase.
unfoldable pub better : Side → Decimal → Decimal → Decimal
better Side.sell a price = if ltb_ℤ a price then price else a
better Side.buy a price = if ltb_ℤ price a then price else a

unfoldable pub next_anchor : Side → Option Decimal → Decimal → Decimal
next_anchor side none price = price
next_anchor side (some a) price = better side a price

abbrev one_percent : Decimal
one_percent = pos (unit / 100)

unfoldable pub trail_offset : OrderIntent → Decimal → Result StopError Decimal
trail_offset i anchor = elim i.trail_price [
  | some p ↦ ok p
  | none ↦ do
    percent ← or_raise i.trail_percent no_threshold
    ok (exact_decimal_product anchor (exact_decimal_product percent one_percent))
]

abbrev pub offset_from : Side → Decimal → Decimal → Decimal
offset_from Side.sell anchor offset = exact_decimal_sum (anchor ∷ copy_negate offset ∷ [])
offset_from Side.buy anchor offset = exact_decimal_sum (anchor ∷ offset ∷ [])

-- The anchor and the threshold after an open, while the order is not elected.
unfoldable pub trigger :
    OrderIntent → OpeningEvent → Option Decimal → Result StopError (Option Decimal × Decimal)
trigger i e anchor = elim i.order_type [
  | OrderType.stop ↦ do threshold ← or_raise i.stop_price no_threshold; ok (anchor, threshold)
  | _ ↦ do
    offset ← trail_offset i (next_anchor i.side anchor e.price)
    ok (
      some (next_anchor i.side anchor e.price),
      offset_from i.side (next_anchor i.side anchor e.price) offset,
    )
]

abbrev pub crosses : Side → Decimal → Decimal → Bool
crosses Side.sell price threshold = leb_ℤ price threshold
crosses Side.buy price threshold = leb_ℤ threshold price

module _ (intent_hash : OrderIntent → Text) (event_hash : OpeningEvent → Text)
    (observation_hash : StopObservation → Text) where
  abbrev pub hash_of : Option StopObservation → Option Text
  hash_of none = none
  hash_of (some p) = some (observation_hash p)

  abbrev pub observed :
      OrderIntent
      → OpeningEvent
      → Option StopObservation
      → Option Decimal
      → Decimal
      → Option Text
      → Option Timestamp
      → StopObservation
  observed i e previous anchor threshold elected elected_at = record {
    intent_id = i.intent_id;
    intent_hash = intent_hash i;
    event_id = e.event_id;
    event_hash = event_hash e;
    at = e.opened_at;
    previous_hash = hash_of previous;
    anchor = anchor;
    threshold = threshold;
    elected_event_id = elected;
    elected_at = elected_at;
  }

  -- An open of an order that waits: it is elected if the price has reached the threshold.
  unfoldable pub wait :
      OrderIntent → OpeningEvent → Option StopObservation → Result StopError StopObservation
  wait i e previous = do
    (anchor, threshold) ← trigger i e (anchor_of previous)
    ok (
        if crosses i.side e.price threshold
        then observed i e previous anchor threshold (some e.event_id) (some e.opened_at)
        else observed i e previous anchor threshold none none)

  -- `_step`
  unfoldable pub step :
      OrderIntent → OpeningEvent → Option StopObservation → Result StopError StopObservation
  step i e none = do raise_if (not (is_eligible i e none)) not_eligible; wait i e none
  step i e (some p) = do
    raise_if (not (is_eligible i e (some p))) not_eligible
    (if is_some p.elected_event_id
        then ok (observed i e (some p) p.anchor p.threshold p.elected_event_id p.elected_at)
        else wait i e (some p))
