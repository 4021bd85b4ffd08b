-- ===== src/Domain/Bars.antt =====
-- src/domain/portfolio.py: completed bars, opening prints and corporate actions.
use agentic_quant.Prelude.Int.{leb_ℤ, ltb_ℤ}
use agentic_quant.Prelude.{
  Bool, true, not, ◌&&◌, ◌≡◌, Option, none, some, ltb, leb, ◌==◌, if◌then◌else◌, arith, ℕ_discrete,
}
use agentic_quant.Decimal.{Decimal, is_positive, is_nonnegative}
use agentic_quant.Domain.Common.{Text, Timestamp, Date, Instrument, Instrument-discrete, is_crypto}

pub record ExecutionBar : Type 0 where
  pub event_id : Text
  pub instrument : Instrument
  pub opened_at : Timestamp
  pub closed_at : Timestamp
  pub opening_price : Decimal
  pub high : Decimal
  pub low : Decimal
  pub close : Decimal
  pub volume : Decimal
  pub opening_volume : Decimal
  pub fx_rate : Decimal
  pub calendar : Text
  pub calendar_version : Text
  pub session : Date
  pub session_open : Timestamp
  pub session_close : Timestamp
  pub tradable : Bool
  pub opening_event_id : Option Text

pub Bool-discrete : Discrete Bool
Bool-discrete = hlevel

unfoldable pub ExecutionBar-discrete : Discrete ExecutionBar
ExecutionBar-discrete = hlevel (ℕ_discrete, Instrument-discrete, Bool-discrete)

-- Python's `min` and `max` of two decimals.
abbrev pub smaller : Decimal → Decimal → Decimal
smaller a b = if ltb_ℤ b a then b else a

abbrev pub larger : Decimal → Decimal → Decimal
larger a b = if ltb_ℤ a b then b else a

-- The text `24/7`.
abbrev pub all_hours : Text
all_hours = 247

unfoldable pub valid_bar : ExecutionBar → Bool
valid_bar b =
    is_positive b.opening_price
    && is_positive b.high
    && is_positive b.low
    && is_positive b.close
    && is_nonnegative b.volume
    && is_nonnegative b.opening_volume
    && is_positive b.fx_rate
    && leb b.session_open b.opened_at
    && ltb b.opened_at b.closed_at
    && leb b.closed_at b.session_close
    && leb_ℤ b.low (smaller b.opening_price b.close)
    && leb_ℤ (smaller b.opening_price b.close) (larger b.opening_price b.close)
    && leb_ℤ (larger b.opening_price b.close) b.high
    && leb_ℤ b.opening_volume b.volume
    && not (is_crypto b.instrument && not (b.calendar == all_hours))
    && not (not (is_crypto b.instrument) && b.calendar == all_hours)

pub record OpeningEvent : Type 0 where
  pub event_id : Text
  pub instrument : Instrument
  pub opened_at : Timestamp
  pub price : Decimal
  pub opening_volume : Decimal
  pub fx_rate : Decimal
  pub calendar : Text
  pub calendar_version : Text
  pub session : Date
  pub session_open : Timestamp
  pub session_close : Timestamp
  pub tradable : Bool

unfoldable pub OpeningEvent-discrete : Discrete OpeningEvent
OpeningEvent-discrete = hlevel (ℕ_discrete, Instrument-discrete, Bool-discrete)

-- `causal_open`, with the declared types of the fields.
unfoldable pub valid_opening : OpeningEvent → Bool
valid_opening e =
    is_positive e.price
    && is_nonnegative e.opening_volume
    && is_positive e.fx_rate
    && leb e.session_open e.opened_at
    && ltb e.opened_at e.session_close
    && (if is_crypto e.instrument then e.calendar == all_hours else not (e.calendar == all_hours))

abbrev or_else : Option Text → Text → Text
or_else none d = d
or_else (some t) d = t

unfoldable pub from_bar : ExecutionBar → OpeningEvent
from_bar bar = record {
  event_id = or_else bar.opening_event_id bar.event_id;
  instrument = bar.instrument;
  opened_at = bar.opened_at;
  price = bar.opening_price;
  opening_volume = bar.opening_volume;
  fx_rate = bar.fx_rate;
  calendar = bar.calendar;
  calendar_version = bar.calendar_version;
  session = bar.session;
  session_open = bar.session_open;
  session_close = bar.session_close;
  tradable = bar.tradable;
}

-- The opening event that a valid bar declares is a valid one: `from_bar` never raises on its own
-- validation.
pub from_bar_valid :
    (bar : ExecutionBar) → valid_bar bar ≡ true → valid_opening (from_bar bar) ≡ true
unfolding valid_bar valid_opening from_bar
from_bar_valid bar h = ground arith

pub data ActionKind : Type 0 where
  split dividend delist : ActionKind

unfoldable pub ActionKind-discrete : Discrete ActionKind
ActionKind-discrete = hlevel

pub record CorporateAction : Type 0 where
  pub action_id : Text
  pub instrument : Instrument
  pub effective_at : Timestamp
  pub kind : ActionKind
  pub value : Decimal
  pub source_id : Text

unfoldable pub CorporateAction-discrete : Discrete CorporateAction
CorporateAction-discrete = hlevel (ℕ_discrete, Instrument-discrete, ActionKind-discrete)

-- `split_positive`, with the declared type of the value.
pub valid_action : CorporateAction → Bool
valid_action a =
    is_nonnegative a.value && elim a.kind [ ActionKind.split ↦ is_positive a.value | _ ↦ true ]
