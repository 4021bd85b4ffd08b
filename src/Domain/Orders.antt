-- ===== src/Domain/Orders.antt =====
-- src/domain/portfolio.py: accounts, order intents and posted fees.
use agentic_quant.Prelude.Int.{pos, ltb_ℤ}
use agentic_quant.Prelude.{
  ◌*◌, Bool, true, false, not, ◌&&◌, ◌||◌, Option, none, some, leb, is_some, if◌then◌else◌,
  ℕ_discrete,
}
use agentic_quant.Prelude.Result.{Result, ◌>>◌, raise_if}
use agentic_quant.Decimal.{Decimal, unit, is_positive, is_nonnegative}
use agentic_quant.Domain.Common.{Text, Timestamp, Date, date_of, Instrument, Instrument-discrete}

pub data Mode : Type 0 where
  paper backtest live : Mode

unfoldable pub Mode-discrete : Discrete Mode
Mode-discrete = hlevel

pub record AccountSpec : Type 0 where
  pub account_id : Text
  pub mode : Mode
  pub base_currency : Text
  pub initial_cash : Decimal
  pub opened_at : Timestamp

unfoldable pub AccountSpec-discrete : Discrete AccountSpec
AccountSpec-discrete = hlevel (ℕ_discrete, Mode-discrete)

pub data Side : Type 0 where
  buy sell : Side

unfoldable pub Side-discrete : Discrete Side
Side-discrete = hlevel

pub data OrderType : Type 0 where
  market limit stop trailing_stop : OrderType

unfoldable pub OrderType-discrete : Discrete OrderType
OrderType-discrete = hlevel

pub data Tif : Type 0 where
  gtc day ioc fok : Tif

unfoldable pub Tif-discrete : Discrete Tif
Tif-discrete = hlevel

pub record OrderIntent : Type 0 where
  pub intent_id : Text
  pub account_id : Text
  pub run_id : Text
  pub instrument : Instrument
  pub side : Side
  pub quantity : Decimal
  pub decision_at : Timestamp
  pub eligible_at : Timestamp
  pub reference_price : Decimal
  pub fx_rate : Decimal
  pub estimated_fee : Decimal
  pub strategy_id : Text
  pub order_type : OrderType
  pub limit_price : Option Decimal
  pub stop_price : Option Decimal
  pub trail_price : Option Decimal
  pub trail_percent : Option Decimal
  pub tif : Tif
  pub expires_at : Option Timestamp

unfoldable pub OrderIntent-discrete : Discrete OrderIntent
OrderIntent-discrete =
    hlevel (ℕ_discrete, Instrument-discrete, Side-discrete, OrderType-discrete, Tif-discrete)

pub data OrderError : Type 0 where
  field_constraint not_causal no_limit_price no_stop_price trail_terms trail_fixed_price :
      OrderError
  trail_tif stray_trail_terms day_without_expiry empty_interval : OrderError

abbrev pub optionally : (Decimal → Bool) → Option Decimal → Bool
optionally test none = true
optionally test (some d) = test d

-- The declared types of the fields: Positive, NonNegative, and `gt=0, lt=100`.
abbrev pub order_fields : OrderIntent → Bool
order_fields o =
    is_positive o.quantity
    && is_positive o.reference_price
    && is_positive o.fx_rate
    && is_nonnegative o.estimated_fee
    && optionally is_positive o.limit_price
    && optionally is_positive o.stop_price
    && optionally is_positive o.trail_price
    && optionally (λ d. is_positive d && ltb_ℤ d (pos (100 * unit))) o.trail_percent

-- What the order's type asks of its prices.
abbrev pub order_terms : OrderType → OrderIntent → Result OrderError (Unit {0})
order_terms OrderType.market o =
    raise_if (is_some o.trail_price || is_some o.trail_percent) stray_trail_terms
order_terms OrderType.limit o = do
  raise_if (not (is_some o.limit_price)) no_limit_price
  raise_if (is_some o.trail_price || is_some o.trail_percent) stray_trail_terms
order_terms OrderType.stop o = do
  raise_if (not (is_some o.stop_price)) no_stop_price
  raise_if (is_some o.trail_price || is_some o.trail_percent) stray_trail_terms
order_terms OrderType.trailing_stop o = do
  raise_if
      (if is_some o.trail_price then is_some o.trail_percent else not (is_some o.trail_percent))
      trail_terms
  raise_if (is_some o.limit_price || is_some o.stop_price) trail_fixed_price
  raise_if (elim o.tif [ Tif.ioc ↦ true | Tif.fok ↦ true | _ ↦ false ]) trail_tif

abbrev pub is_day : Tif → Bool
is_day Tif.day = true
is_day _ = false

-- `expires_at is not None and expires_at <= at`
abbrev pub is_expired : Option Timestamp → Timestamp → Bool
is_expired none at = false
is_expired (some e) at = leb e at

unfoldable pub valid_order : OrderIntent → Result OrderError (Unit {0})
valid_order o = do
  raise_if (not (order_fields o)) field_constraint
  raise_if (leb o.eligible_at o.decision_at) not_causal
  order_terms o.order_type o
  raise_if (is_day o.tif && not (is_some o.expires_at)) day_without_expiry
  raise_if (is_expired o.expires_at o.eligible_at) empty_interval

pub record AccountFee : Type 0 where
  pub fee_id : Text
  pub account_id : Text
  pub amount : Decimal
  pub currency : Text
  pub effective_date : Date
  pub observed_at : Timestamp
  pub source_hash : Text
  pub intent_id : Option Text

unfoldable pub AccountFee-discrete : Discrete AccountFee
AccountFee-discrete = hlevel ℕ_discrete

-- `causal`, with the amount's declared type.
pub valid_account_fee : AccountFee → Bool
valid_account_fee f = is_positive f.amount && leb f.effective_date (date_of f.observed_at)
