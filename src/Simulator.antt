-- ===== src/Simulator.antt =====
-- src/execution/simulator.py: `PaperExecution`, which fills resting orders at observed opens; the
-- `FillPolicy` of src/domain/portfolio.py.
--
-- The object's account is the book's. An opening is given without the identity of a native print,
-- and the book has no receipt of such a print, so `require_new_event_source` of
-- src/execution/opening_sources.py has nothing to compare. Texts that are composed for people (the
-- details of a refusal, the message of an error) are parameters, as is the name of a fill.
pub mod Opening
pub mod Observed
pub mod Refinement
pub mod Opened
pub mod Runs
pub mod Consumed
pub mod Booked
pub mod Expiry
use agentic_quant.Prelude.Int.{pos, pos_part, neg_part, sub_ℕ, ltb_ℤ}
use agentic_quant.Prelude.{
  ◌*◌, ◌/◌, Bool, true, false, not, ◌&&◌, Option, none, some, List, [], ◌∷◌, leb, ◌==◌,
  if◌then◌else◌,
}
use agentic_quant.Prelude.Result.{Result, ok, err, ◌>>=◌, ◌>>◌, guard, raise_if}
use agentic_quant.Prelude.Dict.{Dict, lookup}
use agentic_quant.Decimal.{Decimal, unit, one, plus, times, divide}
use agentic_quant.Domain.Common.{Text, Timestamp, Instrument, is_crypto}
use agentic_quant.Domain.Orders.{OrderIntent, OrderError, valid_order, is_expired}
use agentic_quant.Domain.Bars.{larger}
use agentic_quant.Ledger.State.{
  LedgerError, account_mismatch, fee_understated, risk_rejected, invalid_contract, Ledger, OrderRow,
  Book, pending_orders,
}
use agentic_quant.Ledger.Orders.{submit, cancel}
use agentic_quant.Ledger.Snapshot.{snapshot}
use agentic_quant.RiskControls.{InstrumentRisk, RiskPolicy, Check, evaluate_order}

pub record FillPolicy : Type 0 where
  pub equity_cost_bps : Decimal
  pub crypto_cost_bps : Decimal
  pub slippage_bps : Decimal
  pub commission_per_unit : Decimal
  pub minimum_commission : Decimal
  pub opening_participation : Decimal

-- Ten thousand basis points.
abbrev pub all_bps : Decimal
all_bps = pos (10_000 * unit)

abbrev pub cost_bps : FillPolicy → Instrument → Decimal
cost_bps p i = if is_crypto i then p.crypto_cost_bps else p.equity_cost_bps

-- `FillPolicy.fee`
unfoldable pub policy_fee : FillPolicy → Instrument → Decimal → Decimal → Decimal → Decimal
policy_fee p i quantity price fx =
    plus (divide (times (times (times quantity price) fx) (cost_bps p i)) all_bps)
      (larger (times quantity p.commission_per_unit) p.minimum_commission)

-- `PaperExecution`, less the ledger.
pub record PaperExecution : Type 0 where
  pub account_id : Text
  pub policy : FillPolicy
  pub risk_policy : RiskPolicy

-- `model_validate`
abbrev pub valid_contract : Result OrderError (Unit {0}) → Ledger (Unit {0})
valid_contract (ok u) = ok u
valid_contract (err e) = err invalid_contract

abbrev pub passed : List Check → Bool
passed [] = true
passed (c ∷ cs) = false

-- The order is checked against a valuation that is not published.
unfoldable pub check_risk :
    PaperExecution → OrderIntent → Timestamp → Dict InstrumentRisk → Book → Ledger (List Check)
check_risk x i at metadata b = do
  (snap, b1) ← snapshot at x.risk_policy.max_price_age false b
  ok (evaluate_order i snap (pending_orders b1) metadata x.risk_policy)

unfoldable pub submit_checked :
    PaperExecution → OrderIntent → Dict InstrumentRisk → Book → Ledger (OrderRow × Book)
submit_checked x i metadata b = do
  raise_if
      (ltb_ℤ i.estimated_fee
        (policy_fee x.policy i.instrument i.quantity i.reference_price i.fx_rate))
      fee_understated
  failures ← check_risk x i i.decision_at metadata b
  guard (passed failures) risk_rejected
  submit i b

-- `PaperExecution.submit`
unfoldable pub paper_submit :
    PaperExecution → OrderIntent → Dict InstrumentRisk → Book → Ledger (OrderRow × Book)
paper_submit x i metadata b = do
  valid_contract (valid_order i)
  guard (i.account_id == x.account_id) account_mismatch
  elim (lookup i.intent_id b.orders) [
    | some old ↦ submit i b
    | none ↦ submit_checked x i metadata b
  ]

-- The text `expired`.
abbrev pub expired_reason : Text
expired_reason = 2

-- The loop of `expire_orders`: the ids that were due, and the book.
unfoldable pub expire_due : Timestamp → List OrderRow → Book → Ledger (List Text × Book)
expire_due at [] b = ok ([], b)
expire_due at (o ∷ rows) b = do
  b1 ←
      (if is_expired o.intent.expires_at at
        then cancel o.intent.intent_id at expired_reason false b
        else ok b)
  (ids, b2) ← expire_due at rows b1
  ok (if is_expired o.intent.expires_at at then o.intent.intent_id ∷ ids else ids, b2)

-- `expire_orders`
unfoldable pub expire_orders : Timestamp → Book → Ledger (List Text × Book)
expire_orders at b = expire_due at (pending_orders b) b

-- `to_integral_value(rounding=ROUND_DOWN)`
unfoldable pub whole : Decimal → Decimal
whole a = sub_ℕ (pos_part a / unit * unit) (neg_part a / unit * unit)
