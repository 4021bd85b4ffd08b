-- ===== src/Simulator/Refinement.antt =====
-- Every operation of `PaperExecution`, src/execution/simulator.py, is a sequence of operations of the
-- ledger.
use agentic_quant.Ledger.Reconcile.Explained.{Plain}
use agentic_quant.Prelude.{
  Bool, false, ◌≡◌, arith, List, [], ◌∷◌, inl, inr, Option-cases, Bool-cases, ◌==◌, if◌then◌else◌,
}
use agentic_quant.Prelude.Result.{ok, >>=-eq-ok, guard-eq-ok, raise_if-eq-ok}
use agentic_quant.Prelude.Dict.{Dict, lookup}
use agentic_quant.Domain.Common.{Text, Timestamp, Instrument}
use agentic_quant.Domain.Orders.{OrderIntent, is_expired, valid_order}
use agentic_quant.Ledger.State.{
  account_mismatch, fee_understated, risk_rejected, OrderRow, Book, pending_orders,
}
use agentic_quant.Ledger.Orders.{cancel}
use agentic_quant.Ledger.Reconcile.Reach.{Step, Steps}
use agentic_quant.Ledger.Reconcile.Steps.{Steps-one, Steps-trans}
use agentic_quant.Ledger.Reconcile.Sound.{Mastered}
use agentic_quant.RiskControls.{InstrumentRisk}
use agentic_quant.Simulator.{
  PaperExecution, passed, check_risk, valid_contract, submit_checked, paper_submit, expired_reason,
  expire_due, expire_orders,
}

module _ (master : Text → Instrument) where
  pub cancel-Steps :
      (id : Text) (at : Timestamp) (reason : Text) (r : Bool) (b b1 : Book)
      → cancel id at reason r b ≡ ok b1
      → Steps master Plain b b1
  cancel-Steps id at reason r b b1 h = Steps-one master Plain b b1 (Step.cancelled id at reason r h)

  pub expire_due-Steps :
      (at : Timestamp) (rows : List OrderRow) (ids : List Text) (b b2 : Book)
      → expire_due at rows b ≡ ok (ids, b2)
      → Steps master Plain b b2
  unfolding expire_due
  expire_due-Steps at [] ids b b2 h = Steps.stay (ground (arith, h))
  expire_due-Steps at (o ∷ rows) ids b b2 h =
      let (b1, first, h1) =
        >>=-eq-ok
          (if is_expired o.intent.expires_at at
            then cancel o.intent.intent_id at expired_reason false b
            else ok b)
          _ h in
      let (r, rest, h2) =
        >>=-eq-ok (expire_due at rows b1)
          (λ (x : List Text × Book).
            ok (if is_expired o.intent.expires_at at then o.intent.intent_id ∷ x.0 else x.0, x.1))
          h1 in
      let last : r.1 ≡ b2 = ground (arith, h2) in
      Steps-trans master Plain b b1 b2
        (elim (Bool-cases (is_expired o.intent.expires_at at)) [
          | inl due ↦ cancel-Steps o.intent.intent_id at expired_reason false b b1 (rw due at first)
          | inr not_due ↦ Steps.stay (ground (arith, rw not_due at first))
        ])
        (Steps-trans master Plain b1 r.1 b2 (expire_due-Steps at rows r.0 b1 r.1 rest)
          (Steps.stay last))

  pub expire_orders-Steps :
      (at : Timestamp) (ids : List Text) (b b1 : Book)
      → expire_orders at b ≡ ok (ids, b1)
      → Steps master Plain b b1
  unfolding expire_orders
  expire_orders-Steps at ids b b1 h = expire_due-Steps at (pending_orders b) ids b b1 h

  submit_checked-Steps :
      (x : PaperExecution) (i : OrderIntent) (metadata : Dict InstrumentRisk) (b b1 : Book)
      (row : OrderRow)
      → Mastered master i.instrument
      → submit_checked x i metadata b ≡ ok (row, b1)
      → Steps master Plain b b1
  unfolding submit_checked
  submit_checked-Steps x i metadata b b1 row m h =
      let (enough, h1) = raise_if-eq-ok _ fee_understated _ h in
      let (failures, checked, h2) = >>=-eq-ok (check_risk x i i.decision_at metadata b) _ h1 in
      let (fine, h3) = guard-eq-ok (passed failures) risk_rejected _ h2 in
      Steps-one master Plain b b1 (Step.submitted i m h3)

  pub paper_submit-Steps :
      (x : PaperExecution) (i : OrderIntent) (metadata : Dict InstrumentRisk) (b b1 : Book)
      (row : OrderRow)
      → Mastered master i.instrument
      → paper_submit x i metadata b ≡ ok (row, b1)
      → Steps master Plain b b1
  unfolding paper_submit
  paper_submit-Steps x i metadata b b1 row m h =
      let (u, valid, h1) = >>=-eq-ok (valid_contract (valid_order i)) _ h in
      let (own, h2) = guard-eq-ok (i.account_id == x.account_id) account_mismatch _ h1 in
      elim (Option-cases (lookup i.intent_id b.orders)) [
        | inr (old, e) ↦ Steps-one master Plain b b1 (Step.submitted i m (rw e at h2))
        | inl is_new ↦ submit_checked-Steps x i metadata b b1 row m (rw is_new at h2)
      ]
