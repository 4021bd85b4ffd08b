-- ===== src/Ledger/Reconcile/Growth/Orders.antt =====
-- Orders, posted fees and marks of src/execution/ledger.py take nothing back.
use agentic_quant.Prelude.{◌≡◌, ap, Bool, List, [], ◌∷◌, arith, inl, inr, Bool-cases, Option-cases}
use agentic_quant.Prelude.Result.{ok, >>=-eq-ok}
use agentic_quant.Prelude.Dict.{lookup}
use agentic_quant.Domain.Common.{Text, Timestamp}
use agentic_quant.Domain.Orders.{OrderIntent, AccountFee}
use agentic_quant.Domain.Fills.{Fill, PriceMark}
use agentic_quant.Ledger.State.{OrderRow, Book, get_order, is_open, journal_at, account_fee_key}
use agentic_quant.Ledger.Orders.{submit, cancel, apply_account_fee, mark_one, mark_all}
use agentic_quant.Ledger.Orders.Stages.{
  submit_new_lem, cancel_open_lem, book_fee_lem, retry_fee_lem, mark_one_lem,
}
use agentic_quant.Ledger.Reconcile.Growth.Defs.{
  Grows, Grows-same, Grows-row, Grows-refl, Grows-trans,
}

pub submit-Grows :
    (allowed : Fill → Type 0) (i : OrderIntent) (b b1 : Book) (row : OrderRow)
    → submit i b ≡ ok (row, b1)
    → Grows allowed b b1
unfolding submit
submit-Grows allowed i b b1 row h = elim (Option-cases (lookup i.intent_id b.orders)) [
  | inl is_new ↦
      let (reserved, fresh, after, later) = submit_new_lem i b b1 row (rw (is_new, submit) at h) in
      Grows-row allowed b b1 _ (rw (ap Book.last_at after) later) (ap Book.journal after)
        (ap Book.events after) (ap Book.spec after) (ap Book.fills after)
  | inr (old, e) ↦ Grows-refl allowed b b1 (ground (arith, rw (e, submit) at h))
]

pub cancel-Grows :
    (allowed : Fill → Type 0) (id : Text) (at : Timestamp) (reason : Text) (r : Bool) (b b1 : Book)
    → cancel id at reason r b ≡ ok b1
    → Grows allowed b b1
unfolding cancel
cancel-Grows allowed id at reason r b b1 h =
    let (o, found, h1) = >>=-eq-ok (get_order id b) _ h in
    elim (Bool-cases (is_open o.status)) [
      | inr closed ↦ Grows-refl allowed b b1 (ground (arith, rw closed at h1))
      | inl opened ↦
          let (after, later) = cancel_open_lem o id at reason r b b1 (rw opened at h1) in
          Grows-row allowed b b1 _ (rw (ap Book.last_at after) later) (ap Book.journal after)
            (ap Book.events after) (ap Book.spec after) (ap Book.fills after)
    ]

pub apply_account_fee-Grows :
    (allowed : Fill → Type 0) (fee : AccountFee) (b b1 : Book) (d : Bool)
    → apply_account_fee fee b ≡ ok (d, b1)
    → Grows allowed b b1
unfolding apply_account_fee
apply_account_fee-Grows allowed fee b b1 d h =
    elim (Option-cases (journal_at (account_fee_key fee.fee_id) b.journal)) [
      | inl is_new ↦
          let (after, later) = book_fee_lem fee b b1 d (rw (is_new, apply_account_fee) at h) in
          Grows-row allowed b b1 _ (rw (ap Book.last_at after) later) (ap Book.journal after)
            (ap Book.events after) (ap Book.spec after) (ap Book.fills after)
      | inr (r, e) ↦
          Grows-refl allowed b b1 (retry_fee_lem fee b b1 r d (rw (e, apply_account_fee) at h))
    ]

pub mark_all-Grows :
    (allowed : Fill → Type 0) (ms : List PriceMark) (b b1 : Book)
    → mark_all ms b ≡ ok b1
    → Grows allowed b b1
unfolding mark_all
mark_all-Grows allowed [] b b1 h = Grows-refl allowed b b1 (ground (arith, h))
mark_all-Grows allowed (m ∷ ms) b b1 h =
    let (b2, marked, h1) = >>=-eq-ok (mark_one m b) _ h in
    let (after, later) = mark_one_lem m b b2 marked in
    Grows-trans allowed b b2 b1
      (Grows-same allowed b b2 (rw (ap Book.last_at after) later) (ap Book.journal after)
        (ap Book.events after) (ap Book.spec after) (ap Book.fills after))
      (mark_all-Grows allowed ms b2 b1 h1)
