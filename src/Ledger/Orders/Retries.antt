-- ===== src/Ledger/Orders/Retries.antt =====
-- Retries of `submit`, `cancel` and `apply_account_fee` of src/execution/ledger.py.
use agentic_quant.Prelude.{
  Bool, true, false, ◌≤◌, ◌≡◌, refl, ap, ◌∙◌, none, some, List, [], ◌∷◌, ◌++◌, arith, inl, inr,
  Option-cases, Bool-cases, same, same_refl, same→eq,
}
use agentic_quant.Prelude.Result.{ok, err, >>=-eq-ok}
use agentic_quant.Prelude.Dict.{lookup, lookup-insert_self}
use agentic_quant.Domain.Common.{Text, Timestamp}
use agentic_quant.Domain.Orders.{OrderIntent, OrderIntent-discrete, AccountFee, AccountFee-discrete}
use agentic_quant.Ledger.State.{
  OrderRow, Key, Key-discrete, JournalRow, Book, intent_reused, account_fee_key, journal_at,
  get_order, is_open,
}
use agentic_quant.Ledger.State.Effects.{get_order_lem}
use agentic_quant.Ledger.Orders.{submit, cancel, end_status, apply_account_fee}
use agentic_quant.Ledger.Orders.Stages.{submit_new_lem, cancel_open_lem, book_fee_lem}

-- What `submit` returns is the order that is stored, under the intent's id and with that intent.
submit_stored :
    (i : OrderIntent) (b b1 : Book) (row : OrderRow)
    → submit i b ≡ ok (row, b1)
    → (lookup i.intent_id b1.orders ≡ some row) × (row.intent ≡ i)
unfolding submit
submit_stored i b b1 row h = elim (Option-cases (lookup i.intent_id b.orders)) [
  | inl is_new ↦
      let (reserved, fresh, after, later) = submit_new_lem i b b1 row (rw (is_new, submit) at h) in
      (
        ap (λ (x : Book). lookup i.intent_id x.orders) after
            ∙ lookup-insert_self i.intent_id row b.orders,
        ap OrderRow.intent fresh,
      )
  | inr (old, e) ↦
      let h1 = rw (e, submit) at h in
      elim (Bool-cases (same OrderIntent-discrete old.intent i)) [
        | inr differs ↦ cc (rw differs at h1)
        | inl agrees ↦
            let k = rw agrees at h1 in
            let here : old ≡ row = cc k in
            let same_book : b ≡ b1 = cc k in
            (
              rw (← same_book, ← here) e,
              rw (← here) (same→eq OrderIntent-discrete old.intent i agrees),
            )
      ]
]

-- An order that was submitted may be sent again: the answer is the same order, and nothing changes.
pub submit_retry :
    (i : OrderIntent) (b b1 : Book) (row : OrderRow)
    → submit i b ≡ ok (row, b1)
    → submit i b1 ≡ ok (row, b1)
unfolding submit
submit_retry i b b1 row h =
    let (stored, own) = submit_stored i b b1 row h in
    rw (stored, submit) (rw own (rw (same_refl OrderIntent-discrete i)))

-- After an order was submitted, another intent under the same id is refused.
pub submit_reused :
    (i j : OrderIntent) (b b1 : Book) (row : OrderRow)
    → submit i b ≡ ok (row, b1)
    → j.intent_id ≡ i.intent_id
    → same OrderIntent-discrete i j ≡ false
    → submit j b1 ≡ err intent_reused
unfolding submit
submit_reused i j b b1 row h same_id differs =
    let (stored, own) = submit_stored i b b1 row h in
    let here : lookup j.intent_id b1.orders ≡ some row = rw same_id stored in
    rw (here, submit) (rw own (rw differs))

cancelled_order :
    (id : Text) (at : Timestamp) (reason : Text) (is_rejection : Bool) (b b1 : Book)
    → cancel id at reason is_rejection b ≡ ok b1
    → (o : OrderRow) × (lookup id b1.orders ≡ some o) × (is_open o.status ≡ false)
unfolding cancel
cancelled_order id at reason is_rejection b b1 h =
    let (o, found, h1) = >>=-eq-ok (get_order id b) _ h in
    let row = get_order_lem id b o found in
    elim (Bool-cases (is_open o.status)) [
      | inr closed ↦
          let same_book : b ≡ b1 = ground (arith, rw closed at h1) in
          (o, rw (← same_book) row, closed)
      | inl opened ↦
          let (after, later) = cancel_open_lem o id at reason is_rejection b b1 (rw opened at h1) in
          (
            _,
            ap (λ (x : Book). lookup id x.orders) after ∙ lookup-insert_self id _ b.orders,
            ends is_rejection,
          )
    ]
  where
    ends : (r : Bool) → is_open (end_status r) ≡ false
    ends true = refl
    ends false = refl

-- A cancellation ends the order for good: any later cancellation of it leaves the book as it is,
-- with whatever time, reason or status.
pub cancel_again :
    (id : Text) (at at2 : Timestamp) (reason reason2 : Text) (r r2 : Bool) (b b1 : Book)
    → cancel id at reason r b ≡ ok b1
    → cancel id at2 reason2 r2 b1 ≡ ok b1
unfolding cancel get_order
cancel_again id at at2 reason reason2 r r2 b b1 h =
    let (o, stored, closed) = cancelled_order id at reason r b b1 h in rw (stored, closed)

pub journal_at-++ :
    (k : Key) (rows : List JournalRow) (r : JournalRow)
    → journal_at k rows ≡ none
    → r.key ≡ k
    → journal_at k (rows ++ r ∷ []) ≡ some r
unfolding journal_at
journal_at-++ k [] r absent own = rw (own, same_refl Key-discrete k)
journal_at-++ k (q ∷ rows) r absent own = elim (Bool-cases (same Key-discrete q.key k)) [
  | inl found ↦ cc (rw found at absent)
  | inr other ↦ rw other (journal_at-++ k rows r (rw other at absent) own)
]

-- A posted fee that was booked may be observed again, at the same time or later: the answer is that
-- it is known, and the book stays as it is.
pub book_fee_retry :
    (fee : AccountFee) (at : Timestamp) (b b1 : Book) (d : Bool)
    → journal_at (account_fee_key fee.fee_id) b.journal ≡ none
    → apply_account_fee fee b ≡ ok (d, b1)
    → fee.observed_at ≤ at
    → apply_account_fee (record fee { observed_at = at }) b1 ≡ ok (false, b1)
unfolding apply_account_fee
book_fee_retry fee at b b1 d is_new h later =
    let (after, clocked) = book_fee_lem fee b b1 d (rw (is_new, apply_account_fee) at h) in
    let found =
      ap (λ (x : Book). journal_at (account_fee_key fee.fee_id) x.journal) after
      ∙ journal_at-++ (account_fee_key fee.fee_id) b.journal _ is_new refl in
    rw (found, apply_account_fee)
      (rw (same_refl AccountFee-discrete (record fee { observed_at = at })) (ground arith))
