-- ===== src/Simulator/Expiry.antt =====
-- `expire_orders` of src/execution/simulator.py ends what is due.
use agentic_quant.Prelude.{
  Bool, true, false, ◌≡◌, ◌⊎◌, refl, ap, subst, ◌∙◌, arith, some, List, [], ◌∷◌, inl, inr,
  Bool-cases, ◌==◌, ==_iff, if◌then◌else◌,
}
use agentic_quant.Prelude.Lists.{AllOf}
use agentic_quant.Prelude.Result.{ok, >>=-eq-ok}
use agentic_quant.Prelude.Dict.{lookup, lookup-insert, lookup-insert_self}
use agentic_quant.Domain.Common.{Text, Timestamp}
use agentic_quant.Domain.Orders.{is_expired}
use agentic_quant.Ledger.State.{OrderRow, Book, get_order, is_open, pending_orders}
use agentic_quant.Ledger.State.Effects.{get_order_lem}
use agentic_quant.Ledger.Orders.{cancel, end_status}
use agentic_quant.Ledger.Orders.Stages.{cancel_open_lem}
use agentic_quant.Simulator.{expired_reason, expire_due, expire_orders}

-- The order is stored, and is neither pending nor partly filled.
pub record Closed (b : Book) (id : Text) : Type 0 where
  pub row : OrderRow
  pub found : lookup id b.orders ≡ some row
  pub ended : is_open row.status ≡ false

end_status_ended : (r : Bool) → is_open (end_status r) ≡ false
end_status_ended true = refl
end_status_ended false = refl

cancel-Closed :
    (id : Text) (at : Timestamp) (reason : Text) (r : Bool) (b b1 : Book)
    → cancel id at reason r b ≡ ok b1
    → Closed b1 id
unfolding cancel
cancel-Closed id at reason r b b1 h =
    let (o, found, h1) = >>=-eq-ok (get_order id b) _ h in
    elim (Bool-cases (is_open o.status)) [
      | inr closed ↦
          let same_book : b ≡ b1 = ground (arith, rw closed at h1) in
          subst (λ (x : Book). Closed x id) same_book
            (record { row = o; found = get_order_lem id b o found; ended = closed })
      | inl opened ↦
          let after = (cancel_open_lem o id at reason r b b1 (rw opened at h1)).0 in
          record {
            row = _;
            found = ap (λ (x : Book). lookup id x.orders) after ∙ lookup-insert_self id _ b.orders;
            ended = end_status_ended r;
          }
    ]

-- A cancellation opens nothing again.
cancel_keeps-Closed :
    (id j : Text) (at : Timestamp) (reason : Text) (r : Bool) (b b1 : Book)
    → cancel id at reason r b ≡ ok b1
    → Closed b j
    → Closed b1 j
unfolding cancel
cancel_keeps-Closed id j at reason r b b1 h k = elim (Bool-cases (id == j)) [
  | inl own ↦ subst (Closed b1) ((==_iff id j).0 own) (cancel-Closed id at reason r b b1 h)
  | inr other ↦
      let (o, found, h1) = >>=-eq-ok (get_order id b) _ h in
      elim (Bool-cases (is_open o.status)) [
        | inr closed ↦
            let same_book : b ≡ b1 = ground (arith, rw closed at h1) in
            subst (λ (x : Book). Closed x j) same_book k
        | inl opened ↦
            let after = (cancel_open_lem o id at reason r b b1 (rw opened at h1)).0 in
            record {
              row = k.row;
              found =
                  ap (λ (x : Book). lookup j x.orders) after
                  ∙ lookup-insert j id _ b.orders
                  ∙ rw other k.found;
              ended = k.ended;
            }
      ]
]

abbrev pub DueClosed : Timestamp → Book → OrderRow → Type 0
DueClosed at b o = (is_expired o.intent.expires_at at ≡ false) ⊎ Closed b o.intent.intent_id

-- One turn of the loop, and the rest.
record Turn (at : Timestamp) (o : OrderRow) (rows : List OrderRow) (b b2 : Book) : Type 0 where
  b1 : Book
  rest_ids : List Text
  first :
      (if is_expired o.intent.expires_at at
        then cancel o.intent.intent_id at expired_reason false b
        else ok b)
      ≡ ok b1
  rest : expire_due at rows b1 ≡ ok (rest_ids, b2)

expire_due_lem :
    (at : Timestamp) (o : OrderRow) (rows : List OrderRow) (ids : List Text) (b b2 : Book)
    → expire_due at (o ∷ rows) b ≡ ok (ids, b2)
    → Turn at o rows b b2
unfolding expire_due
expire_due_lem at o rows ids b b2 h =
    let (b1, first, h1) =
      >>=-eq-ok
        (if is_expired o.intent.expires_at at
          then cancel o.intent.intent_id at expired_reason false b
          else ok b)
        _ h in
    let (r, rest, h2) =
      >>=-eq-ok (expire_due at rows b1)
        (λ (x : List Text × Book).
          ok (if is_expired o.intent.expires_at at then o.intent.intent_id ∷ x.0 else x.0, x.1))
        h1 in
    let last : r.1 ≡ b2 = ground (arith, h2) in
    record {
      b1 = b1;
      rest_ids = r.0;
      first = first;
      rest = subst (λ (x : Book). expire_due at rows b1 ≡ ok (r.0, x)) last rest;
    }

expire_due_keeps-Closed :
    (at : Timestamp) (j : Text) (rows : List OrderRow) (ids : List Text) (b b2 : Book)
    → expire_due at rows b ≡ ok (ids, b2)
    → Closed b j
    → Closed b2 j
unfolding expire_due
expire_due_keeps-Closed at j [] ids b b2 h k =
    subst (λ (x : Book). Closed x j) (let e : b ≡ b2 = ground (arith, h) in e) k
expire_due_keeps-Closed at j (o ∷ rows) ids b b2 h k =
    let t = expire_due_lem at o rows ids b b2 h in
    expire_due_keeps-Closed at j rows t.rest_ids t.b1 b2 t.rest
      (elim (Bool-cases (is_expired o.intent.expires_at at)) [
        | inl due ↦
            cancel_keeps-Closed o.intent.intent_id j at expired_reason false b t.b1
              (rw due at t.first) k
        | inr waits ↦
            subst (λ (x : Book). Closed x j)
              (let e : b ≡ t.b1 = ground (arith, rw waits at t.first) in e) k
      ])

expire_due-DueClosed :
    (at : Timestamp) (rows : List OrderRow) (ids : List Text) (b b2 : Book)
    → expire_due at rows b ≡ ok (ids, b2)
    → AllOf (DueClosed at b2) rows
expire_due-DueClosed at [] ids b b2 h = tt
expire_due-DueClosed at (o ∷ rows) ids b b2 h =
    let t = expire_due_lem at o rows ids b b2 h in
    (
      elim (Bool-cases (is_expired o.intent.expires_at at)) [
        | inr waits ↦ inl waits
        | inl due ↦ inr (
            expire_due_keeps-Closed at o.intent.intent_id rows t.rest_ids t.b1 b2 t.rest
              (cancel-Closed o.intent.intent_id at expired_reason false b t.b1 (rw due at t.first)))
      ],
      expire_due-DueClosed at rows t.rest_ids t.b1 b2 t.rest,
    )

-- After an `expire_orders` that returned, every order that rested before was not due, or is
-- closed.
pub expire_orders-DueClosed :
    (at : Timestamp) (ids : List Text) (b b1 : Book)
    → expire_orders at b ≡ ok (ids, b1)
    → AllOf (DueClosed at b1) (pending_orders b)
unfolding expire_orders
expire_orders-DueClosed at ids b b1 h = expire_due-DueClosed at (pending_orders b) ids b b1 h
