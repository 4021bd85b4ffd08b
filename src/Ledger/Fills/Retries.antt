-- ===== src/Ledger/Fills/Retries.antt =====
-- Retries of `apply_fill` of src/execution/ledger.py.
use agentic_quant.Prelude.{
  Bool, false, ◌≡◌, refl, sym, ap, ◌∙◌, Option, some, arith, inl, inr, Option-cases, Bool-cases,
  same, same_refl, same→eq,
}
use agentic_quant.Prelude.Result.{ok, err}
use agentic_quant.Prelude.Dict.{lookup, lookup-insert_self}
use agentic_quant.Domain.Common.{Timestamp}
use agentic_quant.Domain.Fills.{Fill, Fill-discrete}
use agentic_quant.Ledger.State.{FillRow, OrderRow, Book, fill_reused}
use agentic_quant.Ledger.Fills.{Trade, fill_row, write_holding, write_trade, apply_fill}
use agentic_quant.Ledger.Fills.Debits.{apply_fees-fills}
use agentic_quant.Ledger.Fills.Stages.{book_fill-Booked, book_trade_lem, stored_trade}

trade_stored :
    (f : Fill) (o : OrderRow) (t : Trade) (b : Book)
    → lookup f.fill_id (write_trade f o t b).fills ≡ some (fill_row f t)
unfolding write_trade write_holding
trade_stored f o t b = lookup-insert_self f.fill_id (fill_row f t) b.fills

pub fill_stored :
    (f : Fill) (observed : Option Timestamp) (b b1 : Book) (d : Bool)
    → apply_fill f observed b ≡ ok (d, b1)
    → (row : FillRow) × (lookup f.fill_id b1.fills ≡ some row) × (row.fill ≡ f)
unfolding apply_fill
fill_stored f observed b b1 d h = elim (Option-cases (lookup f.fill_id b.fills)) [
  | inl is_new ↦
      let k = book_fill-Booked f observed b b1 d (rw (is_new, apply_fill) at h) in
      let t = stored_trade f k.order k.b2 in
      let (checked, after) = book_trade_lem f k.order k.b2 k.b3 k.traded in
      (
        fill_row f t,
        ap (lookup f.fill_id)
              (apply_fees-fills f k.booked_at f.inventory_fees k.b3 b1 k.paid ∙ ap Book.fills after)
            ∙ trade_stored f k.order t k.b2,
        refl,
      )
  | inr (old, e) ↦
      let h1 = rw (e, apply_fill) at h in
      elim (Bool-cases (same Fill-discrete old.fill f)) [
        | inr differs ↦ cc (rw differs at h1)
        | inl agrees ↦
            let same_book : b ≡ b1 = ground (arith, rw agrees at h1) in
            (
              old,
              ap (λ (x : Book). lookup f.fill_id x.fills) (sym same_book) ∙ e,
              same→eq Fill-discrete old.fill f agrees,
            )
      ]
]

-- A fill that was applied may be delivered again, with any receipt: it is known, and the book stays
-- as it is.
pub apply_fill_retry :
    (f : Fill) (observed observed2 : Option Timestamp) (b b1 : Book) (d : Bool)
    → apply_fill f observed b ≡ ok (d, b1)
    → apply_fill f observed2 b1 ≡ ok (false, b1)
unfolding apply_fill
apply_fill_retry f observed observed2 b b1 d h =
    let (row, stored, own) = fill_stored f observed b b1 d h in
    rw (stored, apply_fill) (rw own (rw (same_refl Fill-discrete f)))

-- After a fill was applied, another fill under its id is refused.
pub apply_fill_reused :
    (f g : Fill) (observed observed2 : Option Timestamp) (b b1 : Book) (d : Bool)
    → apply_fill f observed b ≡ ok (d, b1)
    → g.fill_id ≡ f.fill_id
    → same Fill-discrete f g ≡ false
    → apply_fill g observed2 b1 ≡ err fill_reused
unfolding apply_fill
apply_fill_reused f g observed observed2 b b1 d h same_id differs =
    let (row, stored, own) = fill_stored f observed b b1 d h in
    let here : lookup g.fill_id b1.fills ≡ some row = rw same_id stored in
    rw (here, apply_fill) (rw own (rw differs))
