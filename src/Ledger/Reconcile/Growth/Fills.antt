-- ===== src/Ledger/Reconcile/Growth/Fills.antt =====
-- Fills and their debits in kind, src/execution/ledger.py and src/execution/inventory_fees.py, take
-- nothing back.
use agentic_quant.Prelude.{
  ◌≡◌, refl, sym, ap, ◌∙◌, Bool, Option, List, [], ◌∷◌, ◌++◌, arith, inl, inr, some, none, ◌||◌,
  ltb, subst, Option-cases, Bool-cases, ◌==◌, ◌⊎◌,
}
use agentic_quant.Prelude.Result.{ok, >>=-eq-ok, raise_if-eq-ok}
use agentic_quant.Prelude.Dict.{Dict, lookup, insert, lookup-insert}
use agentic_quant.Decimal.{Decimal}
use agentic_quant.Domain.Common.{Text, Timestamp}
use agentic_quant.Domain.Fills.{Fill, InventoryFee}
use agentic_quant.Ledger.State.{
  FillRow, OrderRow, Event, Book, record_event, receipt_before_execution, chronology,
}
use agentic_quant.Ledger.Fills.{
  Trade, write_holding, write_trade, write_fee, quantity_left, apply_fee, apply_fees, apply_fill,
}
use agentic_quant.Ledger.State.Effects.{clock_lem}
use agentic_quant.Ledger.Reconcile.Filled.{receive_lem}
use agentic_quant.Ledger.Fills.{fill_row}
use agentic_quant.Ledger.Fills.Stages.{
  Booked, book_fill-Booked, book_trade_lem, stored_trade, trade_row,
}
use agentic_quant.Ledger.Fills.Debits.{fee_row, apply_fee-Paid}
use agentic_quant.Ledger.Fills.{is_backtest, later_than, latest_economic, receive, book_trade}
use agentic_quant.Ledger.Reconcile.Growth.Defs.{
  Grows, ++_nil, Grows-row, Grows-refl, Grows-trans, clock-Grows, record_event-Grows,
}

write_trade_kept :
    (f : Fill) (o : OrderRow) (t : Trade) (b : Book)
    → ((write_trade f o t b).last_at ≡ b.last_at)
      × ((write_trade f o t b).journal ≡ b.journal)
      × ((write_trade f o t b).events ≡ b.events)
      × ((write_trade f o t b).spec ≡ b.spec)
      × ((write_trade f o t b).fills ≡ insert f.fill_id (fill_row f t) b.fills)
unfolding write_trade write_holding
write_trade_kept f o t b = (refl, refl, refl, refl, refl)

write_fee_kept :
    (f : Fill) (fee : InventoryFee) (left basis removed : Decimal) (b : Book)
    → ((write_fee f fee left basis removed b).last_at ≡ b.last_at)
      × ((write_fee f fee left basis removed b).journal ≡ b.journal)
      × ((write_fee f fee left basis removed b).events ≡ b.events)
      × ((write_fee f fee left basis removed b).spec ≡ b.spec)
      × ((write_fee f fee left basis removed b).fills ≡ b.fills)
unfolding write_fee write_holding
write_fee_kept f fee left basis removed b = (refl, refl, refl, refl, refl)

apply_fees-Grows :
    (allowed : Fill → Type 0) (f : Fill) (at : Timestamp) (rest : List InventoryFee) (b b4 : Book)
    → apply_fees f at rest b ≡ ok b4
    → Grows allowed b b4
unfolding apply_fees
apply_fees-Grows allowed f at [] b b4 h = Grows-refl allowed b b4 (ground (arith, h))
apply_fees-Grows allowed f at (fee ∷ rest) b b4 h =
    let (b1, paid, h1) = >>=-eq-ok (apply_fee f at fee b) _ h in
    let k = apply_fee-Paid f at fee b b1 paid in
    let (same_clock, same_rows, same_facts, same_spec, same_fills) =
      write_fee_kept f fee (quantity_left fee k.row) k.row.basis k.removed b in
    let grown : Grows allowed b b1 =
      Grows-row allowed b b1 (fee_row f fee k.removed)
        (rw (ap Book.last_at k.after, same_clock) (omega arith))
        (ap Book.journal k.after ∙ ap (λ x. x ++ fee_row f fee k.removed ∷ []) same_rows)
        (ap Book.events k.after ∙ same_facts) (ap Book.spec k.after ∙ same_spec)
        (ap Book.fills k.after ∙ same_fills) in
    Grows-trans allowed b b1 b4 grown (apply_fees-Grows allowed f at rest b1 b4 h1)

receive-Grows :
    (allowed : Fill → Type 0) (f : Fill) (observed : Option Timestamp) (b b1 : Book)
    (at : Timestamp)
    → receive f observed b ≡ ok (at, b1)
    → Grows allowed b b1
unfolding receive
receive-Grows allowed f none b b1 at h = Grows-refl allowed b b1 (ground (arith, h))
receive-Grows allowed f (some t) b b1 at h =
    let (early, h1) =
      raise_if-eq-ok (is_backtest b.spec.mode || ltb t f.executed_at) receipt_before_execution _
        h in
    let (late, h2) =
      raise_if-eq-ok (later_than (latest_economic none b.journal) f.executed_at) chronology _ h1 in
    let (r, recorded, h3) =
      >>=-eq-ok (record_event (Event.receipt_event f t) b) (λ (x : Bool × Book). ok (t, x.1)) h2 in
    let e : r.1 ≡ b1 = ground (arith, h3) in
    subst (λ (x : Book). Grows allowed b x) e
      (record_event-Grows allowed (Event.receipt_event f t) b r.1 r.0 recorded)

-- A new row leaves those of other ids.
inserted_kept :
    (k id : Text) (row new_row : FillRow) (fills : Dict FillRow)
    → lookup k fills ≡ none
    → lookup id fills ≡ some row
    → lookup id (insert k new_row fills) ≡ some row
inserted_kept k id row new_row fills fresh found =
    ground (arith, lookup-insert id k new_row fills, fresh, found)

inserted_added :
    (allowed : Fill → Type 0) (f : Fill) (t : Trade) (id : Text) (row : FillRow)
    (fills : Dict FillRow)
    → allowed f
    → lookup id (insert f.fill_id (fill_row f t) fills) ≡ some row
    → (lookup id fills ≡ some row) ⊎ allowed row.fill
inserted_added allowed f t id row fills fine found =
    let found1 = sym (lookup-insert id f.fill_id (fill_row f t) fills) ∙ found in
    elim (Bool-cases (f.fill_id == id)) [
      | inl own ↦
          let new_row : fill_row f t ≡ row = ground (arith, rw own at found1) in
          inr (subst (λ (x : FillRow). allowed x.fill) new_row fine)
      | inr other ↦ inl (rw other at found1)
    ]

book_trade-Grows :
    (allowed : Fill → Type 0) (f : Fill) (o : OrderRow) (b b1 : Book)
    → lookup f.fill_id b.fills ≡ none
    → allowed f
    → book_trade f o b ≡ ok b1
    → Grows allowed b b1
book_trade-Grows allowed f o b b1 fresh fine h =
    let after = (book_trade_lem f o b b1 h).1 in
    let t = stored_trade f o b in
    let (same_clock, same_rows, same_facts, same_spec, one_more) = write_trade_kept f o t b in
    record {
      rows = trade_row f t ∷ [];
      facts = [];
      later = rw (ap Book.last_at after, same_clock) (omega arith);
      written = ap Book.journal after ∙ ap (λ x. x ++ trade_row f t ∷ []) same_rows;
      received = ap Book.events after ∙ same_facts ∙ sym (++_nil b.events);
      terms = ap Book.spec after ∙ same_spec;
      booked = λ id row found.
          ap (λ (x : Dict FillRow). lookup id x) (ap Book.fills after ∙ one_more)
          ∙ inserted_kept f.fill_id id row (fill_row f t) b.fills fresh found;
      added = λ id row found.
          inserted_added allowed f t id row b.fills fine
            (sym (ap (λ (x : Dict FillRow). lookup id x) (ap Book.fills after ∙ one_more)) ∙ found);
    }

book_fill-Grows :
    (allowed : Fill → Type 0) (f : Fill) (observed : Option Timestamp) (b b4 : Book)
    → lookup f.fill_id b.fills ≡ none
    → allowed f
    → Booked f observed b b4
    → Grows allowed b b4
book_fill-Grows allowed f observed b b4 fresh fine k =
    let same_fills =
      ap Book.fills (clock_lem k.booked_at k.b1 k.b2 k.clocked).0
      ∙ ap Book.fills (receive_lem f observed b k.b1 k.booked_at k.received) in
    let fresh2 = ap (λ (x : Dict FillRow). lookup f.fill_id x) same_fills ∙ fresh in
    Grows-trans allowed b k.b1 b4 (receive-Grows allowed f observed b k.b1 k.booked_at k.received) (
      Grows-trans allowed k.b1 k.b2 b4 (clock-Grows allowed k.booked_at k.b1 k.b2 k.clocked) (
        Grows-trans allowed k.b2 k.b3 b4
          (book_trade-Grows allowed f k.order k.b2 k.b3 fresh2 fine k.traded)
          (apply_fees-Grows allowed f k.booked_at f.inventory_fees k.b3 b4 k.paid)))

pub apply_fill-Grows :
    (allowed : Fill → Type 0) (f : Fill) (observed : Option Timestamp) (b b4 : Book) (d : Bool)
    → allowed f
    → apply_fill f observed b ≡ ok (d, b4)
    → Grows allowed b b4
unfolding apply_fill
apply_fill-Grows allowed f observed b b4 d fine h = elim (Option-cases (lookup f.fill_id b.fills)) [
  | inr (row, e) ↦ Grows-refl allowed b b4 (ground (arith, rw (e, apply_fill) at h))
  | inl is_new ↦
      book_fill-Grows allowed f observed b b4 is_new fine
        (book_fill-Booked f observed b b4 d (rw (is_new, apply_fill) at h))
]
