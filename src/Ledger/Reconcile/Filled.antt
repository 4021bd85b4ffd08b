-- ===== src/Ledger/Reconcile/Filled.antt =====
-- `apply_fill` of src/execution/ledger.py keeps the invariant of `reconcile`.
use agentic_quant.Prelude.Int.{pos, ◌<ℤ◌}
use agentic_quant.Prelude.{
  Bool, ◌≡◌, refl, sym, subst, ap, ◌∙◌, Option, none, some, [], arith, inl, inr, Option-cases, ◌||◌,
  ltb,
}
use agentic_quant.Prelude.Result.{ok, >>=-eq-ok, raise_if-eq-ok}
use agentic_quant.Prelude.Dict.{lookup}
use agentic_quant.Domain.Common.{Text, Timestamp, Instrument}
use agentic_quant.Domain.Fills.{Fill}
use agentic_quant.Ledger.State.{Book, Event, record_event, receipt_before_execution, chronology}
use agentic_quant.Ledger.State.Effects.{clock_lem, record_event_lem, get_order_lem}
use agentic_quant.Ledger.Fills.{
  receive, is_backtest, later_than, latest_economic, fill_row, apply_fill,
}
use agentic_quant.Ledger.Fills.Stages.{Booked, book_fill-Booked, book_trade_lem, stored_trade}
use agentic_quant.Ledger.Reconcile.{Replay}
use agentic_quant.Ledger.Reconcile.Sound.{Sound}
use agentic_quant.Ledger.Reconcile.Trades.{book_trade_Sound}
use agentic_quant.Ledger.Reconcile.Fees.{apply_fees-Sound}
use agentic_quant.Ledger.Reconcile.Operations.{events_Sound}

-- A receipt changes the events and nothing else.
pub receive_lem :
    (f : Fill) (observed : Option Timestamp) (b b1 : Book) (at : Timestamp)
    → receive f observed b ≡ ok (at, b1)
    → b1 ≡ record b { events = b1.events }
unfolding receive
receive_lem f none b b1 at h =
    let e : b ≡ b1 = ground (arith, h) in
    subst (λ (x : Book). x ≡ record b { events = x.events }) e refl
receive_lem f (some t) b b1 at h =
    let (early, h1) =
      raise_if-eq-ok (is_backtest b.spec.mode || ltb t f.executed_at) receipt_before_execution _
        h in
    let (late, h2) =
      raise_if-eq-ok (later_than (latest_economic none b.journal) f.executed_at) chronology _ h1 in
    let (r, recorded, h3) =
      >>=-eq-ok (record_event (Event.receipt_event f t) b) (λ (x : Bool × Book). ok (t, x.1)) h2 in
    let e : r.1 ≡ b1 = ground (arith, h3) in
    subst (λ (x : Book). x ≡ record b { events = x.events }) e
      (record_event_lem (Event.receipt_event f t) b r.1 r.0 recorded)

module _ (master : Text → Instrument) where
  book_fill-Sound :
      (f : Fill) (observed : Option Timestamp) (s : Replay) (b b4 : Book)
      → pos 0 <ℤ f.quantity
      → Sound master s b []
      → lookup f.fill_id b.fills ≡ none
      → Booked f observed b b4
      → (s4 : Replay) × Sound master s4 b4 []
  book_fill-Sound f observed s b b4 positive inv is_new k =
      let moved : k.b2 ≡ record b { last_at = k.booked_at; events = k.b1.events } =
        (clock_lem k.booked_at k.b1 k.b2 k.clocked).0
        ∙ ap (λ (x : Book). record x { last_at = k.booked_at })
            (receive_lem f observed b k.b1 k.booked_at k.received) in
      let inv2 =
        subst (λ (x : Book). Sound master s x []) (sym moved)
          (events_Sound master k.booked_at k.b1 s b inv) in
      let (checked, after) = book_trade_lem f k.order k.b2 k.b3 k.traded in
      let found =
        ap (λ (x : Book). lookup f.intent_id x.orders) moved
        ∙ get_order_lem f.intent_id b k.order k.found in
      let fresh = ap (λ (x : Book). lookup f.fill_id x.fills) moved ∙ is_new in
      let (s3, inv3, stored) =
        book_trade_Sound master f k.order s k.b2 inv2 found fresh positive checked k.b3 after in
      apply_fees-Sound master f k.booked_at f.inventory_fees s3 k.b3 b4
        (fill_row f (stored_trade f k.order k.b2)) inv3 stored refl (λ fee e. e) k.paid

  pub apply_fill-Sound :
      (f : Fill) (observed : Option Timestamp) (s : Replay) (b b4 : Book) (d : Bool)
      → pos 0 <ℤ f.quantity
      → Sound master s b []
      → apply_fill f observed b ≡ ok (d, b4)
      → (s4 : Replay) × Sound master s4 b4 []
  unfolding apply_fill
  apply_fill-Sound f observed s b b4 d positive inv h =
      elim (Option-cases (lookup f.fill_id b.fills)) [
        | inl is_new ↦
            book_fill-Sound f observed s b b4 positive inv is_new
              (book_fill-Booked f observed b b4 d (rw (is_new, apply_fill) at h))
        | inr (row, e) ↦
            let same_book : b ≡ b4 = ground (arith, rw (e, apply_fill) at h) in
            (s, subst (λ (x : Book). Sound master s x []) same_book inv)
      ]
