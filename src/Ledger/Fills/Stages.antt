-- ===== src/Ledger/Fills/Stages.antt =====
-- The stages through which src/execution/ledger.py's `apply_fill` goes when it returns.
use agentic_quant.Prelude.{Bool, true, ◌≡◌, Option, [], ◌∷◌, ◌++◌}
use agentic_quant.Prelude.Result.{ok, >>=-eq-ok, raise_if-eq-ok}
use agentic_quant.Prelude.Dict.{lookup}
use agentic_quant.Domain.Common.{Timestamp}
use agentic_quant.Domain.Fills.{Fill}
use agentic_quant.Ledger.State.Effects.{write_journal_lem}
use agentic_quant.Ledger.State.{
  JournalRow, Entry, fill_key, journal_row, OrderRow, Book, get_order, clock,
}
use agentic_quant.Ledger.Fills.{
  check_fill, receive, Trade, trade, check_trade, write_trade, quantity_of, basis_of, book_trade,
  apply_fees, book_fill,
}

-- A new fill that was booked.
pub record Booked (f : Fill) (observed : Option Timestamp) (b b4 : Book) : Type 0 where
  pub order : OrderRow
  pub booked_at : Timestamp
  pub b1 : Book
  pub b2 : Book
  pub b3 : Book
  pub found : get_order f.intent_id b ≡ ok order
  pub checked : check_fill f order b ≡ ok tt
  pub received : receive f observed b ≡ ok (booked_at, b1)
  pub clocked : clock booked_at b1 ≡ ok b2
  pub traded : book_trade f order b2 ≡ ok b3
  pub paid : apply_fees f booked_at f.inventory_fees b3 ≡ ok b4

pub book_fill-Booked :
    (f : Fill) (observed : Option Timestamp) (b b4 : Book) (d : Bool)
    → book_fill f observed b ≡ ok (d, b4)
    → Booked f observed b b4
unfolding book_fill
book_fill-Booked f observed b b4 d h =
    let (o, found, h1) = >>=-eq-ok _ _ h in
    let (u, checked, h2) = >>=-eq-ok _ _ h1 in
    let (r, received, h3) = >>=-eq-ok _ _ h2 in
    let (b2, clocked, h4) = >>=-eq-ok _ _ h3 in
    let (b3, traded, h5) = >>=-eq-ok _ _ h4 in
    let (b4', paid, h6) =
      >>=-eq-ok (apply_fees f r.0 f.inventory_fees b3) (λ b'. ok (true, b')) h5 in
    record {
      order = o;
      booked_at = r.0;
      b1 = r.1;
      b2 = b2;
      b3 = b3;
      found = found;
      checked = checked;
      received = received;
      clocked = clocked;
      traded = traded;
      paid = cc (paid, h6);
    }

-- The trade of a fill against the position that is stored.
abbrev pub stored_trade : Fill → OrderRow → Book → Trade
stored_trade f o b =
    let row = lookup o.intent.instrument.instrument_id b.holdings in
    trade o.intent.side f (quantity_of row) (basis_of row)

abbrev pub trade_row : Fill → Trade → JournalRow
trade_row f t = journal_row (fill_key f.fill_id) f.executed_at (Entry.fill f) t.delta

pub book_trade_lem :
    (f : Fill) (o : OrderRow) (b b3 : Book)
    → book_trade f o b ≡ ok b3
    → let t = stored_trade f o b in
      (check_trade o.intent.side f o
          (quantity_of (lookup o.intent.instrument.instrument_id b.holdings))
          t
          b
        ≡ ok tt)
      × (b3 ≡ record (write_trade f o t b) {
        journal = (write_trade f o t b).journal ++ trade_row f t ∷ [];
      })
unfolding book_trade
book_trade_lem f o b b3 h =
    let (u, checked, written) = >>=-eq-ok _ _ (raise_if-eq-ok _ _ _ h).1 in
    (checked, (write_journal_lem _ _ _ _ _ _ written).0)
