-- ===== src/Ledger/State/Effects.antt =====
-- What the helpers of src/execution/ledger.py have done to a book when they return.
use agentic_quant.Prelude.{◌≤◌, ◌≡◌, ◌++◌, Bool, none, some, [], ◌∷◌, arith}
use agentic_quant.Prelude.Result.{ok}
use agentic_quant.Prelude.Dict.{lookup}
use agentic_quant.Decimal.{Decimal}
use agentic_quant.Domain.Common.{Text, Timestamp}
use agentic_quant.Ledger.State.{
  OrderRow, Entry, Key, Event, Book, clock, journal_at, journal_row, write_journal, record_event,
  get_order,
}

pub clock_lem :
    (at : Timestamp) (b b1 : Book)
    → clock at b ≡ ok b1
    → (b1 ≡ record b { last_at = at }) × (b.last_at ≤ at)
unfolding clock
clock_lem at b b1 h = ground arith

pub write_journal_lem :
    (key : Key) (at : Timestamp) (e : Entry) (delta : Decimal) (b b1 : Book)
    → write_journal key at e delta b ≡ ok b1
    → (b1 ≡ record b { journal = b.journal ++ journal_row key at e delta ∷ [] })
      × (journal_at key b.journal ≡ none)
unfolding write_journal
write_journal_lem key at e delta b b1 h = ground arith

pub record_event_lem :
    (e : Event) (b b1 : Book) (is_new : Bool)
    → record_event e b ≡ ok (is_new, b1)
    → b1 ≡ record b { events = b1.events }
unfolding record_event
record_event_lem e b b1 is_new h = ground arith

pub get_order_lem :
    (id : Text) (b : Book) (o : OrderRow) → get_order id b ≡ ok o → lookup id b.orders ≡ some o
unfolding get_order
get_order_lem id b o h = ground arith
