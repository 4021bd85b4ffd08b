-- ===== src/Ledger/Reconcile/Trades.antt =====
-- A fill that src/execution/ledger.py's `apply_fill` books keeps the invariant of `reconcile`.
use agentic_quant.Prelude.Int.{pos, ◌<ℤ◌, ◌≤ℤ◌}
use agentic_quant.Prelude.{
  Bool, true, false, ◌≡◌, refl, sym, ap, subst, ◌∙◌, Option, none, some, [], ◌∷◌, ◌++◌, arith, inl,
  inr, ◌==◌, ==_iff, if◌then◌else◌, Bool-cases,
}
use agentic_quant.Prelude.Result.{ok}
use agentic_quant.Prelude.Dict.{Dict, lookup, insert, lookup-insert, lookup-insert_self, lookup-put}
use agentic_quant.FillArithmetic.{add}
use agentic_quant.Domain.Common.{Text, Instrument}
use agentic_quant.Domain.Fills.{Fill, is_exact}
use agentic_quant.Ledger.State.{OrderRow, HoldingRow, FillRow, Book}
use agentic_quant.Ledger.Fills.{
  Trade, trade, is_zero, quantity_of, basis_of, fill_row, write_holding, write_trade, filled_order,
  check_trade,
}
use agentic_quant.Ledger.Fills.Stages.{stored_trade, trade_row}
use agentic_quant.Ledger.Reconcile.{
  same_economics, Replay, Position, or_flat, stored_position, position_at, start, intent_of,
  intent_at, announced, replayed_trade, after_trade, replay_from,
}
use agentic_quant.Ledger.Reconcile.Tables.{IntentsKept, FillsKept, replay_from_kept, replay_from-++}
use agentic_quant.Ledger.Reconcile.Sound.{
  held, Mastered, Sound, replay_row-trade, trade_signs, lookup-write_holding, held-write_holding,
  write_holding_positive,
}

-- The order of a fill keeps its intent.
pub intent_at-insert :
    (j id : Text) (o o' : OrderRow) (orders : Dict OrderRow)
    → lookup id orders ≡ some o
    → o'.intent ≡ o.intent
    → intent_at j (insert id o' orders) ≡ intent_at j orders
intent_at-insert j id o o' orders found same_intent =
    ap intent_of (lookup-insert j id o' orders) ∙ elim (Bool-cases (id == j)) [
      | inr other ↦ rw other
      | inl own ↦
          let here = rw ((==_iff id j).0 own) at found in
          rw own (ap some same_intent ∙ sym (ap intent_of here))
    ]

pub IntentsKept-insert :
    (id : Text) (o o' : OrderRow) (orders : Dict OrderRow)
    → lookup id orders ≡ some o
    → o'.intent ≡ o.intent
    → IntentsKept orders (insert id o' orders)
IntentsKept-insert id o o' orders found same_intent j i e =
    intent_at-insert j id o o' orders found same_intent ∙ e

pub FillsKept-insert :
    (id : Text) (row : FillRow) (fills : Dict FillRow)
    → lookup id fills ≡ none
    → FillsKept fills (insert id row fills)
FillsKept-insert id row fills is_new j r e = ground (arith, lookup-insert j id row fills)

-- The stored position is what the replay has reached.
held_trade :
    (s : Replay) (b : Book) (f : Fill) (o : OrderRow)
    → ((id : Text) → position_at id s ≡ held id b)
    → replayed_trade o.intent f s ≡ stored_trade f o b
held_trade s b f o positions =
    rw (positions o.intent.instrument.instrument_id)
      (by_row (lookup o.intent.instrument.instrument_id b.holdings))
  where
    by_row :
        (row : Option HoldingRow)
        → trade o.intent.side f
            (or_flat (stored_position row)).quantity
            (or_flat (stored_position row)).basis
          ≡ trade o.intent.side f (quantity_of row) (basis_of row)
    by_row none = refl
    by_row (some h) = refl

-- The parts of `write_trade` that the replay compares, with the operation shut.
write_trade_lem :
    (f : Fill) (o : OrderRow) (t : Trade) (b : Book)
    → ((write_trade f o t b).journal ≡ b.journal)
      × ((write_trade f o t b).holdings
          ≡ (write_holding o.intent.instrument t.quantity t.basis b).holdings)
      × ((write_trade f o t b).cash ≡ add (is_exact f) b.cash t.delta)
      × ((write_trade f o t b).realized ≡ add (is_exact f) b.realized t.realized)
      × ((write_trade f o t b).fees ≡ add (is_exact f) b.fees f.fee)
      × ((write_trade f o t b).orders ≡ insert f.intent_id (filled_order f o) b.orders)
      × ((write_trade f o t b).fills ≡ insert f.fill_id (fill_row f t) b.fills)
unfolding write_trade write_holding
write_trade_lem f o t b = (refl, refl, refl, refl, refl, refl, refl)

module _ (master : Text → Instrument) where
  module _ (f : Fill) (o : OrderRow) (s : Replay) (b : Book) (inv : Sound master s b [])
      (found : lookup f.intent_id b.orders ≡ some o) (is_new : lookup f.fill_id b.fills ≡ none)
      (positive : pos 0 <ℤ f.quantity)
      (checked : check_trade o.intent.side f o
          (quantity_of (lookup o.intent.instrument.instrument_id b.holdings))
          (stored_trade f o b)
          b
        ≡ ok tt) where
    traded : Book
    unfolding write_trade write_holding
    traded = record (write_trade f o (stored_trade f o b) b) {
      journal = b.journal ++ trade_row f (stored_trade f o b) ∷ [];
    }

    reached : Replay
    reached = after_trade o.intent f (trade_row f (stored_trade f o b)) (stored_trade f o b) s

    intent_known : intent_at f.intent_id b.orders ≡ some o.intent
    intent_known = ap intent_of found

    own_Mastered : Mastered master o.intent.instrument
    own_Mastered = inv.intents f.intent_id o.intent intent_known

    replayed_reached :
        replay_from traded.orders traded.fills (same_economics traded.fills) traded.journal start
        ≡ ok reached
    unfolding traded reached write_trade write_holding filled_order
    replayed_reached =
        let ko = IntentsKept-insert f.intent_id o (filled_order f o) b.orders found refl in
        let kf = FillsKept-insert f.fill_id (fill_row f (stored_trade f o b)) b.fills is_new in
        replay_from-++ traded.orders traded.fills (same_economics traded.fills) b.journal
          (trade_row f (stored_trade f o b)) start s reached
          (replay_from_kept b.orders traded.orders b.fills traded.fills ko kf b.journal start s
            inv.replayed)
          (replay_row-trade master s b traded.orders traded.fills f o.intent (stored_trade f o b)
            inv (ko f.intent_id o.intent intent_known) own_Mastered
            (lookup-insert_self f.fill_id (fill_row f (stored_trade f o b)) b.fills)
            (held_trade s b f o inv.positions))

    quantity_nonneg :
        (row : Option HoldingRow)
        → lookup o.intent.instrument.instrument_id b.holdings ≡ row
        → pos 0 ≤ℤ quantity_of row
    quantity_nonneg none e = omega arith
    quantity_nonneg (some h) e = omega (arith, inv.positive _ h e)

    signs :
        (pos 0 ≤ℤ (stored_trade f o b).quantity)
        × ((stored_trade f o b).quantity ≡ pos 0 → (stored_trade f o b).basis ≡ pos 0)
    signs = trade_signs o.intent.side f _ _ o b positive (quantity_nonneg _ refl) checked

    position_written :
        (j : Text) (t : Bool) (p : Position)
        → or_flat (if t then some p else lookup j s.positions) ≡ (if t then p else held j b)
    position_written j true p = refl
    position_written j false p = inv.positions j

    positions_reached : (j : Text) → position_at j reached ≡ held j traded
    unfolding traded reached write_trade write_holding
    positions_reached j =
        let i = o.intent.instrument in
        let t = stored_trade f o b in
        let p : Position = record { quantity = t.quantity; basis = t.basis } in
        ap or_flat (lookup-put j i.instrument_id p s.positions)
        ∙ position_written j (i.instrument_id == j) p
        ∙ sym (held-write_holding j i t.quantity t.basis b signs.1)

    known_reached :
        (j : Text) (h : HoldingRow)
        → lookup j traded.holdings ≡ some h
        → lookup j reached.instruments ≡ some h.definition
    unfolding traded reached write_trade write_holding
    known_reached j h e =
        let i = o.intent.instrument in
        let t = stored_trade f o b in
        let e1 = sym (lookup-write_holding j i t.quantity t.basis b) ∙ e in
        lookup-put j i.instrument_id i s.instruments ∙ elim (Bool-cases (i.instrument_id == j)) [
          | inr other ↦ rw other (inv.known j h (rw other at e1))
          | inl mine ↦ elim (Bool-cases (is_zero t.quantity)) [
            | inl flat_now ↦ cc (rw (mine, flat_now) at e1)
            | inr kept ↦ rw mine (ground (arith, rw (mine, kept) at e1))
          ]
        ]

    mastered_reached :
        (j : Text) (i : Instrument) → lookup j reached.instruments ≡ some i → i ≡ master j
    unfolding reached
    mastered_reached j i e =
        let own = o.intent.instrument in
        let e1 = sym (lookup-put j own.instrument_id own s.instruments) ∙ e in
        elim (Bool-cases (own.instrument_id == j)) [
          | inr other ↦ inv.mastered j i (rw other at e1)
          | inl mine ↦ cc (rw mine at e1, own_Mastered, (==_iff own.instrument_id j).0 mine)
        ]

    traded_Sound : Sound master reached traded (announced f f.inventory_fees)
    unfolding traded reached write_trade write_holding filled_order
    traded_Sound = record {
      replayed = replayed_reached;
      cash = ap (λ c. add (is_exact f) c (stored_trade f o b).delta) inv.cash;
      realized = ap (λ c. add (is_exact f) c (stored_trade f o b).realized) inv.realized;
      fees = ap (λ c. add (is_exact f) c f.fee) inv.fees;
      positions = positions_reached;
      positive =
          λ j h e. write_holding_positive j o.intent.instrument _ _ b h signs.0 (inv.positive j) e;
      known = known_reached;
      mastered = mastered_reached;
      intents = λ j i e.
          inv.intents j i
            (sym (intent_at-insert j f.intent_id o (filled_order f o) b.orders found refl) ∙ e);
      pending = refl;
    }

    -- What `book_trade` leaves.
    after_trade_is :
        record (write_trade f o (stored_trade f o b) b) {
          journal =
              (write_trade f o (stored_trade f o b) b).journal
              ++ trade_row f (stored_trade f o b) ∷ [];
        }
        ≡ traded
    unfolding traded write_trade write_holding
    after_trade_is = refl

    fill_stored : lookup f.fill_id traded.fills ≡ some (fill_row f (stored_trade f o b))
    unfolding traded write_trade write_holding
    fill_stored = lookup-insert_self f.fill_id (fill_row f (stored_trade f o b)) b.fills

    pub book_trade_Sound :
        (b3 : Book)
        → b3 ≡ record (write_trade f o (stored_trade f o b) b) {
          journal =
              (write_trade f o (stored_trade f o b) b).journal
              ++ trade_row f (stored_trade f o b) ∷ [];
        }
        → (s1 : Replay) × Sound master s1 b3 (announced f f.inventory_fees)
          × (lookup f.fill_id b3.fills ≡ some (fill_row f (stored_trade f o b)))
    book_trade_Sound b3 e =
        let e1 = sym (e ∙ after_trade_is) in
        (
          reached,
          subst (λ (x : Book). Sound master reached x (announced f f.inventory_fees)) e1
              traded_Sound,
          rw (← e1) fill_stored,
        )
