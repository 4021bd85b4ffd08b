-- ===== src/Ledger/Reconcile/Sound.antt =====
-- The invariant under which src/execution/ledger.py's `reconcile` returns, and that a booked fill
-- keeps it.
use agentic_quant.Prelude.Int.{pos, ◌<ℤ◌, ◌≤ℤ◌, eqb_ℤ→eq, eqb_ℤ-refl}
use agentic_quant.Prelude.{
  true, ◌≡◌, sym, ◌∙◌, none, some, List, [], arith, inl, inr, ◌==◌, if◌then◌else◌, same_refl,
  Bool-cases, Option-cases,
}
use agentic_quant.Prelude.Result.{ok}
use agentic_quant.Prelude.Dict.{Dict, lookup, lookup-put, lookup-erase}
use agentic_quant.Decimal.{Decimal}
use agentic_quant.FillArithmetic.{add_pos, subtract_nonneg, subtract_zero, subtract_self}
use agentic_quant.Domain.Common.{Text, Instrument, Instrument-discrete}
use agentic_quant.Domain.Orders.{OrderIntent, Side}
use agentic_quant.Domain.Fills.{Fill, Fill-discrete, is_exact}
use agentic_quant.Ledger.State.{OrderRow, HoldingRow, FillRow, Key, Book}
use agentic_quant.Ledger.Fills.{
  Trade, trade, buy_trade, sell_trade, removed_basis, is_zero, holding_row, fill_row, write_holding,
  check_trade,
}
use agentic_quant.Ledger.Fills.Stages.{trade_row}
use agentic_quant.Ledger.Reconcile.{
  same_economics, Replay, Position, or_flat, position_at, start, known_as, intent_at,
  replayed_trade, after_trade, check_stored, replay_trade, replay_fill, replay_at, replay_row,
  replay_from, stored_position,
}

-- The position that is stored, two zeros if there is none.
abbrev pub held : Text → Book → Position
held id b = or_flat (stored_position (lookup id b.holdings))

-- Instruments come from one security master: an id always stands for one instrument.
module _ (master : Text → Instrument) where
  abbrev pub Mastered : Instrument → Type 0
  Mastered i = i ≡ master i.instrument_id

  -- `s` is the result of replaying the journal of `b`, and agrees with what `b` stores; `due` are
  -- the keys of the inventory fees that the last fill announced and that are still to come.
  pub record Sound (s : Replay) (b : Book) (due : List Key) : Type 0 where
    pub replayed : replay_from b.orders b.fills (same_economics b.fills) b.journal start ≡ ok s
    pub cash : s.cash ≡ b.cash
    pub realized : s.realized ≡ b.realized
    pub fees : s.fees ≡ b.fees
    pub positions : (id : Text) → position_at id s ≡ held id b
    pub positive :
        (id : Text) (h : HoldingRow) → lookup id b.holdings ≡ some h → pos 0 <ℤ h.quantity
    pub known :
        (id : Text) (h : HoldingRow)
        → lookup id b.holdings ≡ some h
        → lookup id s.instruments ≡ some h.definition
    pub mastered : (id : Text) (i : Instrument) → lookup id s.instruments ≡ some i → i ≡ master id
    pub intents :
        (id : Text) (i : OrderIntent) → intent_at id b.orders ≡ some i → Mastered i.instrument
    pub pending : s.pending_fees ≡ due

check_stored_self :
    (orders : Dict OrderRow) (fills : Dict FillRow) (f : Fill) (t : Trade)
    → lookup f.fill_id fills ≡ some (fill_row f t)
    → check_stored orders fills f (trade_row f t) t ≡ ok tt
unfolding check_stored
check_stored_self orders fills f t h =
    rw (h, check_stored) (ground (arith, same_refl Fill-discrete f))

module _ (master : Text → Instrument) where
  known_as-master :
      (s : Replay) (i : Instrument)
      → ((j : Instrument)
          → lookup i.instrument_id s.instruments ≡ some j
          → j ≡ master i.instrument_id)
      → Mastered master i
      → known_as (lookup i.instrument_id s.instruments) i ≡ true
  known_as-master s i m e = elim (Option-cases (lookup i.instrument_id s.instruments)) [
    | inl none_known ↦ rw none_known
    | inr (j, is_known) ↦ rw is_known (rw (m j is_known ∙ sym e) (same_refl Instrument-discrete i))
  ]

  pub replay_row-trade :
      (s : Replay) (b : Book) (orders : Dict OrderRow) (fills : Dict FillRow) (f : Fill)
      (i : OrderIntent) (t : Trade)
      → Sound master s b []
      → intent_at f.intent_id orders ≡ some i
      → Mastered master i.instrument
      → lookup f.fill_id fills ≡ some (fill_row f t)
      → replayed_trade i f s ≡ t
      → replay_row orders fills (same_economics fills) (trade_row f t) s
        ≡ ok (after_trade i f (trade_row f t) t s)
  unfolding replay_row replay_at replay_fill replay_trade
  replay_row-trade s b orders fills f i t inv e m stored same_trade =
      rw
        (
          inv.pending,
          e,
          known_as-master s i.instrument (inv.mastered i.instrument.instrument_id) m,
          same_trade,
        )
        (rw (check_stored_self orders fills f t stored))

-- The quantity after a trade that passed its guards, and that a flat position has no basis.
pub trade_signs :
    (side : Side) (f : Fill) (q basis : Decimal) (o : OrderRow) (b : Book)
    → pos 0 <ℤ f.quantity
    → pos 0 ≤ℤ q
    → check_trade side f o q (trade side f q basis) b ≡ ok tt
    → (pos 0 ≤ℤ (trade side f q basis).quantity)
      × ((trade side f q basis).quantity ≡ pos 0 → (trade side f q basis).basis ≡ pos 0)
unfolding trade check_trade buy_trade sell_trade removed_basis
trade_signs Side.buy f q basis o b p n h =
    let grown = add_pos (is_exact f) q f.quantity n p in
    (omega arith, λ e. absurd (let bad = rw e at grown in omega arith))
trade_signs Side.sell f q basis o b p n h = (
  subtract_nonneg (is_exact f) q f.quantity (ground arith),
  λ e.
      let all_sold = subtract_zero (is_exact f) q f.quantity e in
      rw (← all_sold, eqb_ℤ-refl q) (subtract_self (is_exact f) basis),
)

pub lookup-write_holding :
    (j : Text) (i : Instrument) (q basis : Decimal) (b : Book)
    → lookup j (write_holding i q basis b).holdings ≡ (
        if i.instrument_id == j
        then (if is_zero q then none else some (holding_row i q basis))
        else lookup j b.holdings)
unfolding write_holding
lookup-write_holding j i q basis b = elim (Bool-cases (is_zero q)) [
  | inl z ↦ rw z (lookup-erase j i.instrument_id b.holdings)
  | inr z ↦ rw z (lookup-put j i.instrument_id (holding_row i q basis) b.holdings)
]

is_zero→eq : (a : Decimal) → is_zero a ≡ true → a ≡ pos 0
is_zero→eq a h = eqb_ℤ→eq a (pos 0) h

-- A position that is written is the position that is found again, flat or not.
pub held-write_holding :
    (j : Text) (i : Instrument) (q basis : Decimal) (b : Book)
    → (q ≡ pos 0 → basis ≡ pos 0)
    → held j (write_holding i q basis b)
      ≡ (if i.instrument_id == j then record { quantity = q; basis = basis } else held j b)
held-write_holding j i q basis b z =
    rw lookup-write_holding (elim (Bool-cases (i.instrument_id == j)) [
      | inr other ↦ rw other
      | inl own ↦ elim (Bool-cases (is_zero q)) [
        | inr kept ↦ rw (own, kept)
        | inl flat_now ↦
            rw (own, flat_now)
              (let e = is_zero→eq q flat_now in
                λ k. record { quantity = sym e k; basis = sym (z e) k })
      ]
    ])

pub write_holding_positive :
    (j : Text) (i : Instrument) (q basis : Decimal) (b : Book) (h : HoldingRow)
    → pos 0 ≤ℤ q
    → ((h : HoldingRow) → lookup j b.holdings ≡ some h → pos 0 <ℤ h.quantity)
    → lookup j (write_holding i q basis b).holdings ≡ some h
    → pos 0 <ℤ h.quantity
write_holding_positive j i q basis b h n old e =
    let e' = sym (lookup-write_holding j i q basis b) ∙ e in
    elim (Bool-cases (i.instrument_id == j)) [
      | inr other ↦ old h (rw other at e')
      | inl own ↦ elim (Bool-cases (is_zero q)) [
        | inl flat_now ↦ cc (rw (own, flat_now) at e')
        | inr kept ↦ ground (arith, rw (own, kept) at e')
      ]
    ]
