-- ===== src/Ledger/Fills/Bounds.antt =====
-- What the guards of src/execution/ledger.py's `apply_fill` promise of the book after a fill.
use agentic_quant.Prelude.Int.{pos, ltb_ℤ, ◌≤ℤ◌, ◌+ℤ◌, ◌-ℤ◌, int_laws}
use agentic_quant.Prelude.{
  true, false, ◌≤◌, ◌≡◌, refl, sym, ap, subst, ◌∙◌, ◌⊎◌, arith, not, ◌||◌, ltb, Option, none, some,
  inl, inr, Option-cases, ◌<◌,
}
use agentic_quant.Prelude.Result.{ok, raise_if-eq-ok}
use agentic_quant.Decimal.{Decimal, plus, copy_negate, exact_decimal_sum}
use agentic_quant.Decimal.Bounds.{exact_difference}
use agentic_quant.FillArithmetic.{add, add_exact}
use agentic_quant.Domain.Common.{Timestamp}
use agentic_quant.Domain.Orders.{OrderIntent, OrderType, Side, is_expired}
use agentic_quant.Domain.Fills.{Fill, is_exact}
use agentic_quant.Ledger.State.{OrderRow, Status, Book, is_open, remaining}
use agentic_quant.Ledger.Fills.{
  check_fill, check_trade, other_reservations, reserve_after, filled_order, book_trade, Trade,
  write_holding, write_trade, crosses_limit,
}
use agentic_quant.Ledger.Fills.Stages.{stored_trade, book_trade_lem}

write_trade-cash :
    (f : Fill) (o : OrderRow) (b : Book)
    → (write_trade f o (stored_trade f o b) b).cash
      ≡ add (is_exact f) b.cash (stored_trade f o b).delta
unfolding write_trade write_holding
write_trade-cash f o b = refl

-- The cash that a side's guard keeps.
abbrev pub cash_floor : Side → Fill → OrderRow → Book → Decimal
cash_floor Side.buy f o b = plus (other_reservations o b) (reserve_after f o)
cash_floor Side.sell f o b = pos 0

check_trade_floor :
    (side : Side) (f : Fill) (o : OrderRow) (q : Decimal) (t : Trade) (b : Book)
    → check_trade side f o q t b ≡ ok tt
    → cash_floor side f o b ≤ℤ add (is_exact f) b.cash t.delta
unfolding check_trade
check_trade_floor Side.buy f o q t b h = ground arith
check_trade_floor Side.sell f o q t b h = ground arith

-- A buy leaves at least the cash that the other orders reserve and what the order itself still
-- reserves; a sale never leaves cash below zero.
pub book_trade-cash :
    (f : Fill) (o : OrderRow) (b b1 : Book)
    → book_trade f o b ≡ ok b1
    → cash_floor o.intent.side f o b ≤ℤ b1.cash
book_trade-cash f o b b1 h =
    let (checked, after) = book_trade_lem f o b b1 h in
    let cash = ap Book.cash after ∙ write_trade-cash f o b in
    subst (λ (x : Decimal). cash_floor o.intent.side f o b ≤ℤ x) (sym cash)
      (check_trade_floor o.intent.side f o _ (stored_trade f o b) b checked)

-- Before the end of an interval, if there is one.
abbrev pub Before : Option Timestamp → Timestamp → Type 0
Before none at = Unit
Before (some end) at = at < end

-- A limit order is bought at no more than its limit and sold at no less.
abbrev pub WithinPrice : OrderIntent → Decimal → Type 0
WithinPrice i price = elim i.order_type [
  | OrderType.limit ↦ elim i.limit_price [
    | none ↦ Unit
    | some limit ↦ elim i.side [ Side.buy ↦ price ≤ℤ limit | Side.sell ↦ limit ≤ℤ price ]
  ]
  | _ ↦ Unit
]

expires_lem : (end : Option Timestamp) (at : Timestamp) → is_expired end at ≡ false → Before end at
expires_lem none at h = tt
expires_lem (some end) at h = ground (arith, h)

limit_kept :
    (f : Fill) (i : OrderIntent) (limit : Decimal) (side : Side)
    → i.order_type ≡ OrderType.limit
    → i.limit_price ≡ some limit
    → i.side ≡ side
    → crosses_limit i f ≡ false
    → WithinPrice i f.price
limit_kept f i limit Side.buy t l s h =
    rw (t, l, s) (let e = rw (t, l, s) at h in ground (arith, e))
limit_kept f i limit Side.sell t l s h =
    rw (t, l, s) (let e = rw (t, l, s) at h in ground (arith, e))

crosses_limit_lem :
    (f : Fill) (i : OrderIntent) (kind : OrderType)
    → i.order_type ≡ kind
    → crosses_limit i f ≡ false
    → WithinPrice i f.price
crosses_limit_lem f i OrderType.limit t h = elim (Option-cases i.limit_price) [
  | inl n ↦ rw (t, n) tt
  | inr (limit, l) ↦ limit_kept f i limit i.side t l refl h
]
crosses_limit_lem f i OrderType.market t h = rw t tt
crosses_limit_lem f i OrderType.stop t h = rw t tt
crosses_limit_lem f i OrderType.trailing_stop t h = rw t tt

open_cases : (s : Status) → is_open s ≡ true → (s ≡ Status.pending) ⊎ (s ≡ Status.partial)
open_cases Status.pending h = inl refl
open_cases Status.partial h = inr refl
open_cases Status.filled h = cc h
open_cases Status.cancelled h = cc h
open_cases Status.rejected h = cc h

pub check_fill_accepts :
    (f : Fill) (o : OrderRow) (b : Book)
    → check_fill f o b ≡ ok tt
    → ((o.status ≡ Status.pending) ⊎ (o.status ≡ Status.partial))
      × (f.quantity ≤ℤ remaining o)
      × (o.intent.eligible_at ≤ f.executed_at)
      × Before o.intent.expires_at f.executed_at
      × WithinPrice o.intent f.price
unfolding check_fill
check_fill_accepts f o b h =
    let (a, h1) = raise_if-eq-ok (not (is_open o.status) || ltb_ℤ (remaining o) f.quantity) _ _ h in
    let (c, h2) =
      raise_if-eq-ok
        (ltb f.executed_at o.intent.eligible_at || is_expired o.intent.expires_at f.executed_at) _ _
        h1 in
    let (d, h3) = raise_if-eq-ok (crosses_limit o.intent f) _ _ h2 in
    (
      open_cases o.status (ground (arith, a)),
      ground (arith, a),
      ground (arith, c),
      expires_lem o.intent.expires_at f.executed_at (ground (arith, c)),
      crosses_limit_lem f o.intent o.intent.order_type refl d,
    )

-- After a fill in exact arithmetic, filled and remaining quantity still make up the order, and the
-- order is not overfilled.
pub filled_order_balance :
    (f : Fill) (o : OrderRow) (b : Book)
    → is_exact f ≡ true
    → check_fill f o b ≡ ok tt
    → (remaining (filled_order f o) ≡ remaining o -ℤ f.quantity)
      × (pos 0 ≤ℤ remaining (filled_order f o))
unfolding filled_order remaining ◌-ℤ◌ ◌+ℤ◌ exact_decimal_sum copy_negate
filled_order_balance f o b exact h =
    let fits = (check_fill_accepts f o b h).1 in
    let balance : remaining (filled_order f o) ≡ remaining o -ℤ f.quantity =
      rw (exact, add_exact, exact_difference) (omega int_laws) in
    (balance, rw balance (omega (int_laws, fits)))
