-- ===== src/Ledger/Fills/Cash.antt =====
-- The cash that src/execution/ledger.py's `apply_fill` leaves for the orders that still rest.
use agentic_quant.Prelude.Int.{pos, ◌≤ℤ◌, ◌+ℤ◌, ◌-ℤ◌, int_laws, eqb_ℤ→eq}
use agentic_quant.Prelude.{
  true, ◌≡◌, refl, ap, subst, ◌∙◌, arith, map, List, [], ◌∷◌, some, inl, inr, ◌==◌, Bool-cases,
  if◌then◌else◌,
}
use agentic_quant.Prelude.Result.{ok}
use agentic_quant.Prelude.Dict.{Dict, lookup, insert}
use agentic_quant.Decimal.{Decimal, Fits, plus, minus, copy_negate, exact_decimal_sum}
use agentic_quant.Decimal.Bounds.{times_zero, zero_divide}
use agentic_quant.Domain.Common.{Text}
use agentic_quant.Domain.Orders.{Side}
use agentic_quant.Domain.Fills.{Fill}
use agentic_quant.Ledger.State.{
  OrderRow, Book, is_open, open_orders, pending_orders, reservations, available_cash, remaining,
}
use agentic_quant.Ledger.Fills.{
  is_zero, other_reservations, reserve_after, remaining_after, filled_order, book_trade,
  write_holding, write_trade,
}
use agentic_quant.Ledger.Fills.Stages.{stored_trade, book_trade_lem}
use agentic_quant.Ledger.Fills.Bounds.{cash_floor, book_trade-cash}

-- What the orders reserve together, exactly.
abbrev pub reserved_by : List OrderRow → Decimal
reserved_by [] = pos 0
reserved_by (o ∷ rows) = o.reserved +ℤ reserved_by rows

abbrev open_part : OrderRow → Decimal
open_part o = if is_open o.status then o.reserved else pos 0

-- The cash less the amounts, negated.
sum_negated :
    (rows : List OrderRow)
    → exact_decimal_sum (map (λ o. copy_negate (OrderRow.reserved o)) rows)
      ≡ pos 0 -ℤ reserved_by rows
unfolding exact_decimal_sum copy_negate
sum_negated [] = omega int_laws
sum_negated (o ∷ rows) = rw (sum_negated rows) (omega int_laws)

available_cash_lem : (b : Book) → available_cash b ≡ b.cash -ℤ reserved_by (pending_orders b)
unfolding available_cash reservations exact_decimal_sum
available_cash_lem b = rw (sum_negated (pending_orders b)) (omega int_laws)

open_orders-∷ :
    (k : Text) (o : OrderRow) (rows : Dict OrderRow)
    → reserved_by (open_orders ((k, o) ∷ rows)) ≡ open_part o +ℤ reserved_by (open_orders rows)
unfolding open_orders
open_orders-∷ k o rows = elim (Bool-cases (is_open o.status)) [
  | inl opened ↦ rw opened refl
  | inr closed ↦ rw closed (omega int_laws)
]

-- A row that is replaced takes its part out and brings the new one in.
reserved_by-insert :
    (k : Text) (o o' : OrderRow) (rows : Dict OrderRow)
    → lookup k rows ≡ some o
    → reserved_by (open_orders (insert k o' rows))
      ≡ reserved_by (open_orders rows) -ℤ open_part o +ℤ open_part o'
unfolding lookup insert
reserved_by-insert k o o' [] h = cc h
reserved_by-insert k o o' ((j, p) ∷ rows) h = elim (Bool-cases (j == k)) [
  | inl own ↦
      let same_row : p ≡ o = ground (arith, rw own at h) in
      rw (own, open_orders-∷ k o' rows, open_orders-∷ j p rows, same_row) (omega int_laws)
  | inr other ↦
      rw
        (
          other,
          open_orders-∷ j p (insert k o' rows),
          open_orders-∷ j p rows,
          reserved_by-insert k o o' rows (rw other at h),
        )
        (omega int_laws)
]

-- Nothing is reserved for nothing.
reserve_after-filled :
    (f : Fill) (o : OrderRow) → is_zero (remaining_after f o) ≡ true → reserve_after f o ≡ pos 0
unfolding reserve_after
reserve_after-filled f o h =
    rw (eqb_ℤ→eq (remaining_after f o) (pos 0) h, times_zero o.reserved) (zero_divide (remaining o))

filled_part : (f : Fill) (o : OrderRow) → open_part (filled_order f o) ≡ reserve_after f o
unfolding filled_order
filled_part f o = elim (Bool-cases (is_zero (remaining_after f o))) [
  | inl all_filled ↦ rw (all_filled, reserve_after-filled f o all_filled) refl
  | inr partly ↦ rw partly refl
]

write_trade_orders :
    (f : Fill) (o : OrderRow) (b : Book)
    → (write_trade f o (stored_trade f o b) b).orders
      ≡ insert f.intent_id (filled_order f o) b.orders
unfolding write_trade write_holding
write_trade_orders f o b = refl

-- While the cash, the reservations and their differences have no more digits than a decimal keeps, a
-- buy of an open order leaves no less cash than all the orders that rest afterwards reserve
-- together.
pub book_trade-available_cash :
    (f : Fill) (o : OrderRow) (b b1 : Book)
    → o.intent.side ≡ Side.buy
    → lookup f.intent_id b.orders ≡ some o
    → is_open o.status ≡ true
    → Fits (reserved_by (pending_orders b))
    → Fits (reserved_by (pending_orders b) -ℤ o.reserved)
    → Fits (reserved_by (pending_orders b) -ℤ o.reserved +ℤ reserve_after f o)
    → book_trade f o b ≡ ok b1
    → pos 0 ≤ℤ available_cash b1
unfolding pending_orders other_reservations plus minus
book_trade-available_cash f o b b1 is_buy found opened all others after h =
    let floor =
      subst (λ (x : Side). cash_floor x f o b ≤ℤ b1.cash) is_buy (book_trade-cash f o b b1 h) in
    let exact_left : b.cash -ℤ available_cash b ≡ reserved_by (open_orders b.orders) =
      rw (available_cash_lem b) (omega int_laws) in
    let bound : reserved_by (open_orders b.orders) -ℤ o.reserved +ℤ reserve_after f o ≤ℤ b1.cash =
      rw (exact_left, all, others, after) at floor in
    let orders = ap Book.orders (book_trade_lem f o b b1 h).1 ∙ write_trade_orders f o b in
    let left : reserved_by (open_orders b1.orders)
        ≡ reserved_by (open_orders b.orders) -ℤ o.reserved +ℤ reserve_after f o =
      ap (λ (x : Dict OrderRow). reserved_by (open_orders x)) orders
      ∙ reserved_by-insert f.intent_id o (filled_order f o) b.orders found
      ∙ rw (opened, filled_part f o) refl in
    rw (available_cash_lem b1, left) (omega (int_laws, bound))
