-- ===== src/FillArithmetic.antt =====
-- src/execution/fill_arithmetic.py. The flag is the field `exact`: a fill with a native settlement
-- or with inventory fees is booked by exact sums, and any other one by rounded operations.
use agentic_quant.Prelude.Int.{pos, ◌+ℤ◌, ◌-ℤ◌, ◌≤ℤ◌, ◌<ℤ◌, pos_part, neg_part, int_laws}
use agentic_quant.Prelude.{◌≡◌, ap, sym, ◌∙◌, Bool, true, false, [], ◌∷◌, if◌then◌else◌}
use agentic_quant.Decimal.{Decimal, context, plus, minus, copy_negate, exact_decimal_sum, Fits}
use agentic_quant.Decimal.Bounds.{context_nonneg, context_pos, context_zero, zero_Fits, sub_self}

unfoldable pub add : Bool → Decimal → Decimal → Decimal
add exact left right = if exact then exact_decimal_sum (left ∷ right ∷ []) else plus left right

unfoldable pub subtract : Bool → Decimal → Decimal → Decimal
subtract exact left right =
    if exact then exact_decimal_sum (left ∷ copy_negate right ∷ []) else minus left right

unfoldable pub negate : Bool → Decimal → Decimal
negate exact value = if exact then copy_negate value else context (pos 0 -ℤ value)

pub add_exact : (a b : Decimal) → add true a b ≡ a +ℤ b
unfolding add exact_decimal_sum
add_exact a b = omega int_laws

pub subtract_exact : (a b : Decimal) → subtract true a b ≡ a -ℤ b
unfolding subtract exact_decimal_sum copy_negate
subtract_exact a b = omega int_laws

pub negate_exact : (a : Decimal) → negate true a ≡ pos 0 -ℤ a
unfolding negate copy_negate
negate_exact a = omega int_laws

-- Where the result fits into 28 digits, the two ways agree.
pub add-Fits : (exact : Bool) (a b : Decimal) → Fits (a +ℤ b) → add exact a b ≡ a +ℤ b
unfolding plus add
add-Fits true a b h = add_exact a b
add-Fits false a b h = h

pub subtract-Fits : (exact : Bool) (a b : Decimal) → Fits (a -ℤ b) → subtract exact a b ≡ a -ℤ b
unfolding minus subtract
subtract-Fits true a b h = subtract_exact a b
subtract-Fits false a b h = h

pub add_nonneg : (exact : Bool) (a b : Decimal) → pos 0 ≤ℤ a → pos 0 ≤ℤ b → pos 0 ≤ℤ add exact a b
unfolding plus
add_nonneg true a b h k = rw (add_exact a b) (omega int_laws)
add_nonneg false a b h k = unfold add in context_nonneg (a +ℤ b) (omega int_laws)

pub subtract_nonneg : (exact : Bool) (a b : Decimal) → b ≤ℤ a → pos 0 ≤ℤ subtract exact a b
unfolding minus
subtract_nonneg true a b h = rw (subtract_exact a b) (omega int_laws)
subtract_nonneg false a b h = unfold subtract in context_nonneg (a -ℤ b) (omega int_laws)

pub add_pos : (exact : Bool) (a b : Decimal) → pos 0 ≤ℤ a → pos 0 <ℤ b → pos 0 <ℤ add exact a b
unfolding plus
add_pos true a b h k = rw (add_exact a b) (omega int_laws)
add_pos false a b h k = unfold add in context_pos (a +ℤ b) (omega int_laws)

-- A difference that is booked as zero is zero, whether or not it is rounded.
pub subtract_zero : (exact : Bool) (a b : Decimal) → subtract exact a b ≡ pos 0 → a ≡ b
unfolding minus
subtract_zero true a b h = omega (
  int_laws,
  ap pos_part (sym (subtract_exact a b) ∙ h),
  ap neg_part (sym (subtract_exact a b) ∙ h),
)
subtract_zero false a b h =
    let e = context_zero (a -ℤ b) (unfold subtract in h) in
    omega (int_laws, ap pos_part e, ap neg_part e)

pub subtract_self : (exact : Bool) (a : Decimal) → subtract exact a a ≡ pos 0
unfolding minus
subtract_self true a = rw (subtract_exact a a) (omega int_laws)
subtract_self false a = unfold subtract in rw (sub_self a) zero_Fits
