-- ===== src/Decimal/Bounds.antt =====
-- Signs of the results of src/domain/portfolio.py's arithmetic, and when it does not round.
use agentic_quant.Prelude.Int.{◌-ℤ◌, int_laws, pos, pos_part, neg_part, ◌≤ℤ◌, ◌<ℤ◌}
use agentic_quant.Prelude.{
  zero, suc, ◌+◌, [], ◌∷◌, ◌/◌, ◌⊎◌, inl, inr, ◌*◌, refl, ◌≤◌, ℕ, ◌<◌, ◌≡◌, arith,
}
use agentic_quant.Decimal.{
  Decimal, unit, quantum, round, half_even, magnitude, context, times, divide, Fits, copy_negate,
  exact_decimal_sum,
}

pub context_nonneg : (a : Decimal) → pos 0 ≤ℤ a → pos 0 ≤ℤ context a
unfolding context
context_nonneg a h = ground arith

round_zero : (den : ℕ) → 0 < den → round 0 den ≡ 0
unfolding round quantum half_even
round_zero den h = ground arith

pub times_nonneg : (a b : Decimal) → pos 0 ≤ℤ a → pos 0 ≤ℤ b → pos 0 ≤ℤ times a b
unfolding times
times_nonneg a b h k = ground arith

pub divide_nonneg : (a b : Decimal) → pos 0 ≤ℤ a → pos 0 ≤ℤ b → pos 0 ≤ℤ divide a b
unfolding divide
divide_nonneg a b h k = ground arith

pub zero_times : (b : Decimal) → times (pos 0) b ≡ pos 0
unfolding times magnitude
zero_times b = ground (arith, round_zero unit (omega arith))

-- Rounding keeps a number that is not zero away from zero.
quantum_bound :
    (fuel num den : ℕ)
    → (quantum fuel num den ≡ den)
      ⊎ (quantum fuel num den ≤ num) × (0 < den → 0 < quantum fuel num den)
unfolding quantum
quantum_bound zero num den = inl refl
quantum_bound (suc fuel) num den = ground (arith, quantum_bound fuel num (den * 10))

half_even_pos : (num den : ℕ) → 0 < den → den ≤ num → 0 < half_even num den
unfolding half_even
half_even_pos num den h k = grind arith

half_even_one : (num : ℕ) → half_even num 1 ≡ num
unfolding half_even
half_even_one num = ground arith

product_pos : (a b : ℕ) → 0 < a → 0 < b → 0 < a * b
product_pos a b h k = grind arith

-- The two outcomes of `quantum_bound`: nothing was dropped, or something is left.
rounded_pos : (num d : ℕ) → 0 < num → (d ≡ 1) ⊎ (d ≤ num) × (0 < d) → 0 < half_even num d * (d / 1)
rounded_pos num d h (inl e) = rw (e, half_even_one num) (omega arith)
rounded_pos num d h (inr (le, p)) = product_pos _ _ (half_even_pos num d p le) (omega arith)

round_pos : (num : ℕ) → 0 < num → 0 < round num 1
unfolding round
round_pos num h = rounded_pos num (quantum num num 1) h (ground (arith, quantum_bound num num 1))

pub context_pos : (a : Decimal) → pos 0 <ℤ a → pos 0 <ℤ context a
unfolding context magnitude
context_pos a h = ground (arith, round_pos (magnitude a))

pub context_zero : (a : Decimal) → context a ≡ pos 0 → a ≡ pos 0
unfolding context magnitude
context_zero a h = ground (arith, round_pos (magnitude a))

pub zero_Fits : Fits (pos 0)
unfolding context magnitude round half_even quantum
zero_Fits = refl

pub sub_self : (a : Decimal) → a -ℤ a ≡ pos 0
sub_self a = omega int_laws

pub exact_difference : (a b : Decimal) → exact_decimal_sum (a ∷ copy_negate b ∷ []) ≡ a -ℤ b
unfolding exact_decimal_sum copy_negate
exact_difference a b = omega int_laws

round_nothing : (den : ℕ) → round 0 den ≡ 0
unfolding round half_even quantum
round_nothing zero = refl
round_nothing (suc den) = round_zero (suc den) (omega arith)

pub times_zero : (a : Decimal) → times a (pos 0) ≡ pos 0
unfolding times magnitude
times_zero a =
    let e : (pos_part a + neg_part a) * 0 ≡ 0 = omega arith in
    rw (e, round_zero unit (omega arith)) (ground arith)

pub zero_divide : (a : Decimal) → divide (pos 0) a ≡ pos 0
unfolding divide round magnitude
zero_divide a = rw (round_nothing (magnitude a)) (ground arith)
