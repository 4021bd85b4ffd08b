-- ===== src/Decimal/Rounding.antt =====
-- The rounding of Python's `Decimal`: how many digits it keeps, and that its search ends.
use agentic_quant.Prelude.{
  ℕ, zero, suc, ◌*◌, ◌^◌, ◌≤◌, ◌<◌, ◌≡◌, ◌⊎◌, refl, inl, inr, arith, ltb, Bool-cases,
}
use native.Mathlib.Nat.{pow-succ'}
use agentic_quant.Decimal.{digits_limit, quantum}

-- A power of ten is more than its exponent.
exponent_below : (n : ℕ) → n < 10 ^ n
exponent_below zero = omega arith
exponent_below (suc n) = rw (pow-succ' 10 n) (let ih = exponent_below n in omega (arith, ih))

next_scale : (num limit den p : ℕ) → num < limit * den * (10 * p) → num < limit * (den * 10) * p
next_scale num limit den p h = omega (arith, h)

-- With fuel for the digits, at most `digits_limit` of the result's units are kept.
quantum_reaches :
    (fuel num den : ℕ)
    → num < digits_limit * den * 10 ^ fuel
    → num < digits_limit * quantum fuel num den
unfolding quantum
quantum_reaches zero num den h = omega (arith, h)
quantum_reaches (suc fuel) num den h = elim (Bool-cases (ltb num (digits_limit * den))) [
  | inl short ↦ rw short (ground (arith, short))
  | inr long ↦ rw long (
      quantum_reaches fuel num (den * 10)
        (next_scale num digits_limit den (10 ^ fuel) (rw (pow-succ' 10 fuel) at h)))
]

coarser :
    (num den q : ℕ)
    → digits_limit * den ≤ num
    → (q ≡ den * 10) ⊎ (digits_limit * q ≤ 10 * num)
    → digits_limit * q ≤ 10 * num
coarser num den q long (inl e) = omega (arith, long, e)
coarser num den q long (inr le) = le

-- No digit is dropped that could be kept.
quantum_least :
    (fuel num den : ℕ)
    → (quantum fuel num den ≡ den) ⊎ (digits_limit * quantum fuel num den ≤ 10 * num)
unfolding quantum
quantum_least zero num den = inl refl
quantum_least (suc fuel) num den = elim (Bool-cases (ltb num (digits_limit * den))) [
  | inl short ↦ rw short (inl refl)
  | inr long ↦ rw long (
      inr (
        coarser num den (quantum fuel num (den * 10)) (ground (arith, long))
          (quantum_least fuel num (den * 10))))
]

larger_product : (a b p : ℕ) → 0 < a → 0 < b → p ≤ a * b * p
larger_product a b p h k = grind arith

-- The number itself is fuel enough: 28 digits are kept, and no fewer than could be.
pub quantum_digits :
    (num den : ℕ)
    → 0 < den
    → (num < digits_limit * quantum num num den)
      × ((quantum num num den ≡ den) ⊎ (digits_limit * quantum num num den ≤ 10 * num))
quantum_digits num den positive =
    let below = exponent_below num in
    let grown = larger_product digits_limit den (10 ^ num) (omega arith) positive in
    (quantum_reaches num num den (omega (arith, below, grown)), quantum_least num num den)
