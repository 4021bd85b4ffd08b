-- ===== src/Decimal.antt =====
-- The exact sums and products of src/domain/portfolio.py, and Python's `Decimal` under its default
-- context: 28 significant digits, ROUND_HALF_EVEN.
--
-- A finite decimal is its value in units of 10^-40, so two spellings of one value (`1.0`, `1.00`)
-- are equal, as they are under Python's `==`. An operation first has its exact result and then
-- rounds it to 28 digits. What is not modelled: digits beyond the fortieth place, infinities, NaN,
-- and the traps for overflow.
pub mod Bounds
pub mod Rounding
use agentic_quant.Prelude.Int.{ℤ, pos, pos_part, neg_part, sub_ℕ, ◌+ℤ◌, ◌-ℤ◌, ltb_ℤ, leb_ℤ}
use agentic_quant.Prelude.{
  ℕ, arith, zero, suc, ◌+◌, ◌*◌, ◌/◌, ◌%◌, ◌^◌, ◌≡◌, refl, not, ◌&&◌, Bool, List, [], ◌∷◌, ltb,
  ◌==◌, if◌then◌else◌,
}

abbrev pub Decimal : Type 0
Decimal = ℤ

-- One, in units of the last place.
abbrev pub unit : ℕ
unit = 10 ^ 40

abbrev pub one : Decimal
one = pos unit

abbrev pub digits_limit : ℕ
digits_limit = 10 ^ 28

-- `den` times the least power of ten that leaves at most 28 digits of `num / den`.
pub quantum : ℕ → ℕ → ℕ → ℕ
quantum zero num den = den
quantum (suc fuel) num den =
    let coarser = quantum fuel num (den * 10) in
    if ltb num (digits_limit * den) then den else coarser

-- ROUND_HALF_EVEN of `num / den` to an integer.
pub half_even : ℕ → ℕ → ℕ
half_even num den =
    let q = num / den in
    let twice = 2 * (num % den) in
    if ltb twice den then q else if ltb den twice then q + 1 else q + q % 2

-- `num / den` rounded to 28 digits.
unfoldable pub round : ℕ → ℕ → ℕ
unfolding quantum half_even
round num den = let d = quantum num num den in half_even num d * (d / den)

unfoldable pub magnitude : Decimal → ℕ
magnitude a = pos_part a + neg_part a

pub magnitude_pos : (n : ℕ) → magnitude (pos n) ≡ n
unfolding magnitude
magnitude_pos n = omega arith

-- Zero counts as not negative.
abbrev is_nonneg : Decimal → Bool
is_nonneg a = neg_part a == 0

abbrev signed : Bool → ℕ → Decimal
signed nonnegative n = if nonnegative then pos n else sub_ℕ 0 n

abbrev product_sign : Decimal → Decimal → Bool
product_sign a b = if is_nonneg a then is_nonneg b else not (is_nonneg b)

-- The context's rounding of an exact value.
unfoldable pub context : Decimal → Decimal
unfolding round magnitude
context a = signed (is_nonneg a) (round (magnitude a) 1)

-- `a + b`, `a - b`, `-a`, `a * b`, `a / b` for a divisor other than zero.
unfoldable pub plus : Decimal → Decimal → Decimal
plus a b = context (a +ℤ b)

unfoldable pub minus : Decimal → Decimal → Decimal
minus a b = context (a -ℤ b)

unfoldable pub times : Decimal → Decimal → Decimal
times a b = signed (product_sign a b) (round (magnitude a * magnitude b) unit)

unfoldable pub divide : Decimal → Decimal → Decimal
divide a b = signed (product_sign a b) (round (magnitude a * unit) (magnitude b))

-- `copy_negate`, which does not round.
unfoldable pub copy_negate : Decimal → Decimal
copy_negate a = pos 0 -ℤ a

unfoldable pub exact_decimal_sum : List Decimal → Decimal
exact_decimal_sum [] = pos 0
exact_decimal_sum (v ∷ values) = v +ℤ exact_decimal_sum values

unfoldable pub exact_decimal_product : Decimal → Decimal → Decimal
exact_decimal_product a b = signed (product_sign a b) (magnitude a * magnitude b / unit)

-- A decimal that 28 digits hold, so that an operation whose result it is does not round.
abbrev pub Fits : Decimal → Type 0
Fits a = context a ≡ a

-- Comparisons do not round.
abbrev pub is_positive : Decimal → Bool
is_positive a = ltb_ℤ (pos 0) a

abbrev pub is_nonnegative : Decimal → Bool
is_nonnegative a = leb_ℤ (pos 0) a

abbrev pub is_fraction : Decimal → Bool
is_fraction a = leb_ℤ (pos 0) a && leb_ℤ a one
