-- ===== src/Sleeves.antt =====
-- src/execution/sleeves.py: how an amount is divided among the owners of a position.
--
-- `exact_sum` takes a precision that holds every digit of the sum, so it is the exact sum. A table of
-- weights is sorted by its owners when it is read.
pub mod Conservation
use agentic_quant.Prelude.Int.{ℤ, pos, pos_part, neg_part, sub_ℕ, ◌+ℤ◌, ◌-ℤ◌, ltb_ℤ, leb_ℤ, eqb_ℤ}
use agentic_quant.Prelude.{
  ℕ, zero, suc, ◌+◌, ◌*◌, ◌/◌, ◌%◌, Bool, true, false, not, ◌&&◌, ◌||◌, Option, none, some, List,
  [], ◌∷◌, ltb, ◌==◌, if◌then◌else◌,
}
use agentic_quant.Prelude.Result.{Result, ok, err, ◌>>=◌, ◌>>◌, guard, raise_if}
use agentic_quant.Prelude.Dict.{Dict, put}
use agentic_quant.Decimal.{
  Decimal, unit, magnitude, minus, times, divide, copy_negate, exact_decimal_sum, is_positive,
}
use agentic_quant.Domain.Common.{Text}

pub data SleeveError : Type 0 where
  no_owners invalid_quantity imprecise : SleeveError

-- `{k: D(v) for k, v in sorted(weights.items()) if v > 0}`
unfoldable pub positive_weights : Dict Decimal → Dict Decimal
positive_weights [] = []
positive_weights ((k, v) ∷ rows) =
    let rest = positive_weights rows in if is_positive v then put k v rest else rest

unfoldable pub values_of : Dict Decimal → List Decimal
values_of [] = []
values_of ((k, v) ∷ rows) = v ∷ values_of rows

-- `exact_sum`
abbrev pub exact_sum : List Decimal → Decimal
exact_sum values = exact_decimal_sum values

-- `quantize(quantum, rounding=ROUND_DOWN)`, of which the code uses quanta that are powers of ten.
unfoldable pub quantize_down : Decimal → Decimal → Decimal
quantize_down quantum a =
    let q = magnitude quantum in sub_ℕ (pos_part a / q * q) (neg_part a / q * q)

-- The part of one owner but the last.
unfoldable pub share : Decimal → Decimal → Decimal → Decimal → Decimal
share quantum total denominator weight =
    quantize_down quantum (divide (times total weight) denominator)

-- The last owner takes what the others leave.
unfoldable pub shares : Decimal → Decimal → Decimal → Dict Decimal → List Decimal → Dict Decimal
shares quantum total denominator [] taken = []
shares quantum total denominator ((k, w) ∷ []) taken =
    (k, exact_sum (total ∷ copy_negate (exact_sum taken) ∷ [])) ∷ []
shares quantum total denominator ((k, w) ∷ row ∷ rows) taken =
    let part = share quantum total denominator w in
    (k, part) ∷ shares quantum total denominator (row ∷ rows) (part ∷ taken)

unfoldable pub divide_among : Decimal → Decimal → Dict Decimal → Result SleeveError (Dict Decimal)
divide_among quantum total [] = if eqb_ℤ total (pos 0) then ok [] else err no_owners
divide_among quantum total (row ∷ rows) =
    ok (shares quantum total (exact_sum (values_of (row ∷ rows))) (row ∷ rows) [])

-- `partition`
unfoldable pub partition : Decimal → Dict Decimal → Decimal → Result SleeveError (Dict Decimal)
partition total weights quantum = divide_among quantum total (positive_weights weights)

-- One owner's row of `raw` and `counts`; an integer is a number of ones.
pub record Claim : Type 0 where
  pub owner : Text
  pub raw : Decimal
  pub count : ℤ

-- `int(v)`
unfoldable pub truncated : Decimal → ℤ
truncated a = sub_ℕ (pos_part a / unit) (neg_part a / unit)

-- `D(n)`
unfoldable pub decimal_of : ℤ → Decimal
decimal_of n = sub_ℕ (pos_part n * unit) (neg_part n * unit)

unfoldable pub claims : ℤ → Decimal → Dict Decimal → List Claim
claims units denominator [] = []
claims units denominator ((k, w) ∷ rows) =
    let raw = divide (times (decimal_of units) w) denominator in
    record { owner = k; raw = raw; count = truncated raw } ∷ claims units denominator rows

abbrev pub counts_of : List Claim → List ℤ
counts_of [] = []
counts_of (c ∷ cs) = c.count ∷ counts_of cs

-- `raw[k] - counts[k]`
unfoldable pub lost : Claim → Decimal
lost c = minus c.raw (decimal_of c.count)

-- The order of the key `(-(raw[k] - counts[k]), k)`.
abbrev pub precedes : Claim → Claim → Bool
precedes c d = ltb_ℤ (lost d) (lost c) || eqb_ℤ (lost c) (lost d) && ltb c.owner d.owner

unfoldable pub insert_claim : Claim → List Claim → List Claim
insert_claim c [] = c ∷ []
insert_claim c (d ∷ ds) = if precedes d c then d ∷ insert_claim c ds else c ∷ d ∷ ds

unfoldable pub sort_claims : List Claim → List Claim
sort_claims [] = []
sort_claims (c ∷ cs) = insert_claim c (sort_claims cs)

-- `counts[key] += 1` for the first owners.
unfoldable pub give : ℕ → List Claim → List Claim
give zero cs = cs
give (suc n) [] = []
give (suc n) (c ∷ cs) = record c { count = c.count +ℤ pos 1 } ∷ give n cs

unfoldable pub count_claims : List Claim → ℕ
count_claims [] = 0
count_claims (c ∷ cs) = 1 + count_claims cs

unfoldable pub remainder : ℤ → List Claim → ℤ
remainder units cs = units -ℤ exact_decimal_sum (counts_of cs)

-- The counts after the largest remainders, in the order of those.
unfoldable pub allot : ℤ → List Claim → Result SleeveError (List Claim)
allot units cs = do
  guard (leb_ℤ (pos 0) (remainder units cs) && ltb_ℤ (remainder units cs) (pos (count_claims cs)))
      imprecise
  ok (give (pos_part (remainder units cs)) (sort_claims cs))

unfoldable pub to_quantities : Decimal → List Claim → Dict Decimal
to_quantities quantum [] = []
to_quantities quantum (c ∷ cs) =
    put c.owner (times (decimal_of c.count) quantum) (to_quantities quantum cs)

unfoldable pub no_quantities : Dict Decimal → Dict Decimal
no_quantities [] = []
no_quantities ((k, w) ∷ rows) = (k, pos 0) ∷ no_quantities rows

-- `total % quantum` is not zero.
abbrev is_broken : Decimal → Decimal → Bool
is_broken total quantum = not (magnitude total % magnitude quantum == 0)

unfoldable pub allot_units : Decimal → Decimal → Dict Decimal → Result SleeveError (Dict Decimal)
allot_units total quantum weights = do
  let denominator = exact_sum (values_of weights)
  raise_if (leb_ℤ denominator (pos 0) || is_broken total quantum) invalid_quantity
  let units = truncated (divide total quantum)
  cs ← allot units (claims units denominator weights)
  ok (to_quantities quantum cs)

-- `quantities`
unfoldable pub quantities : Decimal → Dict Decimal → Decimal → Result SleeveError (Dict Decimal)
quantities total weights quantum =
    if eqb_ℤ total (pos 0)
    then ok (no_quantities (positive_weights weights))
    else allot_units total quantum (positive_weights weights)
