-- ===== src/Tests/Sleeves.antt =====
-- An amount that two owners share, and three units that two owners share.
use agentic_quant.Prelude.Int.{pos, ◌+ℤ◌, ◌-ℤ◌}
use agentic_quant.Prelude.{◌≡◌, refl, [], ◌∷◌, ◌*◌, ◌^◌, ◌/◌}
use agentic_quant.Prelude.Result.{ok}
use agentic_quant.Prelude.Dict.{Dict, put}
use agentic_quant.Decimal.{
  Decimal, unit, round, magnitude, context, minus, times, divide, copy_negate, exact_decimal_sum,
}
use agentic_quant.Sleeves.{
  Claim, positive_weights, values_of, quantize_down, share, shares, divide_among, partition,
  decimal_of, lost, insert_claim, sort_claims, give, count_claims, remainder, allot,
}
use agentic_quant.Sleeves.Conservation.{all_counts, partition_total, allot_total}

weights : Dict Decimal
weights = (2, pos (2 * unit)) ∷ (1, pos unit) ∷ []

-- A third of one, to eight places, and what that leaves.
parts : Dict Decimal
parts = (1, pos (33_333_333 * 10 ^ 32)) ∷ (2, pos (66_666_667 * 10 ^ 32)) ∷ []

partition_runs : partition (pos unit) weights (pos (10 ^ 32)) ≡ ok parts
unfolding partition divide_among weights parts positive_weights values_of put shares share
    quantize_down times divide round magnitude exact_decimal_sum copy_negate ◌+ℤ◌ ◌-ℤ◌
partition_runs = refl

partition_total_example : exact_decimal_sum (values_of parts) ≡ pos unit
partition_total_example = partition_total (pos unit) weights (pos (10 ^ 32)) parts partition_runs

abbrev first : Claim
first = record { owner = 1; raw = pos (15 * unit / 10); count = pos 1 }

abbrev second : Claim
second = record { owner = 2; raw = pos (15 * unit / 10); count = pos 1 }

abbrev given : Claim
given = record first { count = pos 2 }

allot_runs : allot (pos 3) (second ∷ first ∷ []) ≡ ok (given ∷ second ∷ [])
unfolding allot remainder count_claims give sort_claims insert_claim lost minus context round
    magnitude decimal_of exact_decimal_sum ◌+ℤ◌ ◌-ℤ◌
allot_runs = refl

allot_total_example :
    (all_counts (given ∷ second ∷ []) ≡ pos 3)
    × (count_claims (given ∷ second ∷ []) ≡ count_claims (second ∷ first ∷ []))
allot_total_example = allot_total (pos 3) (second ∷ first ∷ []) (given ∷ second ∷ []) allot_runs
