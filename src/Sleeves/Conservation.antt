-- ===== src/Sleeves/Conservation.antt =====
-- What src/execution/sleeves.py divides is what it had.
use agentic_quant.Prelude.Int.{
  ℤ, pos, ◌+ℤ◌, ◌-ℤ◌, ◌≤ℤ◌, leb_ℤ, ltb_ℤ, pos_part, neg_part, eqb_ℤ, eqb_ℤ→eq, int_laws,
}
use agentic_quant.Prelude.{
  ℕ, zero, suc, ◌+◌, ◌≤◌, ◌≡◌, refl, sym, ap, subst, ◌∙◌, arith, ◌&&◌, List, [], ◌∷◌, inl, inr,
  Bool-cases,
}
use agentic_quant.Prelude.Result.{ok, guard-eq-ok}
use agentic_quant.Prelude.Dict.{Dict}
use agentic_quant.Decimal.{Decimal, copy_negate, exact_decimal_sum}
use agentic_quant.Sleeves.{
  imprecise, positive_weights, values_of, exact_sum, share, shares, divide_among, partition, Claim,
  counts_of, precedes, insert_claim, sort_claims, give, count_claims, remainder, allot,
}

moved_part : (a b c total : ℤ) → c +ℤ (a +ℤ b) ≡ total → (a +ℤ c) +ℤ b ≡ total
moved_part a b c total h = omega (int_laws, ap pos_part h, ap neg_part h)

-- The shares and what was taken before them make the total.
shares_sum :
    (quantum total denominator : Decimal) (k : ℕ) (w : Decimal) (rows : Dict Decimal)
    (taken : List Decimal)
    → exact_decimal_sum (values_of (shares quantum total denominator ((k, w) ∷ rows) taken))
        +ℤ exact_decimal_sum taken
      ≡ total
unfolding shares values_of exact_decimal_sum copy_negate
shares_sum quantum total denominator k w [] taken = omega int_laws
shares_sum quantum total denominator k w ((j, v) ∷ rows) taken =
    let part = share quantum total denominator w in
    let ih = shares_sum quantum total denominator j v rows (part ∷ taken) in
    moved_part part (exact_decimal_sum taken) _ total ih

sum_nothing : exact_decimal_sum (values_of []) ≡ pos 0
unfolding exact_decimal_sum values_of
sum_nothing = refl

shares_total :
    (quantum total denominator : Decimal) (k : ℕ) (w : Decimal) (rows : Dict Decimal)
    → exact_decimal_sum (values_of (shares quantum total denominator ((k, w) ∷ rows) [])) ≡ total
unfolding exact_decimal_sum
shares_total quantum total denominator k w rows =
    let e = shares_sum quantum total denominator k w rows [] in
    omega (int_laws, ap pos_part e, ap neg_part e)

divide_among_total :
    (rows : Dict Decimal) (total quantum : Decimal) (parts : Dict Decimal)
    → divide_among quantum total rows ≡ ok parts
    → exact_decimal_sum (values_of parts) ≡ total
unfolding divide_among
divide_among_total [] total quantum parts h = elim (Bool-cases (eqb_ℤ total (pos 0))) [
  | inr some_left ↦ cc (rw some_left at h)
  | inl nothing ↦
      let no_parts : [] ≡ parts = ground (arith, rw nothing at h) in
      subst (λ (x : Dict Decimal). exact_decimal_sum (values_of x) ≡ total) no_parts
        (sum_nothing ∙ sym (eqb_ℤ→eq total (pos 0) nothing))
]
divide_among_total ((k, w) ∷ rows) total quantum parts h =
    let all_parts : shares quantum total (exact_sum (values_of ((k, w) ∷ rows))) ((k, w) ∷ rows) []
        ≡ parts =
      ground (arith, h) in
    subst (λ (x : Dict Decimal). exact_decimal_sum (values_of x) ≡ total) all_parts
      (shares_total quantum total (exact_sum (values_of ((k, w) ∷ rows))) k w rows)

-- The parts of a partition add up to the total exactly, whatever was rounded on the way.
pub partition_total :
    (total : Decimal) (weights : Dict Decimal) (quantum : Decimal) (parts : Dict Decimal)
    → partition total weights quantum ≡ ok parts
    → exact_decimal_sum (values_of parts) ≡ total
unfolding partition
partition_total total weights quantum parts h =
    divide_among_total (positive_weights weights) total quantum parts h

abbrev pub all_counts : List Claim → ℤ
all_counts cs = exact_decimal_sum (counts_of cs)

one_more_first : (a b c : ℤ) → c ≡ a +ℤ b → (d : ℤ) → d +ℤ c ≡ a +ℤ (d +ℤ b)
one_more_first a b c h d = omega (int_laws, ap pos_part h, ap neg_part h)

insert_claim_counts :
    (c : Claim) (cs : List Claim) → all_counts (insert_claim c cs) ≡ c.count +ℤ all_counts cs
unfolding insert_claim exact_decimal_sum
insert_claim_counts c [] = refl
insert_claim_counts c (d ∷ ds) = elim (Bool-cases (precedes d c)) [
  | inr first ↦ rw first refl
  | inl later ↦ rw later (
      one_more_first c.count (all_counts ds) (all_counts (insert_claim c ds))
        (insert_claim_counts c ds) d.count)
]

insert_claim_owners :
    (c : Claim) (cs : List Claim) → count_claims (insert_claim c cs) ≡ 1 + count_claims cs
unfolding insert_claim count_claims
insert_claim_owners c [] = refl
insert_claim_owners c (d ∷ ds) = ground (arith, insert_claim_owners c ds)

sort_claims_counts : (cs : List Claim) → all_counts (sort_claims cs) ≡ all_counts cs
unfolding sort_claims exact_decimal_sum
sort_claims_counts [] = refl
sort_claims_counts (c ∷ cs) =
    insert_claim_counts c (sort_claims cs) ∙ ap (λ (x : ℤ). c.count +ℤ x) (sort_claims_counts cs)

sort_claims_owners : (cs : List Claim) → count_claims (sort_claims cs) ≡ count_claims cs
unfolding sort_claims count_claims
sort_claims_owners [] = refl
sort_claims_owners (c ∷ cs) =
    insert_claim_owners c (sort_claims cs) ∙ ap (λ (x : ℕ). 1 + x) (sort_claims_owners cs)

raised : (a b c : ℤ) (n : ℕ) → c ≡ b +ℤ pos n → (a +ℤ pos 1) +ℤ c ≡ (a +ℤ b) +ℤ pos (suc n)
raised a b c n h = omega (int_laws, ap pos_part h, ap neg_part h)

give_counts :
    (n : ℕ) (cs : List Claim)
    → n ≤ count_claims cs
    → all_counts (give n cs) ≡ all_counts cs +ℤ pos n
unfolding give count_claims exact_decimal_sum
give_counts zero cs h = omega int_laws
give_counts (suc n) [] h = absurd (let bad : suc n ≤ 0 = h in omega (arith, bad))
give_counts (suc n) (c ∷ cs) h =
    raised c.count (all_counts cs) (all_counts (give n cs)) n (give_counts n cs (omega (arith, h)))

give_owners : (n : ℕ) (cs : List Claim) → count_claims (give n cs) ≡ count_claims cs
unfolding give count_claims
give_owners zero cs = refl
give_owners (suc n) [] = refl
give_owners (suc n) (c ∷ cs) = ap (λ (x : ℕ). 1 + x) (give_owners n cs)

nonnegative_part : (a : ℤ) → pos 0 ≤ℤ a → pos (pos_part a) ≡ a
nonnegative_part a h = ground arith

difference_back : (a units : ℤ) → a +ℤ (units -ℤ a) ≡ units
difference_back a units = omega int_laws

-- An allotment by largest remainders gives out exactly the units that there are, to the owners that
-- there are: it never creates nor loses one, whatever was rounded in the shares.
pub allot_total :
    (units : ℤ) (cs ds : List Claim)
    → allot units cs ≡ ok ds
    → (all_counts ds ≡ units) × (count_claims ds ≡ count_claims cs)
unfolding allot remainder
allot_total units cs ds h =
    let r = remainder units cs in
    let (fits, h1) =
      guard-eq-ok
        (leb_ℤ (pos 0) (remainder units cs) && ltb_ℤ (remainder units cs) (pos (count_claims cs)))
        imprecise _ h in
    let last : give (pos_part r) (sort_claims cs) ≡ ds = ground (arith, h1) in
    let nonnegative : pos 0 ≤ℤ r = ground (arith, fits) in
    let few : pos_part r ≤ count_claims (sort_claims cs) =
      rw (sort_claims_owners cs) (ground (arith, fits)) in
    (
      ap all_counts (sym last)
          ∙ give_counts (pos_part r) (sort_claims cs) few
          ∙ ap (λ (x : ℤ). x +ℤ pos (pos_part r)) (sort_claims_counts cs)
          ∙ ap (λ (x : ℤ). all_counts cs +ℤ x) (nonnegative_part r nonnegative)
          ∙ difference_back (all_counts cs) units,
      ap count_claims (sym last)
          ∙ give_owners (pos_part r) (sort_claims cs)
          ∙ sort_claims_owners cs,
    )
