-- ===== src/Domain/Dividends/Payment.antt =====
-- The payment that src/domain/portfolio.py's `DividendDistribution.payment` returns is a valid one.
use agentic_quant.Prelude.Int.{pos, negsuc, pos_part, ◌≤ℤ◌, ◌+ℤ◌}
use agentic_quant.Prelude.{
  ℕ, ◌+◌, ◌*◌, ◌/◌, ◌≤◌, Bool, true, not, ◌≡◌, refl, ap, ◌∙◌, Option, none, some, arith, is_some,
  if◌then◌else◌, ◌&&◌,
}
use agentic_quant.Prelude.Result.{ok, raise_if-eq-ok}
use agentic_quant.Decimal.{
  Decimal, unit, magnitude_pos, is_nonnegative, exact_decimal_sum, exact_decimal_product,
}
use native.Mathlib.Nat.{mul-div_cancel}
use agentic_quant.Domain.Common.{Text}
use agentic_quant.Domain.Dividends.{
  DividendEntitlement, DividendDistribution, DividendPayment, PaperDividendPolicy, is_bound,
  is_paper, origin_of, hash_of, reconciles_gross, is_causal, valid_distribution, valid_payment,
  policy_differs, policy_conflicts, sized, payment,
}

-- A quantity that is a whole number of units, so that its products have no more places than a
-- decimal of the model.
abbrev pub whole : ℕ → Decimal
whole n = pos (n * unit)

times_unit : (n p : ℕ) → n * unit * p / unit ≡ n * p
times_unit n p =
    let e : n * unit * p ≡ n * p * unit = grind arith in
    ap (λ x. x / unit) e
    ∙ mul-div_cancel (n * p) (let positive : 1 ≤ unit = omega arith in positive)

product_whole :
    (n : ℕ) (c : Decimal) → pos 0 ≤ℤ c → exact_decimal_product (whole n) c ≡ pos (n * pos_part c)
unfolding exact_decimal_product
product_whole n (pos p) h = rw (magnitude_pos (n * unit), magnitude_pos p) (ap pos (times_unit n p))
product_whole n (negsuc p) h = absurd (omega (arith, h))

gross_parts :
    (net fee tax gross : Decimal)
    → pos 0 ≤ℤ net
    → pos 0 ≤ℤ fee
    → pos 0 ≤ℤ tax
    → reconciles_gross gross net fee tax ≡ true
    → pos_part gross ≡ pos_part net + (pos_part fee + pos_part tax)
unfolding exact_decimal_sum ◌+ℤ◌
gross_parts net fee tax gross a b c h = ground arith

parts_reconcile :
    (gross net fee tax : ℕ)
    → gross ≡ net + (fee + tax)
    → reconciles_gross (pos gross) (pos net) (pos fee) (pos tax) ≡ true
unfolding exact_decimal_sum ◌+ℤ◌
parts_reconcile gross net fee tax h = ground arith

spread : (n x y z : ℕ) → n * (x + (y + z)) ≡ n * x + (n * y + n * z)
spread n x y z = grind arith

distribute :
    (n : ℕ) (net fee tax gross : Decimal)
    → pos 0 ≤ℤ net
    → pos 0 ≤ℤ fee
    → pos 0 ≤ℤ tax
    → reconciles_gross gross net fee tax ≡ true
    → reconciles_gross
        (pos (n * pos_part gross))
        (pos (n * pos_part net))
        (pos (n * pos_part fee))
        (pos (n * pos_part tax))
      ≡ true
distribute n net fee tax gross a b c h =
    let total = gross_parts net fee tax gross a b c h in
    parts_reconcile (n * pos_part gross) (n * pos_part net) (n * pos_part fee) (n * pos_part tax)
      (ap (λ x. n * x) total ∙ spread n (pos_part net) (pos_part fee) (pos_part tax))

mul_zero : (n : ℕ) → n * 0 ≡ 0
mul_zero n = omega arith

bound_product :
    (n : ℕ) (c : Decimal) (source : Option Text)
    → is_bound c source ≡ true
    → is_bound (pos (n * pos_part c)) source ≡ true
bound_product n c none h = let z : pos_part c ≡ 0 = ground arith in rw (z, mul_zero n)
bound_product n c (some t) h = ground arith

origin_bound :
    (payment_id : Text → Text) (entitlement_hash : DividendEntitlement → Text)
    (distribution_hash : DividendDistribution → Text) (policy_hash : PaperDividendPolicy → Text)
    (policy : Option PaperDividendPolicy)
    → (if is_paper (origin_of payment_id entitlement_hash distribution_hash policy_hash policy)
        then is_some (hash_of payment_id entitlement_hash distribution_hash policy_hash policy)
        else not
            (is_some (hash_of payment_id entitlement_hash distribution_hash policy_hash policy)))
      ≡ true
origin_bound payment_id entitlement_hash distribution_hash policy_hash none = refl
origin_bound payment_id entitlement_hash distribution_hash policy_hash (some p) = refl

-- The parts of a valid distribution.
valid_parts :
    (d : DividendDistribution)
    → valid_distribution d ≡ true
    → (pos 0 ≤ℤ d.gross_per_unit)
      × (pos 0 ≤ℤ d.net_per_unit)
      × (pos 0 ≤ℤ d.fee_per_unit)
      × (pos 0 ≤ℤ d.withholding_per_unit)
      × (reconciles_gross d.gross_per_unit d.net_per_unit d.fee_per_unit d.withholding_per_unit
          ≡ true)
      × (is_causal d.effective_date d.observed_at d.available_at ≡ true)
      × (is_bound d.fee_per_unit d.fee_source_hash ≡ true)
      × (is_bound d.withholding_per_unit d.tax_source_hash ≡ true)
unfolding valid_distribution
valid_parts d h = ground arith

both : {a b : Bool} → a ≡ true → b ≡ true → (a && b) ≡ true
both h k = rw (h, k) refl

four_nonneg :
    (a b c d : ℕ)
    → (is_nonnegative (pos a)
        && is_nonnegative (pos b)
        && is_nonnegative (pos c)
        && is_nonnegative (pos d))
      ≡ true
four_nonneg a b c d = ground arith

sized_valid :
    (payment_id : Text → Text) (entitlement_hash : DividendEntitlement → Text)
    (distribution_hash : DividendDistribution → Text) (policy_hash : PaperDividendPolicy → Text)
    (d : DividendDistribution) (e : DividendEntitlement) (n : ℕ)
    (policy : Option PaperDividendPolicy)
    → valid_distribution d ≡ true
    → e.quantity ≡ whole n
    → valid_payment (sized payment_id entitlement_hash distribution_hash policy_hash d e policy)
      ≡ true
unfolding sized valid_payment
sized_valid payment_id entitlement_hash distribution_hash policy_hash d e n policy valid units =
    let (gross, net, fee, tax, sums, causal, fee_bound, tax_bound) = valid_parts d valid in
    rw units (
      rw
        (
          product_whole n d.gross_per_unit gross,
          product_whole n d.net_per_unit net,
          product_whole n d.fee_per_unit fee,
          product_whole n d.withholding_per_unit tax,
        )
        (both
          (both
            (both
              (both
                (both
                  (four_nonneg (n * pos_part d.gross_per_unit) (n * pos_part d.net_per_unit)
                    (n * pos_part d.fee_per_unit) (n * pos_part d.withholding_per_unit))
                  (origin_bound payment_id entitlement_hash distribution_hash policy_hash policy))
                (distribute n d.net_per_unit d.fee_per_unit d.withholding_per_unit d.gross_per_unit
                  net fee tax sums))
              causal)
            (bound_product n d.fee_per_unit d.fee_source_hash fee_bound))
          (bound_product n d.withholding_per_unit d.tax_source_hash tax_bound)))

-- A whole number of units, under a distribution that is valid, is paid by a valid payment: gross is
-- net with fee and tax, deductions keep their sources, and only a paper payment names a policy.
pub payment_valid :
    (payment_id : Text → Text) (entitlement_hash : DividendEntitlement → Text)
    (distribution_hash : DividendDistribution → Text) (policy_hash : PaperDividendPolicy → Text)
    (d : DividendDistribution) (e : DividendEntitlement) (n : ℕ)
    (policy : Option PaperDividendPolicy) (p : DividendPayment)
    → valid_distribution d ≡ true
    → e.quantity ≡ whole n
    → payment payment_id entitlement_hash distribution_hash policy_hash d e policy ≡ ok p
    → valid_payment p ≡ true
unfolding payment
payment_valid payment_id entitlement_hash distribution_hash policy_hash d e n policy p valid units
      h =
    let (agrees, h1) =
      raise_if-eq-ok
        (policy_conflicts payment_id entitlement_hash distribution_hash policy_hash d e policy)
        policy_differs _ h in
    let same_payment : sized payment_id entitlement_hash distribution_hash policy_hash d e policy
        ≡ p =
      ground (arith, h1) in
    rw (← same_payment) (
      sized_valid payment_id entitlement_hash distribution_hash policy_hash d e n policy valid
        units)
