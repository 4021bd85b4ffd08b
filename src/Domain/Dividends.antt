-- ===== src/Domain/Dividends.antt =====
-- src/domain/portfolio.py: the contracts of cash dividends, and the payment that a distribution
-- notice implies. Hashes of contracts are parameters.
pub mod Payment
use agentic_quant.Prelude.Int.{pos, ltb_ℤ, eqb_ℤ}
use agentic_quant.Prelude.{
  Bool, true, false, not, ◌&&◌, ◌||◌, Option, none, some, List, [], ◌∷◌, ltb, leb, ◌==◌, is_some,
  if◌then◌else◌, same, ℕ_discrete,
}
use agentic_quant.Prelude.Result.{Result, ok, err, ◌>>=◌, ◌>>◌, raise_if}
use agentic_quant.Decimal.{
  Decimal, is_positive, is_nonnegative, exact_decimal_sum, exact_decimal_product,
}
use agentic_quant.Domain.Common.{Text, Timestamp, Date, date_of, Instrument, is_crypto}

pub record CashDividend : Type 0 where
  pub action_id : Text
  pub revision_id : Text
  pub supersedes_hash : Option Text
  pub instrument : Instrument
  pub ex_at : Timestamp
  pub entitlement_at : Timestamp
  pub record_date : Option Date
  pub payable_date : Option Date
  pub published_at : Option Timestamp
  pub available_at : Timestamp
  pub cash_per_unit : Decimal
  pub currency : Text
  pub entitlement_source_id : Text
  pub entitlement_source_hash : Text
  pub source_id : Text
  pub source_hash : Text

abbrev later : Option Timestamp → Timestamp → Bool
later none at = false
later (some t) at = ltb at t

-- `causal_terms`, with the declared type of the amount.
pub valid_terms : CashDividend → Bool
valid_terms d =
    is_positive d.cash_per_unit
    && not (is_crypto d.instrument)
    && d.ex_at == d.entitlement_at
    && not (later d.published_at d.available_at)

pub record DividendEntitlement : Type 0 where
  pub account_id : Text
  pub action_id : Text
  pub terms_hash : Text
  pub instrument : Instrument
  pub at : Timestamp
  pub quantity : Decimal
  pub gross_amount : Decimal
  pub currency : Text
  pub ownership_hash : Text
  pub parent_entitlement_hash : Option Text

pub valid_entitlement : DividendEntitlement → Bool
valid_entitlement e = is_nonnegative e.quantity && is_nonnegative e.gross_amount

pub record DividendReceivable : Type 0 where
  pub entitlement : DividendEntitlement
  pub outstanding : Decimal

-- `no_invented_income`, with the declared type of the amount.
pub valid_receivable : DividendReceivable → Bool
valid_receivable r =
    is_nonnegative r.outstanding && not (ltb_ℤ r.entitlement.gross_amount r.outstanding)

pub data Origin : Type 0 where
  posted_account replay_distribution paper_distribution : Origin

pub record DividendPayment : Type 0 where
  pub payment_id : Text
  pub account_id : Text
  pub action_id : Text
  pub terms_hash : Text
  pub entitlement_hash : Text
  pub origin : Origin
  pub sizing_policy_hash : Option Text
  pub effective_date : Date
  pub observed_at : Timestamp
  pub available_at : Timestamp
  pub currency : Text
  pub gross_amount : Decimal
  pub net_amount : Decimal
  pub fee : Decimal
  pub withholding_tax : Decimal
  pub fee_source_hash : Option Text
  pub tax_source_hash : Option Text
  pub source_id : Text
  pub source_hash : Text

abbrev pub is_paper : Origin → Bool
is_paper Origin.paper_distribution = true
is_paper _ = false

-- A deduction that is not zero names its source.
abbrev pub is_bound : Decimal → Option Text → Bool
is_bound amount source = eqb_ℤ amount (pos 0) || is_some source

-- Gross is net with the deductions, and occurrence, receipt and availability are in order.
abbrev pub reconciles_gross : Decimal → Decimal → Decimal → Decimal → Bool
reconciles_gross gross net fee tax = eqb_ℤ gross (exact_decimal_sum (net ∷ fee ∷ tax ∷ []))

abbrev pub is_causal : Date → Timestamp → Timestamp → Bool
is_causal effective observed available = leb observed available && leb effective (date_of observed)

-- `reconciled_payment`, with the declared types of the amounts.
pub valid_payment : DividendPayment → Bool
valid_payment p =
    is_nonnegative p.gross_amount
    && is_nonnegative p.net_amount
    && is_nonnegative p.fee
    && is_nonnegative p.withholding_tax
    && (if is_paper p.origin
        then is_some p.sizing_policy_hash
        else not (is_some p.sizing_policy_hash))
    && reconciles_gross p.gross_amount p.net_amount p.fee p.withholding_tax
    && is_causal p.effective_date p.observed_at p.available_at
    && is_bound p.fee p.fee_source_hash
    && is_bound p.withholding_tax p.tax_source_hash

pub record PaperDividendPolicy : Type 0 where
  pub policy_id : Text
  pub account_id : Text
  pub distribution_hash : Text
  pub available_at : Timestamp
  pub source_id : Text
  pub source_hash : Text

pub record DividendDistribution : Type 0 where
  pub distribution_id : Text
  pub action_id : Text
  pub terms_hash : Text
  pub effective_date : Date
  pub observed_at : Timestamp
  pub available_at : Timestamp
  pub currency : Text
  pub gross_per_unit : Decimal
  pub net_per_unit : Decimal
  pub fee_per_unit : Decimal
  pub withholding_per_unit : Decimal
  pub fee_source_hash : Option Text
  pub tax_source_hash : Option Text
  pub source_id : Text
  pub source_hash : Text

-- `exact_distribution`, with the declared types of the rates.
unfoldable pub valid_distribution : DividendDistribution → Bool
valid_distribution d =
    is_positive d.gross_per_unit
    && is_nonnegative d.net_per_unit
    && is_nonnegative d.fee_per_unit
    && is_nonnegative d.withholding_per_unit
    && reconciles_gross d.gross_per_unit d.net_per_unit d.fee_per_unit d.withholding_per_unit
    && is_causal d.effective_date d.observed_at d.available_at
    && is_bound d.fee_per_unit d.fee_source_hash
    && is_bound d.withholding_per_unit d.tax_source_hash

pub data DividendError : Type 0 where
  policy_differs : DividendError

module _ (payment_id : Text → Text) (entitlement_hash : DividendEntitlement → Text)
    (distribution_hash : DividendDistribution → Text)
    (policy_hash : PaperDividendPolicy → Text) where
  abbrev pub policy_conflicts :
      DividendDistribution → DividendEntitlement → Option PaperDividendPolicy → Bool
  policy_conflicts d e none = false
  policy_conflicts d e (some p) =
      not (p.account_id == e.account_id)
      || not (p.distribution_hash == distribution_hash d)
      || ltb d.available_at p.available_at

  abbrev pub origin_of : Option PaperDividendPolicy → Origin
  origin_of none = Origin.replay_distribution
  origin_of (some p) = Origin.paper_distribution

  abbrev pub hash_of : Option PaperDividendPolicy → Option Text
  hash_of none = none
  hash_of (some p) = some (policy_hash p)

  -- The payment that the notice implies for an entitlement.
  unfoldable pub sized :
      DividendDistribution → DividendEntitlement → Option PaperDividendPolicy → DividendPayment
  sized d e policy = record {
    payment_id = payment_id d.distribution_id;
    account_id = e.account_id;
    action_id = d.action_id;
    terms_hash = d.terms_hash;
    entitlement_hash = entitlement_hash e;
    origin = origin_of policy;
    sizing_policy_hash = hash_of policy;
    effective_date = d.effective_date;
    observed_at = d.observed_at;
    available_at = d.available_at;
    currency = d.currency;
    gross_amount = exact_decimal_product e.quantity d.gross_per_unit;
    net_amount = exact_decimal_product e.quantity d.net_per_unit;
    fee = exact_decimal_product e.quantity d.fee_per_unit;
    withholding_tax = exact_decimal_product e.quantity d.withholding_per_unit;
    fee_source_hash = d.fee_source_hash;
    tax_source_hash = d.tax_source_hash;
    source_id = d.source_id;
    source_hash = d.source_hash;
  }

  unfoldable pub payment :
      DividendDistribution
      → DividendEntitlement
      → Option PaperDividendPolicy
      → Result DividendError DividendPayment
  payment d e policy = do
    raise_if (policy_conflicts d e policy) policy_differs
    ok (sized d e policy)
