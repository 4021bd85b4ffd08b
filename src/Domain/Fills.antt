-- ===== src/Domain/Fills.antt =====
-- src/domain/portfolio.py: executions and the debits that come with them, and price marks.
use agentic_quant.Prelude.{
  ℕ, Bool, true, false, not, ◌&&◌, ◌||◌, Option, none, some, List, [], ◌∷◌, map, leb, ◌==◌, is_some,
  ℕ_discrete,
}
use agentic_quant.Decimal.{
  Decimal, is_positive, is_nonnegative, times, exact_decimal_sum, exact_decimal_product,
}
use agentic_quant.Domain.Common.{Text, Timestamp, Instrument, Instrument-discrete, is_crypto}

pub record FillSettlement : Type 0 where
  pub gross_quote : Decimal
  pub source_id : Text
  pub source_hash : Text

unfoldable pub FillSettlement-discrete : Discrete FillSettlement
FillSettlement-discrete = hlevel ℕ_discrete

pub record InventoryFee : Type 0 where
  pub instrument : Instrument
  pub quantity : Decimal
  pub price : Decimal
  pub fx_rate : Decimal
  pub valued_at : Timestamp
  pub available_at : Timestamp
  pub source_id : Text
  pub source_hash : Text
  pub valuation_source_id : Text
  pub valuation_source_hash : Text

unfoldable pub InventoryFee-discrete : Discrete InventoryFee
InventoryFee-discrete = hlevel (ℕ_discrete, Instrument-discrete)

unfoldable pub base_value : InventoryFee → Decimal
base_value f = exact_decimal_product (exact_decimal_product f.quantity f.price) f.fx_rate

unfoldable pub valid_inventory_fee : InventoryFee → Bool
valid_inventory_fee f =
    is_positive f.quantity
    && is_positive f.price
    && is_positive f.fx_rate
    && is_crypto f.instrument
    && leb f.valued_at f.available_at

pub record Fill : Type 0 where
  pub fill_id : Text
  pub intent_id : Text
  pub account_id : Text
  pub quantity : Decimal
  pub price : Decimal
  pub fee : Decimal
  pub fx_rate : Decimal
  pub executed_at : Timestamp
  pub event_id : Text
  pub settlement : Option FillSettlement
  pub inventory_fees : List InventoryFee

unfoldable pub Fill-discrete : Discrete Fill
Fill-discrete = hlevel (ℕ_discrete, FillSettlement-discrete, InventoryFee-discrete)

-- The field `exact` of the fill's `FillArithmetic`.
abbrev pub is_exact : Fill → Bool
is_exact f = is_some f.settlement || elim f.inventory_fees [ [] ↦ false | _ ∷ _ ↦ true ]

unfoldable pub base_notional : Fill → Decimal
base_notional f = elim f.settlement [
  | none ↦ times (times f.quantity f.price) f.fx_rate
  | some s ↦ exact_decimal_product s.gross_quote f.fx_rate
]

unfoldable pub total_fee : Fill → Decimal
total_fee f = exact_decimal_sum (f.fee ∷ map base_value f.inventory_fees)

-- `key in {…}`
abbrev pub contains : ℕ → List ℕ → Bool
contains k [] = false
contains k (j ∷ js) = j == k || contains k js

-- `len(set(keys)) == len(keys)`
abbrev pub all_distinct : List ℕ → Bool
all_distinct [] = true
all_distinct (k ∷ ks) = not (contains k ks) && all_distinct ks

abbrev pub all_true {ℓ} : {A : Type ℓ} → (A → Bool) → List A → Bool
all_true test [] = true
all_true test (a ∷ as') = test a && all_true test as'

-- `actual_fees`, with the declared types of the fields.
unfoldable pub valid_fill : Fill → Bool
unfolding valid_inventory_fee
valid_fill f =
    is_positive f.quantity
    && is_positive f.price
    && is_nonnegative f.fee
    && is_positive f.fx_rate
    && elim f.settlement [ none ↦ true | some s ↦ is_positive s.gross_quote ]
    && all_true valid_inventory_fee f.inventory_fees
    && all_distinct (map (λ fee. fee.instrument.instrument_id) f.inventory_fees)
    && all_true (λ fee. leb fee.valued_at f.executed_at) f.inventory_fees

pub record PriceMark : Type 0 where
  pub instrument : Instrument
  pub price : Decimal
  pub fx_rate : Decimal
  pub as_of : Timestamp

unfoldable pub PriceMark-discrete : Discrete PriceMark
PriceMark-discrete = hlevel (ℕ_discrete, Instrument-discrete)
