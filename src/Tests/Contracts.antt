-- ===== src/Tests/Contracts.antt =====
-- Contracts that their validators let through.
use agentic_quant.Prelude.Int.{pos, ◌<ℤ◌, ◌+ℤ◌}
use agentic_quant.Prelude.{true, false, ◌≡◌, refl, none, some, [], ◌*◌, ◌/◌, ◌≤◌, ◌<◌, is_some, ◌∷◌}
use agentic_quant.Prelude.Result.{ok}
use agentic_quant.Decimal.{unit, exact_decimal_sum}
use agentic_quant.Domain.Common.{
  Text, Timestamp, EvidenceRecord, Basis, Quality, require_available, is_after,
}
use agentic_quant.Domain.Orders.{OrderType, Tif, valid_order, is_expired}
use agentic_quant.Domain.Bars.{ExecutionBar, valid_bar, valid_opening, from_bar, from_bar_valid}
use agentic_quant.Domain.Coverage.{ActionCoverage, Scope, Completeness}
use agentic_quant.Domain.Contracts.{require_available_sound, valid_order_interval}
use agentic_quant.Domain.Dividends.{
  DividendEntitlement, DividendDistribution, DividendPayment, PaperDividendPolicy,
  valid_distribution, valid_payment, sized, payment,
}
use agentic_quant.Domain.Dividends.Payment.{whole, payment_valid}
use agentic_quant.Tests.Samples.{master, purchase}

bar : ExecutionBar
bar = record {
  event_id = 5;
  instrument = master 7;
  opened_at = 100;
  closed_at = 200;
  opening_price = pos (20 * unit);
  high = pos (22 * unit);
  low = pos (19 * unit);
  close = pos (21 * unit);
  volume = pos (1_000 * unit);
  opening_volume = pos (100 * unit);
  fx_rate = pos unit;
  calendar = 2;
  calendar_version = 1;
  session = 0;
  session_open = 100;
  session_close = 300;
  tradable = true;
  opening_event_id = none;
}

bar_passes : valid_bar bar ≡ true
unfolding valid_bar bar
bar_passes = refl

from_bar_valid_example : valid_opening (from_bar bar) ≡ true
from_bar_valid_example = from_bar_valid bar bar_passes

evidence : EvidenceRecord
evidence = record {
  evidence_id = 1;
  provider = 1;
  provider_version = 1;
  source_uri = 1;
  raw_hash = 1;
  ingested_at = 90;
  available_at = some 80;
  observed_at = none;
  requested_as_of = some 95;
  availability_basis = Basis.documented;
  quality = Quality.usable;
  instrument_ids = [];
  tool_name = none;
  tool_version = none;
  currency = none;
  units = none;
  adjustment_policy = none;
  revision_id = none;
}

evidence_passes : require_available evidence 100 ≡ ok tt
unfolding require_available evidence
evidence_passes = refl

require_available_sound_example :
    (evidence.quality ≡ Quality.usable)
    × (evidence.availability_basis ≡ Basis.documented)
    × ((at : Timestamp) × (evidence.available_at ≡ some at) × (at ≤ 100))
    × (is_after evidence.requested_as_of 100 ≡ false)
require_available_sound_example = require_available_sound evidence 100 evidence_passes

purchase_passes : valid_order purchase ≡ ok tt
unfolding valid_order
purchase_passes = refl

valid_order_interval_example :
    (pos 0 <ℤ purchase.quantity)
    × (purchase.decision_at < purchase.eligible_at)
    × (is_expired purchase.expires_at purchase.eligible_at ≡ false)
    × (purchase.tif ≡ Tif.day → is_some purchase.expires_at ≡ true)
    × (purchase.order_type ≡ OrderType.limit → is_some purchase.limit_price ≡ true)
    × (purchase.order_type ≡ OrderType.stop → is_some purchase.stop_price ≡ true)
valid_order_interval_example = valid_order_interval purchase purchase_passes

-- One per unit, of which a tenth is withheld.
distribution : DividendDistribution
distribution = record {
  distribution_id = 1;
  action_id = 1;
  terms_hash = 1;
  effective_date = 0;
  observed_at = 100;
  available_at = 110;
  currency = 1;
  gross_per_unit = pos unit;
  net_per_unit = pos (9 * unit / 10);
  fee_per_unit = pos 0;
  withholding_per_unit = pos (unit / 10);
  fee_source_hash = none;
  tax_source_hash = some 6;
  source_id = 1;
  source_hash = 1;
}

entitled : DividendEntitlement
entitled = record {
  account_id = 1;
  action_id = 1;
  terms_hash = 1;
  instrument = master 7;
  at = 50;
  quantity = whole 4;
  gross_amount = whole 4;
  currency = 1;
  ownership_hash = 1;
  parent_entitlement_hash = none;
}

label : Text → Text
label id = id

hash_entitlement : DividendEntitlement → Text
hash_entitlement e = e.action_id

hash_distribution : DividendDistribution → Text
hash_distribution d = d.distribution_id

hash_policy : PaperDividendPolicy → Text
hash_policy p = p.policy_id

paid : DividendPayment
paid = sized label hash_entitlement hash_distribution hash_policy distribution entitled none

distribution_passes : valid_distribution distribution ≡ true
unfolding valid_distribution distribution exact_decimal_sum ◌+ℤ◌
distribution_passes = refl

payment_runs :
    payment label hash_entitlement hash_distribution hash_policy distribution entitled none
    ≡ ok paid
unfolding payment paid
payment_runs = refl

entitled_units : entitled.quantity ≡ whole 4
unfolding entitled
entitled_units = refl

payment_valid_example : valid_payment paid ≡ true
payment_valid_example =
    payment_valid label hash_entitlement hash_distribution hash_policy distribution entitled 4 none
      paid distribution_passes entitled_units payment_runs

coverage : ActionCoverage
coverage = record {
  coverage_id = 1;
  account_id = none;
  instrument_ids = 7 ∷ 8 ∷ [];
  venue = 1;
  scope = Scope.effective_event_stream;
  started_at = 10;
  ended_at = 90;
  available_at = 95;
  event_types = 1 ∷ 2 ∷ [];
  completeness = Completeness.complete;
  gaps = [];
  source_id = 1;
  source_hash = 1;
}
