-- ===== src/Domain/Coverage.antt =====
-- src/domain/portfolio.py: `ActionCoverage`, the documented scope of a source of corporate actions.
use agentic_quant.Prelude.{
  Bool, true, false, not, ◌&&◌, ◌||◌, Option, none, some, List, [], ◌∷◌, ltb, ◌==◌, is_some, same,
}
use agentic_quant.Prelude.Result.{Result, raise_if}
use agentic_quant.Domain.Common.{Text, Timestamp}
use agentic_quant.Domain.Fills.{contains, all_distinct}

pub data Scope : Type 0 where
  effective_event_stream provider_process_date_query custodial_credit_ledger protocol_state_events :
      Scope

unfoldable pub Scope-discrete : Discrete Scope
Scope-discrete = hlevel

pub data Completeness : Type 0 where
  complete partial unknown : Completeness

pub record ActionCoverage : Type 0 where
  pub coverage_id : Text
  pub account_id : Option Text
  pub instrument_ids : List Text
  pub venue : Text
  pub scope : Scope
  pub started_at : Timestamp
  pub ended_at : Timestamp
  pub available_at : Timestamp
  pub event_types : List Text
  pub completeness : Completeness
  pub gaps : List Text
  pub source_id : Text
  pub source_hash : Text

pub data CoverageError : Type 0 where
  not_established : CoverageError

abbrev pub is_complete : Completeness → Bool
is_complete Completeness.complete = true
is_complete _ = false

abbrev pub is_custodial : Scope → Bool
is_custodial Scope.custodial_credit_ledger = true
is_custodial _ = false

abbrev pub is_query : Scope → Bool
is_query Scope.provider_process_date_query = true
is_query _ = false

abbrev pub is_empty : List Text → Bool
is_empty [] = true
is_empty (t ∷ ts) = false

-- `declared_coverage`
pub valid_coverage : ActionCoverage → Bool
valid_coverage c =
    not (is_custodial c.scope && not (is_some c.account_id))
    && ltb c.started_at c.ended_at
    && not (is_empty c.instrument_ids)
    && not (is_empty c.event_types)
    && all_distinct c.instrument_ids
    && all_distinct c.event_types
    && not (is_complete c.completeness && not (is_empty c.gaps))

-- `set(ids) <= set(known)`
abbrev pub is_subset : List Text → List Text → Bool
is_subset [] known = true
is_subset (t ∷ ts) known = contains t known && is_subset ts known

-- `account_id is not None and account_id != other`
abbrev pub belongs_elsewhere : Option Text → Option Text → Bool
belongs_elsewhere none other = false
belongs_elsewhere (some a) none = true
belongs_elsewhere (some a) (some b) = not (a == b)

-- `require_complete`
unfoldable pub require_complete :
    List Text
    → Timestamp
    → Timestamp
    → Timestamp
    → Scope
    → List Text
    → Option Text
    → ActionCoverage
    → Result CoverageError (Unit {0})
require_complete ids started ended as_of scope types account c =
    raise_if
      (not (is_complete c.completeness)
        || not (is_empty c.gaps)
        || ltb as_of c.available_at
        || not (same Scope-discrete c.scope scope)
        || is_query scope
        || ltb started c.started_at
        || ltb c.ended_at ended
        || not (is_subset ids c.instrument_ids)
        || not (is_subset types c.event_types)
        || belongs_elsewhere c.account_id account
        || (is_custodial scope && (not (is_some account) || not (is_some c.account_id))))
      not_established
