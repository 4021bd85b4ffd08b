-- ===== src/Domain/Common.antt =====
-- src/domain/common.py: instruments, and when evidence may be used.
use agentic_quant.Prelude.{
  ℕ, ◌/◌, Bool, true, false, not, ◌||◌, Option, none, some, List, ltb, is_some, ℕ_discrete,
}
use agentic_quant.Prelude.Result.{Result, ◌>>◌, raise_if}

-- A text that the code only compares.
abbrev pub Text : Type 0
Text = ℕ

abbrev pub Timestamp : Type 0
Timestamp = ℕ

abbrev pub Date : Type 0
Date = ℕ

-- `at.date()`, in UTC.
abbrev pub date_of : Timestamp → Date
date_of at = at / 86_400_000_000

pub data AssetClass : Type 0 where
  equity etf crypto : AssetClass

unfoldable pub AssetClass-discrete : Discrete AssetClass
AssetClass-discrete = hlevel

pub record Instrument : Type 0 where
  pub instrument_id : Text
  pub symbol : Text
  pub asset_class : AssetClass
  pub quote_currency : Text
  pub venue : Option Text

unfoldable pub Instrument-discrete : Discrete Instrument
Instrument-discrete = hlevel (ℕ_discrete, AssetClass-discrete)

-- `is_crypto` is the test `asset_class == "crypto"`.
abbrev pub is_crypto : Instrument → Bool
is_crypto i = elim i.asset_class [ AssetClass.crypto ↦ true | _ ↦ false ]

pub data Basis : Type 0 where
  documented inferred unknown : Basis

pub data Quality : Type 0 where
  usable unknown missing stale invalid : Quality

pub record EvidenceRecord : Type 0 where
  pub evidence_id : Text
  pub provider : Text
  pub provider_version : Text
  pub source_uri : Text
  pub raw_hash : Text
  pub ingested_at : Timestamp
  pub available_at : Option Timestamp
  pub observed_at : Option Timestamp
  pub requested_as_of : Option Timestamp
  pub availability_basis : Basis
  pub quality : Quality
  pub instrument_ids : List Text
  pub tool_name : Option Text
  pub tool_version : Option Text
  pub currency : Option Text
  pub units : Option Text
  pub adjustment_policy : Option Text
  pub revision_id : Option Text

pub data EvidenceError : Type 0 where
  not_usable undocumented unavailable requested_later : EvidenceError

abbrev pub is_usable : Quality → Bool
is_usable Quality.usable = true
is_usable _ = false

abbrev pub is_documented : Basis → Bool
is_documented Basis.documented = true
is_documented _ = false

-- `a is not None and a > cutoff`
abbrev pub is_after : Option Timestamp → Timestamp → Bool
is_after none cutoff = false
is_after (some a) cutoff = ltb cutoff a

-- `require_available`, at a cutoff that is already in UTC.
unfoldable pub require_available : EvidenceRecord → Timestamp → Result EvidenceError (Unit {0})
require_available e cutoff = do
  raise_if (not (is_usable e.quality)) not_usable
  raise_if (not (is_documented e.availability_basis) || not (is_some e.available_at)) undocumented
  raise_if (is_after e.available_at cutoff) unavailable
  raise_if (is_after e.requested_as_of cutoff) requested_later
