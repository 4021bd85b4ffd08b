-- ===== src/Domain/Contracts.antt =====
-- What the validators of src/domain/common.py and src/domain/portfolio.py let through.
use agentic_quant.Prelude.{
  Bool, true, false, ◌≤◌, ◌<◌, ◌≡◌, refl, Option, none, some, arith, is_some, not, ◌||◌, leb, ◌&&◌,
}
use agentic_quant.Prelude.Int.{pos, ◌<ℤ◌}
use agentic_quant.Prelude.Result.{ok, raise_if, raise_if-eq-ok, >>=-eq-ok}
use agentic_quant.Domain.Common.{
  EvidenceRecord, Timestamp, Quality, Basis, require_available, is_usable, is_documented, is_after,
}
use agentic_quant.Domain.Orders.{
  OrderIntent, OrderType, Tif, valid_order, order_fields, order_terms, is_day, is_expired,
}

only_usable : (q : Quality) → not (is_usable q) ≡ false → q ≡ Quality.usable
only_usable Quality.usable h = refl
only_usable Quality.unknown h = cc h
only_usable Quality.missing h = cc h
only_usable Quality.stale h = cc h
only_usable Quality.invalid h = cc h

only_documented :
    (b : Basis) (t : Bool) → (not (is_documented b) || t) ≡ false → b ≡ Basis.documented
only_documented Basis.documented t h = refl
only_documented Basis.inferred t h = cc h
only_documented Basis.unknown t h = cc h

available_by :
    (available : Option Timestamp) (cutoff : Timestamp)
    → is_some available ≡ true
    → is_after available cutoff ≡ false
    → (at : Timestamp) × (available ≡ some at) × (at ≤ cutoff)
available_by none cutoff h reached = cc h
available_by (some at) cutoff h reached = (at, refl, ground arith)

last_raise : {E : Type 0} (e : E) (t : Bool) → raise_if t e ≡ ok tt → t ≡ false
last_raise e true h = cc h
last_raise e false h = refl

limit_priced :
    (o : OrderIntent) → order_terms OrderType.limit o ≡ ok tt → is_some o.limit_price ≡ true
limit_priced o h = ground arith

stop_priced : (o : OrderIntent) → order_terms OrderType.stop o ≡ ok tt → is_some o.stop_price ≡ true
stop_priced o h = ground arith

-- Evidence that may be used at a cutoff is usable, has a documented time of availability that is
-- not after the cutoff, and was not requested for a later time.
pub require_available_sound :
    (e : EvidenceRecord) (cutoff : Timestamp)
    → require_available e cutoff ≡ ok tt
    → (e.quality ≡ Quality.usable)
      × (e.availability_basis ≡ Basis.documented)
      × ((at : Timestamp) × (e.available_at ≡ some at) × (at ≤ cutoff))
      × (is_after e.requested_as_of cutoff ≡ false)
unfolding require_available
require_available_sound e cutoff h =
    let (usable, h1) = raise_if-eq-ok (not (is_usable e.quality)) _ _ h in
    let (documented, h2) =
      raise_if-eq-ok (not (is_documented e.availability_basis) || not (is_some e.available_at)) _ _
        h1 in
    let (reached, h3) = raise_if-eq-ok (is_after e.available_at cutoff) _ _ h2 in
    (
      only_usable e.quality usable,
      only_documented e.availability_basis _ documented,
      available_by e.available_at cutoff (ground arith) reached,
      last_raise _ _ h3,
    )

-- An order that is valid is decided before it becomes eligible, has a positive quantity, does not
-- expire before it is eligible, and expires if it is good for the day only.
pub valid_order_interval :
    (o : OrderIntent)
    → valid_order o ≡ ok tt
    → (pos 0 <ℤ o.quantity)
      × (o.decision_at < o.eligible_at)
      × (is_expired o.expires_at o.eligible_at ≡ false)
      × (o.tif ≡ Tif.day → is_some o.expires_at ≡ true)
      × (o.order_type ≡ OrderType.limit → is_some o.limit_price ≡ true)
      × (o.order_type ≡ OrderType.stop → is_some o.stop_price ≡ true)
unfolding valid_order
valid_order_interval o h =
    let (fields, h1) = raise_if-eq-ok (not (order_fields o)) _ _ h in
    let (causal, h2) = raise_if-eq-ok (leb o.eligible_at o.decision_at) _ _ h1 in
    let (u, terms, h3) = >>=-eq-ok (order_terms o.order_type o) _ h2 in
    let (bounded, h4) = raise_if-eq-ok (is_day o.tif && not (is_some o.expires_at)) _ _ h3 in
    (
      ground arith,
      ground arith,
      last_raise _ _ h4,
      λ e. ground (arith, rw e at bounded),
      λ e. limit_priced o (rw e at terms),
      λ e. stop_priced o (rw e at terms),
    )
