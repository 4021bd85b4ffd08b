-- ===== src/Stops/Election.antt =====
-- When a stop order of src/execution/stops.py is elected, and that it stays elected.
use agentic_quant.Prelude.{
  true, false, refl, ◌⊎◌, ◌≢◌, ◌≤◌, ◌≡◌, sym, ap, ◌∙◌, Option, none, some, arith, inl, inr, not,
  Bool-cases,
}
use agentic_quant.Prelude.Result.{Result, ok, >>=-eq-ok, raise_if-eq-ok, or_raise}
use agentic_quant.Domain.Common.{Text}
use agentic_quant.Domain.Orders.{OrderIntent, OrderType, Side}
use agentic_quant.Decimal.{Decimal}
use agentic_quant.Prelude.Int.{◌≤ℤ◌, ◌<ℤ◌}
use agentic_quant.Domain.Bars.{OpeningEvent}
use agentic_quant.Stops.{
  StopError, StopObservation, not_eligible, is_eligible, anchor_of, crosses, trigger, observed,
  wait, step, no_threshold,
}

ok_injective :
    {p q : StopObservation} → ◌≡◌ {A = Result StopError StopObservation} (ok p) (ok q) → p ≡ q
ok_injective h = cc

-- An eligible open is not earlier than the observation before it.
not_before :
    (p : StopObservation) (i : OrderIntent) (e : OpeningEvent)
    → not (is_eligible i e (some p)) ≡ false
    → p.at ≤ e.opened_at
not_before p i e h = ground arith

-- The price has come down to the threshold of a sale, or up to that of a purchase.
abbrev pub Reached : Side → Decimal → Decimal → Type 0
Reached Side.sell price threshold = price ≤ℤ threshold
Reached Side.buy price threshold = threshold ≤ℤ price

abbrev pub Missed : Side → Decimal → Decimal → Type 0
Missed Side.sell price threshold = threshold <ℤ price
Missed Side.buy price threshold = price <ℤ threshold

crosses-Reached :
    (side : Side) (price threshold : Decimal)
    → crosses side price threshold ≡ true
    → Reached side price threshold
crosses-Reached Side.sell price threshold h = ground (arith, h)
crosses-Reached Side.buy price threshold h = ground (arith, h)

crosses-Missed :
    (side : Side) (price threshold : Decimal)
    → crosses side price threshold ≡ false
    → Missed side price threshold
crosses-Missed Side.sell price threshold h = ground (arith, h)
crosses-Missed Side.buy price threshold h = ground (arith, h)

fixed_threshold :
    (i : OrderIntent) (e : OpeningEvent) (anchor : Option Decimal) (t : Option Decimal × Decimal)
    (kind : OrderType)
    → i.order_type ≡ kind
    → trigger i e anchor ≡ ok t
    → (i.order_type ≢ OrderType.stop) ⊎ (i.stop_price ≡ some t.1)
unfolding trigger
fixed_threshold i e anchor t OrderType.stop k h =
    let (price, found, h1) =
      >>=-eq-ok (or_raise i.stop_price no_threshold) (λ (x : Decimal). ok (anchor, x))
        (rw k at h) in
    let same_price : price ≡ t.1 = ground (arith, h1) in inr (ground (arith, found, same_price))
fixed_threshold i e anchor t OrderType.market k h = inl (λ e'. cc (k, e'))
fixed_threshold i e anchor t OrderType.limit k h = inl (λ e'. cc (k, e'))
fixed_threshold i e anchor t OrderType.trailing_stop k h = inl (λ e'. cc (k, e'))

module _ (intent_hash : OrderIntent → Text) (event_hash : OpeningEvent → Text)
    (observation_hash : StopObservation → Text) where
  pub step_elected :
      (i : OrderIntent) (e : OpeningEvent) (p q : StopObservation) (id : Text)
      → p.elected_event_id ≡ some id
      → step intent_hash event_hash observation_hash i e (some p) ≡ ok q
      → (q.elected_event_id ≡ some id)
        × (q.elected_at ≡ p.elected_at)
        × (q.threshold ≡ p.threshold)
        × (q.anchor ≡ p.anchor)
        × (p.at ≤ q.at)
  unfolding step
  step_elected i e p q id elected h =
      let (eligible, h1) = raise_if-eq-ok (not (is_eligible i e (some p))) not_eligible _ h in
      let now = rw elected at h1 in
      let after : observed intent_hash event_hash observation_hash i e (some p) p.anchor p.threshold
            p.elected_event_id p.elected_at
          ≡ q =
        rw elected (ground (arith, now)) in
      let later = not_before p i e eligible in
      (
        sym (ap StopObservation.elected_event_id after) ∙ elected,
        sym (ap StopObservation.elected_at after),
        sym (ap StopObservation.threshold after),
        sym (ap StopObservation.anchor after),
        rw (← ap StopObservation.at after) later,
      )

  -- A waiting order is elected by an open exactly if the price is at or below the threshold of a
  -- sale, or at or above that of a purchase; then by that open and at its time. The threshold is the
  -- stop price of a fixed stop.
  pub wait_elects :
      (i : OrderIntent) (e : OpeningEvent) (previous : Option StopObservation) (q : StopObservation)
      → wait intent_hash event_hash observation_hash i e previous ≡ ok q
      → ((Reached i.side e.price q.threshold
            × (q.elected_event_id ≡ some e.event_id)
            × (q.elected_at ≡ some e.opened_at))
          ⊎ (Missed i.side e.price q.threshold
              × (q.elected_event_id ≡ none)
              × (q.elected_at ≡ none)))
        × ((i.order_type ≢ OrderType.stop) ⊎ (i.stop_price ≡ some q.threshold))
  unfolding wait
  wait_elects i e previous q h =
      let (t, found, h1) = >>=-eq-ok (trigger i e (anchor_of previous)) _ h in
      elim (Bool-cases (crosses i.side e.price t.1)) [
        | inl reached ↦
            let after = ok_injective (rw reached at h1) in
            let threshold = ap StopObservation.threshold after in
            (
              inl (
                rw (← threshold) (crosses-Reached i.side e.price t.1 reached),
                sym (ap StopObservation.elected_event_id after),
                sym (ap StopObservation.elected_at after),
              ),
              rw (← threshold) (fixed_threshold i e (anchor_of previous) t i.order_type refl found),
            )
        | inr short ↦
            let after = ok_injective (rw short at h1) in
            let threshold = ap StopObservation.threshold after in
            (
              inr (
                rw (← threshold) (crosses-Missed i.side e.price t.1 short),
                sym (ap StopObservation.elected_event_id after),
                sym (ap StopObservation.elected_at after),
              ),
              rw (← threshold) (fixed_threshold i e (anchor_of previous) t i.order_type refl found),
            )
      ]
