-- ===== src/Simulator/Observed.antt =====
-- `observe_stop` of src/execution/stops.py does nothing to a book but record events in its ledger.
use agentic_quant.Ledger.Reconcile.Explained.{Plain}
use agentic_quant.Prelude.{
  Bool, ◌≡◌, arith, Option, none, some, List, [], ◌∷◌, inl, inr, Option-cases, is_some, same,
}
use agentic_quant.Prelude.Result.{ok, >>=-eq-ok, guard-eq-ok, raise_if-eq-ok}
use agentic_quant.Domain.Common.{Text, Instrument}
use agentic_quant.Domain.Orders.{OrderIntent, OrderIntent-discrete}
use agentic_quant.Domain.Fills.{Fill}
use agentic_quant.Domain.Bars.{OpeningEvent, OpeningEvent-discrete}
use agentic_quant.Ledger.State.{
  Event, Book, record_event, get_order, live_stop, stop_source, not_elected, unauthentic_fill,
}
use agentic_quant.Ledger.Reconcile.Reach.{Step, Steps}
use agentic_quant.Ledger.Reconcile.Steps.{Steps-one, Steps-trans}
use agentic_quant.Stops.{StopObservation, step}
use agentic_quant.Stops.Retained.{
  source, stepped, is_live, observation_of, fills_of, sorted_fills, history, is_canonical, adopt,
  preceding, observe_new, observe_stop,
}

module _ (master : Text → Instrument) where
  pub record_event-Steps :
      (e : Event) (b b1 : Book) (d : Bool) → record_event e b ≡ ok (d, b1) → Steps master Plain b b1
  record_event-Steps e b b1 d h = Steps-one master Plain b b1 (Step.recorded e h)

module _ (master : Text → Instrument) (intent_hash : OrderIntent → Text)
    (event_hash : OpeningEvent → Text) (observation_hash : StopObservation → Text)
    (fill_name : Text → Text → Text) where
  adopt-Steps :
      (i : OrderIntent) (fills : List Fill) (previous last : Option StopObservation) (b b1 : Book)
      → adopt intent_hash event_hash observation_hash fill_name i fills previous b ≡ ok (last, b1)
      → Steps master Plain b b1
  unfolding adopt
  adopt-Steps i [] previous last b b1 h = Steps.stay (ground (arith, h))
  adopt-Steps i (f ∷ fills) previous last b b1 h =
      let (event, known, h1) = >>=-eq-ok (source f.event_id b) _ h in
      let (canonical, h2) =
        guard-eq-ok (is_canonical intent_hash event_hash observation_hash fill_name i f event)
          unauthentic_fill _ h1 in
      let (elected, taken, h3) =
        >>=-eq-ok (stepped (step intent_hash event_hash observation_hash i event previous)) _ h2 in
      let (crossed, h4) = guard-eq-ok (is_some elected.elected_event_id) not_elected _ h3 in
      let (r, recorded, h5) =
        >>=-eq-ok (record_event (Event.stop_event i elected) b)
          (λ (x : Bool × Book).
            adopt intent_hash event_hash observation_hash fill_name i fills (some elected) x.1)
          h4 in
      Steps-trans master Plain b r.1 b1
        (record_event-Steps master (Event.stop_event i elected) b r.1 r.0 recorded)
        (adopt-Steps i fills (some elected) last r.1 b1 h5)

  preceding-Steps :
      (i : OrderIntent) (rows : List StopObservation) (last : Option StopObservation) (b b1 : Book)
      → preceding intent_hash event_hash observation_hash fill_name i rows b ≡ ok (last, b1)
      → Steps master Plain b b1
  unfolding preceding
  preceding-Steps i [] last b b1 h =
      adopt-Steps i (fills_of i.intent_id (sorted_fills b.fills)) none last b b1 h
  preceding-Steps i (o ∷ rows) last b b1 h = Steps.stay (ground (arith, h))

  observe_new-Steps :
      (i : OrderIntent) (e : OpeningEvent) (rows : List StopObservation) (o : StopObservation)
      (b b3 : Book)
      → observe_new intent_hash event_hash observation_hash fill_name i e rows b ≡ ok (o, b3)
      → Steps master Plain b b3
  unfolding observe_new
  observe_new-Steps i e rows o b b3 h =
      let (r, recorded, h1) = >>=-eq-ok (record_event (Event.stop_policy i) b) _ h in
      let (q, preceded, h2) =
        >>=-eq-ok (preceding intent_hash event_hash observation_hash fill_name i rows r.1) _ h1 in
      let (observation, taken, h3) =
        >>=-eq-ok (stepped (step intent_hash event_hash observation_hash i e q.0)) _ h2 in
      let (s, written, h4) =
        >>=-eq-ok (record_event (Event.stop_event i observation) q.1)
          (λ (x : Bool × Book). ok (observation, x.1)) h3 in
      let last : s.1 ≡ b3 = ground (arith, h4) in
      Steps-trans master Plain b r.1 b3
        (record_event-Steps master (Event.stop_policy i) b r.1 r.0 recorded)
        (Steps-trans master Plain r.1 q.1 b3 (preceding-Steps i rows q.0 r.1 q.1 preceded) (
          Steps-trans master Plain q.1 s.1 b3
            (record_event-Steps master (Event.stop_event i observation) q.1 s.1 s.0 written)
            (Steps.stay last)))

  pub observe_stop-Steps :
      (i : OrderIntent) (e : OpeningEvent) (o : StopObservation) (b b1 : Book)
      → observe_stop intent_hash event_hash observation_hash fill_name i e b ≡ ok (o, b1)
      → Steps master Plain b b1
  unfolding observe_stop
  observe_stop-Steps i e o b b1 h =
      let (paper, h1) = raise_if-eq-ok (is_live b.spec.mode) live_stop _ h in
      let (row, known, h2) = >>=-eq-ok (get_order i.intent_id b) _ h1 in
      let (same_intent, h3) =
        guard-eq-ok (same OrderIntent-discrete row.intent i) stop_source _ h2 in
      let (retained, found, h4) = >>=-eq-ok (source e.event_id b) _ h3 in
      let (same_event, h5) = guard-eq-ok (same OpeningEvent-discrete retained e) stop_source _ h4 in
      let (rows, verified, h6) =
        >>=-eq-ok (history intent_hash event_hash observation_hash fill_name i b) _ h5 in
      elim (Option-cases (observation_of e.event_id rows)) [
        | inr (p, again) ↦ Steps.stay (ground (arith, rw again at h6))
        | inl is_new ↦ observe_new-Steps i e rows o b b1 (rw is_new at h6)
      ]
