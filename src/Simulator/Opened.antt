-- ===== src/Simulator/Opened.antt =====
-- An opening of src/execution/simulator.py is a sequence of operations of the ledger.
use agentic_quant.Ledger.Reconcile.Explained.{Plain}
use agentic_quant.Prelude.Int.{pos, ◌<ℤ◌, ltb_ℤ}
use agentic_quant.Prelude.{
  Bool, true, false, ◌≡◌, refl, arith, none, List, [], ◌∷◌, not, ◌&&◌, ◌||◌, ltb, inl, inr,
  Bool-cases, is_some, same, ◌==◌, if◌then◌else◌,
}
use agentic_quant.Prelude.Result.{
  ok, >>=-eq-ok, guard-eq-ok, raise_if-eq-ok, ◌>>=◌, or_raise, Result-cases,
}
use agentic_quant.Prelude.Dict.{Dict, lookup}
use agentic_quant.Decimal.{Decimal}
use agentic_quant.Domain.Common.{Text, Instrument, Instrument-discrete}
use agentic_quant.Domain.Orders.{OrderIntent, OrderType, is_expired}
use agentic_quant.Domain.Fills.{Fill, valid_fill}
use agentic_quant.Domain.Bars.{ExecutionBar, valid_bar, OpeningEvent, valid_opening, from_bar}
use agentic_quant.Ledger.State.{
  LedgerError, live_account, opening_conflict, order_identity, missing_metadata, bar_changed,
  opening_differs, invalid_contract, Ledger, OrderRow, Event, opening_id, open_id, Book, event_at,
  record_event, pending_orders,
}
use agentic_quant.Ledger.Orders.{cancel, mark}
use agentic_quant.Ledger.Fills.{apply_fill}
use agentic_quant.Ledger.Reconcile.Reach.{Step, Steps}
use agentic_quant.Ledger.Reconcile.Steps.{Steps-one, Steps-trans}
use agentic_quant.RiskControls.{InstrumentRisk, Check}
use agentic_quant.Stops.{StopObservation, is_stop}
use agentic_quant.Stops.Retained.{is_live, observe_stop}
use agentic_quant.Simulator.{
  PaperExecution, passed, check_risk, expired_reason, expire_due, expire_orders,
}
use agentic_quant.Simulator.Opening.{
  Admission, Progress, is_ledger_error, is_admitted, metadata_for, slipped_price, filled_quantity,
  within_limit, projected, is_immediate, unfilled_reason, opening_capacity, opening_mark,
  marketable, stop_elected, paper_fill, settle, end_immediate, fill_order, match_order, consider,
  consider_all, open_new, same_print, open_event, same_bar, open_bar, differs, closing_mark,
  close_bar,
}
use agentic_quant.Simulator.Observed.{record_event-Steps, observe_stop-Steps}
use agentic_quant.Simulator.Refinement.{cancel-Steps, expire_due-Steps}

pub positive_of :
    (fits : Bool) (quantity : Decimal) → (fits && ltb_ℤ (pos 0) quantity) ≡ true → pos 0 <ℤ quantity
positive_of fits quantity h = ground arith

abbrev elected_in : StopObservation × Book → Ledger (Bool × Book)
elected_in (o, b) = ok (is_some o.elected_event_id, b)

abbrev with_fills : List Fill → Bool × Book → Ledger (List Fill × Book)
with_fills fills (d, b) = ok (fills, b)

module _ (master : Text → Instrument) where
  if_elected-Steps :
      (trades : Bool) (m : Ledger (StopObservation × Book)) (b b1 : Book) (fits : Bool)
      → ((r : StopObservation × Book) → m ≡ ok r → Steps master Plain b r.1)
      → (if trades then m >>= elected_in else ok (false, b)) ≡ ok (fits, b1)
      → Steps master Plain b b1
  if_elected-Steps false m b b1 fits steps h = Steps.stay (ground (arith, h))
  if_elected-Steps true m b b1 fits steps h =
      let (r, observed, h1) = >>=-eq-ok m elected_in h in
      let last : r.1 ≡ b1 = ground (arith, h1) in
      Steps-trans master Plain b r.1 b1 (steps r observed) (Steps.stay last)

  event_Steps :
      (f : Event) (fs fills : List Fill) (b b1 : Book)
      → (record_event f b >>= with_fills fs) ≡ ok (fills, b1)
      → Steps master Plain b b1
  event_Steps f fs fills b b1 h =
      let (r, recorded, h1) = >>=-eq-ok (record_event f b) (with_fills fs) h in
      let last : r.1 ≡ b1 = ground (arith, h1) in
      Steps-trans master Plain b r.1 b1 (record_event-Steps master f b r.1 r.0 recorded)
        (Steps.stay last)

  pub close_bar-Steps :
      (bar : ExecutionBar) (b b1 : Book) → close_bar bar b ≡ ok b1 → Steps master Plain b b1
  unfolding close_bar expire_orders
  close_bar-Steps bar b b1 h =
      let (valid, h1) = guard-eq-ok (valid_bar bar) invalid_contract _ h in
      let (agrees, h2) =
        raise_if-eq-ok
          (differs (event_at (opening_id (from_bar bar).event_id) b.events) (from_bar bar))
          opening_differs _ h1 in
      let (r, recorded, h3) = >>=-eq-ok (record_event (Event.close_bar bar) b) _ h2 in
      let first = record_event-Steps master (Event.close_bar bar) b r.1 r.0 recorded in
      elim (Bool-cases r.0) [
        | inr again ↦
            let last : r.1 ≡ b1 = ground (arith, rw again at h3) in
            Steps-trans master Plain b r.1 b1 first (Steps.stay last)
        | inl is_new ↦
            let marks = closing_mark bar ∷ [] in
            let (b2, marked, h4) = >>=-eq-ok (mark marks r.1) _ (rw is_new at h3) in
            let (q, expired, h5) =
              >>=-eq-ok (expire_due bar.closed_at (pending_orders b2) b2)
                (λ (x : List Text × Book). ok x.1) h4 in
            let last : q.1 ≡ b1 = ground (arith, h5) in
            Steps-trans master Plain b r.1 b1 first (
              Steps-trans master Plain r.1 b2 b1
                (Steps-one master Plain r.1 b2 (Step.marked marks marked))
                (Steps-trans master Plain b2 q.1 b1
                  (expire_due-Steps master bar.closed_at (pending_orders b2) q.0 b2 q.1 expired)
                  (Steps.stay last)))
      ]

module _ (master : Text → Instrument) (intent_hash : OrderIntent → Text)
    (event_hash : OpeningEvent → Text) (observation_hash : StopObservation → Text)
    (fill_name : Text → Text → Text) (risk_text : List Check → Text)
    (error_text : LedgerError → Text) where
  stop_elected-Steps :
      (i : OrderIntent) (e : OpeningEvent) (b b1 : Book) (fits : Bool)
      → stop_elected intent_hash event_hash observation_hash fill_name risk_text error_text i e b
        ≡ ok (fits, b1)
      → Steps master Plain b b1
  unfolding stop_elected
  stop_elected-Steps i e b b1 fits h =
      if_elected-Steps master e.tradable
        (observe_stop intent_hash event_hash observation_hash fill_name i e b) b b1 fits
        (λ r observed.
          observe_stop-Steps master intent_hash event_hash observation_hash fill_name i e r.0 b r.1
            observed)
        h

  pub marketable-Steps :
      (kind : OrderType) (i : OrderIntent) (e : OpeningEvent) (price : Decimal) (b b1 : Book)
      (fits : Bool)
      → i.order_type ≡ kind
      → marketable intent_hash event_hash observation_hash fill_name risk_text error_text i e price
          b
        ≡ ok (fits, b1)
      → Steps master Plain b b1
  unfolding marketable
  marketable-Steps OrderType.market i e price b b1 fits k h =
      Steps.stay (ground (arith, rw (k, marketable) at h))
  marketable-Steps OrderType.limit i e price b b1 fits k h =
      let (r, limited, h1) =
        >>=-eq-ok (within_limit i.side price i.limit_price) (λ (x : Bool). ok (x, b))
          (rw (k, marketable) at h) in
      Steps.stay (ground (arith, h1))
  marketable-Steps OrderType.stop i e price b b1 fits k h =
      stop_elected-Steps i e b b1 fits (rw (k, marketable) at h)
  marketable-Steps OrderType.trailing_stop i e price b b1 fits k h =
      stop_elected-Steps i e b b1 fits (rw (k, marketable) at h)

  pub settle-Steps :
      (e : OpeningEvent) (f : Fill) (p p1 : Progress)
      → pos 0 <ℤ f.quantity
      → Plain f
      → settle intent_hash event_hash observation_hash fill_name risk_text error_text e f p ≡ ok p1
      → Steps master Plain p.book p1.book
  unfolding settle
  settle-Steps e f p p1 positive plain h = elim (Result-cases (apply_fill f none p.book)) [
    | inr (r, booked) ↦
        let last : r.1 ≡ p1.book = ground (arith, rw (booked, settle) at h) in
        Steps-trans master Plain p.book r.1 p1.book
          (Steps-one master Plain p.book r.1 (Step.filled f none positive plain booked))
          (Steps.stay last)
    | inl (failure, failed) ↦
        let (caught, h0) =
          guard-eq-ok (is_ledger_error failure) failure _ (rw (failed, settle) at h) in
        let (b1, rejected, h1) =
          >>=-eq-ok (cancel f.intent_id e.opened_at (error_text failure) true p.book)
            (λ (x : Book). ok (record p { book = x })) h0 in
        let last : b1 ≡ p1.book = ground (arith, h1) in
        Steps-trans master Plain p.book b1 p1.book
          (cancel-Steps master f.intent_id e.opened_at (error_text failure) true p.book b1 rejected)
          (Steps.stay last)
  ]

  pub end_immediate-Steps :
      (e : OpeningEvent) (fits : Bool) (i : OrderIntent) (p p1 : Progress)
      → end_immediate intent_hash event_hash observation_hash fill_name risk_text error_text e fits
          i p
        ≡ ok p1
      → Steps master Plain p.book p1.book
  unfolding end_immediate
  end_immediate-Steps e fits i p p1 h =
      elim (Bool-cases (is_immediate i.tif && (not (is_stop i.order_type) || fits))) [
        | inr resting ↦ Steps.stay (ground (arith, rw (resting, end_immediate) at h))
        | inl ended ↦
            let (b1, done, h1) =
              >>=-eq-ok (cancel i.intent_id e.opened_at unfilled_reason false p.book)
                (λ (x : Book). ok (record p { book = x })) (rw (ended, end_immediate) at h) in
            let last : b1 ≡ p1.book = ground (arith, h1) in
            Steps-trans master Plain p.book b1 p1.book
              (cancel-Steps master i.intent_id e.opened_at unfilled_reason false p.book b1 done)
              (Steps.stay last)
      ]

  pub fill_order-Steps :
      (x : PaperExecution) (e : OpeningEvent) (metadata : Dict InstrumentRisk)
      (price quantity : Decimal) (o : OrderRow) (p p1 : Progress)
      → pos 0 <ℤ quantity
      → fill_order intent_hash event_hash observation_hash fill_name risk_text error_text x e
          metadata price quantity o p
        ≡ ok p1
      → Steps master Plain p.book p1.book
  unfolding fill_order paper_fill
  fill_order-Steps x e metadata price quantity o p p1 positive h =
      let (failures, checked, h1) =
        >>=-eq-ok (check_risk x (projected x e price o) e.opened_at metadata p.book) _ h in
      let f =
        paper_fill intent_hash event_hash observation_hash fill_name risk_text error_text x e price
          quantity o.intent in
      elim (Bool-cases (passed failures)) [
        | inl fine ↦
            let (valid, h2) = guard-eq-ok (valid_fill f) invalid_contract _ (rw fine at h1) in
            let (p2, settled, h3) =
              >>=-eq-ok
                (settle intent_hash event_hash observation_hash fill_name risk_text error_text e f
                  p)
                _ h2 in
            Steps-trans master Plain p.book p2.book p1.book
              (settle-Steps e f p p2 positive refl settled)
              (end_immediate-Steps e true o.intent p2 p1 h3)
        | inr refused ↦
            let (b1, rejected, h2) =
              >>=-eq-ok (cancel o.intent.intent_id e.opened_at (risk_text failures) true p.book)
                (λ (x : Book). ok (record p { book = x })) (rw refused at h1) in
            let last : b1 ≡ p1.book = ground (arith, h2) in
            Steps-trans master Plain p.book b1 p1.book
              (cancel-Steps master o.intent.intent_id e.opened_at (risk_text failures) true p.book
                b1 rejected)
              (Steps.stay last)
      ]

  pub match_order-Steps :
      (x : PaperExecution) (e : OpeningEvent) (a : Admission) (o : OrderRow) (p p1 : Progress)
      → match_order intent_hash event_hash observation_hash fill_name risk_text error_text x e a o p
        ≡ ok p1
      → Steps master Plain p.book p1.book
  unfolding match_order
  match_order-Steps x e a o p p1 h =
      let (own, h1) =
        guard-eq-ok (same Instrument-discrete o.intent.instrument e.instrument) order_identity _
          h in
      let (metadata, given, h2) = >>=-eq-ok (metadata_for a o.intent.intent_id) _ h1 in
      let price = slipped_price x.policy o.intent.side e in
      let (r, observed, h3) =
        >>=-eq-ok
          (marketable intent_hash event_hash observation_hash fill_name risk_text error_text
            o.intent e price p.book)
          _ h2 in
      let (m, known, h4) =
        >>=-eq-ok (or_raise (lookup e.instrument.instrument_id metadata) missing_metadata) _ h3 in
      let quantity = filled_quantity p.capacity m.lot_size o in
      let p2 : Progress = record p { book = r.1 } in
      Steps-trans master Plain p.book r.1 p1.book
        (marketable-Steps o.intent.order_type o.intent e price p.book r.1 r.0 refl observed)
        (elim (Bool-cases (r.0 && ltb_ℤ (pos 0) quantity)) [
          | inl fillable ↦
              fill_order-Steps x e metadata price quantity o p2 p1
                (positive_of r.0 quantity fillable) (rw fillable at h4)
          | inr unfilled ↦ end_immediate-Steps e r.0 o.intent p2 p1 (rw unfilled at h4)
        ])

  pub consider-Steps :
      (x : PaperExecution) (e : OpeningEvent) (a : Admission) (o : OrderRow) (p p1 : Progress)
      → consider intent_hash event_hash observation_hash fill_name risk_text error_text x e a o p
        ≡ ok p1
      → Steps master Plain p.book p1.book
  unfolding consider
  consider-Steps x e a o p p1 h =
      elim (Bool-cases (
        not (is_admitted a o.intent.intent_id)
        || not (o.intent.instrument.instrument_id == e.instrument.instrument_id))) [
          | inl passed_over ↦ Steps.stay (ground (arith, rw (passed_over, consider) at h))
          | inr own ↦
              let h1 = rw (own, consider) at h in
              elim (Bool-cases (is_expired o.intent.expires_at e.opened_at)) [
                | inl due ↦
                    let (b1, done, h2) =
                      >>=-eq-ok (cancel o.intent.intent_id e.opened_at expired_reason false p.book)
                        (λ (x : Book). ok (record p { book = x })) (rw due at h1) in
                    let last : b1 ≡ p1.book = ground (arith, h2) in
                    Steps-trans master Plain p.book b1 p1.book
                      (cancel-Steps master o.intent.intent_id e.opened_at expired_reason false
                        p.book b1 done)
                      (Steps.stay last)
                | inr not_due ↦
                    let h2 = rw not_due at h1 in
                    elim (Bool-cases (ltb e.opened_at o.intent.eligible_at)) [
                      | inl early ↦ Steps.stay (ground (arith, rw early at h2))
                      | inr eligible ↦ match_order-Steps x e a o p p1 (rw eligible at h2)
                    ]
              ]
        ]

  pub consider_all-Steps :
      (x : PaperExecution) (e : OpeningEvent) (a : Admission) (rows : List OrderRow)
      (p p1 : Progress)
      → consider_all intent_hash event_hash observation_hash fill_name risk_text error_text x e a
          rows p
        ≡ ok p1
      → Steps master Plain p.book p1.book
  unfolding consider_all
  consider_all-Steps x e a [] p p1 h = Steps.stay (ground (arith, h))
  consider_all-Steps x e a (o ∷ rows) p p1 h =
      let (p2, first, h1) =
        >>=-eq-ok
          (consider intent_hash event_hash observation_hash fill_name risk_text error_text x e a o
            p)
          _ h in
      Steps-trans master Plain p.book p2.book p1.book (consider-Steps x e a o p p2 first)
        (consider_all-Steps x e a rows p2 p1 h1)

  pub open_new-Steps :
      (x : PaperExecution) (e : OpeningEvent) (a : Admission) (b : Book) (p : Progress)
      → open_new intent_hash event_hash observation_hash fill_name risk_text error_text x e a b
        ≡ ok p
      → Steps master Plain b p.book
  unfolding open_new
  open_new-Steps x e a b p h =
      let (b1, marked, h1) = >>=-eq-ok (mark (opening_mark e ∷ []) b) _ h in
      Steps-trans master Plain b b1 p.book
        (Steps-one master Plain b b1 (Step.marked (opening_mark e ∷ []) marked))
        (consider_all-Steps x e a (pending_orders b1)
          (record { capacity = opening_capacity x.policy e; fills = []; book = b1 }) p h1)

  pub open_event-Steps :
      (x : PaperExecution) (e : OpeningEvent) (a : Admission) (fills : List Fill) (b b1 : Book)
      → open_event intent_hash event_hash observation_hash fill_name risk_text error_text x e a b
        ≡ ok (fills, b1)
      → Steps master Plain b b1
  unfolding open_event
  open_event-Steps x e a fills b b1 h =
      let (valid, h1) = guard-eq-ok (valid_opening e) invalid_contract _ h in
      let (paper, h2) = raise_if-eq-ok (is_live b.spec.mode) live_account _ h1 in
      elim (Bool-cases (is_some (event_at (open_id e.event_id) b.events))) [
        | inl consumed ↦
            let (agrees, h3) =
              guard-eq-ok (same_print (event_at (open_id e.event_id) b.events) e) opening_conflict _
                (rw consumed at h2) in
            event_Steps master (Event.opening_event e) [] fills b b1 h3
        | inr fresh ↦
            let (r, recorded, h3) =
              >>=-eq-ok (record_event (Event.opening_event e) b) _ (rw fresh at h2) in
            let first = record_event-Steps master (Event.opening_event e) b r.1 r.0 recorded in
            elim (Bool-cases r.0) [
              | inr again ↦
                  let last : r.1 ≡ b1 = ground (arith, rw again at h3) in
                  Steps-trans master Plain b r.1 b1 first (Steps.stay last)
              | inl is_new ↦
                  let (p, filled, h4) =
                    >>=-eq-ok
                      (open_new intent_hash event_hash observation_hash fill_name risk_text
                        error_text x e a r.1)
                      (λ (q : Progress). ok (q.fills, q.book)) (rw is_new at h3) in
                  let last : p.book ≡ b1 = ground (arith, h4) in
                  Steps-trans master Plain b r.1 b1 first (
                    Steps-trans master Plain r.1 p.book b1 (open_new-Steps x e a r.1 p filled)
                      (Steps.stay last))
            ]
      ]

  pub open_bar-Steps :
      (x : PaperExecution) (bar : ExecutionBar) (a : Admission) (fills : List Fill) (b b1 : Book)
      → open_bar intent_hash event_hash observation_hash fill_name risk_text error_text x bar a b
        ≡ ok (fills, b1)
      → Steps master Plain b b1
  unfolding open_bar
  open_bar-Steps x bar a fills b b1 h =
      let (valid, h1) = guard-eq-ok (valid_bar bar) invalid_contract _ h in
      elim (Bool-cases (is_some (event_at (open_id bar.event_id) b.events))) [
        | inl consumed ↦
            let (agrees, h2) =
              guard-eq-ok (same_bar (event_at (open_id bar.event_id) b.events) bar) bar_changed _
                (rw consumed at h1) in
            event_Steps master (Event.opening_event (from_bar bar)) [] fills b b1 h2
        | inr fresh ↦
            let (r, opened, h2) =
              >>=-eq-ok
                (open_event intent_hash event_hash observation_hash fill_name risk_text error_text x
                  (from_bar bar) a b)
                _ (rw fresh at h1) in
            Steps-trans master Plain b r.1 b1 (open_event-Steps x (from_bar bar) a r.0 b r.1 opened)
              (event_Steps master (Event.open_bar bar) r.0 fills r.1 b1 h2)
      ]
