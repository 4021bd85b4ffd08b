-- ===== src/Simulator/Booked.antt =====
-- The fills that an opening of src/execution/simulator.py returns are those that the ledger booked.
use agentic_quant.Ledger.Reconcile.Explained.{Plain}
use agentic_quant.Prelude.Int.{pos, ◌<ℤ◌, ltb_ℤ}
use agentic_quant.Prelude.{
  Bool, true, false, ◌≡◌, refl, sym, subst, arith, none, some, List, [], ◌∷◌, ◌++◌, not, ◌&&◌, ◌||◌,
  ltb, inl, inr, Bool-cases, is_some, same, ◌==◌,
}
use agentic_quant.Prelude.Lists.{AllOf, all_joined, all_carried}
use agentic_quant.Prelude.Result.{
  ok, >>=-eq-ok, guard-eq-ok, raise_if-eq-ok, or_raise, Result-cases,
}
use agentic_quant.Prelude.Dict.{Dict, lookup}
use agentic_quant.Decimal.{Decimal, minus}
use agentic_quant.Domain.Common.{Text, Instrument, Instrument-discrete}
use agentic_quant.Domain.Orders.{OrderIntent, is_expired}
use agentic_quant.Domain.Fills.{Fill, valid_fill}
use agentic_quant.Domain.Bars.{OpeningEvent, valid_opening}
use agentic_quant.Ledger.State.{
  LedgerError, live_account, opening_conflict, order_identity, missing_metadata, invalid_contract,
  OrderRow, Event, open_id, Book, event_at, record_event, pending_orders,
}
use agentic_quant.Ledger.Orders.{cancel, mark}
use agentic_quant.Ledger.Fills.{apply_fill}
use agentic_quant.Ledger.Reconcile.Reach.{Step, Steps}
use agentic_quant.Ledger.Reconcile.Steps.{Steps-one}
use agentic_quant.RiskControls.{InstrumentRisk, Check}
use agentic_quant.Stops.{StopObservation, is_stop}
use agentic_quant.Stops.Retained.{is_live}
use agentic_quant.Simulator.{PaperExecution, passed, check_risk, expired_reason}
use agentic_quant.Simulator.Opening.{
  is_ledger_error, Admission, Progress, is_admitted, metadata_for, slipped_price, filled_quantity,
  projected, is_immediate, unfilled_reason, opening_capacity, opening_mark, marketable, paper_fill,
  settle, end_immediate, fill_order, match_order, consider, consider_all, open_new, same_print,
  open_event,
}
use agentic_quant.Simulator.Refinement.{cancel-Steps}
use agentic_quant.Ledger.State.{FillRow}
use agentic_quant.Ledger.Fills.Retries.{fill_stored}
use agentic_quant.Ledger.Reconcile.Steps.{Steps-Grows}
use agentic_quant.Simulator.Opened.{
  positive_of, marketable-Steps, settle-Steps, end_immediate-Steps,
}

-- A fill of the opening that stands in the book under its id.
pub record BookedAt (e : OpeningEvent) (b : Book) (f : Fill) : Type 0 where
  pub positive : pos 0 <ℤ f.quantity
  pub event : f.event_id ≡ e.event_id
  pub time : f.executed_at ≡ e.opened_at
  pub row : FillRow
  pub found : lookup f.fill_id b.fills ≡ some row
  pub stored : row.fill ≡ f

module _ (master : Text → Instrument) where
  BookedAt-Steps :
      (e : OpeningEvent) (b b1 : Book) (f : Fill)
      → Steps master Plain b b1
      → BookedAt e b f
      → BookedAt e b1 f
  BookedAt-Steps e b b1 f steps k = record {
    positive = k.positive;
    event = k.event;
    time = k.time;
    row = k.row;
    found = (Steps-Grows master Plain b b1 steps).booked f.fill_id k.row k.found;
    stored = k.stored;
  }

  -- Nothing was filled.
  unchanged :
      (e : OpeningEvent) (p p1 : Progress)
      → AllOf (BookedAt e p.book) p.fills
      → p.fills ≡ p1.fills
      → Steps master Plain p.book p1.book
      → AllOf (BookedAt e p1.book) p1.fills
  unchanged e p p1 all same_fills steps = subst (AllOf (BookedAt e p1.book)) same_fills (
      all_carried (BookedAt e p.book) (BookedAt e p1.book) p.fills
        (λ f. BookedAt-Steps e p.book p1.book f steps) all)

stayed :
    (e : OpeningEvent) (p p1 : Progress)
    → AllOf (BookedAt e p.book) p.fills
    → p ≡ p1
    → AllOf (BookedAt e p1.book) p1.fills
stayed e p p1 all same_one =
    subst (λ (x : Progress). AllOf (BookedAt e x.book) x.fills) same_one all

none_filled :
    (e : OpeningEvent) (fills : List Fill) (b : Book) → fills ≡ [] → AllOf (BookedAt e b) fills
none_filled e fills b nothing = subst (AllOf (BookedAt e b)) (sym nothing) tt

module _ (master : Text → Instrument) (intent_hash : OrderIntent → Text)
    (event_hash : OpeningEvent → Text) (observation_hash : StopObservation → Text)
    (fill_name : Text → Text → Text) (risk_text : List Check → Text)
    (error_text : LedgerError → Text) where
  end_immediate_booked :
      (e : OpeningEvent) (fits : Bool) (i : OrderIntent) (p p1 : Progress)
      → AllOf (BookedAt e p.book) p.fills
      → end_immediate intent_hash event_hash observation_hash fill_name risk_text error_text e fits
          i p
        ≡ ok p1
      → AllOf (BookedAt e p1.book) p1.fills
  unfolding end_immediate
  end_immediate_booked e fits i p p1 all h =
      unchanged master e p p1 all
        (elim (Bool-cases (is_immediate i.tif && (not (is_stop i.order_type) || fits))) [
          | inr resting ↦ ground (arith, rw (resting, end_immediate) at h)
          | inl ended ↦
              let (b1, done, h1) =
                >>=-eq-ok (cancel i.intent_id e.opened_at unfilled_reason false p.book)
                  (λ (x : Book). ok (record p { book = x })) (rw (ended, end_immediate) at h) in
              ground (arith, h1)
        ])
        (end_immediate-Steps master intent_hash event_hash observation_hash fill_name risk_text
          error_text e fits i p p1 h)

  settle_booked :
      (e : OpeningEvent) (f : Fill) (p p1 : Progress)
      → pos 0 <ℤ f.quantity
      → Plain f
      → f.event_id ≡ e.event_id
      → f.executed_at ≡ e.opened_at
      → AllOf (BookedAt e p.book) p.fills
      → settle intent_hash event_hash observation_hash fill_name risk_text error_text e f p ≡ ok p1
      → AllOf (BookedAt e p1.book) p1.fills
  unfolding settle
  settle_booked e f p p1 positive plain event time all h =
      elim (Result-cases (apply_fill f none p.book)) [
        | inl (failure, failed) ↦
            let (caught, h0) =
              guard-eq-ok (is_ledger_error failure) failure _ (rw (failed, settle) at h) in
            let (b1, rejected, h1) =
              >>=-eq-ok (cancel f.intent_id e.opened_at (error_text failure) true p.book)
                (λ (x : Book). ok (record p { book = x })) h0 in
            unchanged master e p p1 all (ground (arith, h1)) (
              settle-Steps master intent_hash event_hash observation_hash fill_name risk_text
                error_text e f p p1 positive plain h)
        | inr (r, booked) ↦
            let (row, found, stored) = fill_stored f none p.book r.1 r.0 booked in
            let old =
              all_carried (BookedAt e p.book) (BookedAt e r.1) p.fills
                (λ g.
                  BookedAt-Steps master e p.book r.1 g
                    (Steps-one master Plain p.book r.1 (Step.filled f none positive plain booked)))
                all in
            let new : BookedAt e r.1 f = record {
              positive = positive;
              event = event;
              time = time;
              row = row;
              found = found;
              stored = stored;
            } in
            let last : record {
              capacity = minus p.capacity f.quantity;
              fills = p.fills ++ f ∷ [];
              book = r.1;
            }
                ≡ p1 =
              ground (arith, rw (booked, settle) at h) in
            subst (λ (x : Progress). AllOf (BookedAt e x.book) x.fills) last
              (all_joined (BookedAt e r.1) p.fills (f ∷ []) old (new, tt))
      ]

  fill_order_booked :
      (x : PaperExecution) (e : OpeningEvent) (metadata : Dict InstrumentRisk)
      (price quantity : Decimal) (o : OrderRow) (p p1 : Progress)
      → pos 0 <ℤ quantity
      → AllOf (BookedAt e p.book) p.fills
      → fill_order intent_hash event_hash observation_hash fill_name risk_text error_text x e
          metadata price quantity o p
        ≡ ok p1
      → AllOf (BookedAt e p1.book) p1.fills
  unfolding fill_order paper_fill
  fill_order_booked x e metadata price quantity o p p1 positive all h =
      let (failures, checked, h1) =
        >>=-eq-ok (check_risk x (projected x e price o) e.opened_at metadata p.book) _ h in
      let f =
        paper_fill intent_hash event_hash observation_hash fill_name risk_text error_text x e price
          quantity o.intent in
      elim (Bool-cases (passed failures)) [
        | inl fine ↦
            let (valid, h2) = guard-eq-ok (valid_fill f) invalid_contract _ (rw fine at h1) in
            let (p2, settled, h3) =
              >>=-eq-ok
                (settle intent_hash event_hash observation_hash fill_name risk_text error_text e f
                  p)
                _ h2 in
            end_immediate_booked e true o.intent p2 p1
              (settle_booked e f p p2 positive refl refl refl all settled) h3
        | inr refused ↦
            let (b1, rejected, h2) =
              >>=-eq-ok (cancel o.intent.intent_id e.opened_at (risk_text failures) true p.book)
                (λ (x : Book). ok (record p { book = x })) (rw refused at h1) in
            let last : b1 ≡ p1.book = ground (arith, h2) in
            unchanged master e p p1 all (ground (arith, h2)) (
              subst (λ (x : Book). Steps master Plain p.book x) last
                (cancel-Steps master o.intent.intent_id e.opened_at (risk_text failures) true p.book
                  b1 rejected))
      ]

  match_order_booked :
      (x : PaperExecution) (e : OpeningEvent) (a : Admission) (o : OrderRow) (p p1 : Progress)
      → AllOf (BookedAt e p.book) p.fills
      → match_order intent_hash event_hash observation_hash fill_name risk_text error_text x e a o p
        ≡ ok p1
      → AllOf (BookedAt e p1.book) p1.fills
  unfolding match_order
  match_order_booked x e a o p p1 all h =
      let (own, h1) =
        guard-eq-ok (same Instrument-discrete o.intent.instrument e.instrument) order_identity _
          h in
      let (metadata, given, h2) = >>=-eq-ok (metadata_for a o.intent.intent_id) _ h1 in
      let price = slipped_price x.policy o.intent.side e in
      let (r, observed, h3) =
        >>=-eq-ok
          (marketable intent_hash event_hash observation_hash fill_name risk_text error_text
            o.intent e price p.book)
          _ h2 in
      let (m, known, h4) =
        >>=-eq-ok (or_raise (lookup e.instrument.instrument_id metadata) missing_metadata) _ h3 in
      let quantity = filled_quantity p.capacity m.lot_size o in
      let p2 : Progress = record p { book = r.1 } in
      let all2 = unchanged master e p p2 all refl (
        marketable-Steps master intent_hash event_hash observation_hash fill_name risk_text
          error_text o.intent.order_type o.intent e price p.book r.1 r.0 refl observed) in
      elim (Bool-cases (r.0 && ltb_ℤ (pos 0) quantity)) [
        | inl fillable ↦
            fill_order_booked x e metadata price quantity o p2 p1
              (positive_of r.0 quantity fillable) all2 (rw fillable at h4)
        | inr unfilled ↦ end_immediate_booked e r.0 o.intent p2 p1 all2 (rw unfilled at h4)
      ]

  consider_booked :
      (x : PaperExecution) (e : OpeningEvent) (a : Admission) (o : OrderRow) (p p1 : Progress)
      → AllOf (BookedAt e p.book) p.fills
      → consider intent_hash event_hash observation_hash fill_name risk_text error_text x e a o p
        ≡ ok p1
      → AllOf (BookedAt e p1.book) p1.fills
  unfolding consider
  consider_booked x e a o p p1 all h =
      elim (Bool-cases (
        not (is_admitted a o.intent.intent_id)
        || not (o.intent.instrument.instrument_id == e.instrument.instrument_id))) [
          | inl passed_over ↦ stayed e p p1 all (ground (arith, rw (passed_over, consider) at h))
          | inr own ↦
              let h1 = rw (own, consider) at h in
              elim (Bool-cases (is_expired o.intent.expires_at e.opened_at)) [
                | inl due ↦
                    let (b1, done, h2) =
                      >>=-eq-ok (cancel o.intent.intent_id e.opened_at expired_reason false p.book)
                        (λ (x : Book). ok (record p { book = x })) (rw due at h1) in
                    let last : b1 ≡ p1.book = ground (arith, h2) in
                    unchanged master e p p1 all (ground (arith, h2)) (
                      subst (λ (x : Book). Steps master Plain p.book x) last
                        (cancel-Steps master o.intent.intent_id e.opened_at expired_reason false
                          p.book b1 done))
                | inr not_due ↦
                    let h2 = rw not_due at h1 in
                    elim (Bool-cases (ltb e.opened_at o.intent.eligible_at)) [
                      | inl early ↦ stayed e p p1 all (ground (arith, rw early at h2))
                      | inr eligible ↦ match_order_booked x e a o p p1 all (rw eligible at h2)
                    ]
              ]
        ]

  consider_all_booked :
      (x : PaperExecution) (e : OpeningEvent) (a : Admission) (rows : List OrderRow)
      (p p1 : Progress)
      → AllOf (BookedAt e p.book) p.fills
      → consider_all intent_hash event_hash observation_hash fill_name risk_text error_text x e a
          rows p
        ≡ ok p1
      → AllOf (BookedAt e p1.book) p1.fills
  unfolding consider_all
  consider_all_booked x e a [] p p1 all h = stayed e p p1 all (ground (arith, h))
  consider_all_booked x e a (o ∷ rows) p p1 all h =
      let (p2, first, h1) =
        >>=-eq-ok
          (consider intent_hash event_hash observation_hash fill_name risk_text error_text x e a o
            p)
          _ h in
      consider_all_booked x e a rows p2 p1 (consider_booked x e a o p p2 all first) h1

  booked_by_opening :
      (x : PaperExecution) (e : OpeningEvent) (a : Admission) (fills : List Fill) (b b1 : Book)
      → open_event intent_hash event_hash observation_hash fill_name risk_text error_text x e a b
        ≡ ok (fills, b1)
      → AllOf (BookedAt e b1) fills
  unfolding open_event open_new
  booked_by_opening x e a fills b b1 h =
      let (valid, h1) = guard-eq-ok (valid_opening e) invalid_contract _ h in
      let (paper, h2) = raise_if-eq-ok (is_live b.spec.mode) live_account _ h1 in
      elim (Bool-cases (is_some (event_at (open_id e.event_id) b.events))) [
        | inl consumed ↦
            let (agrees, h3) =
              guard-eq-ok (same_print (event_at (open_id e.event_id) b.events) e) opening_conflict _
                (rw consumed at h2) in
            let (r, recorded, h4) =
              >>=-eq-ok (record_event (Event.opening_event e) b) (λ (x : Bool × Book). ok ([], x.1))
                h3 in
            none_filled e fills b1 (ground (arith, h4))
        | inr fresh ↦
            let (r, recorded, h3) =
              >>=-eq-ok (record_event (Event.opening_event e) b) _ (rw fresh at h2) in
            elim (Bool-cases r.0) [
              | inr again ↦ none_filled e fills b1 (ground (arith, rw again at h3))
              | inl is_new ↦
                  let (p, filled, h4) =
                    >>=-eq-ok
                      (open_new intent_hash event_hash observation_hash fill_name risk_text
                        error_text x e a r.1)
                      (λ (q : Progress). ok (q.fills, q.book)) (rw is_new at h3) in
                  let (b2, marked, h5) = >>=-eq-ok (mark (opening_mark e ∷ []) r.1) _ filled in
                  let all =
                    consider_all_booked x e a (pending_orders b2)
                      (record { capacity = opening_capacity x.policy e; fills = []; book = b2 }) p
                      tt h5 in
                  let last : (p.fills, p.book) ≡ (fills, b1) = ground (arith, h4) in
                  subst (λ (z : List Fill × Book). AllOf (BookedAt e z.1) z.0) last all
            ]
      ]

module _ (intent_hash : OrderIntent → Text) (event_hash : OpeningEvent → Text)
    (observation_hash : StopObservation → Text) (fill_name : Text → Text → Text)
    (risk_text : List Check → Text) (error_text : LedgerError → Text) where
  -- Every fill that an opening returns is of a positive quantity, carries the opening's id and time,
  -- and stands in the book under its id.
  pub open_event_booked :
      (x : PaperExecution) (e : OpeningEvent) (a : Admission) (fills : List Fill) (b b1 : Book)
      → open_event intent_hash event_hash observation_hash fill_name risk_text error_text x e a b
        ≡ ok (fills, b1)
      → AllOf (BookedAt e b1) fills
  open_event_booked x e a fills b b1 h =
      booked_by_opening (λ id. e.instrument) intent_hash event_hash observation_hash fill_name
        risk_text error_text x e a fills b b1 h
