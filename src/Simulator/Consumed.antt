-- ===== src/Simulator/Consumed.antt =====
-- The liquidity of an opening is used once, src/execution/simulator.py and `record_event` of
-- src/execution/ledger.py.
use agentic_quant.Ledger.Reconcile.Explained.{Plain}
use agentic_quant.Prelude.{
  Bool, true, false, ◌≡◌, refl, sym, ap, ◌∙◌, arith, none, some, List, [], ◌∷◌, ◌++◌, inl, inr,
  Option-cases, Bool-cases, same, same_refl, same→eq,
}
use agentic_quant.Prelude.Result.{ok}
use agentic_quant.Domain.Common.{Text, Instrument}
use agentic_quant.Domain.Bars.{OpeningEvent, valid_opening}
use agentic_quant.Ledger.State.{
  Event, Event-discrete, EventKey, EventKey-discrete, event_key, Book, event_at, record_event,
}
use agentic_quant.Ledger.Reconcile.Reach.{Steps}
use agentic_quant.Ledger.Reconcile.Steps.{Steps-Grows}
use agentic_quant.Stops.Retained.{is_live}

event_at-++ :
    (k : EventKey) (e : Event) (xs ys : List Event)
    → event_at k xs ≡ some e
    → event_at k (xs ++ ys) ≡ some e
unfolding event_at
event_at-++ k e [] ys h = cc
event_at-++ k e (x ∷ xs) ys h = elim (Bool-cases (same EventKey-discrete (event_key x) k)) [
  | inl own ↦ rw own (rw own at h)
  | inr other ↦ rw other (event_at-++ k e xs ys (rw other at h))
]

event_at-added :
    (e : Event) (xs : List Event)
    → event_at (event_key e) xs ≡ none
    → event_at (event_key e) (xs ++ e ∷ []) ≡ some e
unfolding event_at
event_at-added e [] h = rw (same_refl EventKey-discrete (event_key e)) refl
event_at-added e (x ∷ xs) h =
    elim (Bool-cases (same EventKey-discrete (event_key x) (event_key e))) [
      | inl own ↦ cc (rw own at h)
      | inr other ↦ rw other (event_at-added e xs (rw other at h))
    ]

-- What was recorded is found again.
pub recorded_found :
    (e : Event) (b b1 : Book) (d : Bool)
    → record_event e b ≡ ok (d, b1)
    → event_at (event_key e) b1.events ≡ some e
unfolding record_event
recorded_found e b b1 d h = elim (Option-cases (event_at (event_key e) b.events)) [
  | inl is_new ↦
      let after : record b { events = b.events ++ e ∷ [] } ≡ b1 =
        ground (arith, rw (is_new, record_event) at h) in
      ap (λ (x : Book). event_at (event_key e) x.events) (sym after)
      ∙ event_at-added e b.events is_new
  | inr (old, found) ↦ elim (Bool-cases (same Event-discrete old e)) [
    | inr other ↦ ground (arith, rw (found, record_event, other) at h)
    | inl again ↦
        let same_book : b ≡ b1 = ground (arith, rw (found, record_event, again) at h) in
        ap (λ (x : Book). event_at (event_key e) x.events) (sym same_book)
        ∙ found
        ∙ ap some (same→eq Event-discrete old e again)
  ]
]

pub record_event_again :
    (e : Event) (b : Book)
    → event_at (event_key e) b.events ≡ some e
    → record_event e b ≡ ok (false, b)
unfolding record_event
record_event_again e b h = rw (h, record_event) (rw (same_refl Event-discrete e) refl)

module _ (master : Text → Instrument) where
  -- A recorded fact stays, whatever the ledger does.
  pub event_kept :
      (k : EventKey) (e : Event) (b b1 : Book)
      → Steps master Plain b b1
      → event_at k b.events ≡ some e
      → event_at k b1.events ≡ some e
  event_kept k e b b1 steps h =
      let g = Steps-Grows master Plain b b1 steps in
      ap (event_at k) g.received ∙ event_at-++ k e b.events g.facts h

-- What a call of `open_event` that returned leaves behind.
pub record Consumed (master : Text → Instrument) (e : OpeningEvent) (b b1 : Book) : Type 0 where
  pub valid : valid_opening e ≡ true
  pub simulated : is_live b.spec.mode ≡ false
  pub retained :
      event_at (event_key (Event.opening_event e)) b1.events ≡ some (Event.opening_event e)
