-- ===== src/Ledger/Reconcile/Growth/Actions.antt =====
-- Corporate actions of src/execution/ledger.py take nothing back.
use agentic_quant.Domain.Fills.{Fill}
use agentic_quant.Prelude.{
  ◌≤◌, ◌≡◌, refl, ap, Bool, Option, List, [], ◌∷◌, arith, inl, inr, some, none, false, Bool-cases,
  ◌==◌, if◌then◌else◌,
}
use agentic_quant.Prelude.Result.{ok, >>=-eq-ok}
use agentic_quant.Prelude.Dict.{lookup}
use agentic_quant.Decimal.{Decimal}
use agentic_quant.Domain.Bars.{ActionKind, CorporateAction}
use agentic_quant.Ledger.State.{
  OrderRow, HoldingRow, Entry, Event, Book, action_key, journal_row, clock, record_event,
  write_journal, pending_orders,
}
use agentic_quant.Ledger.State.Effects.{write_journal_lem}
use agentic_quant.Ledger.Actions.{
  corporate_action_reason, cancel_resting, cancel_before, split_holding, pay_dividend,
  pay_delisting, act_on, act, corporate_action,
}
use agentic_quant.Ledger.Orders.{cancel, sort_marks, insert_mark, mark_one, mark_all, mark}
use agentic_quant.Ledger.Reconcile.Growth.Defs.{
  Grows, Grows-same, Grows-row, Grows-refl, Grows-trans, clock-Grows, record_event-Grows,
}
use agentic_quant.Ledger.Reconcile.Growth.Orders.{cancel-Grows}

cancel_resting-Grows :
    (allowed : Fill → Type 0) (a : CorporateAction) (rows : List OrderRow) (b b1 : Book)
    → cancel_resting a rows b ≡ ok b1
    → Grows allowed b b1
unfolding cancel_resting
cancel_resting-Grows allowed a [] b b1 h = Grows-refl allowed b b1 (ground (arith, h))
cancel_resting-Grows allowed a (o ∷ rows) b b1 h =
    elim (Bool-cases (o.intent.instrument.instrument_id == a.instrument.instrument_id)) [
      | inr other ↦ cancel_resting-Grows allowed a rows b b1 (rw (other, cancel_resting) at h)
      | inl own ↦
          let (b2, cancelled, h1) =
            >>=-eq-ok (cancel o.intent.intent_id a.effective_at corporate_action_reason false b)
              (λ (x : Book). cancel_resting a rows x) (rw (own, cancel_resting) at h) in
          Grows-trans allowed b b2 b1
            (cancel-Grows allowed o.intent.intent_id a.effective_at corporate_action_reason false b
              b2 cancelled)
            (cancel_resting-Grows allowed a rows b2 b1 h1)
    ]

cancel_before-Grows :
    (allowed : Fill → Type 0) (kind : ActionKind) (a : CorporateAction) (b b1 : Book)
    → a.kind ≡ kind
    → cancel_before a b ≡ ok b1
    → Grows allowed b b1
unfolding cancel_before
cancel_before-Grows allowed ActionKind.dividend a b b1 k h =
    Grows-refl allowed b b1 (ground (arith, rw (k, cancel_before) at h))
cancel_before-Grows allowed ActionKind.split a b b1 k h =
    cancel_resting-Grows allowed a (pending_orders b) b b1 (rw (k, cancel_before) at h)
cancel_before-Grows allowed ActionKind.delist a b b1 k h =
    cancel_resting-Grows allowed a (pending_orders b) b b1 (rw (k, cancel_before) at h)

split_kept :
    (a : CorporateAction) (h : HoldingRow) (b b1 : Book) (delta : Decimal)
    → split_holding a h b ≡ ok (delta, b1)
    → (b.last_at ≤ b1.last_at)
      × (b1.journal ≡ b.journal)
      × (b1.events ≡ b.events)
      × (b1.spec ≡ b.spec)
      × (b1.fills ≡ b.fills)
unfolding split_holding mark mark_all mark_one clock sort_marks insert_mark
split_kept a h b b1 delta e = ground arith

held_kept :
    (kind : ActionKind) (a : CorporateAction) (h : HoldingRow) (b b1 : Book) (delta : Decimal)
    → a.kind ≡ kind
    → act_on a (some h) b ≡ ok (delta, b1)
    → (b.last_at ≤ b1.last_at)
      × (b1.journal ≡ b.journal)
      × (b1.events ≡ b.events)
      × (b1.spec ≡ b.spec)
      × (b1.fills ≡ b.fills)
unfolding act_on pay_dividend pay_delisting
held_kept ActionKind.split a h b b1 delta k e = split_kept a h b b1 delta (rw (k, act_on) at e)
held_kept ActionKind.dividend a h b b1 delta k e = ground (arith, rw (k, act_on) at e)
held_kept ActionKind.delist a h b b1 delta k e = ground (arith, rw (k, act_on) at e)

act_on_kept :
    (a : CorporateAction) (row : Option HoldingRow) (b b1 : Book) (delta : Decimal)
    → act_on a row b ≡ ok (delta, b1)
    → (b.last_at ≤ b1.last_at)
      × (b1.journal ≡ b.journal)
      × (b1.events ≡ b.events)
      × (b1.spec ≡ b.spec)
      × (b1.fills ≡ b.fills)
unfolding act_on
act_on_kept a none b b1 delta h = ground (arith, h)
act_on_kept a (some g) b b1 delta h = held_kept a.kind a g b b1 delta refl h

act-Grows :
    (allowed : Fill → Type 0) (a : CorporateAction) (b b4 : Book)
    → act a b ≡ ok b4
    → Grows allowed b b4
unfolding act
act-Grows allowed a b b4 h =
    let (b1, clocked, h1) = >>=-eq-ok (clock a.effective_at b) _ h in
    let (b2, cancelled, h2) = >>=-eq-ok (cancel_before a b1) _ h1 in
    let (r, acted, h3) =
      >>=-eq-ok (act_on a (lookup a.instrument.instrument_id b2.holdings) b2)
        (λ (x : Decimal × Book).
          write_journal (action_key a.action_id) a.effective_at (Entry.action a) x.0 x.1)
        h2 in
    let (later3, same_rows, same_facts, same_spec, same_fills) =
      act_on_kept a (lookup a.instrument.instrument_id b2.holdings) b2 r.1 r.0 acted in
    let written =
      (write_journal_lem (action_key a.action_id) a.effective_at (Entry.action a) r.0 r.1 b4
        h3).0 in
    let first = clock-Grows allowed a.effective_at b b1 clocked in
    let third : Grows allowed b2 r.1 =
      Grows-same allowed b2 r.1 later3 same_rows same_facts same_spec same_fills in
    let last : Grows allowed r.1 b4 =
      Grows-row allowed r.1 b4
        (journal_row (action_key a.action_id) a.effective_at (Entry.action a) r.0)
        (rw (ap Book.last_at written) (omega arith)) (ap Book.journal written)
        (ap Book.events written) (ap Book.spec written) (ap Book.fills written) in
    Grows-trans allowed b b1 b4 first (
      Grows-trans allowed b1 b2 b4 (cancel_before-Grows allowed a.kind a b1 b2 refl cancelled)
        (Grows-trans allowed b2 r.1 b4 third last))

pub corporate_action-Grows :
    (allowed : Fill → Type 0) (a : CorporateAction) (b b1 : Book)
    → corporate_action a b ≡ ok b1
    → Grows allowed b b1
unfolding corporate_action
corporate_action-Grows allowed a b b1 h =
    let (r, recorded, h1) =
      >>=-eq-ok (record_event (Event.action_event a) b)
        (λ (x : Bool × Book). if x.0 then act a x.1 else ok b) h in
    elim (Bool-cases r.0) [
      | inr known_one ↦ Grows-refl allowed b b1 (ground (arith, rw known_one at h1))
      | inl is_new ↦
          Grows-trans allowed b r.1 b1
            (record_event-Grows allowed (Event.action_event a) b r.1 r.0 recorded)
            (act-Grows allowed a r.1 b1 (rw is_new at h1))
    ]
