-- ===== src/Ledger/Reconcile/Acted.antt =====
-- `corporate_action` of src/execution/ledger.py keeps the invariant of `reconcile`.
pub mod Rows
pub mod Held
use agentic_quant.Prelude.Int.{pos, ◌<ℤ◌, ◌+ℤ◌, ◌-ℤ◌, int_laws}
use agentic_quant.Prelude.{
  Bool, false, ◌≡◌, refl, sym, ap, subst, ◌∙◌, Option, none, some, List, [], ◌∷◌, ◌++◌, arith, inl,
  inr, ◌==◌, ==_iff, ==-refl, Bool-cases, Option-cases, if◌then◌else◌,
}
use agentic_quant.Prelude.Result.{ok, ◌>>◌, >>=-eq-ok}
use agentic_quant.Prelude.Dict.{Dict, lookup, put, erase, lookup-put, lookup-erase}
use agentic_quant.Decimal.{Decimal, plus, minus, times, context, Fits}
use agentic_quant.Decimal.Bounds.{zero_times, zero_Fits, sub_self}
use agentic_quant.Domain.Common.{Text, Timestamp, Instrument}
use agentic_quant.Domain.Fills.{PriceMark}
use agentic_quant.Domain.Bars.{ActionKind, CorporateAction}
use agentic_quant.Ledger.State.{
  Ledger, OrderRow, HoldingRow, FillRow, Entry, JournalRow, journal_row, action_key, Event, Book,
  record_event, clock, get_order, is_open, pending_orders, write_journal,
}
use agentic_quant.Ledger.State.Effects.{clock_lem, record_event_lem, write_journal_lem}
use agentic_quant.Ledger.Orders.Stages.{cancel_open_lem}
use agentic_quant.Ledger.Orders.{cancel, mark, mark_all, mark_one, sort_marks, insert_mark}
use agentic_quant.Ledger.Actions.{
  corporate_action_reason, cancel_resting, cancel_before, pays, split_holding, pay_dividend,
  pay_delisting, act_on, act, corporate_action,
}
use agentic_quant.Ledger.Fills.{is_zero}
use agentic_quant.Ledger.Reconcile.{
  Replay, Position, flat, or_flat, position_at, start, replay_at, replay_row, replay_from,
  replay_action, action_receipt, stored_position, intent_at, none_pending,
}
use agentic_quant.Ledger.Reconcile.Tables.{replay_from-++}
use agentic_quant.Ledger.Reconcile.Sound.{Mastered, Sound, held}
use agentic_quant.Ledger.Reconcile.Operations.{cancel-Sound, mark-Sound, events_Sound}
use agentic_quant.Ledger.Reconcile.Acted.Rows.{
  action_row, replaced, settled, replay_nothing, settled-flat, replay_row-action, position_of,
  after_dividend, after_delisting, split_row, after_split, replay_dividend, replay_delisting,
  replay_split, split_holding_lem, erased_kept, held-erase, held-put, put_positive, put_known,
}
use agentic_quant.Ledger.Reconcile.Acted.Held.{Bookable, act_on-Sound}

cancel_kept :
    (id : Text) (at : Timestamp) (reason : Text) (is_rejection : Bool) (b b1 : Book)
    → cancel id at reason is_rejection b ≡ ok b1
    → (b1.holdings ≡ b.holdings) × (b1.realized ≡ b.realized)
unfolding cancel
cancel_kept id at reason is_rejection b b1 h =
    let (o, found, h1) = >>=-eq-ok (get_order id b) _ h in
    elim (Bool-cases (is_open o.status)) [
      | inr closed ↦
          let e : b ≡ b1 = ground (arith, rw closed at h1) in
          (sym (ap Book.holdings e), sym (ap Book.realized e))
      | inl opened ↦
          let after = (cancel_open_lem o id at reason is_rejection b b1 (rw opened at h1)).0 in
          (ap Book.holdings after, ap Book.realized after)
    ]

still_Bookable :
    (a : CorporateAction) (b b1 : Book)
    → b1.holdings ≡ b.holdings
    → b1.realized ≡ b.realized
    → Bookable a b
    → Bookable a b1
still_Bookable a b b1 e f fine = record {
  units = λ h found.
      fine.units h
        (ap (λ (x : Dict HoldingRow). lookup a.instrument.instrument_id x) (sym e) ∙ found);
  short = λ none_held. rw f (
      fine.short
        (ap (λ (x : Dict HoldingRow). lookup a.instrument.instrument_id x) (sym e) ∙ none_held));
}

module _ (master : Text → Instrument) where
  cancel_resting-Sound :
      (a : CorporateAction) (rows : List OrderRow) (s : Replay) (b b1 : Book)
      → Sound master s b []
      → cancel_resting a rows b ≡ ok b1
      → Sound master s b1 [] × (b1.holdings ≡ b.holdings) × (b1.realized ≡ b.realized)
  unfolding cancel_resting
  cancel_resting-Sound a [] s b b1 inv h =
      let e : b ≡ b1 = ground (arith, h) in
      (
        subst (λ (x : Book). Sound master s x []) e inv,
        sym (ap Book.holdings e),
        sym (ap Book.realized e),
      )
  cancel_resting-Sound a (o ∷ rows) s b b1 inv h =
      elim (Bool-cases (o.intent.instrument.instrument_id == a.instrument.instrument_id)) [
        | inr other ↦ cancel_resting-Sound a rows s b b1 inv (rw (other, cancel_resting) at h)
        | inl own ↦
            let (b2, cancelled, h1) =
              >>=-eq-ok (cancel o.intent.intent_id a.effective_at corporate_action_reason false b)
                (λ (x : Book). cancel_resting a rows x) (rw (own, cancel_resting) at h) in
            let inv2 =
              cancel-Sound master o.intent.intent_id a.effective_at corporate_action_reason false s
                b b2 inv cancelled in
            let (held_same, realized_same) =
              cancel_kept o.intent.intent_id a.effective_at corporate_action_reason false b b2
                cancelled in
            let (inv1, held1, realized1) = cancel_resting-Sound a rows s b2 b1 inv2 h1 in
            (inv1, held1 ∙ held_same, realized1 ∙ realized_same)
      ]

  cancel_before-Sound :
      (kind : ActionKind) (a : CorporateAction) (s : Replay) (b b1 : Book)
      → a.kind ≡ kind
      → Sound master s b []
      → cancel_before a b ≡ ok b1
      → Sound master s b1 [] × (b1.holdings ≡ b.holdings) × (b1.realized ≡ b.realized)
  unfolding cancel_before cancel_resting
  cancel_before-Sound ActionKind.dividend a s b b1 k inv h =
      cancel_resting-Sound a [] s b b1 inv (rw (k, cancel_before) at h)
  cancel_before-Sound ActionKind.split a s b b1 k inv h =
      cancel_resting-Sound a (pending_orders b) s b b1 inv (rw (k, cancel_before) at h)
  cancel_before-Sound ActionKind.delist a s b b1 k inv h =
      cancel_resting-Sound a (pending_orders b) s b b1 inv (rw (k, cancel_before) at h)

  act-Sound :
      (a : CorporateAction) (s : Replay) (b b4 : Book)
      → Sound master s b []
      → Bookable a b
      → act a b ≡ ok b4
      → (s1 : Replay) × Sound master s1 b4 []
  unfolding act
  act-Sound a s b b4 inv fine h =
      let (b1, clocked, h1) = >>=-eq-ok (clock a.effective_at b) _ h in
      let moved = (clock_lem a.effective_at b b1 clocked).0 in
      let inv1 =
        subst (λ (x : Book). Sound master s x []) (sym moved)
          (events_Sound master a.effective_at b s b inv) in
      let (b2, cancelled, h2) = >>=-eq-ok (cancel_before a b1) _ h1 in
      let (inv2, held_same, realized_same) =
        cancel_before-Sound a.kind a s b1 b2 refl inv1 cancelled in
      let (r, acted, h3) =
        >>=-eq-ok (act_on a (lookup a.instrument.instrument_id b2.holdings) b2)
          (λ (x : Decimal × Book).
            write_journal (action_key a.action_id) a.effective_at (Entry.action a) x.0 x.1)
          h2 in
      let fine2 =
        still_Bookable a b b2 (held_same ∙ ap Book.holdings moved)
          (realized_same ∙ ap Book.realized moved) fine in
      let (s1, inv4) = act_on-Sound master a.kind a s b2 r.1 r.0 refl inv2 fine2 acted in
      let written =
        (write_journal_lem (action_key a.action_id) a.effective_at (Entry.action a) r.0 r.1 b4
          h3).0 in
      (s1, subst (λ (x : Book). Sound master s1 x []) (sym written) inv4)

  pub corporate_action-Sound :
      (a : CorporateAction) (s : Replay) (b b1 : Book)
      → Sound master s b []
      → Bookable a b
      → corporate_action a b ≡ ok b1
      → (s1 : Replay) × Sound master s1 b1 []
  unfolding corporate_action
  corporate_action-Sound a s b b1 inv fine h =
      let (r, recorded, h1) =
        >>=-eq-ok (record_event (Event.action_event a) b)
          (λ (x : Bool × Book). if x.0 then act a x.1 else ok b) h in
      let e = record_event_lem (Event.action_event a) b r.1 r.0 recorded in
      let inv1 =
        subst (λ (x : Book). Sound master s x []) (sym e)
          (events_Sound master b.last_at r.1 s b inv) in
      elim (Bool-cases r.0) [
        | inl is_new ↦
            act-Sound a s r.1 b1 inv1
              (still_Bookable a b r.1 (ap Book.holdings e) (ap Book.realized e) fine)
              (rw is_new at h1)
        | inr known_one ↦
            let same_book : b ≡ b1 = ground (arith, rw known_one at h1) in
            (s, subst (λ (x : Book). Sound master s x []) same_book inv)
      ]
