-- ===== src/Ledger/Reconcile/Operations.antt =====
-- Every operation of src/execution/ledger.py keeps the invariant of `reconcile`.
use agentic_quant.Prelude.Int.{pos, ◌+ℤ◌, ◌-ℤ◌, eqb_ℤ-refl, int_laws}
use agentic_quant.Prelude.{
  Bool, ◌≡◌, refl, sym, ap, subst, ◌∙◌, none, some, List, [], ◌∷◌, ◌++◌, arith, inl, inr, ◌==◌,
  ==_iff, Bool-cases, Option-cases,
}
use agentic_quant.Prelude.Result.{ok, >>=-eq-ok}
use agentic_quant.Prelude.Dict.{Dict, lookup, insert, lookup-insert}
use agentic_quant.Decimal.{Decimal, plus, minus, copy_negate, context}
use agentic_quant.Domain.Common.{Text, Timestamp, Instrument}
use agentic_quant.Domain.Orders.{OrderIntent, AccountFee}
use agentic_quant.Domain.Fills.{PriceMark}
use agentic_quant.Ledger.State.{
  OrderRow, Entry, JournalRow, journal_row, order_key, cancel_key, account_fee_key, Book, get_order,
  journal_at, is_open,
}
use agentic_quant.Ledger.State.Effects.{get_order_lem}
use agentic_quant.Ledger.Orders.{
  submit, submit_new, cancel, book_fee, apply_account_fee, mark, mark_all, mark_one, sort_marks,
}
use agentic_quant.Ledger.Reconcile.{
  same_economics, Replay, start, intent_of, intent_at, replay_at, replay_row, replay_account_fee,
}
use agentic_quant.Ledger.Reconcile.Tables.{IntentsKept, replay_from_kept, replay_from-++}
use agentic_quant.Ledger.Reconcile.Sound.{Mastered, Sound}
use agentic_quant.Ledger.Orders.Stages.{
  submit_new_lem, cancel_open_lem, book_fee_lem, mark_one_lem, retry_fee_lem,
}
use agentic_quant.Ledger.Reconcile.Trades.{intent_at-insert, IntentsKept-insert}

module _ (master : Text → Instrument) where
  -- A row that moves nothing, with orders whose intents stay.
  quiet_Sound :
      (s : Replay) (b : Book) (at : Timestamp) (orders : Dict OrderRow) (r : JournalRow)
      → Sound master s b []
      → IntentsKept b.orders orders
      → ((id : Text) (i : OrderIntent)
          → intent_at id orders ≡ some i
          → Mastered master i.instrument)
      → replay_row orders b.fills (same_economics b.fills) r s ≡ ok s
      → Sound master s
          (record b { last_at = at; orders = orders; journal = b.journal ++ r ∷ [] })
          []
  quiet_Sound s b at orders r inv kept mastered quiet = record {
    replayed =
        replay_from-++ orders b.fills (same_economics b.fills) b.journal r start s s
          (replay_from_kept b.orders orders b.fills b.fills kept (λ id row e. e) b.journal start s
            inv.replayed)
          quiet;
    cash = inv.cash;
    realized = inv.realized;
    fees = inv.fees;
    positions = inv.positions;
    positive = inv.positive;
    known = inv.known;
    mastered = inv.mastered;
    intents = mastered;
    pending = inv.pending;
  }

  IntentsKept-insert_new :
      (id : Text) (o : OrderRow) (orders : Dict OrderRow)
      → lookup id orders ≡ none
      → IntentsKept orders (insert id o orders)
  IntentsKept-insert_new id o orders is_new j i e =
      ap intent_of (lookup-insert j id o orders) ∙ elim (Bool-cases (id == j)) [
        | inr other ↦ rw other e
        | inl own ↦
            cc (e, is_new, (==_iff id j).0 own, ap intent_of (rw ((==_iff id j).0 own) at is_new))
      ]

  intents_insert :
      (id : Text) (o : OrderRow) (orders : Dict OrderRow)
      → Mastered master o.intent.instrument
      → ((j : Text) (i : OrderIntent) → intent_at j orders ≡ some i → Mastered master i.instrument)
      → (j : Text) (i : OrderIntent) → intent_at j (insert id o orders) ≡ some i
      → Mastered master i.instrument
  intents_insert id o orders m old j i e =
      let e1 = sym (ap intent_of (lookup-insert j id o orders)) ∙ e in
      elim (Bool-cases (id == j)) [
        | inr other ↦ old j i (rw other at e1)
        | inl own ↦
            let here : o.intent ≡ i = cc (rw own at e1) in
            subst (λ (x : OrderIntent). Mastered master x.instrument) here m
      ]

  quiet_order :
      (s : Replay) (b : Book) (i : OrderIntent)
      → s.pending_fees ≡ []
      → (orders : Dict OrderRow)
      → replay_row orders b.fills
          (same_economics b.fills)
          (journal_row (order_key i.intent_id) i.decision_at (Entry.order i) (pos 0))
          s
        ≡ ok s
  unfolding replay_row replay_at
  quiet_order s b i none_due orders = rw none_due refl

  quiet_cancel :
      (s : Replay) (b : Book) (id : Text) (at : Timestamp) (reason : Text) (is_rejection : Bool)
      → s.pending_fees ≡ []
      → (orders : Dict OrderRow)
      → replay_row orders b.fills
          (same_economics b.fills)
          (journal_row (cancel_key id) at (Entry.cancel is_rejection reason) (pos 0))
          s
        ≡ ok s
  unfolding replay_row replay_at
  quiet_cancel s b id at reason is_rejection none_due orders = rw none_due refl

  pub submit_new-Sound :
      (i : OrderIntent) (s : Replay) (b b2 : Book) (row : OrderRow)
      → Sound master s b []
      → Mastered master i.instrument
      → lookup i.intent_id b.orders ≡ none
      → submit_new i b ≡ ok (row, b2)
      → Sound master s b2 []
  submit_new-Sound i s b b2 row inv m is_new h =
      let (reserved, fresh, after, later) = submit_new_lem i b b2 row h in
      rw after (
        quiet_Sound s b i.decision_at (insert i.intent_id row b.orders)
          (journal_row (order_key i.intent_id) i.decision_at (Entry.order i) (pos 0)) inv
          (IntentsKept-insert_new i.intent_id row b.orders is_new)
          (intents_insert i.intent_id row b.orders (rw fresh m) inv.intents)
          (quiet_order s b i inv.pending _))

  pub submit-Sound :
      (i : OrderIntent) (s : Replay) (b b2 : Book) (row : OrderRow)
      → Sound master s b []
      → Mastered master i.instrument
      → submit i b ≡ ok (row, b2)
      → Sound master s b2 []
  unfolding submit
  submit-Sound i s b b2 row inv m h = elim (Option-cases (lookup i.intent_id b.orders)) [
    | inl is_new ↦ submit_new-Sound i s b b2 row inv m is_new (rw (is_new, submit) at h)
    | inr (old, e) ↦
        let same_book : b ≡ b2 = ground (arith, rw (e, submit) at h) in
        subst (λ (x : Book). Sound master s x []) same_book inv
  ]

  pub cancel-Sound :
      (id : Text) (at : Timestamp) (reason : Text) (is_rejection : Bool) (s : Replay) (b b1 : Book)
      → Sound master s b []
      → cancel id at reason is_rejection b ≡ ok b1
      → Sound master s b1 []
  unfolding cancel
  cancel-Sound id at reason is_rejection s b b1 inv h =
      let (o, found, h1) = >>=-eq-ok (get_order id b) _ h in
      elim (Bool-cases (is_open o.status)) [
        | inr closed ↦
            let same_book : b ≡ b1 = ground (arith, rw closed at h1) in
            subst (λ (x : Book). Sound master s x []) same_book inv
        | inl opened ↦
            let (after, later) =
              cancel_open_lem o id at reason is_rejection b b1 (rw opened at h1) in
            let row = get_order_lem id b o found in
            rw after (
              quiet_Sound s b at _ _ inv (IntentsKept-insert id o _ b.orders row refl)
                (λ j i e. inv.intents j i (sym (intent_at-insert j id o _ b.orders row refl) ∙ e))
                (quiet_cancel s b id at reason is_rejection inv.pending _))
      ]

  after_account_fee : AccountFee → Replay → Replay
  after_account_fee fee s = record s {
    cash = plus s.cash (copy_negate fee.amount);
    realized = minus s.realized fee.amount;
    fees = plus s.fees fee.amount;
  }

  replay_row-account_fee :
      (s : Replay) (b : Book) (fee : AccountFee)
      → s.pending_fees ≡ []
      → replay_row b.orders b.fills
          (same_economics b.fills)
          (journal_row
            (account_fee_key fee.fee_id)
            fee.observed_at
            (Entry.account_fee fee)
            (copy_negate fee.amount))
          s
        ≡ ok (after_account_fee fee s)
  unfolding replay_row replay_at replay_account_fee after_account_fee
  replay_row-account_fee s b fee none_due = rw (none_due, eqb_ℤ-refl (copy_negate fee.amount))

  plus_negate : (a c : Decimal) → plus a (copy_negate c) ≡ minus a c
  unfolding plus minus ◌+ℤ◌ ◌-ℤ◌ copy_negate
  plus_negate a c = ap context (omega int_laws)

  account_fee_Sound :
      (fee : AccountFee) (s : Replay) (b : Book)
      → Sound master s b []
      → Sound master
          (after_account_fee fee s)
          (record b {
            last_at = fee.observed_at;
            cash = minus b.cash fee.amount;
            realized = minus b.realized fee.amount;
            fees = plus b.fees fee.amount;
            journal =
                b.journal
                ++ journal_row
                    (account_fee_key fee.fee_id)
                    fee.observed_at
                    (Entry.account_fee fee)
                    (copy_negate fee.amount)
                  ∷ [];
          })
          []
  unfolding after_account_fee
  account_fee_Sound fee s b inv = record {
    replayed =
        replay_from-++ b.orders b.fills (same_economics b.fills) b.journal _ start s
          (after_account_fee fee s) inv.replayed (replay_row-account_fee s b fee inv.pending);
    cash = plus_negate s.cash fee.amount ∙ ap (λ c. minus c fee.amount) inv.cash;
    realized = ap (λ c. minus c fee.amount) inv.realized;
    fees = ap (λ c. plus c fee.amount) inv.fees;
    positions = inv.positions;
    positive = inv.positive;
    known = inv.known;
    mastered = inv.mastered;
    intents = inv.intents;
    pending = inv.pending;
  }

  book_fee-Sound :
      (fee : AccountFee) (s : Replay) (b b1 : Book) (d : Bool)
      → Sound master s b []
      → book_fee fee b ≡ ok (d, b1)
      → (s1 : Replay) × Sound master s1 b1 []
  book_fee-Sound fee s b b1 d inv h =
      let (after, later) = book_fee_lem fee b b1 d h in
      (after_account_fee fee s, rw after (account_fee_Sound fee s b inv))

  pub apply_account_fee-Sound :
      (fee : AccountFee) (s : Replay) (b b1 : Book) (d : Bool)
      → Sound master s b []
      → apply_account_fee fee b ≡ ok (d, b1)
      → (s1 : Replay) × Sound master s1 b1 []
  unfolding apply_account_fee
  apply_account_fee-Sound fee s b b1 d inv h =
      elim (Option-cases (journal_at (account_fee_key fee.fee_id) b.journal)) [
        | inl is_new ↦ book_fee-Sound fee s b b1 d inv (rw (is_new, apply_account_fee) at h)
        | inr (r, e) ↦
            let same_book = retry_fee_lem fee b b1 r d (rw (e, apply_account_fee) at h) in
            (s, subst (λ (x : Book). Sound master s x []) same_book inv)
      ]

  -- Marks, the clock and what else the replay does not read.
  pub marks_Sound :
      (at : Timestamp) (marks : Dict PriceMark) (s : Replay) (b : Book)
      → Sound master s b []
      → Sound master s (record b { last_at = at; marks = marks }) []
  marks_Sound at marks s b inv = record {
    replayed = inv.replayed;
    cash = inv.cash;
    realized = inv.realized;
    fees = inv.fees;
    positions = inv.positions;
    positive = inv.positive;
    known = inv.known;
    mastered = inv.mastered;
    intents = inv.intents;
    pending = inv.pending;
  }

  pub mark_all-Sound :
      (ms : List PriceMark) (s : Replay) (b b1 : Book)
      → Sound master s b []
      → mark_all ms b ≡ ok b1
      → Sound master s b1 []
  unfolding mark_all
  mark_all-Sound [] s b b1 inv h =
      let same_book : b ≡ b1 = ground (arith, h) in
      subst (λ (x : Book). Sound master s x []) same_book inv
  mark_all-Sound (m ∷ ms) s b b1 inv h =
      let (b2, marked, h1) = >>=-eq-ok (mark_one m b) _ h in
      let (after, later) = mark_one_lem m b b2 marked in
      mark_all-Sound ms s b2 b1 (rw after (marks_Sound m.as_of _ s b inv)) h1

  pub mark-Sound :
      (ms : List PriceMark) (s : Replay) (b b1 : Book)
      → Sound master s b []
      → mark ms b ≡ ok b1
      → Sound master s b1 []
  unfolding mark
  mark-Sound ms s b b1 inv h = mark_all-Sound (sort_marks ms) s b b1 inv h

  -- The clock and the received facts, which the replay does not read either.
  pub events_Sound :
      (at : Timestamp) (b1 : Book) (s : Replay) (b : Book)
      → Sound master s b []
      → Sound master s (record b { last_at = at; events = b1.events }) []
  events_Sound at b1 s b inv = record {
    replayed = inv.replayed;
    cash = inv.cash;
    realized = inv.realized;
    fees = inv.fees;
    positions = inv.positions;
    positive = inv.positive;
    known = inv.known;
    mastered = inv.mastered;
    intents = inv.intents;
    pending = inv.pending;
  }
