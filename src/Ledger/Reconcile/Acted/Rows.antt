-- ===== src/Ledger/Reconcile/Acted/Rows.antt =====
-- What `reconcile` of src/execution/ledger.py does with the row of a corporate action, and what the
-- action does to the holdings.
use agentic_quant.Prelude.Int.{pos, ◌<ℤ◌, ◌+ℤ◌, int_laws}
use agentic_quant.Prelude.{
  false, ◌≡◌, refl, sym, ap, ◌∙◌, some, [], arith, inl, inr, ◌==◌, ==_iff, Bool-cases,
  if◌then◌else◌,
}
use agentic_quant.Prelude.Result.{ok, ◌>>◌}
use agentic_quant.Prelude.Dict.{Dict, lookup, put, erase, lookup-put, lookup-erase}
use agentic_quant.Decimal.{Decimal, plus, minus, times, context, Fits}
use agentic_quant.Decimal.Bounds.{zero_times, zero_Fits, sub_self}
use agentic_quant.Domain.Common.{Text, Instrument}
use agentic_quant.Domain.Bars.{ActionKind, CorporateAction}
use agentic_quant.Ledger.State.{
  Ledger, OrderRow, HoldingRow, FillRow, Entry, JournalRow, journal_row, action_key, Book, clock,
}
use agentic_quant.Ledger.Orders.{mark, mark_all, mark_one, sort_marks, insert_mark}
use agentic_quant.Ledger.Actions.{pays, split_holding}
use agentic_quant.Ledger.Fills.{is_zero}
use agentic_quant.Ledger.Reconcile.{
  same_economics, Replay, Position, flat, or_flat, position_at, replay_at, replay_row,
  replay_action, action_receipt, stored_position, none_pending,
}

-- The row that the action writes.
abbrev pub action_row : CorporateAction → Decimal → JournalRow
action_row a delta = journal_row (action_key a.action_id) a.effective_at (Entry.action a) delta

-- A holding of no units is worth nothing.
nothing_plus : (a : Decimal) → Fits a → plus a (pos 0) ≡ a
unfolding plus
nothing_plus a fits = ap context (let e : a +ℤ pos 0 ≡ a = omega int_laws in e) ∙ fits

nothing_less : minus (pos 0) (pos 0) ≡ pos 0
unfolding minus
nothing_less = ap context (sub_self (pos 0)) ∙ zero_Fits

positive_test : (a : Decimal) → pos 0 <ℤ a → is_zero a ≡ false
positive_test a h = ground arith

-- A position that is replaced, and the others as they were.
pub replaced :
    (id : Text) (p : Position) (ps : Dict Position) (f : Text → Position)
    → ((j : Text) → or_flat (lookup j ps) ≡ f j)
    → (j : Text) → or_flat (lookup j (put id p ps)) ≡ (if id == j then p else f j)
replaced id p ps f old j = elim (Bool-cases (id == j)) [
  | inl own ↦ ap or_flat (lookup-put j id p ps) ∙ rw own
  | inr other ↦ ap or_flat (lookup-put j id p ps) ∙ rw other (old j)
]

same_at :
    (id : Text) (f : Text → Position)
    → f id ≡ flat
    → (j : Text) → (if id == j then flat else f j) ≡ f j
same_at id f e j = elim (Bool-cases (id == j)) [
  | inl own ↦ rw own (sym e ∙ ap f ((==_iff id j).0 own))
  | inr other ↦ rw other
]

-- The positions after an action on an instrument that is not held.
unfoldable pub settled : ActionKind → Text → Dict Position → Dict Position
settled ActionKind.dividend id ps = ps
settled _ id ps = put id flat ps

pub replay_nothing :
    (kind : ActionKind) (a : CorporateAction) (s : Replay)
    → a.kind ≡ kind
    → position_at a.instrument.instrument_id s ≡ flat
    → Fits s.realized
    → replay_action a (action_row a (pos 0)) s
      ≡ ok (record s { positions = settled kind a.instrument.instrument_id s.positions })
unfolding replay_action settled action_receipt
replay_nothing ActionKind.split a s k e fits = rw (k, e, zero_times a.value) refl
replay_nothing ActionKind.dividend a s k e fits =
    rw (k, e, zero_times a.value, nothing_plus s.realized fits) refl
replay_nothing ActionKind.delist a s k e fits =
    rw (k, e, zero_times a.value, nothing_less, nothing_plus s.realized fits) refl

pub settled-flat :
    (kind : ActionKind) (id : Text) (ps : Dict Position) (f : Text → Position)
    → ((j : Text) → or_flat (lookup j ps) ≡ f j)
    → f id ≡ flat
    → (j : Text) → or_flat (lookup j (settled kind id ps)) ≡ f j
unfolding settled
settled-flat ActionKind.dividend id ps f old e j = old j
settled-flat ActionKind.split id ps f old e j = replaced id flat ps f old j ∙ same_at id f e j
settled-flat ActionKind.delist id ps f old e j = replaced id flat ps f old j ∙ same_at id f e j

covered : (s : Replay) → s.pending_fees ≡ [] → none_pending s ≡ ok tt
covered s e = rw e refl

pub replay_row-action :
    (orders : Dict OrderRow) (fills : Dict FillRow) (a : CorporateAction) (delta : Decimal)
    (s : Replay)
    → s.pending_fees ≡ []
    → replay_row orders fills (same_economics fills) (action_row a delta) s
      ≡ replay_action a (action_row a delta) s
unfolding replay_row replay_at
replay_row-action orders fills a delta s e =
    ap (λ (x : Ledger (Unit {0})). x >> replay_action a (action_row a delta) s) (covered s e)

abbrev pub position_of : HoldingRow → Position
position_of h = record { quantity = h.quantity; basis = h.basis }

unfoldable pub after_dividend : CorporateAction → HoldingRow → Replay → Replay
after_dividend a h s = record s {
  cash = plus s.cash (pays a h);
  realized = plus s.realized (pays a h);
}

unfoldable pub after_delisting : CorporateAction → HoldingRow → Replay → Replay
after_delisting a h s = record s {
  cash = plus s.cash (pays a h);
  realized = plus s.realized (minus (pays a h) h.basis);
  positions = put a.instrument.instrument_id flat s.positions;
}

abbrev pub split_row : CorporateAction → HoldingRow → HoldingRow
split_row a h = record h { quantity = times h.quantity a.value }

unfoldable pub after_split : CorporateAction → HoldingRow → Replay → Replay
after_split a h s = record s {
  positions = put a.instrument.instrument_id (position_of (split_row a h)) s.positions;
}

module _ (a : CorporateAction) (h : HoldingRow) (s : Replay)
    (e : position_at a.instrument.instrument_id s ≡ position_of h) where
  pub replay_dividend :
      a.kind ≡ ActionKind.dividend
      → pos 0 <ℤ h.quantity
      → replay_action a (action_row a (pays a h)) s ≡ ok (after_dividend a h s)
  unfolding replay_action action_receipt after_dividend
  replay_dividend k p = rw (k, e, positive_test h.quantity p) refl

  pub replay_delisting :
      a.kind ≡ ActionKind.delist
      → pos 0 <ℤ h.quantity
      → replay_action a (action_row a (pays a h)) s ≡ ok (after_delisting a h s)
  unfolding replay_action action_receipt after_delisting
  replay_delisting k p = rw (k, e, positive_test h.quantity p) refl

  pub replay_split :
      a.kind ≡ ActionKind.split → replay_action a (action_row a (pos 0)) s ≡ ok (after_split a h s)
  unfolding replay_action after_split
  replay_split k = rw (k, e) refl

pub split_holding_lem :
    (a : CorporateAction) (h : HoldingRow) (b b1 : Book) (delta : Decimal)
    → split_holding a h b ≡ ok (delta, b1)
    → (delta ≡ pos 0)
      × (b1 ≡ record b {
        last_at = b1.last_at;
        marks = b1.marks;
        holdings = put a.instrument.instrument_id (split_row a h) b.holdings;
        protections = b1.protections;
      })
unfolding split_holding mark mark_all mark_one clock sort_marks insert_mark
split_holding_lem a h b b1 delta e = ground arith

pub erased_kept :
    (id j : Text) (g : HoldingRow) (rows : Dict HoldingRow)
    → lookup j (erase id rows) ≡ some g
    → lookup j rows ≡ some g
erased_kept id j g rows e = ground (arith, lookup-erase j id rows, e)

pub held-erase :
    (id j : Text) (rows : Dict HoldingRow)
    → or_flat (stored_position (lookup j (erase id rows)))
      ≡ (if id == j then flat else or_flat (stored_position (lookup j rows)))
held-erase id j rows = elim (Bool-cases (id == j)) [
  | inl own ↦ rw (lookup-erase j id rows) (rw own refl)
  | inr other ↦ rw (lookup-erase j id rows) (rw other refl)
]

pub held-put :
    (id j : Text) (h : HoldingRow) (rows : Dict HoldingRow)
    → or_flat (stored_position (lookup j (put id h rows)))
      ≡ (if id == j then position_of h else or_flat (stored_position (lookup j rows)))
held-put id j h rows = elim (Bool-cases (id == j)) [
  | inl own ↦ rw (lookup-put j id h rows) (rw own refl)
  | inr other ↦ rw (lookup-put j id h rows) (rw other refl)
]

pub put_positive :
    (id j : Text) (h g : HoldingRow) (rows : Dict HoldingRow)
    → pos 0 <ℤ h.quantity
    → ((j : Text) (g : HoldingRow) → lookup j rows ≡ some g → pos 0 <ℤ g.quantity)
    → lookup j (put id h rows) ≡ some g
    → pos 0 <ℤ g.quantity
put_positive id j h g rows p old e =
    let e' = sym (lookup-put j id h rows) ∙ e in
    elim (Bool-cases (id == j)) [
      | inl own ↦ ground (arith, rw own at e')
      | inr other ↦ old j g (rw other at e')
    ]

-- A holding that is replaced by one of the same instrument.
pub put_known :
    (id j : Text) (old h g : HoldingRow) (known : Dict Instrument) (rows : Dict HoldingRow)
    → lookup id rows ≡ some old
    → h.definition ≡ old.definition
    → ((j : Text) (g : HoldingRow) → lookup j rows ≡ some g → lookup j known ≡ some g.definition)
    → lookup j (put id h rows) ≡ some g
    → lookup j known ≡ some g.definition
put_known id j old h g known rows found same_one k e =
    let e' = sym (lookup-put j id h rows) ∙ e in
    elim (Bool-cases (id == j)) [
      | inr other ↦ k j g (rw other at e')
      | inl own ↦
          let here : h ≡ g = cc (rw own at e') in
          ap (λ (x : Text). lookup x known) (sym ((==_iff id j).0 own))
          ∙ k id old found
          ∙ ap some (sym same_one ∙ ap HoldingRow.definition here)
    ]
