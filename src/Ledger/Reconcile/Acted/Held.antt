-- ===== src/Ledger/Reconcile/Acted/Held.antt =====
-- The row of a corporate action of src/execution/ledger.py keeps the invariant of `reconcile`, with
-- and without a position.
use agentic_quant.Prelude.Int.{pos, ◌<ℤ◌}
use agentic_quant.Prelude.{
  ◌≡◌, refl, sym, ap, subst, ◌∙◌, Option, none, some, [], ◌∷◌, ◌++◌, arith, inl, inr, Option-cases,
}
use agentic_quant.Prelude.Result.{ok}
use agentic_quant.Prelude.Dict.{lookup, put, erase}
use agentic_quant.Decimal.{Decimal, plus, minus, times, Fits}
use agentic_quant.Domain.Common.{Text, Instrument}
use agentic_quant.Domain.Bars.{ActionKind, CorporateAction}
use agentic_quant.Ledger.State.{HoldingRow, JournalRow, Book}
use agentic_quant.Ledger.Actions.{pays, split_holding, pay_dividend, pay_delisting, act_on}
use agentic_quant.Ledger.Reconcile.{
  same_economics, Replay, flat, or_flat, position_at, start, replay_row, stored_position, intent_at,
}
use agentic_quant.Ledger.Reconcile.Tables.{replay_from-++}
use agentic_quant.Ledger.Reconcile.Sound.{Sound, held}
use agentic_quant.Ledger.Reconcile.Acted.Rows.{
  action_row, replaced, settled, replay_nothing, settled-flat, replay_row-action, position_of,
  after_dividend, after_delisting, split_row, after_split, replay_dividend, replay_delisting,
  replay_split, split_holding_lem, erased_kept, held-erase, held-put, put_positive, put_known,
}

-- What a run supposes of a corporate action: a split leaves units, and where no position is held
-- the realized profit has no more digits than a decimal keeps, since the replay adds a zero to it.
pub record Bookable (a : CorporateAction) (b : Book) : Type 0 where
  pub units :
      (h : HoldingRow)
      → lookup a.instrument.instrument_id b.holdings ≡ some h
      → a.kind ≡ ActionKind.split
      → pos 0 <ℤ times h.quantity a.value
  pub short : lookup a.instrument.instrument_id b.holdings ≡ none → Fits b.realized

dividend_amount :
    (a : CorporateAction) (h : HoldingRow) (b : Book) → (pay_dividend a h b).0 ≡ pays a h
unfolding pay_dividend
dividend_amount a h b = refl

delisting_amount :
    (a : CorporateAction) (h : HoldingRow) (b : Book) → (pay_delisting a h b).0 ≡ pays a h
unfolding pay_delisting
delisting_amount a h b = refl

module _ (master : Text → Instrument) where
  -- A row that moves nothing but the position of its instrument.
  row_Sound :
      (s s1 : Replay) (b b1 : Book) (r : JournalRow)
      → Sound master s b []
      → b1 ≡ record b {
        last_at = b1.last_at;
        cash = b1.cash;
        realized = b1.realized;
        holdings = b1.holdings;
        marks = b1.marks;
        protections = b1.protections;
      }
      → replay_row b.orders b.fills (same_economics b.fills) r s ≡ ok s1
      → s1 ≡ record s { cash = b1.cash; realized = b1.realized; positions = s1.positions }
      → ((id : Text) → position_at id s1 ≡ held id b1)
      → ((id : Text) (h : HoldingRow) → lookup id b1.holdings ≡ some h → pos 0 <ℤ h.quantity)
      → ((id : Text) (h : HoldingRow)
          → lookup id b1.holdings ≡ some h
          → lookup id s.instruments ≡ some h.definition)
      → Sound master s1 (record b1 { journal = b1.journal ++ r ∷ [] }) []
  row_Sound s s1 b b1 r inv after replayed after_s positions positive known = record {
    replayed =
        rw (ap Book.journal after, ap Book.orders after, ap Book.fills after)
          (replay_from-++ b.orders b.fills (same_economics b.fills) b.journal r start s s1
            inv.replayed replayed);
    cash = ap Replay.cash after_s;
    realized = ap Replay.realized after_s;
    fees = ap Replay.fees after_s ∙ inv.fees ∙ sym (ap Book.fees after);
    positions = positions;
    positive = positive;
    known = λ id h e. ap (λ (x : Replay). lookup id x.instruments) after_s ∙ known id h e;
    mastered = λ id i e.
        inv.mastered id i (sym (ap (λ (x : Replay). lookup id x.instruments) after_s) ∙ e);
    intents = λ id i e. inv.intents id i (ap (λ (x : Book). intent_at id x.orders) (sym after) ∙ e);
    pending = ap Replay.pending_fees after_s ∙ inv.pending;
  }

  nothing_Sound :
      (kind : ActionKind) (a : CorporateAction) (s : Replay) (b : Book)
      → a.kind ≡ kind
      → Sound master s b []
      → lookup a.instrument.instrument_id b.holdings ≡ none
      → Fits b.realized
      → (s1 : Replay) × Sound master s1
          (record b { journal = b.journal ++ action_row a (pos 0) ∷ [] })
          []
  nothing_Sound kind a s b k inv none_held fits =
      let id = a.instrument.instrument_id in
      let here : held id b ≡ flat = rw none_held refl in
      let replayed = replay_nothing kind a s k (inv.positions id ∙ here) (rw inv.realized fits) in
      (
        record s { positions = settled kind id s.positions },
        row_Sound s (record s { positions = settled kind id s.positions }) b b
            (action_row a (pos 0)) inv refl
            (replay_row-action b.orders b.fills a (pos 0) s inv.pending ∙ replayed)
            (λ i. record s {
              cash = inv.cash i;
              realized = inv.realized i;
              positions = settled kind id s.positions;
            })
            (settled-flat kind id s.positions (λ j. held j b) inv.positions here) inv.positive
            inv.known,
      )

  dividend_Sound :
      (a : CorporateAction) (h : HoldingRow) (s : Replay) (b : Book)
      → a.kind ≡ ActionKind.dividend
      → Sound master s b []
      → lookup a.instrument.instrument_id b.holdings ≡ some h
      → Sound master
          (after_dividend a h s)
          (record (pay_dividend a h b).1 {
            journal = (pay_dividend a h b).1.journal ++ action_row a (pays a h) ∷ [];
          })
          []
  unfolding after_dividend pay_dividend
  dividend_Sound a h s b k inv found =
      let id = a.instrument.instrument_id in
      let here : held id b ≡ position_of h = rw found refl in
      row_Sound s (after_dividend a h s) b (pay_dividend a h b).1 (action_row a (pays a h)) inv refl
        (replay_row-action b.orders b.fills a (pays a h) s inv.pending
          ∙ replay_dividend a h s (inv.positions id ∙ here) k (inv.positive id h found))
        (λ i. record s {
          cash = plus (inv.cash i) (pays a h);
          realized = plus (inv.realized i) (pays a h);
        })
        inv.positions inv.positive inv.known

  delisting_Sound :
      (a : CorporateAction) (h : HoldingRow) (s : Replay) (b : Book)
      → a.kind ≡ ActionKind.delist
      → Sound master s b []
      → lookup a.instrument.instrument_id b.holdings ≡ some h
      → Sound master
          (after_delisting a h s)
          (record (pay_delisting a h b).1 {
            journal = (pay_delisting a h b).1.journal ++ action_row a (pays a h) ∷ [];
          })
          []
  unfolding after_delisting pay_delisting
  delisting_Sound a h s b k inv found =
      let id = a.instrument.instrument_id in
      let here : held id b ≡ position_of h = rw found refl in
      let kept : (j : Text) (g : HoldingRow)
          → lookup j (erase id b.holdings) ≡ some g
          → lookup j b.holdings ≡ some g =
        λ j g e. erased_kept id j g b.holdings e in
      row_Sound s (after_delisting a h s) b (pay_delisting a h b).1 (action_row a (pays a h)) inv
        refl
        (replay_row-action b.orders b.fills a (pays a h) s inv.pending
          ∙ replay_delisting a h s (inv.positions id ∙ here) k (inv.positive id h found))
        (λ i. record s {
          cash = plus (inv.cash i) (pays a h);
          realized = plus (inv.realized i) (minus (pays a h) h.basis);
          positions = put id flat s.positions;
        })
        (λ j.
          replaced id flat s.positions (λ j. held j b) inv.positions j
          ∙ sym (held-erase id j b.holdings))
        (λ j g e. inv.positive j g (kept j g e)) (λ j g e. inv.known j g (kept j g e))

  split_Sound :
      (a : CorporateAction) (h : HoldingRow) (s : Replay) (b b1 : Book) (delta : Decimal)
      → a.kind ≡ ActionKind.split
      → Sound master s b []
      → lookup a.instrument.instrument_id b.holdings ≡ some h
      → pos 0 <ℤ times h.quantity a.value
      → split_holding a h b ≡ ok (delta, b1)
      → Sound master
          (after_split a h s)
          (record b1 { journal = b1.journal ++ action_row a delta ∷ [] })
          []
  unfolding after_split
  split_Sound a h s b b1 delta k inv found units returned =
      let id = a.instrument.instrument_id in
      let here : held id b ≡ position_of h = rw found refl in
      let (none_moved, after) = split_holding_lem a h b b1 delta returned in
      let at_put : (j : Text)
          → lookup j b1.holdings ≡ lookup j (put id (split_row a h) b.holdings) =
        λ j. ap (λ (x : Book). lookup j x.holdings) after in
      row_Sound s (after_split a h s) b b1 (action_row a delta) inv
        (after ∙ λ i. record b {
          last_at = b1.last_at;
          cash = sym (ap Book.cash after) i;
          realized = sym (ap Book.realized after) i;
          marks = b1.marks;
          holdings = sym (ap Book.holdings after) i;
          protections = b1.protections;
        })
        (rw none_moved (
          replay_row-action b.orders b.fills a (pos 0) s inv.pending
          ∙ replay_split a h s (inv.positions id ∙ here) k))
        (λ i. record s {
          cash = (inv.cash ∙ sym (ap Book.cash after)) i;
          realized = (inv.realized ∙ sym (ap Book.realized after)) i;
          positions = put id (position_of (split_row a h)) s.positions;
        })
        (λ j.
          replaced id (position_of (split_row a h)) s.positions (λ j. held j b) inv.positions j
          ∙ sym (held-put id j (split_row a h) b.holdings)
          ∙ sym (ap (λ (x : Option HoldingRow). or_flat (stored_position x)) (at_put j)))
        (λ j g e.
          put_positive id j (split_row a h) g b.holdings units inv.positive (sym (at_put j) ∙ e))
        (λ j g e.
          put_known id j h (split_row a h) g s.instruments b.holdings found refl inv.known
            (sym (at_put j) ∙ e))

  acted_as :
      (s : Replay) (a : CorporateAction) (b b1 : Book) (moved delta : Decimal)
      → delta ≡ moved
      → b ≡ b1
      → Sound master s (record b { journal = b.journal ++ action_row a moved ∷ [] }) []
      → Sound master s (record b1 { journal = b1.journal ++ action_row a delta ∷ [] }) []
  acted_as s a b b1 moved delta e same_book inv =
      subst
        (λ (x : Book).
          Sound master s (record x { journal = x.journal ++ action_row a delta ∷ [] }) [])
        same_book
        (subst
          (λ (d : Decimal).
            Sound master s (record b { journal = b.journal ++ action_row a d ∷ [] }) [])
          (sym e) inv)

  held_Sound :
      (kind : ActionKind) (a : CorporateAction) (g : HoldingRow) (s : Replay) (b b1 : Book)
      (delta : Decimal)
      → a.kind ≡ kind
      → Sound master s b []
      → lookup a.instrument.instrument_id b.holdings ≡ some g
      → (a.kind ≡ ActionKind.split → pos 0 <ℤ times g.quantity a.value)
      → act_on a (some g) b ≡ ok (delta, b1)
      → (s1 : Replay) × Sound master s1
          (record b1 { journal = b1.journal ++ action_row a delta ∷ [] })
          []
  unfolding act_on
  held_Sound ActionKind.split a g s b b1 delta k inv found units h =
      (after_split a g s, split_Sound a g s b b1 delta k inv found (units k) (rw (k, act_on) at h))
  held_Sound ActionKind.dividend a g s b b1 delta k inv found units h =
      let e : pay_dividend a g b ≡ (delta, b1) = ground (arith, rw (k, act_on) at h) in
      (
        after_dividend a g s,
        acted_as (after_dividend a g s) a (pay_dividend a g b).1 b1 (pays a g) delta
            (sym (ap (λ (x : Decimal × Book). x.0) e) ∙ dividend_amount a g b)
            (ap (λ (x : Decimal × Book). x.1) e) (dividend_Sound a g s b k inv found),
      )
  held_Sound ActionKind.delist a g s b b1 delta k inv found units h =
      let e : pay_delisting a g b ≡ (delta, b1) = ground (arith, rw (k, act_on) at h) in
      (
        after_delisting a g s,
        acted_as (after_delisting a g s) a (pay_delisting a g b).1 b1 (pays a g) delta
            (sym (ap (λ (x : Decimal × Book). x.0) e) ∙ delisting_amount a g b)
            (ap (λ (x : Decimal × Book). x.1) e) (delisting_Sound a g s b k inv found),
      )

  pub act_on-Sound :
      (kind : ActionKind) (a : CorporateAction) (s : Replay) (b b1 : Book) (delta : Decimal)
      → a.kind ≡ kind
      → Sound master s b []
      → Bookable a b
      → act_on a (lookup a.instrument.instrument_id b.holdings) b ≡ ok (delta, b1)
      → (s1 : Replay) × Sound master s1
          (record b1 { journal = b1.journal ++ action_row a delta ∷ [] })
          []
  unfolding act_on pay_dividend
  act_on-Sound kind a s b b1 delta k inv fine h =
      elim (Option-cases (lookup a.instrument.instrument_id b.holdings)) [
        | inl none_held ↦
            let same_book : (delta ≡ pos 0) × (b ≡ b1) =
              ground (arith, rw (none_held, act_on) at h) in
            let (s1, inv1) = nothing_Sound kind a s b k inv none_held (fine.short none_held) in
            (s1, acted_as s1 a b b1 (pos 0) delta same_book.0 same_book.1 inv1)
        | inr (g, found) ↦
            held_Sound kind a g s b b1 delta k inv found (fine.units g found)
              (rw (found, act_on) at h)
      ]
