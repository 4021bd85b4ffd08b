-- ===== src/Ledger/Reconcile/Explained.antt =====
-- The journal of src/execution/ledger.py explains the book: `reconcile` replays it without an error.
use agentic_quant.Prelude.{
  Bool, ◌≡◌, refl, sym, ap, ◌∙◌, some, List, [], ◌∷◌, ◌&&◌, arith, inl, inr, Option-cases, false,
  same, same→eq,
}
use agentic_quant.Prelude.Result.{ok, >>=-kept, >>=-eq-ok, guard-eq-ok}
use agentic_quant.Prelude.Dict.{Dict, lookup}
use agentic_quant.Decimal.{Fits}
use agentic_quant.Domain.Common.{Text, Instrument}
use agentic_quant.Domain.Orders.{AccountSpec}
use agentic_quant.Domain.Fills.{Fill, Fill-discrete, InventoryFee}
use agentic_quant.Ledger.State.{Ledger, OrderRow, FillRow, FeePayload, Entry, JournalRow, Book}
use agentic_quant.Ledger.Orders.{new_account}
use agentic_quant.Ledger.Reconcile.{
  Replay, Position, start, position_at, member, same_economics, verify_payload,
  replay_inventory_fee, replay_at, replay_row, replay_from, Reconciles,
}
use agentic_quant.Ledger.Reconcile.Reach.{Run, Steps, Run-Sound, Sound-Agrees}
use agentic_quant.Ledger.Reconcile.Steps.{Steps-Grows}

-- A fill without debits in kind.
abbrev pub Plain : Fill → Type 0
Plain f = f.inventory_fees ≡ []

abbrev AllPlain : Dict FillRow → Type 0
AllPlain fills = (id : Text) (row : FillRow) → lookup id fills ≡ some row → Plain row.fill

no_member : (fee : InventoryFee) (fees : List InventoryFee) → fees ≡ [] → member fee fees ≡ false
no_member fee [] e = refl
no_member fee (other ∷ rest) e = cc e

-- Where no fill has debits in kind, no payload of one is accepted.
no_payload :
    (fills : Dict FillRow) (p : FeePayload) (q : Position)
    → AllPlain fills
    → ¬ (same_economics fills p q ≡ ok tt)
unfolding same_economics
no_payload fills p q plain h = elim (Option-cases (lookup p.fill.fill_id fills)) [
  | inl e ↦ cc (rw e at h)
  | inr (row, e) ↦
      let (found, h1) =
        guard-eq-ok (same Fill-discrete row.fill p.fill && member p.fee p.fill.inventory_fees) _ _
          (rw e at h) in
      let same_fill = same→eq Fill-discrete row.fill p.fill (ground (arith, found)) in
      let none_there =
        no_member p.fee p.fill.inventory_fees
          (sym (ap Fill.inventory_fees same_fill) ∙ plain p.fill.fill_id row e) in
      ground (arith, found, none_there)
]

module _ (orders : Dict OrderRow) (fills : Dict FillRow)
    (verify : FeePayload → Position → Ledger (Unit {0})) (plain : AllPlain fills) where
  replay_at_plain :
      (e : Entry) (r : JournalRow) (s s' : Replay)
      → replay_at orders fills (same_economics fills) e r s ≡ ok s'
      → replay_at orders fills verify e r s ≡ ok s'
  unfolding replay_at replay_inventory_fee
  replay_at_plain (Entry.inventory_fee p) r s s' h =
      let (u, checked, h1) =
        >>=-eq-ok (same_economics fills p (position_at p.fee.instrument.instrument_id s)) _ h in
      absurd (no_payload fills p (position_at p.fee.instrument.instrument_id s) plain checked)
  replay_at_plain _ r s s' h = h

  -- However the payloads of fees are verified, there are none.
  replay_from_plain :
      (rows : List JournalRow) (s s' : Replay)
      → replay_from orders fills (same_economics fills) rows s ≡ ok s'
      → replay_from orders fills verify rows s ≡ ok s'
  unfolding replay_from replay_row
  replay_from_plain [] s s' h = h
  replay_from_plain (r ∷ rows) s s' h =
      >>=-kept _ _ _ _ (replay_at_plain r.entry r s) (λ s1. replay_from_plain rows s1 s') h

module _ (master : Text → Instrument) where
  Run-from_new :
      (spec : AccountSpec) (b : Book)
      → Run master Plain spec b
      → Steps master Plain (new_account spec) b
  Run-from_new spec b Run.opened = Steps.stay refl
  Run-from_new spec b (Run.next {b = b0} r step) = Steps.more (Run-from_new spec b0 r) step

  Run-Plain : (spec : AccountSpec) (b : Book) → Run master Plain spec b → AllPlain b.fills
  unfolding new_account lookup
  Run-Plain spec b r id row found =
      let grown = Steps-Grows master Plain (new_account spec) b (Run-from_new spec b r) in
      elim (grown.added id row found) [ inl before ↦ cc before | inr fine ↦ fine ]

  -- The journal explains the book: whatever the texts of debits in kind, the replay of `reconcile`
  -- raises nothing and agrees with the book after any run of orders, cancellations, fills without
  -- debits in kind, posted fees, corporate actions, recorded facts and marks on a new account, if
  -- the initial cash has no more digits than a decimal keeps, ids stand for one instrument each, the
  -- filled quantities are positive, and the actions are bookable: a split leaves units, and the
  -- realized profit has no more digits than a decimal keeps where an action meets no position.
  pub Run-Reconciles :
      (spelled_alike : FeePayload → Position → Bool) (spec : AccountSpec) (b : Book)
      → Fits spec.initial_cash
      → Run master Plain spec b
      → Reconciles spelled_alike b
  unfolding Reconciles
  Run-Reconciles spelled_alike spec b fits r =
      let (s, inv) = Run-Sound master Plain spec b fits r in
      (
        s,
        replay_from_plain b.orders b.fills (verify_payload spelled_alike b) (Run-Plain spec b r)
            b.journal start s inv.replayed,
        Sound-Agrees master Plain s b inv,
      )
