-- ===== src/Ledger/Reconcile/Tables.antt =====
-- What src/execution/ledger.py's `reconcile` reads beside the journal: as long as intents and fills
-- stay, rows that have been replayed are replayed to the same result.
use agentic_quant.Prelude.{◌≡◌, some, List, [], ◌∷◌, ◌++◌, arith, inl, inr, Option-cases}
use agentic_quant.Prelude.Result.{ok, >>=-kept, Result-cases}
use agentic_quant.Prelude.Dict.{Dict, lookup}
use agentic_quant.Domain.Common.{Text}
use agentic_quant.Domain.Orders.{OrderIntent}
use agentic_quant.Domain.Fills.{Fill}
use agentic_quant.Ledger.State.{Ledger, OrderRow, FillRow, FeePayload, Entry, JournalRow}
use agentic_quant.Ledger.Fills.{Trade}
use agentic_quant.Ledger.Reconcile.{
  Replay, Position, position_at, replayed_trade, intent_at, check_stored, replay_trade, replay_fill,
  same_economics, replay_inventory_fee, replay_at, replay_row, replay_from,
}

ok-injective : {s t : Replay} → ◌≡◌ {A = Ledger Replay} (ok s) (ok t) → s ≡ t
ok-injective h = cc

abbrev pub IntentsKept : Dict OrderRow → Dict OrderRow → Type 0
IntentsKept orders orders' =
    (id : Text) (i : OrderIntent) → intent_at id orders ≡ some i → intent_at id orders' ≡ some i

abbrev pub FillsKept : Dict FillRow → Dict FillRow → Type 0
FillsKept fills fills' =
    (id : Text) (row : FillRow) → lookup id fills ≡ some row → lookup id fills' ≡ some row

module _ (orders orders' : Dict OrderRow) (fills fills' : Dict FillRow)
    (ko : IntentsKept orders orders') (kf : FillsKept fills fills') where
  check_stored_kept :
      (f : Fill) (r : JournalRow) (t : Trade)
      → check_stored orders fills f r t ≡ ok tt
      → check_stored orders' fills' f r t ≡ ok tt
  unfolding check_stored
  check_stored_kept f r t h = elim (Option-cases (lookup f.fill_id fills)) [
    | inl e ↦ ground arith
    | inr (row, e) ↦ rw (kf f.fill_id row e, check_stored) (rw (e, check_stored) at h)
  ]

  same_economics_kept :
      (p : FeePayload) (q : Position)
      → same_economics fills p q ≡ ok tt
      → same_economics fills' p q ≡ ok tt
  unfolding same_economics
  same_economics_kept p q h = elim (Option-cases (lookup p.fill.fill_id fills)) [
    | inl e ↦ ground arith
    | inr (row, e) ↦ rw (kf p.fill.fill_id row e) (rw e at h)
  ]

  replay_trade_kept :
      (i : OrderIntent) (f : Fill) (r : JournalRow) (s s' : Replay)
      → replay_trade orders fills i f r s ≡ ok s'
      → replay_trade orders' fills' i f r s ≡ ok s'
  unfolding replay_trade
  replay_trade_kept i f r s s' h =
      elim (Result-cases (check_stored orders fills f r (replayed_trade i f s))) [
        | inl (e, failed) ↦ ground (arith, failed)
        | inr (u, stored) ↦
            rw (check_stored_kept f r (replayed_trade i f s) stored) (rw stored at h)
      ]

  replay_fill_kept :
      (f : Fill) (r : JournalRow) (s s' : Replay)
      → replay_fill orders fills f r s ≡ ok s'
      → replay_fill orders' fills' f r s ≡ ok s'
  unfolding replay_fill
  replay_fill_kept f r s s' h = elim (Option-cases (intent_at f.intent_id orders)) [
    | inl e ↦ cc (rw e at h)
    | inr (i, e) ↦ rw (ko f.intent_id i e) (replay_trade_kept i f r s s' (rw e at h))
  ]

  replay_inventory_fee_kept :
      (p : FeePayload) (r : JournalRow) (s s' : Replay)
      → replay_inventory_fee orders fills (same_economics fills) p r s ≡ ok s'
      → replay_inventory_fee orders' fills' (same_economics fills') p r s ≡ ok s'
  unfolding replay_inventory_fee
  replay_inventory_fee_kept p r s s' h =
      let q = position_at p.fee.instrument.instrument_id s in
      elim (Result-cases (same_economics fills p q)) [
        | inl (e, failed) ↦ ground (arith, failed)
        | inr (u, verified) ↦ rw (same_economics_kept p q verified) (rw verified at h)
      ]

  replay_at_kept :
      (e : Entry) (r : JournalRow) (s s' : Replay)
      → replay_at orders fills (same_economics fills) e r s ≡ ok s'
      → replay_at orders' fills' (same_economics fills') e r s ≡ ok s'
  unfolding replay_at
  replay_at_kept (Entry.fill f) r s s' h =
      >>=-kept _ _ _ _ (λ u g. g) (λ u. replay_fill_kept f r s s') h
  replay_at_kept (Entry.inventory_fee p) r s s' h = replay_inventory_fee_kept p r s s' h
  replay_at_kept _ r s s' h = h

  pub replay_from_kept :
      (rows : List JournalRow) (s s' : Replay)
      → replay_from orders fills (same_economics fills) rows s ≡ ok s'
      → replay_from orders' fills' (same_economics fills') rows s ≡ ok s'
  unfolding replay_from replay_row
  replay_from_kept [] s s' h = h
  replay_from_kept (r ∷ rows) s s' h =
      >>=-kept _ _ _ _ (replay_at_kept r.entry r s) (λ s1. replay_from_kept rows s1 s') h

module _ (orders : Dict OrderRow) (fills : Dict FillRow)
    (verify : FeePayload → Position → Ledger (Unit {0})) where
  -- One more row is one more step.
  pub replay_from-++ :
      (rows : List JournalRow) (r : JournalRow) (s s1 s2 : Replay)
      → replay_from orders fills verify rows s ≡ ok s1
      → replay_row orders fills verify r s1 ≡ ok s2
      → replay_from orders fills verify (rows ++ r ∷ []) s ≡ ok s2
  unfolding replay_from
  replay_from-++ [] r s s1 s2 h k = rw (ok-injective h, k)
  replay_from-++ (q ∷ rows) r s s1 s2 h k =
      elim (Result-cases (replay_row orders fills verify q s)) [
        | inl (e, failed) ↦ cc (rw failed at h)
        | inr (s3, done) ↦ rw done (replay_from-++ rows r s3 s1 s2 (rw done at h) k)
      ]
