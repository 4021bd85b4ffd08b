-- ===== src/Ledger/Reconcile/Fees.antt =====
-- The debits in kind that src/execution/inventory_fees.py's `apply` books after a fill keep the
-- invariant of `reconcile`.
use agentic_quant.Prelude.Int.{pos, pos_part, neg_part, ◌≤ℤ◌, eqb_ℤ-refl, ltb_ℤ, leb_ℤ, int_laws}
use agentic_quant.Prelude.{
  Bool, true, false, ◌≡◌, refl, sym, ap, subst, ◌∙◌, ◌||◌, some, List, [], ◌∷◌, ◌++◌, arith, inl,
  inr, ◌==◌, ==-refl, ==_iff, if◌then◌else◌, same_refl, Bool-cases,
}
use agentic_quant.Prelude.Result.{ok, >>=-eq-ok, raise_if-eq-ok}
use agentic_quant.Prelude.Dict.{lookup, lookup-put}
use agentic_quant.Decimal.{Decimal, copy_negate, exact_decimal_sum}
use agentic_quant.Decimal.Bounds.{exact_difference}
use agentic_quant.Domain.Common.{Text, Timestamp, Instrument, Instrument-discrete}
use agentic_quant.Domain.Fills.{
  Fill, Fill-discrete, InventoryFee, InventoryFee-discrete, base_value,
}
use agentic_quant.Ledger.State.{HoldingRow, FillRow, FeePayload, Key, Key-discrete, fee_key, Book}
use agentic_quant.Ledger.Fills.{
  is_zero, removed_basis, fee_basis, write_holding, write_fee, quantity_left, apply_fee, apply_fees,
}
use agentic_quant.Ledger.Fills.Debits.{payload, fee_row, Paid, apply_fee-Paid}
use agentic_quant.Ledger.Reconcile.{
  Replay, Position, or_flat, stored_position, position_at, start, rest_of, announced, member,
  after_fee, same_economics, replay_inventory_fee, replay_at, replay_row,
}
use agentic_quant.Ledger.Reconcile.Tables.{replay_from-++}
use agentic_quant.Ledger.Reconcile.Sound.{
  held, Sound, lookup-write_holding, held-write_holding, write_holding_positive,
}

removed_whole : (q basis : Decimal) → removed_basis q q basis ≡ basis
unfolding removed_basis
removed_whole q basis = rw eqb_ℤ-refl

not_short : (q fee : Decimal) (c : Bool) → (ltb_ℤ q fee || c) ≡ false → fee ≤ℤ q
not_short q fee c h = ground arith

-- What a debit leaves, and that it takes the whole basis with the whole quantity.
fee_signs :
    (fee : InventoryFee) (h : HoldingRow) (removed : Decimal)
    → fee_basis fee h.quantity h.basis ≡ ok removed
    → (quantity_left fee h ≡ pos 0 → exact_decimal_sum (h.basis ∷ copy_negate removed ∷ []) ≡ pos 0)
      × (pos 0 ≤ℤ quantity_left fee h)
unfolding fee_basis
fee_signs fee h removed e =
    let (covered, e1) =
      raise_if-eq-ok (ltb_ℤ h.quantity fee.quantity || leb_ℤ h.quantity (pos 0)) _ _ e in
    (
      λ all_gone.
          let d = sym (exact_difference h.quantity fee.quantity) ∙ all_gone in
          let all_taken : fee.quantity ≡ h.quantity =
            omega (int_laws, ap pos_part d, ap neg_part d) in
          let whole : h.basis ≡ removed =
            cc (rw all_taken at e1, removed_whole h.quantity h.basis) in
          rw (← whole, exact_difference h.basis h.basis) (omega int_laws),
      rw (exact_difference h.quantity fee.quantity)
          (omega (int_laws, not_short h.quantity fee.quantity _ covered)),
    )

write_fee_lem :
    (f : Fill) (fee : InventoryFee) (left basis removed : Decimal) (b : Book)
    → ((write_fee f fee left basis removed b).journal ≡ b.journal)
      × ((write_fee f fee left basis removed b).orders ≡ b.orders)
      × ((write_fee f fee left basis removed b).fills ≡ b.fills)
unfolding write_fee write_holding
write_fee_lem f fee left basis removed b = (refl, refl, refl)

module _ (master : Text → Instrument) (f : Fill) (fee : InventoryFee) (s : Replay) (b b1 : Book)
    (due : List Key) (inv : Sound master s b (fee_key f.fill_id fee.instrument.instrument_id ∷ due))
    (paid : Paid f fee b b1) (stored : FillRow) (found : lookup f.fill_id b.fills ≡ some stored)
    (is_source : stored.fill ≡ f) (announced_fee : member fee f.inventory_fees ≡ true) where
  open paid use {row, removed}

  p : FeePayload
  p = payload f fee removed

  reached : Replay
  reached = after_fee p s

  position_here :
      position_at fee.instrument.instrument_id s
      ≡ record { quantity = row.quantity; basis = row.basis }
  position_here =
      inv.positions fee.instrument.instrument_id ∙ ap (λ o. or_flat (stored_position o)) paid.found

  verified : same_economics b.fills p (position_at fee.instrument.instrument_id s) ≡ ok tt
  unfolding same_economics p
  verified = rw (
    position_here,
    found,
    is_source,
    same_refl Fill-discrete f,
    announced_fee,
    paid.basis,
    eqb_ℤ-refl removed,
  )

  replayed_fee :
      replay_row b.orders b.fills (same_economics b.fills) (fee_row f fee removed) s ≡ ok reached
  unfolding replay_row replay_at replay_inventory_fee reached p
  replayed_fee =
      rw (verified, inv.known fee.instrument.instrument_id row paid.found, paid.same_asset)
        (rw (same_refl Instrument-discrete fee.instrument) (
          rw inv.pending (
            rw (
              same_refl Key-discrete (fee_key f.fill_id fee.instrument.instrument_id),
              ==-refl f.executed_at,
            ))))

  written : Book
  unfolding write_fee write_holding
  written = record (write_fee f fee (quantity_left fee row) row.basis removed b) {
    journal = b.journal ++ fee_row f fee removed ∷ [];
  }

  basis_left : Decimal
  basis_left = exact_decimal_sum (row.basis ∷ copy_negate removed ∷ [])

  abbrev position_left : Position
  position_left = record { quantity = quantity_left fee row; basis = basis_left }

  position_written :
      (j : Text) (t : Bool) (q : Position)
      → or_flat (if t then some q else lookup j s.positions) ≡ (if t then q else held j b)
  position_written j true q = refl
  position_written j false q = inv.positions j

  positions_reached : (j : Text) → position_at j reached ≡ held j written
  unfolding reached written p write_fee write_holding basis_left
  positions_reached j =
      let i = fee.instrument in
      ap or_flat (lookup-put j i.instrument_id _ s.positions)
      ∙ position_written j (i.instrument_id == j) _
      ∙ rw position_here (
          sym (
            held-write_holding j i (quantity_left fee row) basis_left b
              (fee_signs fee row removed paid.basis).0))

  known_reached :
      (j : Text) (h : HoldingRow)
      → lookup j written.holdings ≡ some h
      → lookup j reached.instruments ≡ some h.definition
  unfolding reached written p write_fee write_holding basis_left
  known_reached j h e =
      let i = fee.instrument in
      let e1 = sym (lookup-write_holding j i (quantity_left fee row) basis_left b) ∙ e in
      elim (Bool-cases (i.instrument_id == j)) [
        | inr other ↦ inv.known j h (rw other at e1)
        | inl mine ↦ elim (Bool-cases (is_zero (quantity_left fee row))) [
          | inl flat_now ↦ cc (rw (mine, flat_now) at e1)
          | inr kept ↦
              let here = inv.known i.instrument_id row paid.found in
              let e2 = rw (mine, kept) at e1 in
              cc (here, e2, paid.same_asset, (==_iff i.instrument_id j).0 mine)
        ]
      ]

  paid_Sound : Sound master reached written due
  unfolding reached written p write_fee write_holding
  paid_Sound = record {
    replayed =
        replay_from-++ b.orders b.fills (same_economics b.fills) b.journal (fee_row f fee removed)
          start s reached inv.replayed replayed_fee;
    cash = inv.cash;
    realized = ap (λ c. exact_decimal_sum (c ∷ copy_negate removed ∷ [])) inv.realized;
    fees = ap (λ c. exact_decimal_sum (c ∷ base_value fee ∷ [])) inv.fees;
    positions = positions_reached;
    positive = λ j h e.
        write_holding_positive j fee.instrument _ _ b h (fee_signs fee row removed paid.basis).1
          (inv.positive j) e;
    known = known_reached;
    mastered = inv.mastered;
    intents = inv.intents;
    pending = ap rest_of inv.pending;
  }

  pub apply_fee-Sound : (s1 : Replay) × Sound master s1 b1 due × (b1.fills ≡ b.fills)
  unfolding written write_fee write_holding
  apply_fee-Sound = (reached, rw paid.after paid_Sound, ap Book.fills paid.after)

module _ (master : Text → Instrument) (f : Fill) (observed : Timestamp) where
  -- The debits are booked in the order in which the fill announced them.
  pub apply_fees-Sound :
      (rest : List InventoryFee) (s : Replay) (b b4 : Book) (stored : FillRow)
      → Sound master s b (announced f rest)
      → lookup f.fill_id b.fills ≡ some stored
      → stored.fill ≡ f
      → ((fee : InventoryFee) → member fee rest ≡ true → member fee f.inventory_fees ≡ true)
      → apply_fees f observed rest b ≡ ok b4
      → (s4 : Replay) × Sound master s4 b4 []
  unfolding apply_fees
  apply_fees-Sound [] s b b4 stored inv found is_source mine h =
      let e : b ≡ b4 = cc h in (s, subst (λ (x : Book). Sound master s x []) e inv)
  apply_fees-Sound (fee ∷ rest) s b b4 stored inv found is_source mine h =
      let (b1, paid, h1) = >>=-eq-ok (apply_fee f observed fee b) _ h in
      let (s1, inv1, kept) =
        apply_fee-Sound master f fee s b b1 (announced f rest) inv
          (apply_fee-Paid f observed fee b b1 paid) stored found is_source
          (mine fee (ground (arith, same_refl InventoryFee-discrete fee))) in
      apply_fees-Sound rest s1 b1 b4 stored inv1 (rw kept found) is_source
        (λ other e. mine other (ground (arith, e))) h1
