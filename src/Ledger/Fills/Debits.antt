-- ===== src/Ledger/Fills/Debits.antt =====
-- The debits in kind of src/execution/inventory_fees.py: what `apply` has done when it returns.
use agentic_quant.Prelude.Int.{pos}
use agentic_quant.Prelude.{
  false, ◌≡◌, refl, sym, ap, ◌∙◌, some, List, [], ◌∷◌, ◌++◌, arith, inl, inr, same, same→eq,
  Bool-cases, Option-cases,
}
use agentic_quant.Prelude.Result.{ok, >>=-eq-ok, raise_if-eq-ok}
use agentic_quant.Prelude.Dict.{lookup}
use agentic_quant.Decimal.{Decimal}
use agentic_quant.Domain.Common.{Timestamp, Instrument, Instrument-discrete}
use agentic_quant.Domain.Fills.{Fill, InventoryFee}
use agentic_quant.Ledger.State.{
  HoldingRow, FeePayload, Entry, fee_key, JournalRow, journal_row, Book,
}
use agentic_quant.Ledger.State.Effects.{write_journal_lem}
use agentic_quant.Ledger.Fills.{
  fee_basis, changed_identity, write_holding, write_fee, owned_row, quantity_left, check_reserved,
  require_source, apply_fee, apply_fees,
}

abbrev pub payload : Fill → InventoryFee → Decimal → FeePayload
payload f fee removed = record { fill = f; fee = fee; removed_basis = removed }

abbrev pub fee_row : Fill → InventoryFee → Decimal → JournalRow
fee_row f fee removed =
    journal_row (fee_key f.fill_id fee.instrument.instrument_id) f.executed_at
      (Entry.inventory_fee (payload f fee removed)) (pos 0)

-- A debit that was booked: the row it was taken from, and the book it leaves.
pub record Paid (f : Fill) (fee : InventoryFee) (b b1 : Book) : Type 0 where
  pub row : HoldingRow
  pub removed : Decimal
  pub found : lookup fee.instrument.instrument_id b.holdings ≡ some row
  pub same_asset : row.definition ≡ fee.instrument
  pub basis : fee_basis fee row.quantity row.basis ≡ ok removed
  pub after : b1 ≡ record (write_fee f fee (quantity_left fee row) row.basis removed b) {
    journal =
        (write_fee f fee (quantity_left fee row) row.basis removed b).journal
        ++ fee_row f fee removed ∷ [];
  }

unchanged :
    (h : HoldingRow) (i : Instrument) → changed_identity (some h) i ≡ false → h.definition ≡ i
unchanged h i e = elim (Bool-cases (same Instrument-discrete h.definition i)) [
  | inl t ↦ same→eq Instrument-discrete h.definition i t
  | inr t ↦ cc (rw t at e)
]

owned_row_lem :
    (fee : InventoryFee) (b : Book) (h : HoldingRow)
    → owned_row fee b ≡ ok h
    → (lookup fee.instrument.instrument_id b.holdings ≡ some h) × (h.definition ≡ fee.instrument)
unfolding owned_row
owned_row_lem fee b h e = elim (Option-cases (lookup fee.instrument.instrument_id b.holdings)) [
  | inl missing ↦ cc (rw missing at e)
  | inr (k, found) ↦
      let (same_asset, e1) =
        raise_if-eq-ok (changed_identity (some k) fee.instrument) _ _ (rw found at e) in
      let here : k ≡ h = cc e1 in
      (found ∙ ap some here, rw here at (unchanged k fee.instrument same_asset))
]

pub apply_fee-Paid :
    (f : Fill) (observed : Timestamp) (fee : InventoryFee) (b b1 : Book)
    → apply_fee f observed fee b ≡ ok b1
    → Paid f fee b b1
unfolding apply_fee
apply_fee-Paid f observed fee b b1 h =
    let (u, sourced, h1) = >>=-eq-ok (require_source fee observed b) _ h in
    let (row, owned, h2) = >>=-eq-ok _ _ h1 in
    let (removed, basis, h3) = >>=-eq-ok _ _ h2 in
    let (v, free, h4) = >>=-eq-ok (check_reserved fee row b) _ h3 in
    record {
      row = row;
      removed = removed;
      found = (owned_row_lem fee b row owned).0;
      same_asset = (owned_row_lem fee b row owned).1;
      basis = basis;
      after = (write_journal_lem _ _ _ _ _ b1 h4).0;
    }

write_fee-fills :
    (f : Fill) (fee : InventoryFee) (left basis removed : Decimal) (b : Book)
    → (write_fee f fee left basis removed b).fills ≡ b.fills
unfolding write_fee write_holding
write_fee-fills f fee left basis removed b = refl

-- The debits of a fill leave the table of fills as it is.
pub apply_fees-fills :
    (f : Fill) (observed : Timestamp) (rest : List InventoryFee) (b b4 : Book)
    → apply_fees f observed rest b ≡ ok b4
    → b4.fills ≡ b.fills
unfolding apply_fees
apply_fees-fills f observed [] b b4 h = let e : b ≡ b4 = ground (arith, h) in sym (ap Book.fills e)
apply_fees-fills f observed (fee ∷ rest) b b4 h =
    let (b1, paid, h1) = >>=-eq-ok (apply_fee f observed fee b) _ h in
    let k = apply_fee-Paid f observed fee b b1 paid in
    apply_fees-fills f observed rest b1 b4 h1
    ∙ ap Book.fills k.after
    ∙ write_fee-fills f fee (quantity_left fee k.row) k.row.basis k.removed b
