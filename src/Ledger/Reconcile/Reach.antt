-- ===== src/Ledger/Reconcile/Reach.antt =====
-- Runs of an account: the operations of src/execution/ledger.py that return, one after the other.
use agentic_quant.Prelude.Int.{pos, ◌<ℤ◌, ◌+ℤ◌, int_laws}
use agentic_quant.Prelude.{
  Bool, false, ◌≡◌, refl, sym, ap, subst, ◌∙◌, Option, none, some, List, [], arith,
}
use agentic_quant.Prelude.Result.{ok}
use agentic_quant.Prelude.Dict.{lookup}
use agentic_quant.Decimal.{Decimal, plus, context, Fits}
use agentic_quant.Domain.Common.{Text, Timestamp, Instrument}
use agentic_quant.Domain.Orders.{AccountSpec, OrderIntent, AccountFee}
use agentic_quant.Domain.Fills.{Fill, PriceMark}
use agentic_quant.Ledger.State.{OrderRow, HoldingRow, Event, Book, record_event}
use agentic_quant.Ledger.State.Effects.{record_event_lem}
use agentic_quant.Ledger.Actions.{corporate_action}
use agentic_quant.Domain.Bars.{CorporateAction}
use agentic_quant.Ledger.Reconcile.Acted.Held.{Bookable}
use agentic_quant.Ledger.Reconcile.Acted.{corporate_action-Sound}
use agentic_quant.Ledger.Orders.{new_account, submit, cancel, apply_account_fee, mark}
use agentic_quant.Ledger.Fills.{is_zero, apply_fill}
use agentic_quant.Ledger.Reconcile.{
  Replay, Position, or_flat, stored_position, open_position, start, replay_at, replay_row,
  replay_from, Agrees,
}
use agentic_quant.Ledger.Reconcile.Sound.{Mastered, Sound}
use agentic_quant.Ledger.Reconcile.Operations.{
  submit-Sound, cancel-Sound, apply_account_fee-Sound, mark-Sound, events_Sound,
}
use agentic_quant.Ledger.Reconcile.Filled.{apply_fill-Sound}

-- One operation that returned. An intent names the instrument that its id has in the security
-- master, a fill's quantity is positive, as its contract says, the fill is an allowed one, and a
-- corporate action is bookable.
pub data Step (master : Text → Instrument) (allowed : Fill → Type 0) : Book → Book → Type 0 where
  submitted :
      (i : OrderIntent) {b b1 : Book} {row : OrderRow}
      → Mastered master i.instrument
      → submit i b ≡ ok (row, b1)
      → Step master allowed b b1
  cancelled :
      (id : Text) (at : Timestamp) (reason : Text) (is_rejection : Bool) {b b1 : Book}
      → cancel id at reason is_rejection b ≡ ok b1
      → Step master allowed b b1
  filled :
      (f : Fill) (observed : Option Timestamp) {b b1 : Book} {d : Bool}
      → pos 0 <ℤ f.quantity
      → allowed f
      → apply_fill f observed b ≡ ok (d, b1)
      → Step master allowed b b1
  charged :
      (fee : AccountFee) {b b1 : Book} {d : Bool}
      → apply_account_fee fee b ≡ ok (d, b1)
      → Step master allowed b b1
  acted :
      (a : CorporateAction) {b b1 : Book}
      → Bookable a b
      → corporate_action a b ≡ ok b1
      → Step master allowed b b1
  recorded :
      (e : Event) {b b1 : Book} {d : Bool}
      → record_event e b ≡ ok (d, b1)
      → Step master allowed b b1
  marked : (ms : List PriceMark) {b b1 : Book} → mark ms b ≡ ok b1 → Step master allowed b b1

-- Operations that returned, one after the other.
pub data Steps (master : Text → Instrument) (allowed : Fill → Type 0) (b : Book)
    : Book → Type 0 where
  stay : {b1 : Book} → b ≡ b1 → Steps master allowed b b1
  more :
      {b1 b2 : Book}
      → Steps master allowed b b1
      → Step master allowed b1 b2
      → Steps master allowed b b2

pub data Run (master : Text → Instrument) (allowed : Fill → Type 0) (spec : AccountSpec)
    : Book → Type 0 where
  opened : Run master allowed spec (new_account spec)
  next :
      {b b1 : Book}
      → Run master allowed spec b
      → Step master allowed b b1
      → Run master allowed spec b1

zero_plus : (a : Decimal) → Fits a → plus (pos 0) a ≡ a
unfolding plus
zero_plus a fits = ap context (let e : pos 0 +ℤ a ≡ a = omega int_laws in e) ∙ fits

positive_test : (a : Decimal) → pos 0 <ℤ a → is_zero a ≡ false
positive_test a h = ground arith

module _ (master : Text → Instrument) (allowed : Fill → Type 0) where
  new_account-Sound :
      (spec : AccountSpec)
      → Fits spec.initial_cash
      → Sound master (record start { cash = spec.initial_cash }) (new_account spec) []
  unfolding new_account replay_from replay_row replay_at lookup
  new_account-Sound spec fits = record {
    replayed = ap (λ c. ok (record start { cash = c })) (zero_plus spec.initial_cash fits);
    cash = refl;
    realized = refl;
    fees = refl;
    positions = λ id. refl;
    positive = λ id h e. cc e;
    known = λ id h e. cc e;
    mastered = λ id i e. cc e;
    intents = λ id i e. cc e;
    pending = refl;
  }

  Step-Sound :
      (s : Replay) (b b1 : Book)
      → Sound master s b []
      → Step master allowed b b1
      → (s1 : Replay) × Sound master s1 b1 []
  Step-Sound s b b1 inv (submitted i {row = row} m h) =
      (s, submit-Sound master i s b b1 row inv m h)
  Step-Sound s b b1 inv (cancelled id at reason r h) =
      (s, cancel-Sound master id at reason r s b b1 inv h)
  Step-Sound s b b1 inv (filled f observed {d = d} p fine h) =
      apply_fill-Sound master f observed s b b1 d p inv h
  Step-Sound s b b1 inv (charged fee {d = d} h) = apply_account_fee-Sound master fee s b b1 d inv h
  Step-Sound s b b1 inv (acted a fine h) = corporate_action-Sound master a s b b1 inv fine h
  Step-Sound s b b1 inv (recorded e {d = d} h) = (
    s,
    subst (λ (x : Book). Sound master s x []) (sym (record_event_lem e b b1 d h))
        (events_Sound master b.last_at b1 s b inv),
  )
  Step-Sound s b b1 inv (marked ms h) = (s, mark-Sound master ms s b b1 inv h)

  pub Run-Sound :
      (spec : AccountSpec) (b : Book)
      → Fits spec.initial_cash
      → Run master allowed spec b
      → (s : Replay) × Sound master s b []
  Run-Sound spec b fits opened =
      (record start { cash = spec.initial_cash }, new_account-Sound spec fits)
  Run-Sound spec b fits (next {b = b0} r step) =
      let (s, inv) = Run-Sound spec b0 fits r in Step-Sound s b0 b inv step

  open_position_row :
      (p : Option Position) (row : Option HoldingRow)
      → or_flat p ≡ or_flat (stored_position row)
      → ((h : HoldingRow) → row ≡ some h → pos 0 <ℤ h.quantity)
      → open_position p ≡ stored_position row
  open_position_row none none e n = refl
  open_position_row none (some h) e n = absurd (
      let here = n h refl in
      let z = ap Position.quantity e in omega (arith, here, rw (← z) at here))
  open_position_row (some p) none e n = rw (ap Position.quantity e)
  open_position_row (some p) (some h) e n =
      let here = ap Position.quantity e in
      let shut : is_zero p.quantity ≡ false =
        positive_test p.quantity (rw (← here) at (n h refl)) in
      rw shut (ap some e)

  pub Sound-Agrees : (s : Replay) (b : Book) → Sound master s b [] → Agrees s b
  Sound-Agrees s b inv = record {
    cash = inv.cash;
    realized = inv.realized;
    fees = inv.fees;
    positions = λ id.
        open_position_row (lookup id s.positions) (lookup id b.holdings) (inv.positions id)
          (inv.positive id);
    covered = inv.pending;
  }

  -- No run ever leaves a short position: every holding that is stored has a positive quantity, and
  -- its instrument is the one that its id has in the security master, whichever fills are allowed,
  -- if the initial cash has no more digits than a decimal keeps and the steps of the run name
  -- instruments of the security master, fill positive quantities and book bookable actions.
  pub Run-long_only :
      (spec : AccountSpec) (b : Book) (id : Text) (h : HoldingRow)
      → Fits spec.initial_cash
      → Run master allowed spec b
      → lookup id b.holdings ≡ some h
      → (pos 0 <ℤ h.quantity) × (h.definition ≡ master id)
  Run-long_only spec b id h fits r found =
      let (s, inv) = Run-Sound spec b fits r in
      (inv.positive id h found, inv.mastered id h.definition (inv.known id h found))
